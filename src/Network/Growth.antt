-- ===== src/Network/Growth.antt =====
-- hayabusa/network.go: the ports that the nodes of a network are given.
use hayabusa_e2e.Prelude.{
  ℕ, zero, suc, ◌+◌, ◌≡◌, refl, sym, ap, subst, ◌∙◌, true, false, Option, none, some, List, [], ◌∷◌,
  ◌++◌, ◌==◌, ◌||◌, arith, elem, elem-append, Distinct, Distinct-append, append_assoc, append-nil,
  get_elem?,
}
use hayabusa_e2e.Prelude.Go.{or_panic}
use hayabusa_e2e.Prelude.Results.{Leaves, Leaves-bind}
use hayabusa_e2e.Prelude.Dict.{lookup-insert}
use hayabusa_e2e.Network.Ports.{
  PortManager, System, is_used, ports_of, new_port, rnd_port, hand_out, remove_ports,
}
use hayabusa_e2e.Network.Fresh.{NewPort, new_port_lem, remove_ports_lem}
use hayabusa_e2e.Network.Nodes.{
  NetworkSettings, Hub, Ports, node_ports, port, port_given, make_node, make_nodes,
}

-- Some ports were handed out under an identifier, none of them twice or in use before.
pub record Grew (id : ℕ) (pm : PortManager) (ports : List ℕ) (t : PortManager) : Type 0 where
  pub fresh : (p : ℕ) → elem p ports ≡ true → is_used p pm ≡ false
  pub distinct : Distinct ports
  pub used : (p : ℕ) → is_used p t ≡ (elem p ports || is_used p pm)
  pub listed : ports_of id t ≡ ports_of id pm ++ ports

pub Grew-trans :
    (id : ℕ) (pm t u : PortManager) (ps qs : List ℕ)
    → Grew id pm ps t
    → Grew id t qs u
    → Grew id pm (ps ++ qs) u
Grew-trans id pm t u ps qs h k = record {
  fresh = λ p i. ground (arith, elem-append p ps qs, h.fresh p, k.fresh p, h.used p);
  distinct =
      Distinct-append ps qs h.distinct k.distinct (λ p i. ground (arith, h.used p, k.fresh p i));
  used = λ p. ground (arith, elem-append p ps qs, h.used p, k.used p);
  listed = k.listed ∙ ap (λ l. l ++ qs) h.listed ∙ append_assoc (ports_of id pm) ps qs;
}

pub Grew-stop :
    (id : ℕ) (pm t : PortManager) (ps : List ℕ)
    → ports_of id pm ≡ []
    → Grew id pm ps t
    → (p : ℕ) → is_used p (remove_ports id t) ≡ is_used p pm
Grew-stop id pm t ps empty h p =
    let (freed, _) = remove_ports_lem id t in
    let all : ports_of id t ≡ ps = h.listed ∙ ap (λ l. l ++ ps) empty in
    freed p ∙ (rw all (ground (arith, h.used p, h.fresh p)))

hand_out-used :
    (e : System) (id : ℕ) (pm : PortManager) (port p : ℕ)
    → is_used p (hand_out e id pm (some port)).1 ≡ (p == port || is_used p pm)
unfolding hand_out is_used
hand_out-used e id pm port p = ground (arith, lookup-insert p port true pm.ports)

module _ (e : Hub) where
  -- Some ports were handed out between two states.
  abbrev pub Took : ℕ → Ports e.system.World → List ℕ → Ports e.system.World → Type 0
  Took name s ports t = Grew name s.manager ports t.manager

  hand_out-Took :
      (name : ℕ) (s : Ports e.system.World) (r : Option ℕ) (w : e.system.World)
      → NewPort e.system name s.manager (hand_out e.system name s.manager r)
      → Leaves
          (λ p t. Took name s (p ∷ []) t)
          (port_given e (hand_out e.system name s.manager r, w))
  unfolding hand_out
  hand_out-Took name s none w h = tt
  hand_out-Took name s (some given) w ((low, high, free), now_used, listed) = record {
    fresh = λ p i. ground (arith, free);
    distinct = (refl, tt);
    used = λ p. hand_out-used e.system name s.manager given p ∙ ground arith;
    listed = listed;
  }

  port-Took :
      (name : ℕ) (s : Ports e.system.World) → Leaves (λ p t. Took name s (p ∷ []) t) (port e name s)
  unfolding port new_port
  port-Took name s =
      let r = rnd_port e.system s.manager s.world in
      hand_out-Took name s r.0 r.1 (new_port_lem e.system name s.manager s.world)

  pub make_node-Took :
      (c : NetworkSettings) (i key path : ℕ) (s : Ports e.system.World)
      → Leaves (λ n t. Took c.name s (n.api_port ∷ n.p2p_port ∷ []) t) (make_node e c i key path s)
  unfolding make_node
  make_node-Took c i key path s =
      Leaves-bind (λ p t. Took c.name s (p ∷ []) t) _ (port e c.name) _ s (port-Took c.name s)
        (λ api t h.
          Leaves-bind (λ p u. Took c.name t (p ∷ []) u) _ (port e c.name) _ t (port-Took c.name t)
            (λ p2p u k. Grew-trans c.name s.manager t.manager u.manager (api ∷ []) (p2p ∷ []) h k))

  pub or_panic-same :
      (o : Option ℕ) (s : Ports e.system.World) → Leaves (λ a t. s ≡ t) (or_panic o s)
  or_panic-same none s = tt
  or_panic-same (some a) s = refl

  pub make_nodes-Took :
      (c : NetworkSettings) (path n i : ℕ) (s : Ports e.system.World)
      → Leaves (λ nodes t. Took c.name s (node_ports nodes) t) (make_nodes e c path n i s)
  unfolding make_nodes
  make_nodes-Took c path zero i s = record {
    fresh = λ p i. cc;
    distinct = tt;
    used = λ p. refl;
    listed = sym (append-nil (ports_of c.name s.manager));
  }
  make_nodes-Took c path (suc n) i s =
      Leaves-bind (λ key t. s ≡ t) _ (or_panic (get_elem? e.validator_accounts i)) _ s
        (or_panic-same (get_elem? e.validator_accounts i) s)
        (λ key s' same.
          Leaves-bind (λ m t. Took c.name s' (m.api_port ∷ m.p2p_port ∷ []) t) _
            (make_node e c i key path) _ s' (make_node-Took c i key path s')
            (λ m t h.
              Leaves-bind (λ nodes u. Took c.name t (node_ports nodes) u) _
                (make_nodes e c path n (i + 1)) _ t (make_nodes-Took c path n (i + 1) t)
                (λ nodes u k.
                  subst (λ v. Took c.name v (node_ports (m ∷ nodes)) u) (sym same)
                    (Grew-trans c.name s'.manager t.manager u.manager (m.api_port ∷ m.p2p_port ∷ [])
                      (node_ports nodes) h k))))
