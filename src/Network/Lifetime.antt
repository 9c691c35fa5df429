-- ===== src/Network/Lifetime.antt =====
-- hayabusa/network.go: the ports of a network over its life.
use hayabusa_e2e.Prelude.{
  ℕ, zero, suc, ◌≡◌, refl, sym, ap, subst, ◌∙◌, true, false, Option, none, some, List, [], ◌∷◌,
  ◌++◌, ◌||◌, elem, Distinct, get_elem?, length,
}
use hayabusa_e2e.Prelude.Go.{Error, Reply, ok, err, Outcome, returns, fails, or_panic, ◌>>=◌}
use hayabusa_e2e.Prelude.Results.{Leaves, Leaves-bind, Leaves-imp}
use hayabusa_e2e.Network.Ports.{PortManager, is_used, ports_of}
use hayabusa_e2e.Network.Parameters.{validate}
use hayabusa_e2e.Network.Nodes.{
  Node, NetworkSettings, Network, Hub, Ports, node_ports, make_node, make_nodes, new_network,
  attach_node, attached, stop, tried, called, valid,
}
use hayabusa_e2e.Network.Growth.{
  Grew, Grew-trans, Grew-stop, Took, make_node-Took, or_panic-same, make_nodes-Took,
}

module _ (e : Hub) where
  abbrev pub attach_times :
      ℕ → Network → Ports e.system.World → Outcome Network (Ports e.system.World)
  attach_times zero n s = returns n s
  attach_times (suc k) n s = (do r ← attach_node e n; attach_times k r.0) s

module _ (e : Hub) where
  -- The ports of a network's nodes are those that were handed out since a state of the manager.
  abbrev pub Owns : PortManager → Network → Ports e.system.World → Type 0
  Owns pm n t = Grew n.settings.name pm n.used_ports t.manager × (n.used_ports ≡ node_ports n.nodes)

  abbrev Kept : Ports e.system.World → Ports e.system.World → Type 0
  Kept s t = s.manager ≡ t.manager

  called-Kept :
      (f : e.system.World → Reply ℕ × e.system.World) (s : Ports e.system.World)
      → Leaves (λ a t. Kept s t) (called e f s)
  called-Kept f s = kept (f s.world).0 (f s.world).1
    where
      kept :
          (r : Reply ℕ) (w : e.system.World)
          → Leaves
              (λ a t. Kept s t)
              (elim r [
                | ok a ↦ returns a (record s { world = w })
                | err x ↦ fails x (record s { world = w })
              ])
      kept (ok a) w = refl
      kept (err x) w = tt

  tried-Kept :
      (f : e.system.World → Option Error × e.system.World) (s : Ports e.system.World)
      → Leaves (λ a t. Kept s t) (tried e f s)
  tried-Kept f s = kept (f s.world).0 (f s.world).1
    where
      kept :
          (r : Option Error) (w : e.system.World)
          → Leaves
              (λ a t. Kept s t)
              (elim r [
                | none ↦ returns tt (record s { world = w })
                | some x ↦ fails x (record s { world = w })
              ])
      kept none w = refl
      kept (some x) w = tt

  valid-Kept :
      (o : Option Error) (s : Ports e.system.World) → Leaves (λ a t. Kept s t) (valid e o s)
  valid-Kept none s = refl
  valid-Kept (some x) s = tt

  new_network-Owns :
      (c : NetworkSettings) (s : Ports e.system.World)
      → Leaves (λ n t. (n.settings.name ≡ c.name) × Owns s.manager n t) (new_network e c s)
  unfolding new_network
  new_network-Owns c s =
      Leaves-bind (λ u t. Kept s t) _ (valid e (validate e.default_epoch_length c.parameters)) _ s
        (valid-Kept (validate e.default_epoch_length c.parameters) s)
        (λ u s₁ same.
          Leaves-bind (λ path t. Kept s₁ t) _ (called e e.build) _ s₁ (called-Kept e.build s₁)
            (λ path s₂ same'.
              Leaves-bind (λ nodes t. Took e c.name s₂ (node_ports nodes) t) _
                (make_nodes e c path c.nodes 0) _ s₂ (make_nodes-Took e c path c.nodes 0 s₂)
                (λ nodes s₃ grew.
                  Leaves-bind (λ u t. Kept s₃ t) _ (tried e (e.new_client nodes)) _ s₃
                    (tried-Kept (e.new_client nodes) s₃)
                    (λ u s₄ same₂. (
                      refl,
                      (
                        subst (λ pm. Grew c.name pm (node_ports nodes) s₄.manager)
                            (sym (same ∙ same'))
                            (subst (λ pm. Grew c.name s₂.manager (node_ports nodes) pm) same₂ grew),
                        refl,
                      ),
                    )))))

  node_ports-append : (xs ys : List Node) → node_ports (xs ++ ys) ≡ node_ports xs ++ node_ports ys
  node_ports-append [] ys = refl
  node_ports-append (n ∷ xs) ys = ap (λ l. n.api_port ∷ n.p2p_port ∷ l) (node_ports-append xs ys)

  attached-Owns :
      (pm : PortManager) (n : Network) (m : Node) (s t : Ports e.system.World)
      → Owns pm n s
      → Took e n.settings.name s (m.api_port ∷ m.p2p_port ∷ []) t
      → Owns pm (attached e n m) t
  attached-Owns pm n m s t (owned, listed) grew = (
    Grew-trans n.settings.name pm s.manager t.manager n.used_ports (m.api_port ∷ m.p2p_port ∷ [])
        owned grew,
    ap (λ l. l ++ (m.api_port ∷ m.p2p_port ∷ [])) listed ∙ sym (node_ports-append n.nodes (m ∷ [])),
  )

  -- Owned by a network of the same name.
  abbrev StillOwns : PortManager → ℕ → Network → Ports e.system.World → Type 0
  StillOwns pm name n t = (n.settings.name ≡ name) × Owns pm n t

  attach-ended :
      (pm : PortManager) (n : Network) (m : Node) (t : Ports e.system.World)
      → Owns pm (attached e n m) t
      → (x y : Option Error) (w v : e.system.World)
      → Leaves
          (λ (r : Network × Option Error) u. StillOwns pm n.settings.name r.0 u)
          (elim x [
            | some x' ↦ returns (attached e n m, some x') (record t { world = w })
            | none ↦ returns (attached e n m, y) (record t { world = v })
          ])
  attach-ended pm n m t owned (some x) y w v = (refl, owned)
  attach-ended pm n m t owned none y w v = (refl, owned)

  attach_node-Owns :
      (pm : PortManager) (n : Network) (s : Ports e.system.World)
      → Owns pm n s
      → Leaves (λ r t. StillOwns pm n.settings.name r.0 t) (attach_node e n s)
  unfolding attach_node
  attach_node-Owns pm n s owned =
      Leaves-bind (λ path t. Kept s t) _ (called e e.build) _ s (called-Kept e.build s)
        (λ path s₁ same.
          Leaves-bind (λ key t. s₁ ≡ t) _
            (or_panic (get_elem? e.validator_accounts (length n.nodes))) _ s₁
            (or_panic-same e (get_elem? e.validator_accounts (length n.nodes)) s₁)
            (λ key s₂ same₁.
              Leaves-bind (λ m t. Took e n.settings.name s₂ (m.api_port ∷ m.p2p_port ∷ []) t) _
                (make_node e n.settings (length n.nodes) key path) _ s₂
                (make_node-Took e n.settings (length n.nodes) key path s₂)
                (λ m s₃ grew.
                  let (held, listed) = owned in
                  let moved = same ∙ ap (λ t. t.manager) same₁ in
                  let held₂ = subst (λ u. Grew n.settings.name pm n.used_ports u) moved held in
                  let (x, w) = e.add_node m s₃.world in
                  attach-ended pm n m s₃ (attached-Owns pm n m s₂ s₃ (held₂, listed) grew) x
                    (e.health_check m w).0 w (e.health_check m w).1)))

  attach_times-Owns :
      (k : ℕ) (pm : PortManager) (n : Network) (s : Ports e.system.World)
      → Owns pm n s
      → Leaves (StillOwns pm n.settings.name) (attach_times e k n s)
  attach_times-Owns zero pm n s owned = (refl, owned)
  attach_times-Owns (suc k) pm n s owned =
      Leaves-bind (λ r t. StillOwns pm n.settings.name r.0 t) (StillOwns pm n.settings.name)
        (attach_node e n) _ s (attach_node-Owns pm n s owned)
        (λ r t (name, still).
          subst (λ x. Leaves (StillOwns pm x) (attach_times e k r.0 t)) name
            (attach_times-Owns k pm r.0 t still))

  -- Whatever the probe of a port answers and whenever: after a network of a name
  -- under which no ports are listed is made, and any number of attempts to attach a node whose calls
  -- return, with an error of the networkhub library or without, the ports it has noted are those of
  -- its nodes, no two are the same, none was in use before, and nothing else was handed out; and
  -- stopping it leaves exactly those ports in use that were in use before it was made.
  pub lifetime_lem :
      (c : NetworkSettings) (k : ℕ) (s : Ports e.system.World)
      → ports_of c.name s.manager ≡ []
      → Leaves
          (λ n t.
            (n.used_ports ≡ node_ports n.nodes)
            × Distinct n.used_ports
            × ((p : ℕ) → elem p n.used_ports ≡ true → is_used p s.manager ≡ false)
            × ((p : ℕ) → is_used p t.manager ≡ (elem p n.used_ports || is_used p s.manager))
            × ((p : ℕ) → is_used p (stop e n t).manager ≡ is_used p s.manager))
          ((new_network e c >>= attach_times e k) s)
  unfolding stop
  lifetime_lem c k s empty =
      Leaves-bind (StillOwns s.manager c.name) _ (new_network e c) (attach_times e k) s
        (new_network-Owns c s)
        (λ n t (name, owned).
          Leaves-imp (StillOwns s.manager n.settings.name) _ _
            (attach_times-Owns k s.manager n t owned)
            (λ m u (name', (grew, listed)). (
              listed,
              grew.distinct,
              grew.fresh,
              grew.used,
              Grew-stop m.settings.name s.manager u.manager m.used_ports (rw (name', name) empty)
                  grew,
            )))
