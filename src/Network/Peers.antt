-- ===== src/Network/Peers.antt =====
-- utils/staker.go: `WaitForPeersConnection`. A tick of the timer is a round, which takes one unit of
-- fuel; whether the context is done instead, and the number of a node's peers, come from the world.
-- The calls that only log details before the timeout are left out.
use hayabusa_e2e.Prelude.{
  ℕ, zero, suc, ◌-◌, ◌≡◌, ◌≤◌, ◌<◌, ◌⊎◌, inl, inr, refl, ap, ◌∙◌, Bool, true, false, List, [], ◌∷◌,
  ltb, ltb→le, length, if◌then◌else◌, if-case, arith,
}
use hayabusa_e2e.Prelude.Go.{new_error, Reply, ok, err, Outcome, returns, fails, panics, diverges}

-- A node is known by a number.
pub record Peering : Type 1 where
  pub World : Type 0
  -- whether the context is done when the loop waits
  pub tick : World → Bool × World
  pub peers : ℕ → World → Reply ℕ × World

module _ (e : Peering) where
  -- One round over the nodes: whether each has the number of peers expected, which ends at the first
  -- that cannot tell or has too few.
  unfoldable pub peer_count :
      ℕ → (e.World → Outcome Bool e.World) → Reply ℕ → e.World → Outcome Bool e.World
  peer_count expected rest (err x) w = returns false w
  peer_count expected rest (ok n) w =
      let more = rest w in
      if ltb expected n
      then fails (new_error "too many peers connected") w
      else if ltb n expected
      then returns false w
      else more

  unfoldable pub all_connected : ℕ → List ℕ → e.World → Outcome Bool e.World
  unfolding peer_count
  all_connected expected [] w = returns true w
  all_connected expected (node ∷ rest) w =
      peer_count expected (all_connected expected rest) (e.peers node w).0 (e.peers node w).1

  abbrev pub again :
      Outcome Bool e.World → (e.World → Outcome (Unit {0}) e.World) → Outcome (Unit {0}) e.World
  again (returns true w) rest = returns tt w
  again (returns false w) rest = rest w
  again (fails x w) rest = fails x w
  again panics rest = panics
  again diverges rest = diverges

  unfoldable pub wait_for_peers_connection : ℕ → List ℕ → e.World → Outcome (Unit {0}) e.World
  unfolding all_connected
  wait_for_peers_connection zero nodes w = diverges
  wait_for_peers_connection (suc fuel) nodes w =
      let (done, w') = e.tick w in
      let next =
        again (all_connected (length nodes - 1) nodes w') (wait_for_peers_connection fuel nodes) in
      if done then fails (new_error "timed out waiting for nodes to connect") w' else next

  -- A node had as many peers as expected.
  abbrev pub AreConnected : ℕ → List ℕ → Type 0
  AreConnected expected [] = Unit
  AreConnected expected (node ∷ rest) =
      ((w : e.World) × ((e.peers node w).0 ≡ ok expected)) × AreConnected expected rest

  -- The wait has ended, and without an error only with all connected.
  abbrev pub Waits : List ℕ → Outcome (Unit {0}) e.World → Type 0
  Waits nodes (returns u v) = AreConnected (length nodes - 1) nodes
  Waits nodes (fails x v) = Unit
  Waits nodes panics = ⊥
  Waits nodes diverges = ⊥

  module _ (clock : e.World → ℕ)
      (runs_out : (w : e.World) → ((e.tick w).0 ≡ true) ⊎ (clock (e.tick w).1 < clock w))
      (no_later : (node : ℕ) (w : e.World) → clock (e.peers node w).1 ≤ clock w) where
    -- A round ends, no later, and is positive only if all are connected.
    abbrev RoundFrom : ℕ → List ℕ → e.World → Outcome Bool e.World → Type 0
    RoundFrom expected nodes w (returns b v) =
        (clock v ≤ clock w) × (b ≡ true → AreConnected expected nodes)
    RoundFrom expected nodes w (fails x v) = Unit
    RoundFrom expected nodes w panics = ⊥
    RoundFrom expected nodes w diverges = ⊥

    widened :
        (expected node : ℕ) (rest : List ℕ) (w : e.World) (o : Outcome Bool e.World)
        → (e.peers node w).0 ≡ ok expected
        → RoundFrom expected rest (e.peers node w).1 o
        → RoundFrom expected (node ∷ rest) w o
    widened expected node rest w (returns b v) h (later, all) =
        let before = no_later node w in (omega arith, λ i. ((w, h), all i))
    widened expected node rest w (fails x v) h k = tt
    widened expected node rest w panics h k = k
    widened expected node rest w diverges h k = k

    counted-RoundFrom :
        (expected node : ℕ) (rest : List ℕ) (w : e.World) (r : Reply ℕ)
        → (e.peers node w).0 ≡ r
        → RoundFrom expected rest
            (e.peers node w).1
            (all_connected expected rest (e.peers node w).1)
        → RoundFrom expected
            (node ∷ rest)
            w
            (peer_count expected (all_connected expected rest) r (e.peers node w).1)
    unfolding peer_count
    counted-RoundFrom expected node rest w (err x) h k = (no_later node w, λ i. cc)
    counted-RoundFrom expected node rest w (ok n) h k =
        let v = (e.peers node w).1 in
        if-case (RoundFrom expected (node ∷ rest) w) (ltb expected n) _ _ (λ many. tt)
          (λ not_many.
            if-case (RoundFrom expected (node ∷ rest) w) (ltb n expected) (returns false v) _
              (λ few. (no_later node w, λ i. cc))
              (λ enough.
                let same : n ≡ expected = omega (arith, ltb→le) in
                widened expected node rest w (all_connected expected rest v) (h ∙ ap ok same) k))

    all_connected-RoundFrom :
        (expected : ℕ) (nodes : List ℕ) (w : e.World)
        → RoundFrom expected nodes w (all_connected expected nodes w)
    unfolding all_connected
    all_connected-RoundFrom expected [] w = (omega arith, λ i. tt)
    all_connected-RoundFrom expected (node ∷ rest) w =
        counted-RoundFrom expected node rest w (e.peers node w).0 refl
          (all_connected-RoundFrom expected rest (e.peers node w).1)

    again-Waits :
        (nodes : List ℕ) (w : e.World) (o : Outcome Bool e.World)
        (rest : e.World → Outcome (Unit {0}) e.World)
        → RoundFrom (length nodes - 1) nodes w o
        → ((v : e.World) → clock v ≤ clock w → Waits nodes (rest v))
        → Waits nodes (again o rest)
    again-Waits nodes w (returns true v) rest (later, all) k = all refl
    again-Waits nodes w (returns false v) rest (later, all) k = k v later
    again-Waits nodes w (fails x v) rest h k = tt
    again-Waits nodes w panics rest h k = h
    again-Waits nodes w diverges rest h k = h

    -- With a timer that runs out, and more fuel than it has left: the wait ends, and it returns
    -- without an error only if each node has answered with one peer less than there are nodes.
    pub wait_for_peers_connection_lem :
        (fuel : ℕ) (nodes : List ℕ) (w : e.World)
        → clock w < fuel
        → Waits nodes (wait_for_peers_connection fuel nodes w)
    unfolding wait_for_peers_connection
    wait_for_peers_connection_lem zero nodes w h = absurd (omega arith)
    wait_for_peers_connection_lem (suc fuel) nodes w h =
        let (done, w') = e.tick w in
        if-case (Waits nodes) done _ _ (λ over. tt)
          (λ more.
            let sooner : clock w' < clock w = elim (runs_out w) [
              | inl over ↦ absurd (cc)
              | inr less ↦ less
            ] in
            again-Waits nodes w' (all_connected (length nodes - 1) nodes w')
              (wait_for_peers_connection fuel nodes)
              (all_connected-RoundFrom (length nodes - 1) nodes w')
              (λ v later. wait_for_peers_connection_lem fuel nodes v (omega arith)))
