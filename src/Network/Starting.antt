-- ===== src/Network/Starting.antt =====
-- hayabusa/network.go, Start. The goroutine that stops the network when its context is done waits for
-- the lock that Start holds.
use hayabusa_e2e.Prelude.{ℕ, ◌≡◌, ◌≤◌, ◌<◌, ◌⊎◌, refl, true, Option, none, some, List, [], ◌∷◌}
use hayabusa_e2e.Prelude.Go.{Error, Outcome, returns, fails, panics, diverges}
use hayabusa_e2e.Network.Peers.{
  Peering, wait_for_peers_connection, Waits, wait_for_peers_connection_lem,
}

-- `Start` of the client, and `HealthCheck` of a node.
pub record Starter (W : Type 0) : Type 0 where
  pub client_start : W → Option Error × W
  pub health_check : ℕ → W → Option Error × W

module _ (e : Peering) (u : Starter e.World) where
  abbrev pub Run : Type 0
  Run = e.World → Outcome (Unit {0}) e.World

  abbrev pub unless : Option Error → Run → Run
  unless none rest w = rest w
  unless (some x) rest w = fails x w

  unfoldable pub health_checked : List ℕ → Run → Run
  health_checked [] rest w = rest w
  health_checked (node ∷ nodes) rest w =
      let (x, w') = u.health_check node w in unless x (health_checked nodes rest) w'

  unfoldable pub network_start : ℕ → List ℕ → Run
  unfolding health_checked
  network_start fuel nodes w =
      let (x, w') = u.client_start w in
      unless x (health_checked nodes (wait_for_peers_connection e fuel nodes)) w'

  -- A node has passed its health check.
  abbrev pub AreHealthy : List ℕ → Type 0
  AreHealthy [] = Unit
  AreHealthy (node ∷ nodes) =
      ((w : e.World) × ((u.health_check node w).0 ≡ none)) × AreHealthy nodes

  -- The start has ended, and without an error only with the client started and all nodes healthy and
  -- connected.
  abbrev pub Starts : List ℕ → Outcome (Unit {0}) e.World → Type 0
  Starts nodes (returns t v) =
      ((w : e.World) × ((u.client_start w).0 ≡ none))
      × AreHealthy nodes
      × Waits e nodes (returns t v)
  Starts nodes (fails x v) = Unit
  Starts nodes panics = ⊥
  Starts nodes diverges = ⊥

  -- What is left to show once a part of the nodes has been checked.
  abbrev Checks : List ℕ → List ℕ → Outcome (Unit {0}) e.World → Type 0
  Checks nodes rest (returns t v) = AreHealthy rest × Waits e nodes (returns t v)
  Checks nodes rest (fails x v) = Unit
  Checks nodes rest panics = ⊥
  Checks nodes rest diverges = ⊥

  waited-Checks :
      (nodes : List ℕ) (o : Outcome (Unit {0}) e.World) → Waits e nodes o → Checks nodes [] o
  waited-Checks nodes (returns t v) h = (tt, h)
  waited-Checks nodes (fails x v) h = tt
  waited-Checks nodes panics h = h
  waited-Checks nodes diverges h = h

  healthy-Checks :
      (nodes rest : List ℕ) (node : ℕ) (w : e.World) (o : Outcome (Unit {0}) e.World)
      → (u.health_check node w).0 ≡ none
      → Checks nodes rest o
      → Checks nodes (node ∷ rest) o
  healthy-Checks nodes rest node w (returns t v) h (healthy, waited) = (((w, h), healthy), waited)
  healthy-Checks nodes rest node w (fails x v) h k = tt
  healthy-Checks nodes rest node w panics h k = k
  healthy-Checks nodes rest node w diverges h k = k

  module _ (nodes : List ℕ) (wait : Run) (waits : (w : e.World) → Waits e nodes (wait w)) where
    checked-Checks :
        (rest : List ℕ) (node : ℕ) (w : e.World) (x : Option Error)
        → (u.health_check node w).0 ≡ x
        → Checks nodes rest (health_checked rest wait (u.health_check node w).1)
        → Checks nodes (node ∷ rest) (unless x (health_checked rest wait) (u.health_check node w).1)
    checked-Checks rest node w (some x) h k = tt
    checked-Checks rest node w none h k =
        healthy-Checks nodes rest node w (health_checked rest wait (u.health_check node w).1) h k

    health_checked-Checks :
        (rest : List ℕ) (w : e.World) → Checks nodes rest (health_checked rest wait w)
    unfolding health_checked
    health_checked-Checks [] w = waited-Checks nodes (wait w) (waits w)
    health_checked-Checks (node ∷ rest) w =
        let (x, v) = u.health_check node w in
        checked-Checks rest node w x refl (health_checked-Checks rest v)

    checked-Starts :
        (w : e.World) (o : Outcome (Unit {0}) e.World)
        → (u.client_start w).0 ≡ none
        → Checks nodes nodes o
        → Starts nodes o
    checked-Starts w (returns t v) h (healthy, waited) = ((w, h), healthy, waited)
    checked-Starts w (fails x v) h k = tt
    checked-Starts w panics h k = k
    checked-Starts w diverges h k = k

    started-Starts :
        (w : e.World) (x : Option Error)
        → (u.client_start w).0 ≡ x
        → Starts nodes (unless x (health_checked nodes wait) (u.client_start w).1)
    started-Starts w (some x) h = tt
    started-Starts w none h =
        let v = (u.client_start w).1 in
        checked-Starts w (health_checked nodes wait v) h (health_checked-Checks nodes v)

  module _ (clock : e.World → ℕ)
      (runs_out : (w : e.World) → ((e.tick w).0 ≡ true) ⊎ (clock (e.tick w).1 < clock w))
      (no_later : (node : ℕ) (w : e.World) → clock (e.peers node w).1 ≤ clock w) where
    -- With a timer that runs out, and more fuel than it ever has left: Start ends, and it returns
    -- without an error only if the client has started, each node has passed its health check, and
    -- each has answered with one peer less than there are nodes.
    pub network_start-Starts :
        (fuel : ℕ) (nodes : List ℕ) (w : e.World)
        → ((v : e.World) → clock v < fuel)
        → Starts nodes (network_start fuel nodes w)
    unfolding network_start
    network_start-Starts fuel nodes w enough =
        started-Starts nodes (wait_for_peers_connection e fuel nodes)
          (λ v. wait_for_peers_connection_lem e clock runs_out no_later fuel nodes v (enough v)) w
          (u.client_start w).0 refl
