-- ===== src/Examples/Meetings.antt =====
-- The start of two nodes, of which each has one peer from the first round on.
use hayabusa_e2e.Prelude.{
  ℕ, ◌-◌, ◌<◌, ◌≡◌, ◌⊎◌, ◌==◌, inl, inr, Bool-cases, true, none, [], ◌∷◌, ltb, if◌then◌else◌, arith,
}
use hayabusa_e2e.Prelude.Go.{ok}
use hayabusa_e2e.Network.Peers.{Peering}
use hayabusa_e2e.Network.Starting.{Starter, Starts, network_start, network_start-Starts}

-- A world that counts the ticks that are left, of which there are never more than three.
abbrev capped : ℕ → ℕ → ℕ
capped n w = if ltb w n then w else n

abbrev peering : Peering
peering = record { World = ℕ; tick = λ w. (w == 0, capped 2 (w - 1)); peers = λ node w. (ok 1, w) }

abbrev starter : Starter ℕ
starter = record { client_start = λ w. (none, w); health_check = λ node w. (none, w) }

ticks : (w : ℕ) → ((w == 0) ≡ true) ⊎ (capped 3 (capped 2 (w - 1)) < capped 3 w)
ticks w = elim (Bool-cases (w == 0)) [ inl over ↦ inl over | inr more ↦ inr (ground (arith, more)) ]

network_start_example :
    Starts peering starter (5 ∷ 6 ∷ []) (network_start peering starter 4 (5 ∷ 6 ∷ []) 3)
network_start_example =
    network_start-Starts peering starter (capped 3) ticks (λ node w. omega arith) 4 (5 ∷ 6 ∷ []) 3
      (λ v. ground arith)
