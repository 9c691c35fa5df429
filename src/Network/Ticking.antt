-- ===== src/Network/Ticking.antt =====
-- utils/ticker.go: the waits end, and what they have waited for.
use hayabusa_e2e.Prelude.{
  ℕ, zero, suc, ◌≡◌, ◌≤◌, ◌<◌, ◌⊎◌, inl, inr, refl, true, Bool-cases, none, some, List, [], ◌∷◌,
  ltb, if-case, arith,
}
use hayabusa_e2e.Prelude.Go.{Outcome, returns, fails, panics, diverges}
use hayabusa_e2e.Network.Ticker.{
  ExpandedBlock, Revision, best_block, Answer, BlockClient, newer, taken, with_best, wait_loop,
  wait, next_waits, waits,
}

-- A timer that fires after some rounds.
pub record Timed (e : BlockClient) (left : e.World → ℕ) : Type 0 where
  pub runs_out : (w : e.World) → ((e.fires w).0 ≡ true) ⊎ (left (e.fires w).1 < left w)
  pub by_block : (r : Revision) (w : e.World) → left (e.expanded_block r w).1 ≤ left w
  pub by_sleep : (w : e.World) → left (e.sleep w) ≤ left w

-- A chain whose best block is never lower than before, and a client that gives no nil block without
-- an error, and no best block that the chain did not have during the call.
pub record Climbs (e : BlockClient) (height : e.World → ℕ) : Type 0 where
  pub on_fires : (w : e.World) → height w ≤ height (e.fires w).1
  pub on_block : (r : Revision) (w : e.World) → height w ≤ height (e.expanded_block r w).1
  pub on_sleep : (w : e.World) → height w ≤ height (e.sleep w)
  pub given :
      (w : e.World) (b : ExpandedBlock)
      → (e.expanded_block best_block w).0 ≡ (some b, none)
      → (height w ≤ b.number) × (b.number ≤ height (e.expanded_block best_block w).1)
  pub not_nil : (w : e.World) → ¬ ((e.expanded_block best_block w).0 ≡ (none, none))

module _ (e : BlockClient) (left : e.World → ℕ) (timed : Timed e left) (height : e.World → ℕ)
    (climbs : Climbs e height) where
  -- A wait that has ended: with a block above a number that the chain had by then, or with an error.
  abbrev pub Later : ℕ → Outcome ExpandedBlock e.World → Type 0
  Later n (returns b v) = (n < b.number) × (b.number ≤ height v)
  Later n (fails x v) = n ≤ height v
  Later n panics = ⊥
  Later n diverges = ⊥

  newer-taken :
      (best : ℕ) (a : Answer) (w : e.World)
      → (e.expanded_block best_block w).0 ≡ a
      → (rest : e.World → Outcome ExpandedBlock e.World) (v : e.World) → Later best (rest v)
      → Later best (taken e (newer best a) (e.expanded_block best_block w).1 rest v)
  newer-taken best (none, x) w h rest v k = k
  newer-taken best (some b, some x) w h rest v k = k
  newer-taken best (some b, none) w h rest v k = elim (Bool-cases (ltb best b.number)) [
    | inl above ↦ rw above (ground (arith, above), (climbs.given w b h).1)
    | inr below ↦ rw below k
  ]

  wait_loop-Later :
      (fuel best : ℕ) (w : e.World)
      → left w < fuel
      → best ≤ height w
      → Later best (wait_loop e fuel best w)
  unfolding wait_loop
  wait_loop-Later zero best w h low = absurd (omega arith)
  wait_loop-Later (suc fuel) best w h low =
      let (fired, w₁) = e.fires w in
      let w₂ = (e.expanded_block best_block w₁).1 in
      let low₁ : best ≤ height w₁ = omega (arith, climbs.on_fires w) in
      if-case (Later best) fired _ _ (λ over. low₁)
        (λ more.
          let sooner : left w₁ < left w = elim (timed.runs_out w) [
            | inl over ↦ absurd (cc)
            | inr less ↦ less
          ] in
          newer-taken best (e.expanded_block best_block w₁).0 w₁ refl (wait_loop e fuel best)
            (e.sleep w₂)
            (wait_loop-Later fuel best (e.sleep w₂)
              (omega (arith, timed.by_block best_block w₁, timed.by_sleep w₂))
              (omega (arith, climbs.on_block best_block w₁, climbs.on_sleep w₂))))

  Later-less : (m n : ℕ) (o : Outcome ExpandedBlock e.World) → m ≤ n → Later n o → Later m o
  Later-less m n (returns b v) h k = (omega (arith, k.0), k.1)
  Later-less m n (fails x v) h k = omega arith
  Later-less m n panics h k = k
  Later-less m n diverges h k = k

  with_best-Later :
      (fuel : ℕ) (a : Answer) (w : e.World)
      → (e.expanded_block best_block w).0 ≡ a
      → left w < fuel
      → Later
          (height w)
          (with_best e a (λ best. wait_loop e fuel best.number) (e.expanded_block best_block w).1)
  with_best-Later fuel (none, none) w h more = climbs.not_nil w h
  with_best-Later fuel (none, some x) w h more = climbs.on_block best_block w
  with_best-Later fuel (some b, some x) w h more = climbs.on_block best_block w
  with_best-Later fuel (some b, none) w h more =
      let v = (e.expanded_block best_block w).1 in
      let (above, there) = climbs.given w b h in
      Later-less (height w) b.number (wait_loop e fuel b.number v) above
        (wait_loop-Later fuel b.number v (omega (arith, timed.by_block best_block w)) there)

  -- With a timer that fires and more fuel than the rounds that it has left, on a chain that never
  -- goes back: Wait ends, and a block that it returns is above the best block that the chain had
  -- when it was called.
  pub wait-Later : (fuel : ℕ) (w : e.World) → left w < fuel → Later (height w) (wait e fuel w)
  unfolding wait
  wait-Later fuel w h = with_best-Later fuel (e.expanded_block best_block w).0 w refl h

  -- Each is above the one before.
  abbrev pub Ascends : ℕ → List ℕ → Type 0
  Ascends n [] = Unit
  Ascends n (m ∷ ms) = (n < m) × Ascends m ms

  Ascends-less : (m n : ℕ) (l : List ℕ) → m ≤ n → Ascends n l → Ascends m l
  Ascends-less m n [] h k = tt
  Ascends-less m n (x ∷ l) h (above, k) = (omega arith, k)

  next-Ascends :
      (n : ℕ) (o : Outcome ExpandedBlock e.World) (rest : e.World → List ℕ)
      → Later n o
      → ((v : e.World) → Ascends (height v) (rest v))
      → Ascends n (next_waits e o rest)
  next-Ascends n (returns b v) rest (above, there) k =
      (above, Ascends-less b.number (height v) (rest v) there (k v))
  next-Ascends n (fails x v) rest h k = Ascends-less n (height v) (rest v) h (k v)
  next-Ascends n panics rest h k = absurd h
  next-Ascends n diverges rest h k = absurd h

  -- With timers that never have more rounds than the fuel, on a chain that never goes back: the
  -- blocks that any number of calls of Wait give, of which some may fail, rise strictly.
  pub waits-Ascends :
      (fuel : ℕ) (k : ℕ) (w : e.World)
      → ((v : e.World) → left v < fuel)
      → Ascends (height w) (waits e k fuel w)
  unfolding waits
  waits-Ascends fuel zero w h = tt
  waits-Ascends fuel (suc k) w h =
      next-Ascends (height w) (wait e fuel w) (waits e k fuel) (wait-Later fuel w (h w))
        (λ v. waits-Ascends fuel k v h)
