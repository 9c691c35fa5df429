-- ===== src/Network/Waiting.antt =====
-- utils/staker.go, WaitForCondition: a wait that ends with the condition, an error, or a block.
-- Each round of the loop takes one unit of fuel.
use hayabusa_e2e.Prelude.{
  refl, Bool-cases, inl, inr, ℕ, zero, suc, ◌+◌, ◌≡◌, ◌≤◌, ◌<◌, Bool, true, false, ltb,
  if◌then◌else◌, arith,
}
use hayabusa_e2e.Prelude.Go.{new_error, Reply, ok, err, Outcome, returns, fails, panics, diverges}

pub record Client : Type 1 where
  pub World : Type 0
  -- whether the context is done
  pub is_done : World → Bool × World
  pub condition : World → Reply Bool × World
  -- the number of the best block
  pub best_block : World → Reply ℕ × World
  pub sleep : World → World

module _ (e : Client) (max_block : ℕ) where
  abbrev Wait : Type 0
  Wait = e.World → Outcome (Unit {0}) e.World

  unfoldable pub best_found : Reply ℕ → Wait → Wait
  best_found (err x) rest w = fails x w
  best_found (ok n) rest w =
      if ltb max_block n
      then fails (new_error "condition not met, max block reached") w
      else rest (e.sleep w)

  unfoldable pub condition_found : Reply Bool → Wait → Wait
  unfolding best_found
  condition_found (err x) rest w = fails x w
  condition_found (ok true) rest w = returns tt w
  condition_found (ok false) rest w = let (r, w') = e.best_block w in best_found r rest w'

  unfoldable pub wait_round : Bool → Wait → Wait
  unfolding condition_found
  wait_round true rest w = fails (new_error "timed out waiting for condition") w
  wait_round false rest w = let (r, w') = e.condition w in condition_found r rest w'

  unfoldable pub wait_for_condition : ℕ → Wait
  unfolding wait_round
  wait_for_condition zero w = diverges
  wait_for_condition (suc fuel) w =
      let (done, w') = e.is_done w in wait_round done (wait_for_condition fuel) w'

-- The outcome is a return or an error.
abbrev pub Finishes : {A S : Type 0} → Outcome A S → Type 0
Finishes (returns a t) = Unit
Finishes (fails x t) = Unit
Finishes panics = ⊥
Finishes diverges = ⊥

-- A chain whose best block a measure of the world bounds from below, and no call lowers it; a
-- second of sleep raises it.
pub record Grows (e : Client) (height : e.World → ℕ) : Type 0 where
  pub by_done : (w : e.World) → height w ≤ height (e.is_done w).1
  pub by_condition : (w : e.World) → height w ≤ height (e.condition w).1
  pub by_best : (w : e.World) → height w ≤ height (e.best_block w).1
  pub by_sleep : (w : e.World) → height w < height (e.sleep w)
  pub bounds : (w : e.World) (n : ℕ) → (e.best_block w).0 ≡ ok n → height w ≤ n

module _ (e : Client) (max_block : ℕ) (height : e.World → ℕ) (grows : Grows e height) where
  best_ends :
      (r : Reply ℕ) (rest : Wait e max_block) (w : e.World)
      → ((n : ℕ) → r ≡ ok n → n ≤ max_block → Finishes (rest (e.sleep w)))
      → Finishes (best_found e max_block r rest w)
  unfolding best_found
  best_ends (err x) rest w k = tt
  best_ends (ok n) rest w k = elim (Bool-cases (ltb max_block n)) [
    | inl reached ↦ rw reached tt
    | inr below ↦ rw below (k n refl (ground (arith, below)))
  ]

  condition_ends :
      (r : Reply Bool) (rest : Wait e max_block) (w : e.World)
      → Finishes (best_found e max_block (e.best_block w).0 rest (e.best_block w).1)
      → Finishes (condition_found e max_block r rest w)
  unfolding condition_found
  condition_ends (err x) rest w h = tt
  condition_ends (ok true) rest w h = tt
  condition_ends (ok false) rest w h = h

  round_ends :
      (done : Bool) (rest : Wait e max_block) (w : e.World)
      → Finishes (condition_found e max_block (e.condition w).0 rest (e.condition w).1)
      → Finishes (wait_round e max_block done rest w)
  unfolding wait_round
  round_ends true rest w h = tt
  round_ends false rest w h = h

  one_round :
      (fuel : ℕ) (w : e.World)
      → ((n : ℕ)
          → (e.best_block (e.condition (e.is_done w).1).1).0 ≡ ok n
          → n ≤ max_block
          → Finishes (
              wait_for_condition e max_block fuel
                (e.sleep (e.best_block (e.condition (e.is_done w).1).1).1)))
      → Finishes (wait_for_condition e max_block (suc fuel) w)
  unfolding wait_for_condition
  one_round fuel w k =
      let w₁ = (e.is_done w).1 in
      let w₂ = (e.condition w₁).1 in
      let rest = wait_for_condition e max_block fuel in
      round_ends (e.is_done w).0 rest w₁ (
        condition_ends (e.condition w₁).0 rest w₂
          (best_ends (e.best_block w₂).0 rest (e.best_block w₂).1 k))

  -- On a chain that grows as it is waited on, the wait ends, with the condition or an error, in at
  -- most one round more than there are blocks up to the one that is waited for.
  pub wait_for_condition_ends :
      (fuel : ℕ) (w : e.World)
      → max_block < height w + fuel
      → Finishes (wait_for_condition e max_block (suc fuel) w)
  wait_for_condition_ends zero w h =
      let w₁ = (e.is_done w).1 in
      let w₂ = (e.condition w₁).1 in
      one_round zero w (λ n b low.
        absurd (omega (arith, grows.by_done w, grows.by_condition w₁, grows.bounds w₂ n b)))
  wait_for_condition_ends (suc fuel) w h =
      let w₁ = (e.is_done w).1 in
      let w₂ = (e.condition w₁).1 in
      let w₃ = (e.best_block w₂).1 in
      let later : max_block < height (e.sleep w₃) + fuel =
        omega
          (arith, grows.by_done w, grows.by_condition w₁, grows.by_best w₂, grows.by_sleep w₃) in
      one_round (suc fuel) w (λ n b low. wait_for_condition_ends fuel (e.sleep w₃) later)
