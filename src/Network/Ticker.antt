-- ===== src/Network/Ticker.antt =====
-- utils/ticker.go: the waits of `Ticker`. The client and the timers are the world; a round of a loop
-- takes one unit of fuel, and a number of seconds lies below 2^63.
use hayabusa_e2e.Prelude.{
  ℕ, zero, suc, ◌+◌, ◌-◌, ◌*◌, ◌%◌, ◌^◌, Bool, true, false, Option, none, some, List, [], ◌∷◌, ltb,
  leb, ◌==◌, if◌then◌else◌,
}
use hayabusa_e2e.Prelude.Go.{
  Error, new_error, Reply, ok, err, Outcome, returns, fails, panics, diverges,
}

pub record ExpandedBlock : Type 0 where
  pub number : ℕ
  pub timestamp : ℕ

pub data Revision : Type 0 where
  best_block : Revision
  at_number : ℕ → Revision

-- A call of `ExpandedBlock` gives a pointer and an error.
abbrev pub Answer : Type 0
Answer = Option ExpandedBlock × Option Error

pub record BlockClient : Type 1 where
  pub World : Type 0
  pub expanded_block : Revision → World → Answer × World
  -- whether the timer has fired
  pub fires : World → Bool × World
  pub sleep : World → World
  -- `time.Now().Unix()`, and whether a moment lies ahead
  pub now : World → ℕ × World
  pub is_ahead : ℕ → World → Bool × World
  -- the condition of `WaitForCondition`
  pub condition : World → Reply Bool × World

-- The block, if it is there, the call gave no error, and its number is above that of the best.
abbrev pub newer : ℕ → Answer → Option ExpandedBlock
newer best (none, x) = none
newer best (some b, some x) = none
newer best (some b, none) = if ltb best b.number then some b else none

-- What the loop of `WaitForBlock` does with an answer: whether it has seen the block, or an error
-- that is not the client's not-found error.
abbrev pub seen : ℕ → Answer → Reply Bool
seen n (some b, none) = ok (leb n b.number)
seen n (some b, some x) =
    if leb n b.number then ok true else if x.is_not_found then ok false else err x
seen n (none, none) = ok false
seen n (none, some x) = if x.is_not_found then ok false else err x

module _ (e : BlockClient) where
  abbrev pub Wait : Type 0 → Type 0
  Wait A = e.World → Outcome A e.World

  abbrev pub taken : {A : Type 0} → Option A → e.World → Wait A → Wait A
  taken (some a) w rest v = returns a w
  taken none w rest v = rest v

  -- The rest of a method that asks for the best block first, and dereferences it.
  abbrev pub with_best : {A : Type 0} → Answer → (ExpandedBlock → Wait A) → Wait A
  with_best (b, some x) k w = fails x w
  with_best (none, none) k w = panics
  with_best (some b, none) k w = k b w

  unfoldable pub wait_loop : ℕ → ℕ → Wait ExpandedBlock
  wait_loop zero best w = diverges
  wait_loop (suc fuel) best w =
      let (fired, w₁) = e.fires w in
      let (answer, w₂) = e.expanded_block best_block w₁ in
      let next = taken (newer best answer) w₂ (wait_loop fuel best) (e.sleep w₂) in
      if fired then fails (new_error "timeout waiting for block") w₁ else next

  unfoldable pub wait : ℕ → Wait ExpandedBlock
  unfolding wait_loop
  wait fuel w =
      let (answer, w₁) = e.expanded_block best_block w in
      with_best answer (λ best. wait_loop fuel best.number) w₁

  abbrev pub looped : Reply Bool → e.World → Wait (Unit {0}) → Wait (Unit {0})
  looped (err x) w rest v = fails x w
  looped (ok true) w rest v = returns tt w
  looped (ok false) w rest v = rest v

  unfoldable pub block_loop : ℕ → ℕ → Wait (Unit {0})
  block_loop zero n w = diverges
  block_loop (suc fuel) n w =
      let (fired, w₁) = e.fires w in
      let (answer, w₂) = e.expanded_block (at_number n) w₁ in
      let next = looped (seen n answer) w₂ (block_loop fuel n) (e.sleep w₂) in
      if fired then fails (new_error "timeout waiting for block") w₁ else next

  -- `time.NewTicker` panics on a timeout that is not positive.
  unfoldable pub wait_until_due : ℕ → ℕ → ExpandedBlock → Wait (Unit {0})
  unfolding block_loop
  wait_until_due fuel n best w =
      let (start, w₁) = if best.number == 0 then e.now w else (best.timestamp, w) in
      let expected = (start + (n - best.number) * 10) % 2 ^ 64 in
      let (ahead, w₂) = e.is_ahead (expected + 20) w₁ in
      let next = block_loop fuel n w₂ in if ahead then next else panics

  unfoldable pub wait_for_block : ℕ → ℕ → Wait (Unit {0})
  unfolding wait_until_due
  wait_for_block fuel n w =
      let (answer, w₁) = e.expanded_block best_block w in
      with_best answer
        (λ best v.
          let next = wait_until_due fuel n best v in
          if leb n best.number then returns tt v else next)
        w₁

  unfoldable pub ticker_wait_for_condition : ℕ → Wait (Unit {0})
  ticker_wait_for_condition zero w = diverges
  ticker_wait_for_condition (suc fuel) w =
      let (fired, w₁) = e.fires w in
      let (answer, w₂) = e.condition w₁ in
      let next = looped answer w₂ (ticker_wait_for_condition fuel) (e.sleep w₂) in
      if fired then fails (new_error "timeout waiting for condition") w₁ else next

  -- The numbers of the blocks that so many calls of `Wait` give, one after the other, as `Run` makes
  -- them: a call that fails is passed over.
  abbrev pub next_waits : Outcome ExpandedBlock e.World → (e.World → List ℕ) → List ℕ
  next_waits (returns b w) rest = b.number ∷ rest w
  next_waits (fails x w) rest = rest w
  next_waits panics rest = []
  next_waits diverges rest = []

  unfoldable pub waits : ℕ → ℕ → e.World → List ℕ
  unfolding wait
  waits zero fuel w = []
  waits (suc k) fuel w = next_waits (wait fuel w) (waits k fuel)
