-- ===== src/Generator/Reach.antt =====
-- devnet.go: which of the strategies a generated lifecycle can have.
use hayabusa_e2e.Prelude.{◌-◌, ℕ, ◌≡◌, ◌≤◌, ◌<◌, none, some, arith, Option, get_elem?}
use hayabusa_e2e.Generator.Strategies.{
  Source, Strategy, StakingPeriods, Generator, ValidatorPlan, DelegatorPlan, random_int,
  random_between, periods_and_blocks, periods_only, validator_strategy, delegator_strategy,
  plan_validator, plan_for, create_validator, plan_delegator, create_delegator,
}

-- `rand.Intn` of a positive bound stays below it.
abbrev pub IsBelow : Source → Type 0
IsBelow e = (n : ℕ) (w : e.World) → 0 < n → (e.intn n w).0 < n

-- No delay of epochs, and a number of staking periods from one to below another.
abbrev pub Within : ℕ → ℕ → Strategy → Type 0
Within lo hi s = (s.delay.epochs ≡ 0) × (lo ≤ s.periods) × (s.periods < hi)

module _ (e : Source) (below : IsBelow e) where
  pub random_between_lem :
      (lo hi : ℕ) (w : e.World)
      → lo < hi
      → (lo ≤ (random_between e lo hi w).0) × ((random_between e lo hi w).0 < hi)
  unfolding random_between random_int
  random_between_lem lo hi w h = grind (arith, below (hi - lo) w)

  periods_only-Within :
      (lo hi : ℕ) (w : e.World) → lo < hi → hi ≤ 500 → Within lo hi (periods_only e lo hi w).0
  unfolding periods_only
  periods_only-Within lo hi w h small = ground (arith, random_between_lem lo hi w h)

  periods_and_blocks-Within :
      (lo hi first last : ℕ) (w : e.World)
      → lo < hi
      → hi ≤ 500
      → Within lo hi (periods_and_blocks e lo hi first last w).0
  unfolding periods_and_blocks
  periods_and_blocks-Within lo hi first last w h small =
      ground (arith, random_between_lem lo hi w h)

  validator_strategy-Within :
      (s : ℕ) (w : e.World) → 1 ≤ s → s < 4 → Within 6 500 (validator_strategy e s w).0
  unfolding validator_strategy
  validator_strategy-Within s w lo hi = ground (
    arith,
    periods_only-Within 100 500 w (omega arith) (omega arith),
    periods_and_blocks-Within 30 100 1 10 w (omega arith) (omega arith),
    periods_and_blocks-Within 6 30 5 20 w (omega arith) (omega arith),
  )

  delegator_strategy-Within :
      (s : ℕ) (w : e.World) → 1 ≤ s → s < 3 → Within 20 200 (delegator_strategy e s w).0
  unfolding delegator_strategy
  delegator_strategy-Within s w lo hi = ground (
    arith,
    periods_only-Within 50 200 w (omega arith) (omega arith),
    periods_and_blocks-Within 20 50 1 15 w (omega arith) (omega arith),
  )

  -- What a generated validator can be.
  abbrev pub ValidatorReach : Option ValidatorPlan → Type 0
  ValidatorReach none = Unit
  ValidatorReach (some plan) =
      (plan.config.queue_delay.epochs ≡ 0)
      × (6 ≤ plan.config.staking_periods)
      × (plan.config.staking_periods < 500)

  plan_for-Reach :
      (p : StakingPeriods) (start_block s : ℕ) (account : Option ℕ) (g : Generator e.World)
      → 1 ≤ s
      → s < 4
      → ValidatorReach (plan_for e p start_block s account g).0
  unfolding plan_for plan_validator
  plan_for-Reach p start_block s none g lo hi = tt
  plan_for-Reach p start_block s (some account) g lo hi = validator_strategy-Within s g.world lo hi

  -- With a random source that stays below its bound, every validator that is created has a queue
  -- delay of no epochs, and from 6 to 499 staking periods.
  pub create_validator-Reach :
      (p : StakingPeriods) (start_block : ℕ) (g : Generator e.World)
      → ValidatorReach (create_validator e p start_block g).0
  unfolding create_validator
  create_validator-Reach p start_block g =
      let r = random_between_lem 1 4 g.world (omega arith) in
      plan_for-Reach p start_block (random_between e 1 4 g.world).0
        (get_elem? g.validators g.validator_index)
        (record g { world = (random_between e 1 4 g.world).1 }) r.0 r.1

  -- What a generated delegator can be.
  abbrev pub DelegatorReach : Option DelegatorPlan → Type 0
  DelegatorReach none = Unit
  DelegatorReach (some plan) =
      (plan.config.queue_delay.epochs ≡ 0)
      × (20 ≤ plan.config.staking_periods)
      × (plan.config.staking_periods < 200)

  plan_delegator-Reach :
      (start_block : ℕ) (position : Option (ℕ × ℕ × ℕ)) (w : e.World)
      → DelegatorReach (plan_delegator e start_block position w).0
  unfolding plan_delegator
  plan_delegator-Reach start_block none w = tt
  plan_delegator-Reach start_block (some (id, validator, kind)) w =
      let r = random_between_lem 1 3 w (omega arith) in
      delegator_strategy-Within (random_between e 1 3 w).0 (random_between e 1 3 w).1 r.0 r.1

  -- With a random source that stays below its bound, every delegator that is created has a queue
  -- delay of no epochs, and from 20 to 199 staking periods.
  pub create_delegator-Reach :
      (start_block : ℕ) (w : e.World) → DelegatorReach (create_delegator e start_block w).0
  unfolding create_delegator
  create_delegator-Reach start_block w =
      plan_delegator-Reach start_block (e.new_position w).0 (e.new_position w).1
