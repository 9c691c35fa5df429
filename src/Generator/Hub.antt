-- ===== src/Generator/Hub.antt =====
-- networkhub.go: the validators that the simulation starts with on a local network, and those and
-- the delegators that it creates later. The staking period is the stack's RandomStakingPeriod.
use hayabusa_e2e.Prelude.{
  ℕ, suc, Option, none, some, List, [], ◌∷◌, ltb, if◌then◌else◌, get_elem?, u32,
}
use hayabusa_e2e.Lifecycle.{Delay}
use hayabusa_e2e.Sending.Stack.{random_staking_period}
use hayabusa_e2e.Generator.Strategies.{
  Source, StakingPeriods, Generator, ValidatorPlan, DelegatorPlan, random_int, random_between,
}

module _ (e : Source) (epoch_length : ℕ) where
  -- Up to an epoch of blocks, and then some epochs.
  unfoldable pub delay_drawn : ℕ → ℕ → e.World → Delay × e.World
  delay_drawn lo hi w =
      let (b, w₁) = random_between e 0 epoch_length w in
      let (k, w₂) = random_between e lo hi w₁ in (record { epochs = u32 k; blocks = u32 b }, w₂)

  unfoldable pub staking_period_drawn : StakingPeriods → e.World → ℕ × e.World
  staking_period_drawn p w = let (n, w') = random_int e 0 3 w in (random_staking_period p n, w')

  unfoldable pub hub_plan : StakingPeriods → ℕ → ℕ → e.World → ValidatorPlan × e.World
  unfolding delay_drawn staking_period_drawn
  hub_plan p start_block account w =
      let (queue, w₁) = delay_drawn 0 3 w in
      let (n, w₂) = random_between e 5 100 w₁ in
      let (withdraw, w₃) = delay_drawn 1 3 w₂ in
      let (i, w₄) = random_between e 5 20 w₃ in
      let (length, w₅) = staking_period_drawn p w₄ in
      (
        record {
          account = account;
          config = record {
            queue_delay = queue;
            start_block = start_block;
            staking_periods = u32 n;
            withdraw_delay = withdraw;
          };
          stake_change_interval = u32 i;
          staking_period = length;
        },
        w₅,
      )

  unfoldable pub hub_plan_for :
      StakingPeriods → ℕ → Option ℕ → Generator e.World → Option ValidatorPlan × Generator e.World
  unfolding hub_plan
  hub_plan_for p start_block none g = (none, g)
  hub_plan_for p start_block (some account) g =
      let (plan, w) = hub_plan p start_block account g.world in
      (some plan, record g { validator_index = suc g.validator_index; world = w })

  unfoldable pub create_hub_validator :
      StakingPeriods → ℕ → Generator e.World → Option ValidatorPlan × Generator e.World
  unfolding hub_plan_for
  create_hub_validator p start_block g =
      hub_plan_for p start_block (get_elem? g.validators g.validator_index) g

  unfoldable pub plan_hub_delegator :
      ℕ → Option (ℕ × ℕ × ℕ) → e.World → Option DelegatorPlan × e.World
  unfolding delay_drawn
  plan_hub_delegator start_block none w = (none, w)
  plan_hub_delegator start_block (some (id, validator, kind)) w =
      let (queue, w₁) = delay_drawn 0 3 w in
      let (n, w₂) = random_between e 3 120 w₁ in
      let (withdraw, w₃) = delay_drawn 5 10 w₂ in
      (
        some (record {
          config = record {
            queue_delay = queue;
            start_block = start_block;
            staking_periods = u32 n;
            withdraw_delay = withdraw;
          };
          position_id = id;
          validation_id = validator;
          kind = kind;
        }),
        w₃,
      )

  unfoldable pub create_hub_delegator : ℕ → e.World → Option DelegatorPlan × e.World
  unfolding plan_hub_delegator
  create_hub_delegator start_block w =
      let (position, w') = e.new_position w in plan_hub_delegator start_block position w'

  -- The staking periods of the account at an index: long, middle or short term.
  unfoldable pub seed_periods : ℕ → e.World → ℕ × e.World
  seed_periods i w =
      if ltb i 50
      then (5000, w)
      else if ltb i 70
      then random_between e 30 100 w
      else random_between e 6 12 w

  unfoldable pub seed_plan : StakingPeriods → ℕ → ℕ → e.World → ValidatorPlan × e.World
  unfolding delay_drawn seed_periods staking_period_drawn
  seed_plan p i account w =
      let (withdraw, w₁) = delay_drawn 1 3 w in
      let (interval, w₂) = random_between e 5 20 w₁ in
      let (n, w₃) = seed_periods i w₂ in
      let (length, w₄) = staking_period_drawn p w₃ in
      (
        record {
          account = account;
          config = record {
            queue_delay = record { epochs = 0; blocks = 0 };
            start_block = 0;
            staking_periods = u32 n;
            withdraw_delay = withdraw;
          };
          stake_change_interval = u32 interval;
          staking_period = length;
        },
        w₄,
      )

  -- The initial seeding, from an index on.
  unfoldable pub seed_all : StakingPeriods → ℕ → List ℕ → e.World → List ValidatorPlan × e.World
  unfolding seed_plan
  seed_all p i [] w = ([], w)
  seed_all p i (account ∷ accounts) w =
      let (plan, w₁) = seed_plan p i account w in
      let (plans, w₂) = seed_all p (suc i) accounts w₁ in (plan ∷ plans, w₂)
