-- ===== src/Generator/Strategies.antt =====
-- devnet.go, CreateValidator and CreateDelegator, and utils/numbers.go. The random numbers of the
-- library are taken from the world. Every bound that is passed to them here is a natural number.
use hayabusa_e2e.Prelude.{
  ℕ, suc, ◌+◌, ◌-◌, Option, none, some, List, ◌==◌, leb, ltb, if◌then◌else◌, get_elem?, u32,
}
use hayabusa_e2e.Lifecycle.{Delay, Config}

-- `rand.Intn`, and the position manager's `NewPosition`: the hash, the validator and the kind.
pub record Source : Type 1 where
  pub World : Type 0
  pub intn : ℕ → World → ℕ × World
  pub new_position : World → Option (ℕ × ℕ × ℕ) × World

-- The staking periods that the stack's configuration holds.
pub record StakingPeriods : Type 0 where
  pub low : ℕ
  pub medium : ℕ
  pub high : ℕ

pub record Generator (W : Type 0) : Type 0 where
  pub validators : List ℕ
  pub validator_index : ℕ
  pub world : W

pub record ValidatorPlan : Type 0 where
  pub account : ℕ
  pub config : Config
  pub stake_change_interval : ℕ
  pub staking_period : ℕ

pub record DelegatorPlan : Type 0 where
  pub config : Config
  pub position_id : ℕ
  pub validation_id : ℕ
  pub kind : ℕ

-- What a strategy fixes: the number of staking periods, and the delay before queueing.
pub record Strategy : Type 0 where
  pub periods : ℕ
  pub delay : Delay

abbrev pub no_strategy : Strategy
no_strategy = record { periods = 0; delay = record { epochs = 0; blocks = 0 } }

module _ (e : Source) where
  unfoldable pub random_int : ℕ → ℕ → e.World → ℕ × e.World
  random_int lo hi w =
      if leb hi lo then (lo, w) else let (n, w') = e.intn (hi - lo) w in (lo + n, w')

  unfoldable pub random_between : ℕ → ℕ → e.World → ℕ × e.World
  unfolding random_int
  random_between lo hi w =
      if leb hi lo then (lo, w) else let (n, w') = random_int 0 (hi - lo) w in (lo + n, w')

  -- A number of periods, and then a delay of some blocks.
  unfoldable pub periods_and_blocks : ℕ → ℕ → ℕ → ℕ → e.World → Strategy × e.World
  unfolding random_between
  periods_and_blocks lo hi first last w =
      let (n, w₁) = random_between lo hi w in
      let (b, w₂) = random_between first last w₁ in
      (record { periods = u32 n; delay = record { epochs = 0; blocks = u32 b } }, w₂)

  unfoldable pub periods_only : ℕ → ℕ → e.World → Strategy × e.World
  unfolding random_between
  periods_only lo hi w =
      let (n, w₁) = random_between lo hi w in
      (record { periods = u32 n; delay = record { epochs = 0; blocks = 0 } }, w₁)

  unfoldable pub periods_and_epochs : ℕ → ℕ → ℕ → ℕ → e.World → Strategy × e.World
  unfolding random_between
  periods_and_epochs lo hi first last w =
      let (n, w₁) = random_between lo hi w in
      let (k, w₂) = random_between first last w₁ in
      (record { periods = u32 n; delay = record { epochs = u32 k; blocks = 0 } }, w₂)

  unfoldable pub validator_strategy : ℕ → e.World → Strategy × e.World
  unfolding periods_and_blocks periods_only periods_and_epochs
  validator_strategy s w =
      if s == 1
      then periods_only 100 500 w
      else if s == 2
      then periods_and_blocks 30 100 1 10 w
      else if s == 3
      then periods_and_blocks 6 30 5 20 w
      else if s == 4
      then periods_and_epochs 20 80 1 5 w
      else (no_strategy, w)

  unfoldable pub staking_period_of : StakingPeriods → ℕ → ℕ
  staking_period_of p n = if ltb 47 n then p.high else if ltb 40 n then p.medium else p.low

  unfoldable pub plan_validator : StakingPeriods → ℕ → ℕ → ℕ → e.World → ValidatorPlan × e.World
  unfolding validator_strategy staking_period_of
  plan_validator p start_block account strategy w =
      let (s, w₁) = validator_strategy strategy w in
      let (b, w₂) = random_between 1 10 w₁ in
      let (i, w₃) = random_between 10 30 w₂ in
      let (n, w₄) = random_between 0 50 w₃ in
      (
        record {
          account = account;
          config = record {
            queue_delay = s.delay;
            start_block = start_block;
            staking_periods = s.periods;
            withdraw_delay = record { epochs = 0; blocks = u32 b };
          };
          stake_change_interval = u32 i;
          staking_period = staking_period_of p n;
        },
        w₄,
      )

  unfoldable pub plan_for :
      StakingPeriods
      → ℕ
      → ℕ
      → Option ℕ
      → Generator e.World
      → Option ValidatorPlan × Generator e.World
  unfolding plan_validator
  plan_for p start_block strategy none g = (none, g)
  plan_for p start_block strategy (some account) g =
      let (plan, w) = plan_validator p start_block account strategy g.world in
      (some plan, record g { validator_index = suc g.validator_index; world = w })

  unfoldable pub create_validator :
      StakingPeriods → ℕ → Generator e.World → Option ValidatorPlan × Generator e.World
  unfolding plan_for random_between
  create_validator p start_block g =
      let (strategy, w) = random_between 1 4 g.world in
      plan_for p start_block strategy (get_elem? g.validators g.validator_index)
        (record g { world = w })

  unfoldable pub delegator_strategy : ℕ → e.World → Strategy × e.World
  unfolding periods_and_blocks periods_only
  delegator_strategy s w =
      if s == 1
      then periods_only 50 200 w
      else if s == 2
      then periods_and_blocks 20 50 1 15 w
      else if s == 3
      then periods_and_blocks 6 20 5 25 w
      else (no_strategy, w)

  unfoldable pub plan_delegator : ℕ → Option (ℕ × ℕ × ℕ) → e.World → Option DelegatorPlan × e.World
  unfolding delegator_strategy random_between
  plan_delegator start_block none w = (none, w)
  plan_delegator start_block (some (id, validator, kind)) w =
      let (strategy, w₁) = random_between 1 3 w in
      let (s, w₂) = delegator_strategy strategy w₁ in
      let (b, w₃) = random_between 5 15 w₂ in
      let (n, w₄) = random_between 1 3 w₃ in
      (
        some (record {
          config = record {
            queue_delay = s.delay;
            start_block = start_block;
            staking_periods = s.periods;
            withdraw_delay = record { epochs = u32 n; blocks = u32 b };
          };
          position_id = id;
          validation_id = validator;
          kind = kind;
        }),
        w₄,
      )

  unfoldable pub create_delegator : ℕ → e.World → Option DelegatorPlan × e.World
  unfolding plan_delegator
  create_delegator start_block w =
      let (position, w') = e.new_position w in plan_delegator start_block position w'
