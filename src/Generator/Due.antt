-- ===== src/Generator/Due.antt =====
-- networkhub.go with lifecycle.go: when the validators that the simulation creates fall due.
use native.Mathlib.Nat.{mul-le-mul, mul-le-mul_right}
use hayabusa_e2e.Prelude.{
  ℕ, zero, suc, ◌+◌, ◌-◌, ◌*◌, ◌≡◌, ◌≤◌, ◌<◌, refl, ◌∙◌, Option, none, some, arith, get_elem?, u32,
  max_u32,
}
use hayabusa_e2e.Lifecycle.{Config, queue_block, min_exit_block}
use hayabusa_e2e.Lifecycle.Blocks.{min_exit_block_lem}
use hayabusa_e2e.Sending.Stack.{random_staking_period}
use hayabusa_e2e.Generator.Strategies.{
  Source, StakingPeriods, Generator, ValidatorPlan, random_int, random_between,
}
use hayabusa_e2e.Generator.Reach.{IsBelow, random_between_lem}
use hayabusa_e2e.Generator.Hub.{
  delay_drawn, staking_period_drawn, hub_plan, hub_plan_for, create_hub_validator,
}

-- The lengths of a staking period, none zero and none above a bound.
abbrev pub Lengths : StakingPeriods → ℕ → Type 0
Lengths p bound =
    (0 < p.low)
    × (p.low ≤ bound)
    × (0 < p.medium)
    × (p.medium ≤ bound)
    × (0 < p.high)
    × (p.high ≤ bound)

pub drawn_length :
    (p : StakingPeriods) (bound n : ℕ)
    → Lengths p bound
    → (0 < random_staking_period p n) × (random_staking_period p n ≤ bound)
unfolding random_staking_period
drawn_length p bound zero h = (h.0, h.1)
drawn_length p bound (suc zero) h = (h.2, h.3)
drawn_length p bound (suc (suc n)) h = (h.4, h.5)

-- The exit of a configuration falls due after its staking periods.
pub exit_falls_due :
    (c : Config) (activated length limit bound : ℕ)
    → 0 < length
    → length ≤ bound
    → c.staking_periods < limit
    → activated + limit * bound ≤ max_u32
    → min_exit_block c activated length ≡ some (activated + c.staking_periods * length)
exit_falls_due c activated length limit bound some_length short few room =
    let most : (c.staking_periods + 1) * length ≤ limit * bound = mul-le-mul (omega arith) short in
    let step : (c.staking_periods + 1) * length ≡ c.staking_periods * length + length =
      omega arith in
    min_exit_block_lem c activated length some_length ∙ ground arith

module _ (e : Source) (below : IsBelow e) where
  between :
      (lo hi : ℕ) (w : e.World)
      → (lo ≤ (random_between e lo hi w).0) × ((random_between e lo hi w).0 ≤ lo + hi)
  unfolding random_between random_int
  between lo hi w = grind (arith, below (hi - lo) w)

  module _ (epoch_length : ℕ) (small : epoch_length ≤ max_u32) where
    delay_lem :
        (lo hi : ℕ) (w : e.World)
        → lo < hi
        → hi ≤ 10
        → let d = (delay_drawn e epoch_length lo hi w).0 in
          (d.blocks ≤ epoch_length) × (lo ≤ d.epochs) × (d.epochs < hi)
    unfolding delay_drawn
    delay_lem lo hi w h few =
        let b = random_between e 0 epoch_length w in
        ground (arith, between 0 epoch_length w, random_between_lem e below lo hi b.1 h)

    drawn_due :
        (start_block : ℕ) (c : Config)
        → c.start_block ≡ start_block
        → c.queue_delay.blocks ≤ epoch_length
        → c.queue_delay.epochs < 3
        → start_block + 3 * epoch_length ≤ max_u32
        → (start_block ≤ queue_block c epoch_length)
          × (queue_block c epoch_length ≤ start_block + 3 * epoch_length)
    unfolding queue_block
    drawn_due start_block c start few_blocks few_epochs room =
        let most : c.queue_delay.epochs * epoch_length ≤ 2 * epoch_length =
          mul-le-mul_right epoch_length (omega arith) in
        ground (arith, start, most)

    pub length_drawn :
        (p : StakingPeriods) (bound : ℕ) (w : e.World)
        → Lengths p bound
        → let n = (staking_period_drawn e epoch_length p w).0 in (0 < n) × (n ≤ bound)
    unfolding staking_period_drawn
    length_drawn p bound w h = drawn_length p bound (random_int e 0 3 w).0 h

    -- A validator that falls due within three epochs of a block, and whose exit falls due after its
    -- staking periods, of which it has from one number to below another.
    abbrev pub IsDue : ℕ → ℕ → ℕ → ℕ → ValidatorPlan → Type 0
    IsDue start_block activated lo hi plan =
        (start_block ≤ queue_block plan.config epoch_length)
        × (queue_block plan.config epoch_length ≤ start_block + 3 * epoch_length)
        × (lo ≤ plan.config.staking_periods)
        × (plan.config.staking_periods < hi)
        × (min_exit_block plan.config activated plan.staking_period
            ≡ some (activated + plan.config.staking_periods * plan.staking_period))

    abbrev pub IsDueIfCreated : ℕ → ℕ → Option ValidatorPlan → Type 0
    IsDueIfCreated start_block activated none = Unit
    IsDueIfCreated start_block activated (some plan) = IsDue start_block activated 5 100 plan

    module _ (p : StakingPeriods) (bound activated : ℕ) (lengths : Lengths p bound) where
      hub_plan-IsDue :
          (start_block account : ℕ) (w : e.World)
          → start_block + 3 * epoch_length ≤ max_u32
          → activated + 100 * bound ≤ max_u32
          → IsDue start_block activated 5 100 (hub_plan e epoch_length p start_block account w).0
      unfolding hub_plan
      hub_plan-IsDue start_block account w room exit_room =
          let (queue, w₁) = delay_drawn e epoch_length 0 3 w in
          let (n, w₂) = random_between e 5 100 w₁ in
          let (withdraw, w₃) = delay_drawn e epoch_length 1 3 w₂ in
          let (i, w₄) = random_between e 5 20 w₃ in
          let q = delay_lem 0 3 w (omega arith) (omega arith) in
          let k = random_between_lem e below 5 100 w₁ (omega arith) in
          let l = length_drawn p bound w₄ lengths in
          let c : Config = record {
            queue_delay = queue;
            start_block = start_block;
            staking_periods = u32 n;
            withdraw_delay = withdraw;
          } in
          let due = drawn_due start_block c refl q.0 q.2 room in
          (
            due.0,
            due.1,
            omega (arith, k.0, k.1),
            omega (arith, k.1),
            exit_falls_due c activated (staking_period_drawn e epoch_length p w₄).0 100 bound l.0
                l.1 (omega (arith, k.1)) exit_room,
          )

      hub_plan_for-IsDue :
          (start_block : ℕ) (account : Option ℕ) (g : Generator e.World)
          → start_block + 3 * epoch_length ≤ max_u32
          → activated + 100 * bound ≤ max_u32
          → IsDueIfCreated start_block activated
              (hub_plan_for e epoch_length p start_block account g).0
      unfolding hub_plan_for
      hub_plan_for-IsDue start_block none g room exit_room = tt
      hub_plan_for-IsDue start_block (some account) g room exit_room =
          hub_plan-IsDue start_block account g.world room exit_room

      -- With a random source that stays below its bound, and where no sum passes 32 bits: every
      -- validator that the generator of a local network creates falls due within three epochs of the
      -- block it is created at, has from 5 to 99 staking periods, and its exit falls due exactly
      -- these after its activation.
      pub create_hub_validator-IsDue :
          (start_block : ℕ) (g : Generator e.World)
          → start_block + 3 * epoch_length ≤ max_u32
          → activated + 100 * bound ≤ max_u32
          → IsDueIfCreated start_block activated
              (create_hub_validator e epoch_length p start_block g).0
      unfolding create_hub_validator
      create_hub_validator-IsDue start_block g room exit_room =
          hub_plan_for-IsDue start_block (get_elem? g.validators g.validator_index) g room exit_room
