-- ===== src/Generator/Seeds.antt =====
-- networkhub.go: the validators that a local network starts with.
use hayabusa_e2e.Prelude.{
  ℕ, suc, ◌+◌, ◌*◌, ◌≡◌, ◌≤◌, ◌<◌, refl, ap, some, List, [], ◌∷◌, map, arith, ltb, if◌then◌else◌,
  u32, max_u32,
}
use hayabusa_e2e.Lifecycle.{Config, queue_block, min_exit_block}
use hayabusa_e2e.Generator.Strategies.{Source, StakingPeriods, ValidatorPlan, random_between}
use hayabusa_e2e.Generator.Reach.{IsBelow, random_between_lem}
use hayabusa_e2e.Generator.Hub.{
  delay_drawn, staking_period_drawn, seed_periods, seed_plan, seed_all,
}
use hayabusa_e2e.Generator.Due.{Lengths, exit_falls_due, length_drawn}

-- From which number of staking periods, and to below which, the account at an index has.
abbrev pub term : ℕ → ℕ × ℕ
term i = if ltb i 50 then (5000, 5001) else if ltb i 70 then (30, 100) else (6, 12)

module _ (epoch_length activated : ℕ) where
  -- A validator that is due at once, and whose exit falls due after the staking periods of its term.
  abbrev pub IsSeed : ℕ → ValidatorPlan → Type 0
  IsSeed i plan =
      (queue_block plan.config epoch_length ≡ 0)
      × ((term i).0 ≤ plan.config.staking_periods)
      × (plan.config.staking_periods < (term i).1)
      × (min_exit_block plan.config activated plan.staking_period
          ≡ some (activated + plan.config.staking_periods * plan.staking_period))

  abbrev pub AreSeeds : ℕ → List ValidatorPlan → Type 0
  AreSeeds i [] = Unit
  AreSeeds i (plan ∷ plans) = IsSeed i plan × AreSeeds (suc i) plans

module _ (e : Source) (below : IsBelow e) (epoch_length : ℕ) (small : epoch_length ≤ max_u32)
    (p : StakingPeriods) (bound activated : ℕ) (lengths : Lengths p bound) where
  seed_periods_lem :
      (i : ℕ) (w : e.World)
      → let n = (seed_periods e epoch_length i w).0 in
        ((term i).0 ≤ n) × (n < (term i).1) × (n < 5001)
  unfolding seed_periods
  seed_periods_lem i w = ground (
    arith,
    random_between_lem e below 30 100 w (omega arith),
    random_between_lem e below 6 12 w (omega arith),
  )

  at_once :
      (c : Config)
      → c.start_block ≡ 0
      → c.queue_delay.blocks ≡ 0
      → c.queue_delay.epochs ≡ 0
      → queue_block c epoch_length ≡ 0
  unfolding queue_block
  at_once c start blocks epochs = rw (start, blocks, epochs) (omega arith)

  seed_plan-IsSeed :
      (i account : ℕ) (w : e.World)
      → activated + 5001 * bound ≤ max_u32
      → IsSeed epoch_length activated i (seed_plan e epoch_length p i account w).0
  unfolding seed_plan
  seed_plan-IsSeed i account w room =
      let (withdraw, w₁) = delay_drawn e epoch_length 1 3 w in
      let (interval, w₂) = random_between e 5 20 w₁ in
      let (n, w₃) = seed_periods e epoch_length i w₂ in
      let k = seed_periods_lem i w₂ in
      let l = length_drawn e below epoch_length small p bound w₃ lengths in
      let c : Config = record {
        queue_delay = record { epochs = 0; blocks = 0 };
        start_block = 0;
        staking_periods = u32 n;
        withdraw_delay = withdraw;
      } in
      let few : c.staking_periods ≡ n = omega (arith, k.2) in
      (
        at_once c refl refl refl,
        omega (arith, few, k.0),
        omega (arith, few, k.1),
        exit_falls_due c activated (staking_period_drawn e epoch_length p w₃).0 5001 bound l.0 l.1
            (omega (arith, few, k.2)) room,
      )

  -- With a random source that stays below its bound, and where no sum passes 32 bits: the initial
  -- seeding of a local network makes one validator for each account, in order, due at the first block
  -- that it is processed at, with 5000 staking periods for the first fifty accounts, 30 to 99 for the
  -- next twenty and 6 to 11 for the others, and an exit that falls due exactly these after its
  -- activation.
  pub seed_all-AreSeeds :
      (i : ℕ) (accounts : List ℕ) (w : e.World)
      → activated + 5001 * bound ≤ max_u32
      → let plans = (seed_all e epoch_length p i accounts w).0 in
        (map (λ plan. plan.account) plans ≡ accounts) × AreSeeds epoch_length activated i plans
  unfolding seed_all seed_plan
  seed_all-AreSeeds i [] w room = (refl, tt)
  seed_all-AreSeeds i (account ∷ accounts) w room =
      let (same, seeds) =
        seed_all-AreSeeds (suc i) accounts (seed_plan e epoch_length p i account w).1 room in
      (ap (λ l. account ∷ l) same, (seed_plan-IsSeed i account w room, seeds))
