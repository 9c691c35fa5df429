-- ===== src/Lifecycle.antt =====
-- cmd/txsimulation/lifecycle/lifecycle.go: the states of a simulated validator or delegator and
-- the blocks at which its next action falls due. Block numbers are uint32 and wrap around; a
-- division by zero panics and is `none` here.
pub mod Blocks
use hayabusa_e2e.Prelude.{
  ℕ, ◌+◌, ◌*◌, ◌/◌, Bool, Option, none, some, ◌==◌, ltb, leb, if◌then◌else◌, u32, max_u32,
}

pub record Delay : Type 0 where
  pub epochs : ℕ
  pub blocks : ℕ

pub data LifecycleType : Type 0 where
  type_validator type_delegator : LifecycleType

pub data Status : Type 0 where
  pending queued active exit_signalled withdrawn : Status

-- The `iota` value of a status: `Status` is an int, and the code compares it by `<`.
abbrev pub rank : Status → ℕ
rank pending = 0
rank queued = 1
rank active = 2
rank exit_signalled = 3
rank withdrawn = 4

pub record Config : Type 0 where
  pub queue_delay : Delay
  pub start_block : ℕ
  pub staking_periods : ℕ
  pub withdraw_delay : Delay

unfoldable pub queue_block : Config → ℕ → ℕ
queue_block c epoch_length =
    u32 (u32 (c.start_block + c.queue_delay.blocks) + u32 (c.queue_delay.epochs * epoch_length))

unfoldable pub min_exit_block : Config → ℕ → ℕ → Option ℕ
min_exit_block c activated_block staking_period_length =
    if c.staking_periods == max_u32
    then some max_u32
    else if staking_period_length == 0
    then none
    else if leb (max_u32 / staking_period_length) c.staking_periods
    then some max_u32
    else some (u32 (activated_block + u32 (c.staking_periods * staking_period_length)))

unfoldable pub min_withdraw_block : Config → ℕ → ℕ → ℕ
min_withdraw_block c exit_block epoch_length =
    u32 (u32 (exit_block + c.withdraw_delay.blocks) + u32 (c.withdraw_delay.epochs * epoch_length))
