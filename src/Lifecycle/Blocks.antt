-- ===== src/Lifecycle/Blocks.antt =====
-- lifecycle.go: what the due blocks are in unbounded arithmetic.
use native.Mathlib.Nat.{le-div_iff_mul-le, mul-le-mul_left}
use hayabusa_e2e.Prelude.{
  ℕ, ◌+◌, ◌*◌, ◌/◌, ◌≤◌, ◌<◌, ◌≡◌, ◌↔◌, ◌≢◌, none, some, arith, leb, if◌then◌else◌, u32, max_u32,
}
use hayabusa_e2e.Lifecycle.{Config, queue_block, min_exit_block}

-- The guard of `MinExitBlock` in multiplied form.
periods_fit : (p l : ℕ) → 0 < l → (p < max_u32 / l) ↔ (p * l + l ≤ max_u32)
periods_fit p l h = (
  λ q. omega (arith, (le-div_iff_mul-le {x = p + 1} {y = max_u32} h).0 (omega arith)),
  λ q. omega (arith, (le-div_iff_mul-le {x = p + 1} {y = max_u32} h).1 (omega arith)),
)

-- With a period length that is not zero, the exit falls due at the activation block plus the
-- staking periods (a sum that wraps, of a product that does not), unless one period more would
-- pass the largest uint32: then the result is that largest number, which stands for never.
pub min_exit_block_lem :
    (c : Config) (activated length : ℕ)
    → 0 < length
    → min_exit_block c activated length ≡ (
        if leb (c.staking_periods * length + length) max_u32
        then some (u32 (activated + c.staking_periods * length))
        else some max_u32)
unfolding min_exit_block
min_exit_block_lem c activated length h = ground (
  arith,
  (periods_fit c.staking_periods length h).0,
  (periods_fit c.staking_periods length h).1,
  mul-le-mul_left c.staking_periods h,
)

-- An exit block is only missing, a division by zero, for a period length of zero and a period
-- count that is not the largest uint32.
pub min_exit_block-none :
    (c : Config) (activated length : ℕ)
    → (min_exit_block c activated length ≡ none) ↔ ((length ≡ 0) × (c.staking_periods ≢ max_u32))
unfolding min_exit_block
min_exit_block-none c activated length = grind arith

-- Where neither sum passes 32 bits, an action falls due no earlier than the block it counts from,
-- and one epoch more of delay defers it by exactly the epoch length.
pub queue_block_delays :
    (c : Config) (epoch_length : ℕ)
    → c.start_block + c.queue_delay.blocks + (c.queue_delay.epochs + 1) * epoch_length ≤ max_u32
    → (c.start_block ≤ queue_block c epoch_length)
      × (queue_block
            (record c {
              queue_delay = record {
                epochs = c.queue_delay.epochs + 1;
                blocks = c.queue_delay.blocks;
              };
            })
            epoch_length
          ≡ queue_block c epoch_length + epoch_length)
unfolding queue_block
queue_block_delays c epoch_length h = grind arith
