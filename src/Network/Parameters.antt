-- ===== src/Network/Parameters.antt =====
-- hayabusa/config.go: the check of a network's parameters. The epoch length that stands in for
-- zero is that of the thor library.
use hayabusa_e2e.Prelude.{
  ℕ, ◌%◌, ◌≡◌, ◌≢◌, ◌↔◌, Option, none, some, ◌==◌, if◌then◌else◌, arith, not,
}
use hayabusa_e2e.Prelude.Go.{Error, new_error}

pub record Parameters : Type 0 where
  pub block_interval : ℕ
  pub epoch_length : ℕ
  pub eviction_check_interval : ℕ
  pub min_staking_period : ℕ
  pub mid_staking_period : ℕ
  pub high_staking_period : ℕ
  pub transition_period : ℕ

unfoldable pub epoch_or : ℕ → ℕ → ℕ
epoch_or default n = if n == 0 then default else n

unfoldable pub check_multiples : ℕ → Parameters → Option Error
check_multiples n c =
    if not (c.min_staking_period % n == 0)
    then some (new_error "staker-low-staking-period must be a multiple of epoch-length")
    else if not (c.mid_staking_period % n == 0)
    then some (new_error "staker-medium-staking-period must be a multiple of epoch-length")
    else if not (c.high_staking_period % n == 0)
    then some (new_error "staker-high-staking-period must be a multiple of epoch-length")
    else if not (c.transition_period % n == 0)
    then some (new_error "hayabusa-transition-period must be a multiple of epoch-length")
    else none

-- `Validate`: the error it returns, if there is one.
unfoldable pub validate : ℕ → Parameters → Option Error
unfolding check_multiples epoch_or
validate default c =
    if c.block_interval == 1
    then some (new_error "block-interval can not be 1")
    else if c.epoch_length == 1
    then some (new_error "epoch-length can not be 1")
    else if c.eviction_check_interval == 1
    then some (new_error "eviction-check-interval can not be 1")
    else check_multiples (epoch_or default c.epoch_length) c

-- Where the library's epoch length is not zero, parameters are accepted exactly if neither of the
-- two intervals nor the epoch length is one, and the four periods are whole numbers of epochs.
pub validate_lem :
    (default : ℕ) (c : Parameters)
    → default ≢ 0
    → (validate default c ≡ none) ↔ (
        (c.block_interval ≢ 1)
        × (c.epoch_length ≢ 1)
        × (c.eviction_check_interval ≢ 1)
        × (c.min_staking_period % epoch_or default c.epoch_length ≡ 0)
        × (c.mid_staking_period % epoch_or default c.epoch_length ≡ 0)
        × (c.high_staking_period % epoch_or default c.epoch_length ≡ 0)
        × (c.transition_period % epoch_or default c.epoch_length ≡ 0))
unfolding validate
validate_lem default c h = grind arith
