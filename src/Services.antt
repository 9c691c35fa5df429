-- ===== src/Services.antt =====
-- What a lifecycle asks of the rest of the process and of the chain: the thor client's staker
-- calls, the transaction stack, the polled contract service and the position manager. Every call
-- takes the world as it stands and leaves another, so that two calls may be answered differently.
use hayabusa_e2e.Prelude.{ℕ, Bool, Option, List}
use hayabusa_e2e.Prelude.Go.{Error, Reply, ok, err, Outcome, returns, fails}

-- The fields of `api.Receipt` that the code reads. `topic` is `Outputs[0].Events[0].Topics[2]`,
-- if there is one.
pub record Receipt : Type 0 where
  pub block_number : ℕ
  pub reverted : Bool
  pub topic : Option ℕ

-- `builtin.Validation`: its `Exists()` and its status.
pub record StakerValidation : Type 0 where
  pub exists : Bool
  pub status : ℕ

pub record PeriodDetails : Type 0 where
  pub period : ℕ
  pub start_block : ℕ
  pub exit_block : ℕ
  pub completed_periods : ℕ

-- `validation.Validation`, as far as the code reads it.
pub record Validation : Type 0 where
  pub status : ℕ
  pub period : ℕ
  pub complete_iterations : ℕ
  pub start_block : ℕ
  pub exit_block : Option ℕ
  pub offline_block : Option ℕ

-- A log entry: the validator it names and its transaction.
pub record Event : Type 0 where
  pub node : ℕ
  pub tx_id : ℕ

-- A call of the staker contract that is sent in a transaction.
pub data Method : Type 0 where
  add_validation : ℕ → ℕ → ℕ → Method
  signal_exit : ℕ → Method
  withdraw_stake : ℕ → Method
  increase_stake : ℕ → ℕ → Method
  decrease_stake : ℕ → ℕ → Method
  add_delegation : ℕ → ℕ → ℕ → Method
  signal_delegation_exit : ℕ → Method
  withdraw_delegation : ℕ → Method

pub record Services : Type 1 where
  pub World : Type 0
  -- `builtin.StakerStatusActive` and `StakerStatusExited`
  pub staker_status_active : ℕ
  pub staker_status_exited : ℕ
  -- `validation.StatusActive` and `StatusExit`
  pub status_active : ℕ
  pub status_exit : ℕ
  pub get_validation : ℕ → World → Reply StakerValidation × World
  pub get_validation_period_details : ℕ → World → Reply PeriodDetails × World
  pub get_delegation_start_period : ℕ → World → Reply ℕ × World
  -- offset and limit of a page of the log, in ascending order
  pub filter_validator_queued : ℕ → ℕ → World → Reply (List Event) × World
  pub filter_validation_signaled_exit : ℕ → ℕ → World → Reply (List Event) × World
  pub transaction_receipt : ℕ → World → Reply Receipt × World
  -- the error of `method.Call()` at the receipt's block, if there is one
  pub execute_call : Method → Receipt → World → Option Error × World
  pub send_transaction_and_wait : Method → World → Reply Receipt × World
  pub send_transaction : Method → World → Reply ℕ × World
  pub lookup_address : ℕ → World → Option (Option Validation) × World
  pub get_active_count : World → ℕ × World
  pub register_validator : ℕ → World → World
  pub unregister_validator : ℕ → World → World
  pub unregister_delegator : ℕ → World → World
  -- `big.Int.Rand` below a bound
  pub rand : ℕ → World → ℕ × World

-- What `hayabusa.Config` gives a lifecycle.
pub record ChainConfig : Type 0 where
  pub epoch_length : ℕ
  pub cooldown_period : ℕ

abbrev pub as_outcome : {A S : Type 0} → Reply A → S → Outcome A S
as_outcome (ok a) s = returns a s
as_outcome (err e) s = fails e s
