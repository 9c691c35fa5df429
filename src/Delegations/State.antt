-- ===== src/Delegations/State.antt =====
-- delegator.go: the state of a delegator, and a sending of one of its transactions.
use hayabusa_e2e.Prelude.{ℕ, Option, none, some}
use hayabusa_e2e.Prelude.Go.{Outcome, returns, fails, panics, diverges}
use hayabusa_e2e.Lifecycle.{Config, Status, pending}
use hayabusa_e2e.Delegations.Transaction.{Transaction, no_transaction, Sending}

-- `delegations.Config`: the lifecycle's, and the position that it holds.
pub record DelegatorConfig : Type 0 where
  pub base : Config
  pub stake : ℕ
  pub multiplier : ℕ
  pub position_id : ℕ
  pub validation_id : ℕ

pub record Delegator (W : Type 0) : Type 0 where
  pub status : Status
  pub activated_block : ℕ
  pub staking_period_length : ℕ
  pub id : Option ℕ
  pub start_period : ℕ
  pub queued_tx : Transaction
  pub exit_tx : Transaction
  pub withdraw_tx : Transaction
  pub world : W

-- `NewDelegatorLifecycle`, with the world it starts in.
unfoldable pub new_delegator : {W : Type 0} → W → Delegator W
new_delegator w = record {
  status = pending;
  activated_block = 0;
  staking_period_length = 0;
  id = none;
  start_period = 0;
  queued_tx = no_transaction;
  exit_tx = no_transaction;
  withdraw_tx = no_transaction;
  world = w;
}

-- A sending of one of the three transactions.
abbrev pub on_tx :
    {A W : Type 0}
    → (Delegator W → Transaction)
    → (Transaction → Delegator W → Delegator W)
    → (Sending W → Outcome A (Sending W))
    → Delegator W
    → Outcome A (Delegator W)
on_tx get put m d = elim (m (record { tx = get d; world = d.world })) [
  | returns a t ↦ returns a (put t.tx (record d { world = t.world }))
  | fails x t ↦ fails x (put t.tx (record d { world = t.world }))
  | panics ↦ panics
  | diverges ↦ diverges
]

abbrev pub put_queued : {W : Type 0} → Transaction → Delegator W → Delegator W
put_queued t d = record d { queued_tx = t }

abbrev pub put_exit : {W : Type 0} → Transaction → Delegator W → Delegator W
put_exit t d = record d { exit_tx = t }

abbrev pub put_withdraw : {W : Type 0} → Transaction → Delegator W → Delegator W
put_withdraw t d = record d { withdraw_tx = t }

abbrev pub or_zero : Option ℕ → ℕ
or_zero none = 0
or_zero (some n) = n
