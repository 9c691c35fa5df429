-- ===== src/Examples/Delegations.antt =====
-- Delegators on a chain that answers, and on one that loses transactions.
use hayabusa_e2e.Prelude.{ℕ, ◌≡◌, ◌≢◌, true, refl, none, some, []}
use hayabusa_e2e.Prelude.Go.{Ensures, Returns, Ends, ok, returns}
use hayabusa_e2e.Lifecycle.{Status, pending, active, exit_signalled, queue_block}
use hayabusa_e2e.Services.{withdraw_delegation}
use hayabusa_e2e.Delegations.Transaction.{
  Sending, no_transaction, send_or_poll, is_allowed_revert, debug_revert,
}
use hayabusa_e2e.Delegations.Transaction.Polling.{
  poll_rounds, send_or_poll_receipt, unknown_is_resent,
}
use hayabusa_e2e.Delegations.State.{Delegator, DelegatorConfig, new_delegator}
use hayabusa_e2e.Delegations.Process.{process, process_pending_state}
use hayabusa_e2e.Delegations.Process.Order.{◌⟶◌, Done, delegator_process-⟶, process_frees}
use hayabusa_e2e.Delegations.Process.Consistency.{Consistent, start, next_block, Run-Consistent}
use hayabusa_e2e.Examples.World.{calm, lossy, chain_config, config, receipt, not_found}

abbrev delegator_config : DelegatorConfig
delegator_config = record {
  base = config;
  stake = 10;
  multiplier = 100;
  position_id = 8;
  validation_id = 1;
}

abbrev delegator : Status → Delegator ℕ
delegator k = record {
  status = k;
  activated_block = 0;
  staking_period_length = 10;
  id = some 4;
  start_period = 1;
  queued_tx = record { id = 7; receipt = some receipt; poll_attempts = 0 };
  exit_tx = no_transaction;
  withdraw_tx = no_transaction;
  world = 0;
}

delegator_process-⟶_example :
    Ensures
      (λ t. active ⟶ t.status)
      (process calm chain_config delegator_config 95 (delegator active))
delegator_process-⟶_example =
    delegator_process-⟶ calm chain_config delegator_config 95 (delegator active)

process_frees_example :
    Ensures
      (λ t. Done calm chain_config delegator_config t.status → (w : ℕ) × (t.world ≡ w))
      (process calm chain_config delegator_config 95 (delegator exit_signalled))
process_frees_example =
    process_frees calm chain_config delegator_config 95 (delegator exit_signalled)

abbrev new : Delegator ℕ
new = record {
  status = pending;
  activated_block = 0;
  staking_period_length = 0;
  id = none;
  start_period = 0;
  queued_tx = no_transaction;
  exit_tx = no_transaction;
  withdraw_tx = no_transaction;
  world = 0;
}

first_block :
    Ends (process calm chain_config delegator_config 3 (record (new_delegator 0) { world = 0 })) new
unfolding process new_delegator process_pending_state queue_block
first_block = refl

Run-Consistent_example : Consistent new
Run-Consistent_example =
    Run-Consistent calm chain_config delegator_config 0 (next_block 0 3 start first_block)

abbrev sent : Sending ℕ
sent = record { tx = record { id = 7; receipt = none; poll_attempts = 0 }; world = 0 }

polled : send_or_poll calm (withdraw_delegation 4) [] sent ≡ returns (some receipt) sent
unfolding send_or_poll
polled = refl

send_or_poll_receipt_example :
    (sent.tx.id ≢ 0)
    × ((calm.transaction_receipt 7 0).0 ≡ ok receipt)
    × (sent.tx ≡ sent.tx)
    × (receipt.reverted ≡ true
        → is_allowed_revert
            (debug_revert (calm.execute_call (withdraw_delegation 4) receipt 0).0)
            []
          ≡ true)
send_or_poll_receipt_example = send_or_poll_receipt calm (withdraw_delegation 4) [] sent sent polled

unknown_is_resent_example :
    Returns (λ t. t.tx ≡ no_transaction) (poll_rounds lossy (withdraw_delegation 4) [] 8 sent)
unknown_is_resent_example =
    unknown_is_resent lossy (withdraw_delegation 4) [] sent not_found (λ h. cc) refl (λ w. refl)
      refl
