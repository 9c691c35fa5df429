-- ===== src/Examples/Validators.antt =====
-- A validator's life on a chain that answers.
use hayabusa_e2e.Prelude.{
  ℕ, true, false, ◌≡◌, ◌≢◌, ◌≤◌, ◌<◌, ◌+◌, ◌*◌, refl, none, some, Option, arith,
}
use hayabusa_e2e.Prelude.Go.{Ensures, Yields, Ends}
use hayabusa_e2e.Lifecycle.{
  Status, rank, pending, active, exit_signalled, withdrawn, min_exit_block, queue_block,
}
use hayabusa_e2e.Services.{Receipt}
use hayabusa_e2e.Validators.Managers.{Sim, refresh_state, perform_initial_state_check}
use hayabusa_e2e.Validators.Events.{find_event, find_queued_receipt, find_exit_receipt}
use hayabusa_e2e.Validators.Events.Search.{Serves, find_receipts_lem}
use hayabusa_e2e.Validators.Process.{
  process, process_pending, handle_delegation_registration, process_active, process_exit_signalled,
  new_lifecycle,
}
use hayabusa_e2e.Validators.Process.Edges.{◌⟶◌}
use hayabusa_e2e.Validators.Process.Order.{start, next_block, validator_process-⟶, never_backwards}
use hayabusa_e2e.Validators.Process.Exits.{Reached, exit_guard, withdraw_guard}
use hayabusa_e2e.Examples.World.{calm, chain_config, config, receipt, queued_log, exit_log}

-- A processed validator, by its status, its activation block and its receipts.
abbrev pub sim : Status → ℕ → Option Receipt → Option Receipt → Sim ℕ
sim k activated queued_receipt exit_receipt = record {
  state = record { status = k; activated_block = activated; first_processed = true };
  txs = record {
    queued_receipt = queued_receipt;
    exit_receipt = exit_receipt;
    withdraw_receipt = none;
  };
  stake = record {
    change_interval = 10;
    staking_period_length = 10;
    last_stake_update = 0;
    stake_increased = false;
  };
  world = 0;
}

abbrev active_sim : Sim ℕ
active_sim = sim active 60 (some receipt) none

abbrev exited_sim : Sim ℕ
exited_sim = sim exit_signalled 60 (some receipt) (some receipt)

validator_process-⟶_example :
    Ensures
      (λ t. (active ⟶ t.state.status) × (t.state.first_processed ≡ true))
      (process calm 1 chain_config config 1 90 active_sim)
validator_process-⟶_example = validator_process-⟶ calm 1 chain_config config 1 90 active_sim refl

exit_guard_example :
    Ensures
      (λ t.
        t.state.status ≡ exit_signalled
        → (1 < 3) × Reached (min_exit_block config 60 10) 90 × (t.txs.exit_receipt ≢ none))
      (process_active calm 1 chain_config config 1 90 active_sim)
exit_guard_example = exit_guard calm 1 chain_config config 1 90 active_sim refl

withdraw_guard_example :
    Ensures
      (λ t.
        t.state.status ≡ withdrawn
        → (100 + 4 + 0 * 10 + 10 + 20 ≤ 200) × (t.txs.withdraw_receipt ≢ none))
      (process_exit_signalled calm 1 chain_config config 1 200 exited_sim)
withdraw_guard_example =
    withdraw_guard calm 1 chain_config config 1 200 receipt exited_sim refl refl (omega arith)

queued_log-Serves : Serves calm calm.filter_validator_queued queued_log (λ tx. receipt)
queued_log-Serves = record { page = λ offset limit w. refl; known = λ tx w. refl }

exit_log-Serves : Serves calm calm.filter_validation_signaled_exit exit_log (λ tx. receipt)
exit_log-Serves = record { page = λ offset limit w. refl; known = λ tx w. refl }

find_receipts_example :
    Yields (some receipt) (find_queued_receipt calm 1 1 0)
    × Yields none (find_exit_receipt calm 1 1 0)
unfolding find_event
find_receipts_example =
    find_receipts_lem calm queued_log exit_log (λ tx. receipt) queued_log-Serves exit_log-Serves 1 1
      0 (omega arith) (omega arith) (omega arith) (omega arith)

abbrev length : ℕ
length = 0

first_block :
    Ends (process calm 1 chain_config config 1 3 (new_lifecycle 10 10 0)) (sim pending 0 none none)
unfolding process refresh_state new_lifecycle perform_initial_state_check
    handle_delegation_registration process_pending queue_block
first_block = refl

never_backwards_example : rank pending ≤ rank pending
unfolding new_lifecycle
never_backwards_example =
    never_backwards calm 1 chain_config config 1 10 10 0 {s = new_lifecycle 10 10 0} start
      (next_block 0 3 start first_block)
