-- ===== src/Examples/World.antt =====
-- Concrete chains, configurations and receipts.
use hayabusa_e2e.Prelude.{
  ℕ, suc, true, false, Option, none, some, List, [], ◌∷◌, take, drop, max_u32,
}
use hayabusa_e2e.Prelude.Go.{Error, Reply, ok, err}
use hayabusa_e2e.Lifecycle.{Config}
use hayabusa_e2e.Services.{Services, ChainConfig, Receipt, Validation, Event, StakerValidation}

abbrev pub receipt : Receipt
receipt = record { block_number = 100; reverted = false; topic = some 4 }

abbrev pub not_found : Error
not_found = record { message = "not found"; is_not_found = true }

abbrev pub unknown_validator : StakerValidation
unknown_validator = record { exists = false; status = 0 }

abbrev pub validation : Validation
validation = record {
  status = 2;
  period = 10;
  complete_iterations = 3;
  start_block = 60;
  exit_block = none;
  offline_block = none;
}

abbrev pub queued_log : List Event
queued_log = record { node = 2; tx_id = 20 } ∷ record { node = 1; tx_id = 10 } ∷ []

abbrev pub exit_log : List Event
exit_log = record { node = 3; tx_id = 30 } ∷ []

-- A chain that answers the same at all times, with the receipts and the lookups given.
abbrev pub chain_of : Reply Receipt → Option (Option Validation) → Services
chain_of found entry = record {
  World = ℕ;
  staker_status_active = 2;
  staker_status_exited = 3;
  status_active = 2;
  status_exit = 3;
  get_validation = λ id w. (ok unknown_validator, w);
  get_validation_period_details = λ id w. (
    ok (record { period = 10; start_block = 60; exit_block = max_u32; completed_periods = 3 }),
    w,
  );
  get_delegation_start_period = λ id w. (ok 5, w);
  filter_validator_queued = λ offset limit w. (ok (take limit (drop offset queued_log)), w);
  filter_validation_signaled_exit = λ offset limit w. (ok (take limit (drop offset exit_log)), w);
  transaction_receipt = λ tx w. (found, w);
  execute_call = λ m r w. (none, w);
  send_transaction_and_wait = λ m w. (ok receipt, suc w);
  send_transaction = λ m w. (ok 7, suc w);
  lookup_address = λ id w. (entry, w);
  get_active_count = λ w. (3, w);
  register_validator = λ id w. w;
  unregister_validator = λ id w. w;
  unregister_delegator = λ id w. w;
  rand = λ n w. (0, w);
}

abbrev pub calm : Services
calm = chain_of (ok receipt) (some (some validation))

-- A chain that knows no transaction.
abbrev pub lossy : Services
lossy = chain_of (err not_found) (some (some validation))

abbrev pub chain_config : ChainConfig
chain_config = record { epoch_length = 10; cooldown_period = 20 }

abbrev pub config : Config
config = record {
  queue_delay = record { epochs = 1; blocks = 2 };
  start_block = 5;
  staking_periods = 3;
  withdraw_delay = record { epochs = 0; blocks = 4 };
}
