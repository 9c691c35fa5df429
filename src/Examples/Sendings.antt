-- ===== src/Examples/Sendings.antt =====
-- The withdrawal of a stake, sent by a stack that has not seen a block yet.
use hayabusa_e2e.Prelude.{ℕ, suc, false, none, some, []}
use hayabusa_e2e.Prelude.Go.{ok}
use hayabusa_e2e.Services.{withdraw_stake}
use hayabusa_e2e.Sending.Stack.{Client, Stack, send_transaction_and_wait}
use hayabusa_e2e.Sending.Outcomes.{Confirms, sending_lem}

-- A client whose world is the number of its calls.
abbrev client : Client
client = record {
  World = ℕ;
  initial_base_fee = 10;
  best_block = λ n. (ok (record { id = 77; number = 9; base_fee_per_gas = some 25 }), suc n);
  fees_priority = λ n. (ok 4, suc n);
  submit = λ b n. (ok 5, suc n);
  submit_and_confirm =
      λ b n. (ok (record { block_number = 10; reverted = false; topic = none }), suc n);
  execute_call = λ m r n. (none, suc n);
}

abbrev fresh_stack : Stack ℕ
fresh_stack = record { best = none; sent_txs = []; world = 0 }

sending_example :
    Confirms client
      (withdraw_stake 3)
      8
      fresh_stack
      (send_transaction_and_wait client (withdraw_stake 3) 8 fresh_stack)
sending_example = sending_lem client (withdraw_stake 3) 8 fresh_stack
