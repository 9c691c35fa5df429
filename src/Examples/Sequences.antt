-- ===== src/Examples/Sequences.antt =====
-- Transactions in sequence, in parallel, and in clauses, and a test that is run again.
use hayabusa_e2e.Prelude.{
  ℕ, suc, ◌≡◌, ◌<◌, ◌⊎◌, ◌+◌, ◌-◌, ◌==◌, inl, inr, Bool-cases, ltb, if◌then◌else◌, refl, true,
  false, none, some, List, [], ◌∷◌, elem, arith,
}
use hayabusa_e2e.Prelude.Go.{new_error, ok, err}
use hayabusa_e2e.Testutil.Sequence.{Chain, new_tx_sequence, send_each}
use hayabusa_e2e.Testutil.Chained.{AreSent, sequence_lem}
use hayabusa_e2e.Testutil.Clauses.{ThorNode, send_clauses, Flaky, run_test_with_retry}
use hayabusa_e2e.Testutil.Mined.{SendsMined, send_clauses-SendsMined}
use hayabusa_e2e.Testutil.Retried.{Retries, run_test_with_retry-Retries}
use hayabusa_e2e.Testutil.Senders.{Client, send_all_in, add_validators}
use hayabusa_e2e.Testutil.Confirmed.{Told}
use hayabusa_e2e.Testutil.Parallel.{AddsAll, send_all_in-Told, add_validators-AddsAll}

abbrev chain : Chain
chain = record {
  World = ℕ;
  submit_and_confirm =
      λ signer method depends_on w. ((some (record { reverted = false; tx_id = w }), none), suc w);
  replay = λ method r w. (none, w);
}

abbrev two_calls : List (ℕ × ℕ)
two_calls = (1, 2) ∷ (1, 3) ∷ []

sequence_example :
    AreSent chain two_calls
      (new_tx_sequence chain 5)
      (send_each chain two_calls (new_tx_sequence chain 5))
sequence_example = sequence_lem chain two_calls 5

-- A node that has the receipt at the second tick, and a context that is done at the ninth.
abbrev node : ThorNode
node = record {
  World = ℕ;
  chain_tag = λ w. (ok 39, w);
  nonce = λ w. (4, w);
  build = λ tag nonce clauses. tag + nonce;
  sign_transaction = λ tx. ok tx;
  send_transaction = λ signed w. (ok signed, w);
  tick = λ w. (ltb 8 w, suc w);
  transaction_receipt = λ id w. (
    if ltb w 2
        then err (record { message = "not found"; is_not_found = true })
        else ok (record { reverted = false; tx_id = id }),
    w,
  );
}

ticks_left : (w : ℕ) → (ltb 8 w ≡ true) ⊎ (9 - suc w < 9 - w)
ticks_left w = elim (Bool-cases (ltb 8 w)) [
  | inl over ↦ inl over
  | inr more ↦ inr (ground (arith, more))
]

send_clauses_example :
    SendsMined node
      (λ w. 9 - w)
      ticks_left
      (λ id w. omega arith)
      (1 ∷ [])
      (send_clauses node 10 (1 ∷ []) 0)
send_clauses_example =
    send_clauses-SendsMined node (λ w. 9 - w) ticks_left (λ id w. omega arith) 10 (λ w. omega arith)
      (1 ∷ []) 0

-- A test that succeeds at its second attempt.
abbrev flaky : Flaky
flaky = record {
  World = ℕ;
  test = λ w. (if w == 0 then some (new_error "unknown status") else none, suc w);
  sleep = λ delay w. w;
}

run_test_with_retry_example : Retries flaky 3 3000000000 0 (run_test_with_retry flaky 3 0)
run_test_with_retry_example = run_test_with_retry-Retries flaky 3 0

abbrev client : Client
client = record {
  World = ℕ;
  submit_and_confirm = λ sender w. (ok (sender, w), suc w);
  queued_events = λ w. (ok (7 ∷ []), w);
  join = λ xs. new_error "joined";
}

abbrev backwards : List ℕ
backwards = 1 ∷ 0 ∷ []

both : (i : ℕ) → i < 2 → elem i backwards ≡ true
both i h = ground arith

send_all_in_example :
    Told client 2 (31 ∷ 32 ∷ []) refl (send_all_in client backwards (31 ∷ 32 ∷ []) 5).0 0 31
send_all_in_example =
    send_all_in-Told client backwards (refl, (refl, tt)) (31 ∷ 32 ∷ []) 5 0 31 refl refl

add_validators_example :
    AddsAll client backwards
      (refl, (refl, tt))
      (31 ∷ 32 ∷ 33 ∷ [])
      2
      (add_validators client backwards (31 ∷ 32 ∷ 33 ∷ []) 2 5)
add_validators_example =
    add_validators-AddsAll client backwards (refl, (refl, tt)) (31 ∷ 32 ∷ 33 ∷ []) 2 5 both
