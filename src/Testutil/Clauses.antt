-- ===== src/Testutil/Clauses.antt =====
-- testutil/transactions.go, SendClauses, and testutil/retry.go. A failed `require` or `t.Fatalf` ends
-- the test and is an error here. A tick of the loop takes one unit of fuel.
use hayabusa_e2e.Prelude.{ℕ, zero, suc, ◌*◌, Bool, Option, none, some, List, if◌then◌else◌}
use hayabusa_e2e.Prelude.Go.{Error, new_error, Reply, ok, err, Outcome, returns, fails, diverges}
use hayabusa_e2e.Testutil.Sequence.{Receipt}

-- A clause and a transaction are numbers; `build` takes the chain's tag, a random nonce and the
-- clauses.
pub record ThorNode : Type 1 where
  pub World : Type 0
  pub chain_tag : World → Reply ℕ × World
  pub nonce : World → ℕ × World
  pub build : ℕ → ℕ → List ℕ → ℕ
  pub sign_transaction : ℕ → Reply ℕ
  -- the identifier of the transaction that was sent
  pub send_transaction : ℕ → World → Reply ℕ × World
  -- whether the context is done, rather than the next tick due
  pub tick : World → Bool × World
  pub transaction_receipt : ℕ → World → Reply Receipt × World

module _ (e : ThorNode) where
  abbrev pub Sending : Type 0
  Sending = e.World → Outcome Receipt e.World

  -- One answer of the loop.
  unfoldable pub receipt_answered : Reply Receipt → Sending → Sending
  receipt_answered (err x) rest w = let next = rest w in if x.is_not_found then next else fails x w
  receipt_answered (ok r) rest w =
      if r.reverted then fails (new_error "transaction reverted") w else returns r w

  unfoldable pub poll_for_receipt : ℕ → ℕ → Sending
  unfolding receipt_answered
  poll_for_receipt zero id w = diverges
  poll_for_receipt (suc fuel) id w =
      let (over, w₁) = e.tick w in
      let (answer, w₂) = e.transaction_receipt id w₁ in
      let next = receipt_answered answer (poll_for_receipt fuel id) w₂ in
      if over then fails (new_error "context done before transaction is mined") w₁ else next

  abbrev pub polled_if : ℕ → Reply ℕ → Sending
  polled_if fuel (err x) w = fails x w
  polled_if fuel (ok id) w = poll_for_receipt fuel id w

  abbrev pub sent_if : ℕ → Reply ℕ → Sending
  sent_if fuel (err x) w = fails x w
  sent_if fuel (ok signed) w =
      let (sent, w') = e.send_transaction signed w in polled_if fuel sent w'

  abbrev pub tagged : ℕ → List ℕ → Reply ℕ → Sending
  tagged fuel clauses (err x) w = fails x w
  tagged fuel clauses (ok tag) w =
      let (n, w') = e.nonce w in sent_if fuel (e.sign_transaction (e.build tag n clauses)) w'

  unfoldable pub send_clauses : ℕ → List ℕ → Sending
  unfolding poll_for_receipt
  send_clauses fuel clauses w = let (tag, w') = e.chain_tag w in tagged fuel clauses tag w'

-- A test that is run, and the sleep between two runs, of so many nanoseconds. The code multiplies
-- the delay as a float64 by 2.0, which is exact: it stays below 2^63 for thirty-one doublings, the
-- last of them after the sleeps of two centuries.
pub record Flaky : Type 1 where
  pub World : Type 0
  pub test : World → Option Error × World
  pub sleep : ℕ → World → World

module _ (e : Flaky) where
  abbrev pub attempted :
      Option Error
      → (Option Error → e.World → Outcome (Unit {0}) e.World)
      → e.World
      → Outcome (Unit {0}) e.World
  attempted none rest w = returns tt w
  attempted (some x) rest w = rest (some x) w

  -- So many attempts that are left, after the first, with the delay before the next of them and the
  -- last error.
  unfoldable pub retries : ℕ → ℕ → Option Error → e.World → Outcome (Unit {0}) e.World
  retries zero delay last w = fails (new_error "complete test failed") w
  retries (suc n) delay last w =
      let (x, w') = e.test (e.sleep delay w) in attempted x (retries n (delay * 2)) w'

  -- `maxRetries` attempts, of which a negative number is none; three seconds are in nanoseconds.
  unfoldable pub run_test_with_retry : ℕ → e.World → Outcome (Unit {0}) e.World
  unfolding retries
  run_test_with_retry zero w = fails (new_error "complete test failed") w
  run_test_with_retry (suc n) w = let (x, w') = e.test w in attempted x (retries n 3000000000) w'
