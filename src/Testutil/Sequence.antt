-- ===== src/Testutil/Sequence.antt =====
-- testutil/transactions.go: `Send`, `DebugRevert` and `TxSequence`. A failed `require` ends the test
-- and is an error here; a failed `assert` marks the test and goes on.
use hayabusa_e2e.Prelude.{
  ℕ, Bool, true, false, Option, none, some, List, [], ◌∷◌, ◌++◌, if◌then◌else◌,
}
use hayabusa_e2e.Prelude.Go.{Error, new_error, Outcome, returns, fails, panics, ◌>>=◌, ◌>>◌, pure}

-- Of a receipt: whether the transaction was reverted, and its identifier.
pub record Receipt : Type 0 where
  pub reverted : Bool
  pub tx_id : ℕ

-- A signer and a method are numbers. `SubmitAndConfirm` takes what the transaction depends on, and
-- gives a pointer to a receipt and an error; `replay` calls the method again at the receipt's block.
pub record Chain : Type 1 where
  pub World : Type 0
  pub submit_and_confirm : ℕ → ℕ → Option ℕ → World → (Option Receipt × Option Error) × World
  pub replay : ℕ → Receipt → World → Option Error × World

pub record TxSequence (W : Type 0) : Type 0 where
  pub txs : List ℕ
  pub failed : Bool
  pub world : W

abbrev pub last : List ℕ → Option ℕ
last [] = none
last (x ∷ []) = some x
last (x ∷ y ∷ ys) = last (y ∷ ys)

module _ (e : Chain) where
  unfoldable pub new_tx_sequence : e.World → TxSequence e.World
  new_tx_sequence w = record { txs = []; failed = false; world = w }

  abbrev pub Handler : Type 0 → Type 0
  Handler A = TxSequence e.World → Outcome A (TxSequence e.World)

  -- `require.Fail`.
  abbrev pub require_fail : {A : Type 0} → Error → Handler A
  require_fail x s = fails x (record s { failed = true })

  unfoldable pub revert_replayed : Option Error → Handler (Unit {0})
  revert_replayed (some x) s = require_fail (new_error "transaction reverted") s
  revert_replayed none s = require_fail (new_error "transaction reverted for unknown reason") s

  unfoldable pub debug_revert : Option Receipt → ℕ → Handler (Unit {0})
  unfolding revert_replayed
  debug_revert none method s = require_fail (new_error "receipt is nil") s
  debug_revert (some r) method s =
      let (x, w) = e.replay method r s.world in
      let stopped = revert_replayed x (record s { world = w }) in
      if r.reverted then stopped else returns tt s

  -- `assert.NoError`.
  abbrev pub assert_no_error : Option Error → Handler (Unit {0})
  assert_no_error none s = returns tt s
  assert_no_error (some x) s = returns tt (record s { failed = true })

  -- The append of `receipt.Meta.TxID`, which panics on a nil receipt.
  abbrev pub appended : Option Receipt → Handler Receipt
  appended none s = panics
  appended (some r) s = returns r (record s { txs = s.txs ++ (r.tx_id ∷ []) })

  unfoldable pub send : ℕ → ℕ → Handler Receipt
  unfolding debug_revert
  send signer method s =
      let depends_on = last s.txs in
      let ((receipt, x), w) = e.submit_and_confirm signer method depends_on s.world in
      (assert_no_error x >> (debug_revert receipt method >> appended receipt))
        (record s { world = w })

  -- So many calls of `Send`, each with a signer and a method.
  unfoldable pub send_each : List (ℕ × ℕ) → Handler (List Receipt)
  unfolding send
  send_each [] s = returns [] s
  send_each ((signer, method) ∷ calls) s =
      (send signer method >>= λ r. send_each calls >>= λ rs. pure (r ∷ rs)) s

  -- The function `Send`, which depends on nothing.
  unfoldable pub send_alone : ℕ → ℕ → Handler (Option Receipt)
  unfolding debug_revert
  send_alone signer method s =
      let ((receipt, x), w) = e.submit_and_confirm signer method none s.world in
      (assert_no_error x >> (debug_revert receipt method >> pure receipt)) (record s { world = w })
