-- ===== src/Delegations/Transaction.antt =====
-- delegator.go and utils/reverts.go: a transaction that is sent once and polled for its receipt,
-- until it is found, reverted, or given up.
pub mod Polling
use Prim.Native.String.{String}
use hayabusa_e2e.Prelude.{
  ℕ, ◌+◌, Bool, true, false, ◌||◌, Option, none, some, List, [], ◌∷◌, ◌==◌, ltb, if◌then◌else◌, u32,
}
use hayabusa_e2e.Prelude.Go.{
  Error, new_error, Reply, ok, err, Outcome, returns, fails, contains, pure, modify, attempt, gets,
  ◌>>=◌, ◌>>◌,
}
use hayabusa_e2e.Services.{Services, Receipt, Method}

pub record Transaction : Type 0 where
  pub id : ℕ
  pub receipt : Option Receipt
  pub poll_attempts : ℕ

-- `transaction{}`, and what `reset` leaves.
abbrev pub no_transaction : Transaction
no_transaction = record { id = 0; receipt = none; poll_attempts = 0 }

-- `stack.DefaultExpiration`.
abbrev pub default_expiration : ℕ
default_expiration = 6

-- A transaction of a lifecycle, behind a pointer, and the world.
pub record Sending (W : Type 0) : Type 0 where
  pub tx : Transaction
  pub world : W

unfoldable pub debug_revert : Option Error → Error
debug_revert none = new_error "transaction reverted but no error returned from call"
debug_revert (some x) = x

unfoldable pub is_allowed_revert : Error → List String → Bool
is_allowed_revert x [] = false
is_allowed_revert x (a ∷ as') = contains x.message a || is_allowed_revert x as'

module _ (e : Services) (method : Method) (allowed_reverts : List String) where
  abbrev Sender : Type 0
  Sender = Sending e.World → Outcome (Option Receipt) (Sending e.World)

  unfoldable pub transaction_sent : Reply ℕ → Sender
  transaction_sent (ok id) s = returns none (record s { tx = record (s.tx) { id = id } })
  transaction_sent (err x) s = fails x s

  unfoldable pub send_transaction : Sender
  unfolding transaction_sent
  send_transaction s =
      let (r, w) = e.send_transaction method s.world in transaction_sent r (record s { world = w })

  unfoldable pub handle_receipt_error : Error → Sender
  handle_receipt_error x s =
      if ltb default_expiration s.tx.poll_attempts
      then returns none (record s { tx = no_transaction })
      else let t = record s {
        tx = record (s.tx) { poll_attempts = u32 (s.tx.poll_attempts + 1) };
      } in
        if x.is_not_found then returns none t else fails x t

  unfoldable pub process_receipt : Receipt → Sender
  unfolding debug_revert
  process_receipt r s =
      if r.reverted
      then (let (x, w) = e.execute_call method r s.world in
          if is_allowed_revert (debug_revert x) allowed_reverts
          then returns (some r) (record s { world = w })
          else returns none (record { tx = no_transaction; world = w }))
      else returns (some r) s

  unfoldable pub receipt_fetched : Reply Receipt → Sender
  unfolding process_receipt handle_receipt_error
  receipt_fetched (ok r) = process_receipt r
  receipt_fetched (err x) = handle_receipt_error x

  unfoldable pub poll_transaction_receipt : Sender
  unfolding receipt_fetched
  poll_transaction_receipt s =
      let (r, w) = e.transaction_receipt s.tx.id s.world in
      receipt_fetched r (record s { world = w })

  unfoldable pub send_or_poll : Sender
  unfolding send_transaction poll_transaction_receipt
  send_or_poll s = if s.tx.id == 0 then send_transaction s else poll_transaction_receipt s
