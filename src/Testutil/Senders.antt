-- ===== src/Testutil/Senders.antt =====
-- utils/senders.go and cmd/network/add_validators.go: transactions that are sent in parallel. Each
-- goroutine writes to its own places of the three slices after its call, so an order in which their
-- calls end is an interleaving of them; the world answers in that order.
use hayabusa_e2e.Prelude.{ℕ, zero, suc, Option, none, some, List, [], ◌∷◌, ◌++◌, length, get_elem?}
use hayabusa_e2e.Prelude.Go.{Error, Reply, ok, err, Outcome, returns, fails, panics}
use hayabusa_e2e.Workers.Pool.{set_at, replicate}

-- A sender is known by a number; `SubmitAndConfirm` gives a receipt and a transaction, or an error.
-- `queued_events` is the filter of add_validators.go, and `join` is `errors.Join` of those that are
-- not nil.
pub record Client : Type 1 where
  pub World : Type 0
  pub submit_and_confirm : ℕ → World → Reply (ℕ × ℕ) × World
  pub queued_events : World → Reply (List ℕ) × World
  pub join : List Error → Error

pub record Sends (W : Type 0) : Type 0 where
  pub receipts : List (Option ℕ)
  pub txs : List (Option ℕ)
  pub errs : List (Option Error)
  pub world : W

unfoldable pub add : List ℕ → ℕ → List ℕ
add senders sender = senders ++ (sender ∷ [])

-- The errors that are not nil.
abbrev pub present : List (Option Error) → List Error
present [] = []
present (none ∷ l) = present l
present (some x ∷ l) = x ∷ present l

-- The senders of the first so many accounts; an account out of range panics.
unfoldable pub senders_of : ℕ → List ℕ → List ℕ → Option (List ℕ)
unfolding add
senders_of zero rest senders = some senders
senders_of (suc n) [] senders = none
senders_of (suc n) (account ∷ rest) senders = senders_of n rest (add senders account)

module _ (e : Client) where
  -- Before the goroutines start.
  unfoldable pub begin_sends : List ℕ → e.World → Sends e.World
  begin_sends senders w = record {
    receipts = replicate (length senders) none;
    txs = replicate (length senders) none;
    errs = replicate (length senders) none;
    world = w;
  }

  -- What the goroutine of an index writes.
  unfoldable pub stored : ℕ → Reply (ℕ × ℕ) → Sends e.World → Sends e.World
  stored i (err x) s = record s { errs = set_at i (some x) s.errs }
  stored i (ok (receipt, tx)) s = record s {
    receipts = set_at i (some receipt) s.receipts;
    txs = set_at i (some tx) s.txs;
  }

  abbrev pub sent_by : Option ℕ → ℕ → Sends e.World → Sends e.World
  sent_by none i s = s
  sent_by (some sender) i s =
      let (answer, w) = e.submit_and_confirm sender s.world in
      stored i answer (record s { world = w })

  unfoldable pub finish_in : List ℕ → List ℕ → Sends e.World → Sends e.World
  unfolding stored
  finish_in senders [] s = s
  finish_in senders (i ∷ order) s = finish_in senders order (sent_by (get_elem? senders i) i s)

  -- `Send`, with the order in which the calls end: the slices, and the error, if there is one.
  unfoldable pub send_all_in : List ℕ → List ℕ → e.World → Sends e.World × Option Error
  unfolding begin_sends finish_in
  send_all_in order senders w =
      let s = finish_in senders order (begin_sends senders w) in
      (s, elim (present s.errs) [ [] ↦ none | x ∷ xs ↦ some (e.join (x ∷ xs)) ])

  abbrev pub events_of : Reply (List ℕ) → e.World → Outcome (List ℕ) e.World
  events_of (err x) w = fails x w
  events_of (ok events) w = returns events w

  abbrev pub confirmed_or : Option Error → e.World → Outcome (List ℕ) e.World
  confirmed_or (some x) w = fails x w
  confirmed_or none w = let (events, w') = e.queued_events w in events_of events w'

  abbrev pub validators_sent : List ℕ → Option (List ℕ) → e.World → Outcome (List ℕ) e.World
  validators_sent order none w = panics
  validators_sent order (some senders) w =
      let (s, x) = send_all_in order senders w in confirmed_or x s.world

  unfoldable pub add_validators : List ℕ → List ℕ → ℕ → e.World → Outcome (List ℕ) e.World
  unfolding senders_of send_all_in
  add_validators order accounts max_block_proposers w =
      validators_sent order (senders_of max_block_proposers accounts []) w
