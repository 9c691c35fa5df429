-- ===== src/Validators/Events.antt =====
-- event_handler.go: the paged search of the event log for a validator's event. The two searches
-- differ in the log alone, which is an argument. Each round of the loop takes one unit of fuel.
pub mod Search
use hayabusa_e2e.Prelude.{
  ℕ, zero, suc, ◌+◌, ◌%◌, ◌^◌, Bool, true, false, Option, none, some, List, [], ◌∷◌, ltb, ◌==◌,
  length, if◌then◌else◌,
}
use hayabusa_e2e.Prelude.Go.{Reply, Outcome, diverges, pure, ◌>>=◌}
use hayabusa_e2e.Services.{Services, Event, Receipt, StakerValidation, as_outcome}

abbrev pub page_limit : ℕ
page_limit = 1000

-- A call of the chain, whose answer may be an error.
abbrev pub call : {A W : Type 0} → (W → Reply A × W) → W → Outcome A W
call op w = let (r, w') = op w in as_outcome r w'

-- `for _, event := range events { if event.Node == eh.validatorID … }`
unfoldable pub find_event : ℕ → List Event → Option Event
find_event id [] = none
find_event id (x ∷ xs) = if x.node == id then some x else find_event id xs

module _ (e : Services) (filter_page : ℕ → ℕ → e.World → Reply (List Event) × e.World) where
  -- After a page: the receipt of its first event of the validator, the end of the log, or more.
  unfoldable pub after_page :
      Option Event
      → Bool
      → (e.World → Outcome (Option Receipt) e.World)
      → e.World
      → Outcome (Option Receipt) e.World
  after_page (some x) last rest = do r ← call (e.transaction_receipt x.tx_id); pure (some r)
  after_page none true rest = pure none
  after_page none false rest = rest

  unfoldable pub find_receipt : ℕ → ℕ → ℕ → e.World → Outcome (Option Receipt) e.World
  unfolding after_page
  find_receipt zero id offset w = diverges
  find_receipt (suc fuel) id offset w =
      let rest = find_receipt fuel id ((offset + page_limit) % 2 ^ 64) in
      (do
        events ← call (filter_page offset page_limit)
        after_page (find_event id events) (ltb (length events) page_limit) rest)
        w

module _ (e : Services) (fuel id : ℕ) where
  unfoldable pub find_queued_receipt : e.World → Outcome (Option Receipt) e.World
  unfolding find_receipt
  find_queued_receipt = find_receipt e e.filter_validator_queued fuel id 0

  unfoldable pub find_exit_receipt : e.World → Outcome (Option Receipt) e.World
  unfolding find_receipt
  find_exit_receipt = find_receipt e e.filter_validation_signaled_exit fuel id 0
