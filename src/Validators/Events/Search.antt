-- ===== src/Validators/Events/Search.antt =====
-- event_handler.go: the paged search against a search of the whole log.
use hayabusa_e2e.Prelude.{
  ℕ, zero, suc, ◌+◌, ◌*◌, ◌-◌, ◌^◌, ◌%◌, ◌≤◌, ◌<◌, ◌≡◌, inl, inr, refl, ap, ◌∙◌, Option, none, some,
  Option-cases, List, [], ◌∷◌, false, ltb, ltb→lt, ltb→le, Bool-cases, length, take, drop,
  length-take, length-drop, drop-drop, take_all, arith,
}
use hayabusa_e2e.Prelude.Go.{Reply, ok, Yields}
use hayabusa_e2e.Services.{Services, Event, Receipt}
use hayabusa_e2e.Validators.Events.{
  find_event, find_receipt, find_queued_receipt, find_exit_receipt,
}

find_event-take :
    (id n : ℕ) (x : Event) (xs : List Event)
    → find_event id (take n xs) ≡ some x
    → find_event id xs ≡ some x
unfolding find_event
find_event-take id zero x xs h = cc
find_event-take id (suc n) x [] h = h
find_event-take id (suc n) x (y ∷ ys) h = ground (arith, find_event-take id n x ys)

find_event-drop :
    (id n : ℕ) (xs : List Event)
    → find_event id (take n xs) ≡ none
    → find_event id xs ≡ find_event id (drop n xs)
unfolding find_event
find_event-drop id zero xs h = refl
find_event-drop id (suc n) [] h = refl
find_event-drop id (suc n) (y ∷ ys) h = ground (arith, find_event-drop id n ys)

-- The server hands out slices of one log, and knows the receipt of every transaction.
pub record Serves (e : Services) (filter_page : ℕ → ℕ → e.World → Reply (List Event) × e.World)
    (log : List Event) (receipt : ℕ → Receipt) : Type 0 where
  pub page :
      (offset limit : ℕ) (w : e.World)
      → (filter_page offset limit w).0 ≡ ok (take limit (drop offset log))
  pub known : (tx : ℕ) (w : e.World) → (e.transaction_receipt tx w).0 ≡ ok (receipt tx)

-- The receipt of a log's first event of a validator.
abbrev pub first_receipt : (ℕ → Receipt) → Option Event → Option Receipt
first_receipt receipt none = none
first_receipt receipt (some x) = some (receipt x.tx_id)

module _ (e : Services) (filter_page : ℕ → ℕ → e.World → Reply (List Event) × e.World)
    (log : List Event) (receipt : ℕ → Receipt) (serves : Serves e filter_page log receipt) where
  round_more :
      (fuel id offset : ℕ) (w : e.World) (events : List Event)
      → (filter_page offset 1000 w).0 ≡ ok events
      → find_event id events ≡ none
      → ltb (length events) 1000 ≡ false
      → find_receipt e filter_page (suc fuel) id offset w
        ≡ find_receipt e filter_page fuel id
            ((offset + 1000) % 2 ^ 64)
            (filter_page offset 1000 w).1
  unfolding find_receipt
  round_more fuel id offset w events p f l = ground arith

  search_from :
      (fuel id offset : ℕ) (w : e.World)
      → length log < 2 ^ 64 - 1000
      → offset ≤ length log
      → length log < offset + fuel * 1000
      → Yields
          (first_receipt receipt (find_event id (drop offset log)))
          (find_receipt e filter_page fuel id offset w)
  unfolding find_receipt
  search_from zero id offset w small o enough = absurd (omega arith)
  search_from (suc fuel) id offset w small o enough =
      let p = serves.page offset 1000 w in
      let l = length-take 1000 (drop offset log) in
      let d = length-drop offset log in
      elim (Option-cases (find_event id (take 1000 (drop offset log)))) [
        | inr (x, found) ↦ ground (
          arith,
          p,
          found,
          find_event-take id 1000 x (drop offset log) found,
          serves.known x.tx_id ((filter_page offset 1000 w).1),
        )
        | inl missing ↦ elim (Bool-cases (ltb (length (take 1000 (drop offset log))) 1000)) [
          | inl last ↦
              let whole : take 1000 (drop offset log) ≡ drop offset log =
                take_all 1000 (drop offset log) (omega (arith, ltb→lt _ _ last, l)) in
              ground (arith, p, last, missing, ap (find_event id) whole)
          | inr more ↦
              let next : find_event id (drop offset log)
                  ≡ find_event id (drop (offset + 1000) log) =
                find_event-drop id 1000 (drop offset log) missing
                ∙ ap (find_event id) (drop-drop offset 1000 log) in
              let inside : (offset + 1000) % 2 ^ 64 ≡ offset + 1000 = omega arith in
              let ih =
                search_from fuel id (offset + 1000) (filter_page offset 1000 w).1 small
                  (omega (arith, ltb→le _ _ more, l, d)) (omega arith) in
              rw (round_more fuel id offset w _ p missing more, inside, next) ih
        ]
      ]

-- Where the server hands out slices of two logs that stay below 2^64 - 1000 entries, fuel for one
-- round more than their full pages is enough, and the paged searches find what a search of the
-- whole logs finds: the receipt of the validator's first event, or nothing if there is none.
pub find_receipts_lem :
    (e : Services) (queued exits : List Event) (receipt : ℕ → Receipt)
    → Serves e e.filter_validator_queued queued receipt
    → Serves e e.filter_validation_signaled_exit exits receipt
    → (fuel id : ℕ) (w : e.World) → length queued < 2 ^ 64 - 1000
    → length exits < 2 ^ 64 - 1000
    → length queued < fuel * 1000
    → length exits < fuel * 1000
    → Yields (first_receipt receipt (find_event id queued)) (find_queued_receipt e fuel id w)
      × Yields (first_receipt receipt (find_event id exits)) (find_exit_receipt e fuel id w)
unfolding find_queued_receipt find_exit_receipt
find_receipts_lem e queued exits receipt s t fuel id w a b f g = (
  search_from e e.filter_validator_queued queued receipt s fuel id 0 w a (omega arith)
      (omega arith),
  search_from e e.filter_validation_signaled_exit exits receipt t fuel id 0 w b (omega arith)
      (omega arith),
)
