-- ===== src/Testutil/Chained.antt =====
-- testutil/transactions.go: a sequence of transactions is a chain.
use hayabusa_e2e.Prelude.{
  ℕ, ◌≡◌, refl, sym, ap, subst, ◌∙◌, true, false, Option, none, some, List, [], ◌∷◌, ◌++◌,
  append_assoc, append-nil, map, if-case,
}
use hayabusa_e2e.Prelude.Go.{Error, Outcome, returns, fails, panics, diverges, ◌>>=◌, ◌>>◌, pure}
use hayabusa_e2e.Testutil.Sequence.{
  Receipt, Chain, TxSequence, last, new_tx_sequence, revert_replayed, debug_revert, assert_no_error,
  appended, send, send_each,
}

last-append : (xs : List ℕ) (x : ℕ) → last (xs ++ (x ∷ [])) ≡ some x
last-append [] x = refl
last-append (y ∷ []) x = refl
last-append (y ∷ z ∷ xs) x = last-append (z ∷ xs) x

abbrev pub ids : List Receipt → List ℕ
ids rs = map (λ r. r.tx_id) rs

-- No receipt, or that of a reverted transaction.
abbrev pub IsRefused : Option Receipt → Type 0
IsRefused none = Unit
IsRefused (some r) = r.reverted ≡ true

module _ (e : Chain) where
  -- The calls of a list are submitted one after the other, the first with what is given to depend
  -- on, and each other with the transaction of the receipt before; they have these receipts, none of
  -- a reverted transaction.
  abbrev pub Chained : Option ℕ → List (ℕ × ℕ) → List Receipt → e.World → e.World → Type 0
  Chained p [] [] w v = w ≡ v
  Chained p [] (r ∷ rs) w v = ⊥
  Chained p (c ∷ calls) [] w v = ⊥
  Chained p ((signer, method) ∷ calls) (r ∷ rs) w v =
      (((e.submit_and_confirm signer method p w).0).0 ≡ some r)
      × (r.reverted ≡ false)
      × Chained (some r.tx_id) calls rs (e.submit_and_confirm signer method p w).1 v

  -- The same of the first calls, of as many as there are receipts, and the next is refused.
  abbrev pub StopsAfter : Option ℕ → List (ℕ × ℕ) → List Receipt → e.World → Type 0
  StopsAfter p [] rs w = ⊥
  StopsAfter p ((signer, method) ∷ calls) [] w =
      IsRefused ((e.submit_and_confirm signer method p w).0).0
  StopsAfter p ((signer, method) ∷ calls) (r ∷ rs) w =
      (((e.submit_and_confirm signer method p w).0).0 ≡ some r)
      × (r.reverted ≡ false)
      × StopsAfter (some r.tx_id) calls rs (e.submit_and_confirm signer method p w).1

  -- What a call leaves, of the receipt that was answered and the state and the world it began in.
  abbrev Sent : Option Receipt → List ℕ → e.World → Outcome Receipt (TxSequence e.World) → Type 0
  Sent a txs v (returns r t) =
      (a ≡ some r) × (r.reverted ≡ false) × (t.txs ≡ txs ++ (r.tx_id ∷ [])) × (t.world ≡ v)
  Sent a txs v (fails x t) = IsRefused a × (t.failed ≡ true) × (t.txs ≡ txs)
  Sent a txs v panics = ⊥
  Sent a txs v diverges = ⊥

  abbrev after :
      Option Receipt
      → Outcome (Unit {0}) (TxSequence e.World)
      → Outcome Receipt (TxSequence e.World)
  after receipt o = elim o [
    | returns a t ↦ appended e receipt t
    | fails x t ↦ fails x t
    | panics ↦ panics
    | diverges ↦ diverges
  ]

  stopped-Sent :
      (r : Receipt) (x : Option Error) (s : TxSequence e.World) (v : e.World)
      → r.reverted ≡ true
      → Sent (some r) s.txs v (after (some r) (revert_replayed e x s))
  unfolding revert_replayed
  stopped-Sent r none s v h = (h, refl, refl)
  stopped-Sent r (some x) s v h = (h, refl, refl)

  checked-Sent :
      (method : ℕ) (receipt : Option Receipt) (s : TxSequence e.World)
      → Sent receipt s.txs s.world ((debug_revert e receipt method >> appended e receipt) s)
  unfolding debug_revert
  checked-Sent method none s = (tt, refl, refl)
  checked-Sent method (some r) s =
      let (x, w) = e.replay method r s.world in
      if-case (λ o. Sent (some r) s.txs s.world (after (some r) o)) r.reverted
        (revert_replayed e x (record s { world = w })) (returns tt s)
        (λ reverted. stopped-Sent r x (record s { world = w }) s.world reverted)
        (λ fine. (refl, fine, refl, refl))

  answered-Sent :
      (method : ℕ) (receipt : Option Receipt) (x : Option Error) (s : TxSequence e.World)
      → Sent receipt s.txs s.world
          ((assert_no_error e x >> (debug_revert e receipt method >> appended e receipt)) s)
  answered-Sent method receipt none s = checked-Sent method receipt s
  answered-Sent method receipt (some x) s = checked-Sent method receipt (record s { failed = true })

  send-Sent :
      (signer method : ℕ) (s : TxSequence e.World)
      → Sent
          ((e.submit_and_confirm signer method (last s.txs) s.world).0).0
          s.txs
          (e.submit_and_confirm signer method (last s.txs) s.world).1
          (send e signer method s)
  unfolding send
  send-Sent signer method s =
      let (answer, w) = e.submit_and_confirm signer method (last s.txs) s.world in
      answered-Sent method answer.0 answer.1 (record s { world = w })

  -- What a list of calls leaves, of which the first depends on the last transaction that is held.
  abbrev pub AreSent :
      List (ℕ × ℕ) → TxSequence e.World → Outcome (List Receipt) (TxSequence e.World) → Type 0
  AreSent calls s (returns rs t) =
      Chained (last s.txs) calls rs s.world t.world × (t.txs ≡ s.txs ++ ids rs)
  AreSent calls s (fails x t) =
      (t.failed ≡ true)
      × ((rs : List Receipt) × StopsAfter (last s.txs) calls rs s.world × (t.txs ≡ s.txs ++ ids rs))
  AreSent calls s panics = ⊥
  AreSent calls s diverges = ⊥

  longer :
      (xs ys zs : List ℕ) (r : Receipt) (rs : List Receipt)
      → ys ≡ xs ++ (r.tx_id ∷ [])
      → zs ≡ ys ++ ids rs
      → zs ≡ xs ++ ids (r ∷ rs)
  longer xs ys zs r rs h k = k ∙ (ap (λ l. l ++ ids rs) h ∙ append_assoc xs (r.tx_id ∷ []) (ids rs))

  consed :
      (signer method : ℕ) (calls : List (ℕ × ℕ)) (s t : TxSequence e.World) (r : Receipt)
      (o : Outcome (List Receipt) (TxSequence e.World))
      → Sent
          ((e.submit_and_confirm signer method (last s.txs) s.world).0).0
          s.txs
          (e.submit_and_confirm signer method (last s.txs) s.world).1
          (returns r t)
      → AreSent calls t o
      → AreSent ((signer, method) ∷ calls) s (elim o [
        | returns rs v ↦ returns (r ∷ rs) v
        | fails x v ↦ fails x v
        | panics ↦ panics
        | diverges ↦ diverges
      ])
  consed signer method calls s t r (returns rs v) (given, fine, held, same) (chained, all) =
      let depends = ap last held ∙ last-append s.txs r.tx_id in
      (
        (
          given,
          fine,
          subst (λ w. Chained (some r.tx_id) calls rs w v.world) same
              (subst (λ p. Chained p calls rs t.world v.world) depends chained),
        ),
        longer s.txs t.txs v.txs r rs held all,
      )
  consed signer method calls s t r (fails x v) (given, fine, held, same)
        (marked, (rs, stops, all)) =
      let depends = ap last held ∙ last-append s.txs r.tx_id in
      (
        marked,
        (
          r ∷ rs,
          (
            given,
            fine,
            subst (λ w. StopsAfter (some r.tx_id) calls rs w) same
                (subst (λ p. StopsAfter p calls rs t.world) depends stops),
          ),
          longer s.txs t.txs v.txs r rs held all,
        ),
      )
  consed signer method calls s t r panics h k = k
  consed signer method calls s t r diverges h k = k

  next-AreSent :
      (signer method : ℕ) (calls : List (ℕ × ℕ)) (s : TxSequence e.World)
      (o : Outcome Receipt (TxSequence e.World))
      → Sent
          ((e.submit_and_confirm signer method (last s.txs) s.world).0).0
          s.txs
          (e.submit_and_confirm signer method (last s.txs) s.world).1
          o
      → ((t : TxSequence e.World) → AreSent calls t (send_each e calls t))
      → AreSent ((signer, method) ∷ calls) s (elim o [
        | returns r t ↦ (send_each e calls >>= λ rs. pure (r ∷ rs)) t
        | fails x t ↦ fails x t
        | panics ↦ panics
        | diverges ↦ diverges
      ])
  next-AreSent signer method calls s (returns r t) h rest =
      consed signer method calls s t r (send_each e calls t) h (rest t)
  next-AreSent signer method calls s (fails x t) (refused, marked, held) rest =
      (marked, ([], refused, held ∙ sym (append-nil s.txs)))
  next-AreSent signer method calls s panics h rest = h
  next-AreSent signer method calls s diverges h rest = h

  send_each-AreSent :
      (calls : List (ℕ × ℕ)) (s : TxSequence e.World) → AreSent calls s (send_each e calls s)
  unfolding send_each
  send_each-AreSent [] s = (refl, sym (append-nil s.txs))
  send_each-AreSent ((signer, method) ∷ calls) s =
      next-AreSent signer method calls s (send e signer method s) (send-Sent signer method s)
        (send_each-AreSent calls)

  -- The calls of Send on a new sequence never panic. They submit their transactions one after the
  -- other, the first to depend on none, and each other on the transaction of the receipt before.
  -- Where all of them return, these are the receipts, one for each call and none of a reverted
  -- transaction, and the sequence holds their transactions in order. Where one ends the test, it was
  -- submitted in the same way and has no receipt or that of a reverted transaction, the test is
  -- marked as failed, and the sequence holds the transactions before it.
  pub sequence_lem :
      (calls : List (ℕ × ℕ)) (w : e.World)
      → AreSent calls (new_tx_sequence e w) (send_each e calls (new_tx_sequence e w))
  unfolding new_tx_sequence
  sequence_lem calls w = send_each-AreSent calls (new_tx_sequence e w)
