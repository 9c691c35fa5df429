-- ===== src/Testutil/Mined.antt =====
-- testutil/transactions.go, SendClauses, and testutil/retry.go: how they end.
use hayabusa_e2e.Prelude.{
  ℕ, zero, suc, ◌≡◌, ◌<◌, ◌≤◌, ◌⊎◌, inl, inr, refl, true, false, List, if-case, arith,
}
use hayabusa_e2e.Prelude.Go.{Reply, ok, err, Outcome, returns, fails, panics, diverges}
use hayabusa_e2e.Testutil.Sequence.{Receipt}
use hayabusa_e2e.Testutil.Clauses.{
  ThorNode, receipt_answered, poll_for_receipt, polled_if, sent_if, tagged, send_clauses,
}

module _ (e : ThorNode) (clock : e.World → ℕ)
    (runs_out : (w : e.World) → ((e.tick w).0 ≡ true) ⊎ (clock (e.tick w).1 < clock w))
    (no_later : (id : ℕ) (w : e.World) → clock (e.transaction_receipt id w).1 ≤ clock w) where
  -- A receipt that the chain has given for a transaction, not reverted.
  abbrev IsMined : ℕ → Receipt → Type 0
  IsMined id r = (r.reverted ≡ false) × ((w : e.World) × ((e.transaction_receipt id w).0 ≡ ok r))

  abbrev Polls : ℕ → Outcome Receipt e.World → Type 0
  Polls id (returns r v) = IsMined id r
  Polls id (fails x v) = Unit
  Polls id panics = ⊥
  Polls id diverges = ⊥

  answered-Polls :
      (id : ℕ) (w : e.World) (answer : Reply Receipt) (rest : e.World → Outcome Receipt e.World)
      → (e.transaction_receipt id w).0 ≡ answer
      → Polls id (rest (e.transaction_receipt id w).1)
      → Polls id (receipt_answered e answer rest (e.transaction_receipt id w).1)
  unfolding receipt_answered
  answered-Polls id w (err x) rest h k =
      if-case (Polls id) x.is_not_found (rest (e.transaction_receipt id w).1) _ (λ unknown. k)
        (λ other. tt)
  answered-Polls id w (ok r) rest h k =
      if-case (Polls id) r.reverted _ _ (λ reverted. tt) (λ fine. (fine, (w, h)))

  poll_for_receipt-Polls :
      (fuel id : ℕ) (w : e.World) → clock w < fuel → Polls id (poll_for_receipt e fuel id w)
  unfolding poll_for_receipt
  poll_for_receipt-Polls zero id w h = absurd (omega arith)
  poll_for_receipt-Polls (suc fuel) id w h =
      let (over, w₁) = e.tick w in
      if-case (Polls id) over _ _ (λ done. tt)
        (λ more.
          let sooner : clock w₁ < clock w = elim (runs_out w) [
            | inl done ↦ absurd (cc)
            | inr less ↦ less
          ] in
          answered-Polls id w₁ (e.transaction_receipt id w₁).0 (poll_for_receipt e fuel id) refl (
            poll_for_receipt-Polls fuel id (e.transaction_receipt id w₁).1
              (omega (arith, no_later id w₁))))

  -- The call has ended, and without an error only with a receipt that is not reverted, which the
  -- chain has given for the transaction that it has sent: the signed one of the given clauses.
  abbrev pub SendsMined : List ℕ → Outcome Receipt e.World → Type 0
  SendsMined clauses (returns r v) =
      (tag : ℕ) × (nonce : ℕ) × (signed : ℕ) × (id : ℕ) × (w : e.World) × (e.sign_transaction
          (e.build tag nonce clauses)
        ≡ ok signed)
      × ((e.send_transaction signed w).0 ≡ ok id)
      × IsMined id r
  SendsMined clauses (fails x v) = Unit
  SendsMined clauses panics = ⊥
  SendsMined clauses diverges = ⊥

  mined :
      (clauses : List ℕ) (tag nonce signed id : ℕ) (w : e.World) (o : Outcome Receipt e.World)
      → e.sign_transaction (e.build tag nonce clauses) ≡ ok signed
      → (e.send_transaction signed w).0 ≡ ok id
      → Polls id o
      → SendsMined clauses o
  mined clauses tag nonce signed id w (returns r v) s t h = (tag, nonce, signed, id, w, s, t, h)
  mined clauses tag nonce signed id w (fails x v) s t h = tt
  mined clauses tag nonce signed id w panics s t h = h
  mined clauses tag nonce signed id w diverges s t h = h

  module _ (fuel : ℕ) (enough : (w : e.World) → clock w < fuel) (clauses : List ℕ) where
    polled-SendsMined :
        (tag nonce signed : ℕ) (w v : e.World) (answer : Reply ℕ)
        → e.sign_transaction (e.build tag nonce clauses) ≡ ok signed
        → (e.send_transaction signed w).0 ≡ answer
        → SendsMined clauses (polled_if e fuel answer v)
    polled-SendsMined tag nonce signed w v (err x) s t = tt
    polled-SendsMined tag nonce signed w v (ok id) s t =
        mined clauses tag nonce signed id w (poll_for_receipt e fuel id v) s t
          (poll_for_receipt-Polls fuel id v (enough v))

    sent-SendsMined :
        (tag nonce : ℕ) (w : e.World) (answer : Reply ℕ)
        → e.sign_transaction (e.build tag nonce clauses) ≡ answer
        → SendsMined clauses (sent_if e fuel answer w)
    sent-SendsMined tag nonce w (err x) s = tt
    sent-SendsMined tag nonce w (ok signed) s =
        let (sent, v) = e.send_transaction signed w in
        polled-SendsMined tag nonce signed w v sent s refl

    tagged-SendsMined :
        (answer : Reply ℕ) (w : e.World) → SendsMined clauses (tagged e fuel clauses answer w)
    tagged-SendsMined (err x) w = tt
    tagged-SendsMined (ok tag) w =
        let (n, v) = e.nonce w in
        sent-SendsMined tag n v (e.sign_transaction (e.build tag n clauses)) refl

    -- With a context that is done after fewer ticks than the fuel: SendClauses ends, and without an
    -- error only with a receipt that is not reverted, which the chain has given for the transaction
    -- that was sent, the signed one of the given clauses.
    pub send_clauses-SendsMined : (w : e.World) → SendsMined clauses (send_clauses e fuel clauses w)
    unfolding send_clauses
    send_clauses-SendsMined w = let (tag, v) = e.chain_tag w in tagged-SendsMined tag v
