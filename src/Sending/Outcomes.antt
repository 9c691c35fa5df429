-- ===== src/Sending/Outcomes.antt =====
-- stack.go: how the sending of a transaction ends.
use hayabusa_e2e.Prelude.{
  ℕ, ◌*◌, ◌≡◌, ◌⊎◌, inl, inr, refl, ltb, subst, true, false, none, some, if-case, Option-cases, ap,
  ◌∙◌, sym,
}
use hayabusa_e2e.Prelude.Go.{Reply, ok, err, Outcome, returns, fails, panics, diverges}
use hayabusa_e2e.Prelude.Results.{returns-bind, fails-bind}
use hayabusa_e2e.Services.{Method, Receipt}
use hayabusa_e2e.Sending.Stack.{
  Block, SendBuilder, Client, Stack, base_fee, best_known, fetched, make_tx, counted, options_for,
  priority_fee, confirmed, sent_and_confirmed, send_transaction_and_wait,
}

module _ (e : Client) (m : Method) (signer : ℕ) where
  -- A transaction of the call, priced by a block.
  abbrev pub IsPriced : SendBuilder → Block → Type 0
  IsPriced b k =
      (b.method ≡ m)
      × (b.signer ≡ signer)
      × (b.options.max_fee_per_gas ≡ base_fee e k * 2)
      × (b.options.gas ≡ 1000000)
      × (b.options.expiration ≡ 6)

  abbrev pub Confirms : Stack e.World → Outcome Receipt (Stack e.World) → Type 0
  Confirms s (returns r t) =
      (b : SendBuilder) × (k : Block) × (w : e.World) × IsPriced b k
      × (t.best ≡ some k)
      × (e.submit_and_confirm b w ≡ (ok r, t.world))
      × (r.reverted ≡ false)
  Confirms s (fails x t) =
      ((s.best ≡ none) × ((e.best_block s.world).0 ≡ err x))
      ⊎ ((b : SendBuilder) × (k : Block) × (w : e.World) × IsPriced b k
          × (t.best ≡ some k)
          × (((e.submit_and_confirm b w).0 ≡ err x)
              ⊎ ((r : Receipt) × ((e.submit_and_confirm b w).0 ≡ ok r) × (r.reverted ≡ true))))
  Confirms s panics = ⊥
  Confirms s diverges = ⊥

  confirmed-Confirms :
      (s : Stack e.World) (b : SendBuilder) (k : Block) (t : Stack e.World) (w : e.World)
      → IsPriced b k
      → t.best ≡ some k
      → (o : Reply Receipt) → e.submit_and_confirm b w ≡ (o, t.world)
      → Confirms s (confirmed e m o t)
  unfolding confirmed
  confirmed-Confirms s b k t w priced best (err x) h =
      inr (b, k, w, priced, best, inl (ap (λ p. p.0) h))
  confirmed-Confirms s b k t w priced best (ok r) h =
      if-case (Confirms s) r.reverted _ _
        (λ back. inr (b, k, w, priced, best, inr (r, ap (λ p. p.0) h, back)))
        (λ fine. (b, k, w, priced, best, h, fine))

  counted-best : (k : Block) (t : Stack e.World) → (counted e k t).best ≡ t.best
  unfolding counted
  counted-best k t =
      if-case (λ u. u.best ≡ t.best) (ltb 3 k.number) _ t (λ later. refl) (λ early. refl)

  from_best :
      (s : Stack e.World) (k : Block) (t : Stack e.World)
      → best_known e s ≡ returns k t
      → t.best ≡ some k
      → Confirms s (send_transaction_and_wait e m signer s)
  unfolding send_transaction_and_wait make_tx sent_and_confirmed options_for
  from_best s k t h best =
      let (r, w) = e.fees_priority t.world in
      let b : SendBuilder = record {
        method = m;
        options = options_for e k (priority_fee e r);
        signer = signer;
      } in
      let u = counted e k (record t { world = w }) in
      let made : make_tx e m signer s ≡ returns b u = returns-bind (best_known e) _ s k t h in
      let sent =
        confirmed-Confirms s b k (record u { world = (e.submit_and_confirm b u.world).1 }) u.world
          (refl, refl, refl, refl, refl) (counted-best k (record t { world = w }) ∙ best)
          (e.submit_and_confirm b u.world).0 refl in
      subst (Confirms s) (sym (returns-bind (make_tx e m signer) _ s b u made)) sent

  from_fetch :
      (s : Stack e.World)
      → s.best ≡ none
      → (o : Reply Block) → (e.best_block s.world).0 ≡ o
      → Confirms s (send_transaction_and_wait e m signer s)
  unfolding send_transaction_and_wait make_tx
  from_fetch s none_yet (err x) h =
      let w = (e.best_block s.world).1 in
      let missed : best_known e s ≡ fails x (record s { world = w }) =
        simp (best_known, none_yet, h, fetched) refl in
      let unmade : make_tx e m signer s ≡ fails x (record s { world = w }) =
        fails-bind (best_known e) _ s x _ missed in
      subst (Confirms s) (sym (fails-bind (make_tx e m signer) _ s x _ unmade)) (inl (none_yet, h))
  from_fetch s none_yet (ok k) h =
      from_best s k (record s { best = some k; world = (e.best_block s.world).1 })
        (simp (best_known, none_yet, h, fetched) refl) refl

  -- A transaction that is sent and waited for, whatever the client answers: where a receipt is
  -- returned, it is the client's, not reverted, of a transaction of the given call and signer for a
  -- million gas, with an expiration of six and twice the base fee of the block that is noted as best
  -- (or of the initial base fee); and an error is returned only if no block was noted and the client
  -- gave that error for the best one, so that nothing was sent, or if the client gave it for such a
  -- transaction, or if the transaction was reverted.
  pub sending_lem : (s : Stack e.World) → Confirms s (send_transaction_and_wait e m signer s)
  unfolding best_known
  sending_lem s = elim (Option-cases s.best) [
    | inl none_yet ↦ from_fetch s none_yet (e.best_block s.world).0 refl
    | inr (k, known) ↦ from_best s k s (simp (best_known, known) refl) known
  ]
