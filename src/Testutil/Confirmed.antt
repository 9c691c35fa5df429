-- ===== src/Testutil/Confirmed.antt =====
-- utils/senders.go and cmd/network/add_validators.go: what a parallel sending leaves, in whatever
-- order the calls end.
use hayabusa_e2e.Prelude.{
  ℕ, zero, suc, ◌≡◌, ◌<◌, inl, inr, refl, sym, ap, subst, ◌∙◌, true, false, Bool-cases, Option,
  none, some, List, [], ◌∷◌, length, get_elem?, elem, Distinct, ◌==◌, if◌then◌else◌, arith,
}
use hayabusa_e2e.Prelude.Go.{Error, Reply, ok, err}
use hayabusa_e2e.Workers.Pool.{set_at, replicate}
use hayabusa_e2e.Workers.Counts.{length-set}
use hayabusa_e2e.Testutil.Senders.{Client, Sends, stored, sent_by, finish_in}

module _ {ℓ} {A : Type ℓ} where
  get-set_at :
      (i j : ℕ) (y : A) (xs : List A)
      → i < length xs
      → get_elem? (set_at i y xs) j ≡ (if j == i then some y else get_elem? xs j)
  get-set_at i j y [] h = absurd (omega arith)
  get-set_at zero zero y (x ∷ xs) h = refl
  get-set_at zero (suc j) y (x ∷ xs) h = ground arith
  get-set_at (suc i) zero y (x ∷ xs) h = ground arith
  get-set_at (suc i) (suc j) y (x ∷ xs) h = ground (arith, get-set_at i j y xs)

  pub get-replicate : (n j : ℕ) (x : A) → j < n → get_elem? (replicate n x) j ≡ some x
  get-replicate zero j x h = absurd (omega arith)
  get-replicate (suc n) zero x h = refl
  get-replicate (suc n) (suc j) x h = get-replicate n j x (omega arith)

  pub get-below : (i : ℕ) (xs : List A) {x : A} → get_elem? xs i ≡ some x → i < length xs
  get-below i [] h = absurd (cc)
  get-below zero (y ∷ xs) h = omega arith
  get-below (suc i) (y ∷ xs) h = omega (arith, get-below i xs h)

module _ {W : Type 0} where
  -- What stands at an index of the three slices.
  abbrev At : Sends W → ℕ → Option ℕ → Option ℕ → Option Error → Type 0
  At s i a b c =
      (get_elem? s.receipts i ≡ some a)
      × (get_elem? s.txs i ≡ some b)
      × (get_elem? s.errs i ≡ some c)

  -- As an answer writes it: a receipt and a transaction, or an error.
  abbrev pub Wrote : Sends W → ℕ → Reply (ℕ × ℕ) → Type 0
  Wrote s i (err x) =
      (get_elem? s.receipts i ≡ some none)
      × (get_elem? s.txs i ≡ some none)
      × (get_elem? s.errs i ≡ some (some x))
  Wrote s i (ok (receipt, tx)) =
      (get_elem? s.receipts i ≡ some (some receipt))
      × (get_elem? s.txs i ≡ some (some tx))
      × (get_elem? s.errs i ≡ some none)

  abbrev Sized : ℕ → Sends W → Type 0
  Sized n s = (length s.receipts ≡ n) × (length s.txs ≡ n) × (length s.errs ≡ n)

module _ (e : Client) (n : ℕ) where
  stored-Sized :
      (i : ℕ) (r : Reply (ℕ × ℕ)) (s : Sends e.World) → Sized n s → Sized n (stored e i r s)
  unfolding stored
  stored-Sized i (err x) s h = (h.0, h.1, length-set i (some x) s.errs ∙ h.2)
  stored-Sized i (ok (receipt, tx)) s h =
      (length-set i (some receipt) s.receipts ∙ h.0, length-set i (some tx) s.txs ∙ h.1, h.2)

  stored-other :
      (i j : ℕ) (r : Reply (ℕ × ℕ)) (s : Sends e.World)
      → Sized n s
      → i < n
      → j == i ≡ false
      → {a b : Option ℕ} {c : Option Error} → At s j a b c
      → At (stored e i r s) j a b c
  unfolding stored
  stored-other i j (err x) s h low apart k =
      (k.0, k.1, get-set_at i j (some x) s.errs (omega (arith, h.2)) ∙ rw apart k.2)
  stored-other i j (ok (receipt, tx)) s h low apart k = (
    get-set_at i j (some receipt) s.receipts (omega (arith, h.0)) ∙ rw apart k.0,
    get-set_at i j (some tx) s.txs (omega (arith, h.1)) ∙ rw apart k.1,
    k.2,
  )

  stored-Wrote :
      (i : ℕ) (r : Reply (ℕ × ℕ)) (s : Sends e.World)
      → Sized n s
      → i < n
      → At s i none none none
      → Wrote (stored e i r s) i r
  unfolding stored
  stored-Wrote i (err x) s h low k =
      let same : i == i ≡ true = ground arith in
      (k.0, k.1, get-set_at i i (some x) s.errs (omega (arith, h.2)) ∙ rw same refl)
  stored-Wrote i (ok (receipt, tx)) s h low k =
      let same : i == i ≡ true = ground arith in
      (
        get-set_at i i (some receipt) s.receipts (omega (arith, h.0)) ∙ rw same refl,
        get-set_at i i (some tx) s.txs (omega (arith, h.1)) ∙ rw same refl,
        k.2,
      )

  module _ (senders : List ℕ) (counted : length senders ≡ n) where
    sent_by-Sized :
        (o : Option ℕ) (i : ℕ) (s : Sends e.World) → Sized n s → Sized n (sent_by e o i s)
    sent_by-Sized none i s h = h
    sent_by-Sized (some b) i s h =
        let (answer, w) = e.submit_and_confirm b s.world in
        stored-Sized i answer (record s { world = w }) h

    sent_by-other :
        (i j : ℕ) (o : Option ℕ) (s : Sends e.World)
        → get_elem? senders i ≡ o
        → Sized n s
        → j == i ≡ false
        → {a b : Option ℕ} {c : Option Error} → At s j a b c
        → At (sent_by e o i s) j a b c
    sent_by-other i j none s there h apart k = k
    sent_by-other i j (some b) s there h apart k =
        let (answer, w) = e.submit_and_confirm b s.world in
        stored-other i j answer (record s { world = w }) h
          (omega (arith, counted, get-below i senders there)) apart k

    finish_in-keeps :
        (order : List ℕ) (j : ℕ) (s : Sends e.World)
        → Sized n s
        → elem j order ≡ false
        → {a b : Option ℕ} {c : Option Error} → At s j a b c
        → At (finish_in e senders order s) j a b c
    unfolding finish_in
    finish_in-keeps [] j s h out k = k
    finish_in-keeps (i ∷ order) j s h out k =
        let o = get_elem? senders i in
        finish_in-keeps order j (sent_by e o i s) (sent_by-Sized o i s h) (ground (arith, out))
          (sent_by-other i j o s refl h (ground (arith, out)) k)

    -- The slices hold, at an index, what the call of its sender has answered.
    abbrev pub Told : Sends e.World → ℕ → ℕ → Type 0
    Told s i b = (w : e.World) × Wrote s i (e.submit_and_confirm b w).0

    Wrote-keeps :
        (order : List ℕ) (i : ℕ) (r : Reply (ℕ × ℕ)) (s : Sends e.World)
        → Sized n s
        → elem i order ≡ false
        → Wrote s i r
        → Wrote (finish_in e senders order s) i r
    Wrote-keeps order i (err x) s h out k = finish_in-keeps order i s h out k
    Wrote-keeps order i (ok (receipt, tx)) s h out k = finish_in-keeps order i s h out k

    here-Told :
        (order : List ℕ) (i b : ℕ) (o : Option ℕ) (s : Sends e.World)
        → o ≡ some b
        → i < n
        → Sized n s
        → elem i order ≡ false
        → At s i none none none
        → Told (finish_in e senders order (sent_by e o i s)) i b
    here-Told order i b none s there low h out k = absurd (cc)
    here-Told order i b (some c) s there low h out k =
        let (answer, w) = e.submit_and_confirm c s.world in
        let same : c ≡ b = cc in
        let t = record s { world = w } in
        let wrote =
          Wrote-keeps order i answer (stored e i answer t) (stored-Sized i answer t h) out
            (stored-Wrote i answer t h low k) in
        subst (Told (finish_in e senders order (stored e i answer t)) i) same (s.world, wrote)

    pub finish_in-Told :
        (order : List ℕ) (i b : ℕ) (s : Sends e.World)
        → get_elem? senders i ≡ some b
        → Sized n s
        → Distinct order
        → elem i order ≡ true
        → At s i none none none
        → Told (finish_in e senders order s) i b
    unfolding finish_in
    finish_in-Told [] i b s there h one inside k = absurd (cc)
    finish_in-Told (j ∷ order) i b s there h (new, one) inside k = elim (Bool-cases (i == j)) [
      | inl here ↦
          let same : i ≡ j = ground (arith, here) in
          let told =
            here-Told order i b (get_elem? senders j) s (ap (get_elem? senders) (sym same) ∙ there)
              (omega (arith, counted, get-below i senders there)) h
              (subst (λ x. elem x order ≡ false) (sym same) new) k in
          let after = λ (x : ℕ). finish_in e senders order (sent_by e (get_elem? senders j) x s) in
          subst (λ x. Told (after x) i b) same told
      | inr apart ↦
          let o = get_elem? senders j in
          finish_in-Told order i b (sent_by e o j s) there (sent_by-Sized o j s h) one
            (ground (arith, inside, apart)) (sent_by-other j i o s refl h apart k)
    ]
