-- ===== src/Cleanup/Pages.antt =====
-- delegations.go: the paged search against one query of all identifiers.
use hayabusa_e2e.Prelude.{
  append_assoc, append-nil, ℕ, zero, suc, ◌+◌, ◌-◌, ◌*◌, ◌≡◌, ◌≤◌, ◌<◌, refl, inl, inr, Bool, false,
  List, [], ◌∷◌, ◌++◌, ltb, leb, leb→le, ltb→le, ◌⊎◌, Bool-cases, if◌then◌else◌, arith, ap, ◌∙◌,
}
use hayabusa_e2e.Prelude.Go.{ok, returns}
use hayabusa_e2e.Cleanup.Run.{Chain, Cleanup, Found, page_end, search, page_fetched}

-- So many identifiers from one on.
abbrev pub ids_from : ℕ → ℕ → List ℕ
ids_from a zero = []
ids_from a (suc n) = a ∷ ids_from (a + 1) n

abbrev pub chosen : (ℕ → Bool) → List ℕ → List ℕ
chosen p [] = []
chosen p (x ∷ xs) = let rest = chosen p xs in if p x then x ∷ rest else rest

-- The identifiers from one to another of which a predicate holds.
abbrev pub between : (ℕ → Bool) → ℕ → ℕ → List ℕ
between p a b = chosen p (ids_from a (b + 1 - a))

chosen-append : (p : ℕ → Bool) (xs ys : List ℕ) → chosen p (xs ++ ys) ≡ chosen p xs ++ chosen p ys
chosen-append p [] ys = refl
chosen-append p (x ∷ xs) ys = ground (arith, chosen-append p xs ys)

ids_from-append : (a m n : ℕ) → ids_from a (m + n) ≡ ids_from a m ++ ids_from (a + m) n
ids_from-append a zero n =
    let none_first : zero + n ≡ n = omega arith in
    let same : a + zero ≡ a = omega arith in rw (none_first, same) refl
ids_from-append a (suc m) n =
    let one_first : suc m + n ≡ suc (m + n) = omega arith in
    let same : a + suc m ≡ a + 1 + m = omega arith in
    rw (one_first, same) (ap (λ xs. a ∷ xs) (ids_from-append (a + 1) m n))

between-split :
    (p : ℕ → Bool) (a b c : ℕ)
    → a ≤ b + 1
    → b ≤ c
    → between p a c ≡ between p a b ++ between p (b + 1) c
between-split p a b c h k =
    let whole : c + 1 - a ≡ (b + 1 - a) + (c + 1 - (b + 1)) = omega arith in
    let next : a + (b + 1 - a) ≡ b + 1 = omega arith in
    let cut =
      ids_from-append a (b + 1 - a) (c + 1 - (b + 1))
      ∙ ap (λ x. ids_from a (b + 1 - a) ++ ids_from x (c + 1 - (b + 1))) next in
    ap (λ n. chosen p (ids_from a n)) whole
    ∙ ap (chosen p) cut
    ∙ chosen-append p (ids_from a (b + 1 - a)) (ids_from (b + 1) (c + 1 - (b + 1)))

between-empty : (p : ℕ → Bool) (a b : ℕ) → b < a → between p a b ≡ []
between-empty p a b h = let nothing : b + 1 - a ≡ 0 = omega arith in rw nothing refl

-- The last identifier that the contract looks at: of a query for more than a thousand identifiers
-- it answers for the first thousand alone.
abbrev pub answered_to : ℕ → ℕ → ℕ
answered_to a b = if ltb (a + 999) b then a + 999 else b

-- A contract that tells of each identifier whether it is locked and whether it can be withdrawn, as
-- far as it looks.
abbrev pub Tells : (e : Chain) → (ℕ → Bool) → (ℕ → Bool) → Type 0
Tells e locked withdrawable =
    (a b : ℕ) (w : e.World)
    → (e.fetch_locked_delegators a b w).0
      ≡ ok (between locked a (answered_to a b), between withdrawable a (answered_to a b))

-- A page is no larger than what the contract answers for.
answered_to-page_end :
    (current last : ℕ) → answered_to current (page_end current last) ≡ page_end current last
unfolding page_end
answered_to-page_end current last = ground arith

page_end-bounds :
    (current last : ℕ)
    → current ≤ last
    → (current ≤ page_end current last)
      × (page_end current last ≤ last)
      × ((page_end current last ≡ last) ⊎ (page_end current last ≡ current + 999))
unfolding page_end
page_end-bounds current last h = elim (Bool-cases (ltb last (current + 999))) [
  | inl short ↦ rw short (h, omega arith, inl refl)
  | inr long ↦ rw long (omega arith, ltb→le _ _ long, inr refl)
]

ltb_of_leb : (a b : ℕ) → leb a b ≡ false → b < a
ltb_of_leb a b h = ground arith

module _ (e : Chain) {L : Type 0} (seen : e.World → L)
    (quiet : (a b : ℕ) (w : e.World) → seen (e.fetch_locked_delegators a b w).1 ≡ seen w)
    (locked withdrawable : ℕ → Bool) (tells : Tells e locked withdrawable) where
  -- What the search has collected once it is done.
  abbrev pub collected : Found → ℕ → ℕ → Found
  collected f current last = record {
    locked = f.locked ++ between locked current last;
    withdrawable = f.withdrawable ++ between withdrawable current last;
  }

  -- The search ends, has collected all there is from one identifier to another, and has sent
  -- nothing that is seen.
  abbrev pub Searched : ℕ → ℕ → ℕ → Found → Cleanup e.World → Type 0
  Searched fuel current last f s =
      (w : e.World) × (seen w ≡ seen s.world)
      × (search e fuel current last f s
          ≡ returns (collected f current last) (record s { world = w }))

  collected-split :
      (f : Found) (a b c : ℕ)
      → a ≤ b + 1
      → b ≤ c
      → collected (collected f a b) (b + 1) c ≡ collected f a c
  collected-split f a b c h k =
      let first = append_assoc f.locked (between locked a b) (between locked (b + 1) c) in
      let second =
        append_assoc f.withdrawable (between withdrawable a b) (between withdrawable (b + 1) c) in
      rw (first, second, between-split locked a b c h k, between-split withdrawable a b c h k) refl

  collected-empty : (f : Found) (a b : ℕ) → b < a → f ≡ collected f a b
  collected-empty f a b h =
      rw
        (
          between-empty locked a b h,
          between-empty withdrawable a b h,
          append-nil f.locked,
          append-nil f.withdrawable,
        )
        refl

  search_round :
      (fuel current last : ℕ) (f : Found) (s : Cleanup e.World)
      → current ≤ last
      → search e (suc fuel) current last f s
        ≡ search e fuel
            (page_end current last + 1)
            last
            (collected f current (page_end current last))
            (record s {
              world = (e.fetch_locked_delegators current (page_end current last) s.world).1;
            })
  unfolding search page_fetched
  search_round fuel current last f s h =
      let whole = answered_to-page_end current last in
      ground (arith, whole, tells current (page_end current last) s.world)

  search_done :
      (fuel current last : ℕ) (f : Found) (s : Cleanup e.World)
      → leb current last ≡ false
      → Searched (suc fuel) current last f s
  unfolding search
  search_done fuel current last f s done = (
    s.world,
    refl,
    rw done (ap (λ g. returns g s) (collected-empty f current last (ltb_of_leb _ _ done))),
  )

  search_more :
      (fuel current last : ℕ) (f : Found) (s : Cleanup e.World)
      → current ≤ last
      → last + 1000 < current + suc fuel * 1000
      → ((c l : ℕ) (g : Found) (t : Cleanup e.World)
          → c ≤ l + 1
          → l + 1000 < c + fuel * 1000
          → Searched fuel c l g t)
      → Searched (suc fuel) current last f s
  search_more fuel current last f s more enough rest =
      let (low, high, cut) = page_end-bounds current last more in
      let left : last + 1000 < page_end current last + 1 + fuel * 1000 = omega arith in
      let (w, same, found) =
        rest (page_end current last + 1) last (collected f current (page_end current last))
          (record s {
            world = (e.fetch_locked_delegators current (page_end current last) s.world).1;
          })
          (omega arith) left in
      (
        w,
        same ∙ quiet current (page_end current last) s.world,
        search_round fuel current last f s more
            ∙ found
            ∙ ap (λ g. returns g (record s { world = w }))
                (collected-split f current (page_end current last) last (omega arith) high),
      )

  -- With fuel for one round more than there are pages.
  pub search_lem :
      (fuel current last : ℕ) (f : Found) (s : Cleanup e.World)
      → current ≤ last + 1
      → last + 1000 < current + fuel * 1000
      → Searched fuel current last f s
  search_lem zero current last f s start enough = absurd (omega arith)
  search_lem (suc fuel) current last f s start enough = elim (Bool-cases (leb current last)) [
    | inl more ↦ search_more fuel current last f s (leb→le _ _ more) enough (search_lem fuel)
    | inr done ↦ search_done fuel current last f s done
  ]
