-- ===== src/Cleanup/Failures.antt =====
-- delegations.go: rounds whose query of the contract fails. `Add` writes the first identifier of a
-- round to `previousCleaned` before the query.
use hayabusa_e2e.Prelude.{
  ℕ, zero, suc, ◌+◌, ◌≡◌, ◌≤◌, leb, subst, refl, sym, true, some, List, [], ◌∷◌, arith,
}
use hayabusa_e2e.Prelude.Go.{Error, ok, err, Outcome, returns, fails, panics, diverges}
use hayabusa_e2e.Prelude.Results.{fails-bind}
use hayabusa_e2e.Cleanup.Run.{
  Chain, Cleanup, Found, page_end, first_id, page_fetched, search, events_found, run,
}

-- What is left of the cleanup after a round, whether it returned or failed.
abbrev pub left : {A S : Type 0} → S → Outcome A S → S
left s (returns a t) = t
left s (fails x t) = t
left s panics = s
left s diverges = s

-- So many rounds, each after the one before it.
abbrev pub rounds : (e : Chain) → ℕ → ℕ → Cleanup e.World → Cleanup e.World
rounds e fuel zero s = s
rounds e fuel (suc n) s = let t = left s (run e fuel true s) in rounds e fuel n t

module _ (e : Chain) (last : ℕ) (more : List ℕ) (x : Error)
    (added : (w : e.World) → (e.filter_delegation_added w).0 ≡ ok (last ∷ more))
    (down : (a b : ℕ) (w : e.World) → (e.fetch_locked_delegators a b w).0 ≡ err x) where
  search_fails :
      (fuel current : ℕ) (f : Found) (s : Cleanup e.World)
      → current ≤ last
      → search e (suc fuel) current last f s
        ≡ fails x (record s {
          world = (e.fetch_locked_delegators current (page_end current last) s.world).1;
        })
  unfolding search page_fetched
  search_fails fuel current f s inside =
      let more_pages : leb current last ≡ true = ground arith in
      rw (more_pages, down current (page_end current last) s.world) refl

  round_fails :
      (fuel p : ℕ) (v : e.World)
      → p + 1 ≤ last
      → (w : e.World) × (run e (suc fuel) true (record { previous_cleaned = some p; world = v })
          ≡ fails x (record { previous_cleaned = some (p + 1); world = w }))
  unfolding run events_found first_id
  round_fails fuel p v inside =
      let w = (e.filter_delegation_added v).1 in
      (
        (e.fetch_locked_delegators (p + 1) (page_end (p + 1) last) w).1,
        rw (added v) (
            fails-bind
              (search e (suc fuel) (p + 1) last (record { locked = []; withdrawable = [] })) _ _ _ _
              (search_fails fuel (p + 1) (record { locked = []; withdrawable = [] })
                (record { previous_cleaned = some (p + 1); world = w }) inside)),
      )

  rounds_from :
      (fuel n p : ℕ) (v : e.World)
      → p + n ≤ last
      → (rounds e (suc fuel) n (record { previous_cleaned = some p; world = v })).previous_cleaned
        ≡ some (p + n)
  rounds_from fuel zero p v inside = let none_more : p + 0 ≡ p = omega arith in rw none_more refl
  rounds_from fuel (suc n) p v inside =
      let (w, failed) = round_fails fuel p v (omega arith) in
      let count : p + suc n ≡ p + 1 + n = omega arith in
      rw (rounds, failed, count) (rounds_from fuel n (p + 1) w (omega arith))

  -- While the contract cannot be queried, each round returns an error, and yet the number of the
  -- last delegation that is noted as cleaned goes up by one a round, up to the last delegation: the
  -- rounds that follow start after delegations that no round has looked at.
  pub failures_lem :
      (fuel n p : ℕ) (s : Cleanup e.World)
      → s.previous_cleaned ≡ some p
      → p + n ≤ last
      → (rounds e (suc fuel) n s).previous_cleaned ≡ some (p + n)
  failures_lem fuel n p s h inside =
      subst
        (λ o.
          (rounds e (suc fuel) n
            (record { previous_cleaned = o; world = s.world })).previous_cleaned
          ≡ some (p + n))
        (sym h) (rounds_from fuel n p s.world inside)
