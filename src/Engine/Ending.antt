-- ===== src/Engine/Ending.antt =====
-- engine.go, Flush: that it returns.
use hayabusa_e2e.Prelude.{
  ℕ, ◌+◌, ◌*◌, ◌≡◌, ◌≢◌, ◌≤◌, ◌<◌, ◌⊎◌, inl, inr, refl, sym, subst, Bool, true, false, some, List,
  [], ◌∷◌, if◌then◌else◌, ltb, elem, length, arith, Bool-cases,
}
use hayabusa_e2e.Prelude.Go.{ok}
use hayabusa_e2e.Prelude.Int.{pos}
use hayabusa_e2e.Lifecycle.{Status, rank}
use hayabusa_e2e.Workers.Pool.{
  Pool, Reach, submitted, stepped, submit, start, send_at, work_at, sends,
}
use hayabusa_e2e.Workers.Order.{Reach-Sound}
use hayabusa_e2e.Workers.Callers.{all_left, submit_left, work_left, work-Spares, worked, send-alone}
use hayabusa_e2e.Workers.Lone.{send_left, lone_goes}
use hayabusa_e2e.Engine.Flush.{
  Phase, waiting, submitting, sending, checking, returned, crashed, Flush, sent_at, step_at,
  flush_step, CanGo, Going, rests, moves, serves,
}
use hayabusa_e2e.Engine.Flushed.{Alone, Alone-spared, Alone-submitted}

submit-closed : (x : ℕ) (p : Pool) → (submit x p).closed ≡ p.closed
unfolding submit start
submit-closed x p = elim (Bool-cases p.started) [ inl on ↦ rw on refl | inr off ↦ rw off refl ]

module _ (target : Status) (ids : List ℕ) where
  -- The steps that Flush has left at a place, where every check succeeds.
  abbrev pub to_go : Phase → ℕ
  to_go waiting = 3 + 6 * length ids
  to_go (submitting block rest) = 2 + length ids + 5 * length rest
  to_go (sending block rest) = 2 + length ids + 5 * length rest
  to_go (checking rest processed) = 1 + length rest
  to_go returned = 0
  to_go crashed = 0

  -- The steps that Flush and its pool have left.
  abbrev pub flush_left : Flush → ℕ
  flush_left s = to_go s.phase + all_left s.worker_pool

  abbrev pub AllMet : List ℕ → Flush → Type 0
  AllMet some_ids s = (j : ℕ) → elem j some_ids ≡ true → rank target ≤ rank (s.status j)

  -- A place at which no check has failed.
  abbrev Succeeds : Flush → Phase → Type 0
  Succeeds s waiting = Unit
  Succeeds s (submitting block rest) = Unit
  Succeeds s (sending block rest) = Unit
  Succeeds s (checking rest processed) = (processed ≡ true) × AllMet rest s
  Succeeds s returned = Unit
  Succeeds s crashed = ⊥

  -- On an open pool that has been given some jobs, with every lifecycle at the status asked for.
  abbrev Lives : Phase → Flush → Type 0
  Lives f s =
      Succeeds s f
      × AllMet ids s
      × Alone f s.worker_pool
      × (s.worker_pool.closed ≡ false)
      × ((given : List ℕ) × Reach (pos 10) given s.worker_pool)

  -- What a step leaves: fewer steps, of a state of the same kind.
  abbrev Lowers : ℕ → Flush → Type 0
  Lowers n t = (flush_left t < n) × Lives t.phase t

  sent-Lowers :
      (block : ℕ) (rest : List ℕ) (s : Flush) (t : Pool)
      → send_at 0 s.worker_pool ≡ some t
      → Lives (sending block rest) s
      → Lowers
          (to_go (sending block rest) + all_left s.worker_pool)
          (sent_at target ids (some t) block rest s)
  sent-Lowers block rest s t e (yes_, met, (x, alone), open_, (given, r)) =
      let (fewer, still, calm) = send_left s.worker_pool r open_ t e in
      through t.panicked refl calm fewer still
    where
      through :
          (dead : Bool)
          → t.panicked ≡ dead
          → dead ≡ false
          → all_left t < all_left s.worker_pool
          → t.closed ≡ false
          → Lowers (to_go (sending block rest) + all_left s.worker_pool) (record s {
            phase = if dead then crashed else submitting block rest;
            worker_pool = t;
          })
      through true dead calm fewer still = absurd (cc)
      through false alive calm fewer still = (
        omega (arith, fewer),
        (
          tt,
          met,
          send-alone s.worker_pool t x alone e alive,
          still,
          (given, stepped r (sends 0 e)),
        ),
      )

  step-Lowers :
      (f : Phase) (block : ℕ) (s : Flush)
      → CanGo target ids f s.worker_pool
      → Lives f s
      → Lowers (to_go f + all_left s.worker_pool) (step_at target ids f (ok block) s)
  unfolding step_at
  step-Lowers waiting block s can (_, met, alone, open_, reached) =
      (omega arith, (tt, met, alone, open_, reached))
  step-Lowers (submitting b []) block s can (_, met, alone, open_, reached) =
      (omega arith, ((refl, met), met, alone, open_, reached))
  step-Lowers (submitting b (x ∷ rest)) block s can (_, met, alone, open_, (given, r)) = (
    omega (arith, submit_left x s.worker_pool),
    (
      tt,
      met,
      (x, Alone-submitted x s.worker_pool alone),
      rw (submit-closed x s.worker_pool) open_,
      (x ∷ given, submitted x r),
    ),
  )
  step-Lowers (sending b rest) block s (t, e) h = rw e (sent-Lowers b rest s t e h)
  step-Lowers (checking [] processed) block s can ((good, _), met, alone, open_, reached) =
      rw good (omega arith, (tt, met, alone, open_, reached))
  step-Lowers (checking (x ∷ rest) processed) block s can ((good, m), met, alone, open_, reached) =
      let high : ltb (rank (s.status x)) (rank target) ≡ false = ground (arith, m x) in
      (
        omega arith,
        ((rw (high, good) refl, λ j i. m j (ground (arith, i))), met, alone, open_, reached),
      )
  step-Lowers returned block s can h = absurd can
  step-Lowers crashed block s can h = absurd can

  -- The goroutine of Flush or one of the pool can take a step.
  abbrev pub SomeGoes : Flush → Type 0
  SomeGoes s =
      CanGo target ids s.phase s.worker_pool
      ⊎ ((i : ℕ) × (t : Pool) × (work_at i s.worker_pool ≡ some t))

  goes_on :
      (f : Phase) (s : Flush)
      → Lives f s
      → (f ≡ returned)
        ⊎ (CanGo target ids f s.worker_pool
            ⊎ ((i : ℕ) × (t : Pool) × (work_at i s.worker_pool ≡ some t)))
  goes_on waiting s h = inr (inl tt)
  goes_on (submitting block rest) s h = inr (inl tt)
  goes_on (sending block rest) s (_, met, (x, alone), open_, (given, r)) =
      inr (lone_goes s.worker_pool r open_ x alone)
  goes_on (checking rest processed) s h = inr (inl tt)
  goes_on returned s h = inl refl
  goes_on crashed s h = absurd h.0

  served-Succeeds :
      (f : Phase) (s : Flush) (t : Pool) → Succeeds s f → Succeeds (record s { worker_pool = t }) f
  served-Succeeds waiting s t h = h
  served-Succeeds (submitting block rest) s t h = h
  served-Succeeds (sending block rest) s t h = h
  served-Succeeds (checking rest processed) s t h = h
  served-Succeeds returned s t h = h
  served-Succeeds crashed s t h = h

  Going-Lives :
      (k : ℕ) (s t : Flush)
      → Going target ids k s t
      → Lives s.phase s
      → (k + flush_left t ≤ flush_left s) × Lives t.phase t
  unfolding flush_step
  Going-Lives k s t (rests s') h = (omega arith, h)
  Going-Lives k s t (moves block can more) h =
      let (fewer, lives) = step-Lowers s.phase block s can h in
      let (less, end) = Going-Lives _ _ t more lives in (omega (arith, fewer, less), end)
  Going-Lives k s t (serves i {t = p} e more) (good, met, alone, open_, (given, r)) =
      let (fewer, still) =
        work_left given i s.worker_pool p (Reach-Sound (pos 10) given s.worker_pool r) open_ e in
      let (same, _) = work-Spares i s.worker_pool p e in
      let (less, end) =
        Going-Lives _ (record s { worker_pool = p }) t more
          (
            served-Succeeds s.phase s p good,
            met,
            Alone-spared s.phase s.worker_pool p same alone,
            still,
            (given, worked i r e),
          ) in
      (omega (arith, fewer, less), end)

  -- From its wait for a block, on an open pool at which no caller stands, with every lifecycle at the
  -- status that was asked for, in whatever order Flush, which the ticker gives blocks, and the
  -- goroutines of the pool go on: there are no more steps than three, six for each lifecycle and those
  -- that the pool had left, none of them panics in Flush or in the pool, and until Flush has returned
  -- another step is possible.
  pub flush_ends :
      (jobs : List ℕ) (k : ℕ) (s t : Flush)
      → Reach (pos 10) jobs s.worker_pool
      → s.worker_pool.blocked ≡ []
      → s.worker_pool.closed ≡ false
      → s.phase ≡ waiting
      → AllMet ids s
      → Going target ids k s t
      → (k ≤ 3 + 6 * length ids + all_left s.worker_pool)
        × (t.worker_pool.panicked ≡ false)
        × (t.phase ≢ crashed)
        × ((t.phase ≡ returned) ⊎ SomeGoes t)
  flush_ends jobs k s t r alone open_ at_wait met going =
      let start_Lives : Lives s.phase s =
        subst (λ f. Lives f s) (sym at_wait) (tt, met, alone, open_, (jobs, r)) in
      let (bound, lives) = Going-Lives k s t going start_Lives in
      let (good, _, _, still, (given, reached)) = lives in
      let begun : to_go s.phase ≡ 3 + 6 * length ids = rw at_wait refl in
      (
        omega (arith, bound, begun),
        (Reach-Sound (pos 10) given t.worker_pool reached).calm still,
        λ e. subst (λ f. Succeeds t f) e good,
        goes_on t.phase t lives,
      )
