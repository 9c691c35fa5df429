-- ===== src/Engine/Flushed.antt =====
-- engine.go, Flush: where it returns.
use hayabusa_e2e.Prelude.{
  ℕ, ◌+◌, ◌≡◌, ◌≤◌, ◌⊎◌, inl, inr, refl, sym, subst, ◌∙◌, Bool, true, false, Option, none, some,
  List, [], ◌∷◌, if◌then◌else◌, ltb, elem, Distinct, arith, ◌==◌, Bool-cases, ltb→le, ap,
}
use hayabusa_e2e.Prelude.Go.{Reply, ok, err}
use hayabusa_e2e.Prelude.Int.{pos}
use hayabusa_e2e.Lifecycle.{Status, rank}
use hayabusa_e2e.Workers.Pool.{Pool, Reach, submitted, stepped, submit, start, send_at, sends}
use hayabusa_e2e.Workers.Counts.{count, total}
use hayabusa_e2e.Workers.Sound.{doing}
use hayabusa_e2e.Workers.Order.{Reach-Sound}
use hayabusa_e2e.Workers.Callers.{work-Spares, send-alone, worked}
use hayabusa_e2e.Engine.Flush.{
  Phase, waiting, submitting, sending, checking, returned, crashed, Flush, sent_at, step_at,
  flush_step, Flushing, enters, goes, works, rises,
}

count-missing : (id : ℕ) (ids : List ℕ) → elem id ids ≡ false → count id ids ≡ 0
count-missing id [] h = refl
count-missing id (x ∷ ids) h = ground (arith, h, count-missing id ids)

count-elem : (id : ℕ) (ids : List ℕ) → Distinct ids → elem id ids ≡ true → count id ids ≡ 1
count-elem id [] h i = cc
count-elem id (x ∷ ids) (new, h) i =
    ground (arith, new, i, count-elem id ids h, count-missing id ids)

abbrev Met : Status → Flush → ℕ → Type 0
Met target s id = rank target ≤ rank (s.status id)

-- What holds of a lifecycle at each place of the loop, with how often the jobs held it before, and
-- the jobs that the pool has been given since it was made.
abbrev Place : Status → ℕ → List ℕ → Flush → ℕ → Phase → Type 0
Place target before given s id waiting = count id given ≡ before + s.blocks
Place target before given s id (submitting block rest) =
    (1 ≤ s.blocks) × (count id given + count id rest ≡ before + s.blocks)
Place target before given s id (sending block rest) =
    (1 ≤ s.blocks) × (count id given + count id rest ≡ before + s.blocks)
Place target before given s id (checking rest processed) =
    (1 ≤ s.blocks)
    × (count id given ≡ before + s.blocks)
    × (processed ≡ true → (elem id rest ≡ true) ⊎ Met target s id)
Place target before given s id returned =
    (1 ≤ s.blocks) × (count id given ≡ before + s.blocks) × Met target s id
Place target before given s id crashed = Unit

-- No caller stands at the channel, but the goroutine with the job that it sends.
abbrev pub Alone : Phase → Pool → Type 0
Alone waiting p = p.blocked ≡ []
Alone (submitting block rest) p = p.blocked ≡ []
Alone (sending block rest) p = (x : ℕ) × (p.blocked ≡ x ∷ [])
Alone (checking rest processed) p = p.blocked ≡ []
Alone returned p = p.blocked ≡ []
Alone crashed p = Unit

pub Alone-spared : (f : Phase) (p q : Pool) → q.blocked ≡ p.blocked → Alone f p → Alone f q
Alone-spared waiting p q same h = same ∙ h
Alone-spared (submitting block rest) p q same h = same ∙ h
Alone-spared (sending block rest) p q same (x, h) = (x, same ∙ h)
Alone-spared (checking rest processed) p q same h = same ∙ h
Alone-spared returned p q same h = same ∙ h
Alone-spared crashed p q same h = tt

pub Alone-submitted : (x : ℕ) (p : Pool) → p.blocked ≡ [] → (submit x p).blocked ≡ x ∷ []
unfolding submit start
Alone-submitted x p h = elim (Bool-cases p.started) [
  | inl on ↦ rw (on, h) refl
  | inr off ↦ rw (off, h) refl
]

check_next :
    (target : Status) (s : Flush) (id x : ℕ) (rest : List ℕ) (processed : Bool)
    → (processed ≡ true → (elem id (x ∷ rest) ≡ true) ⊎ Met target s id)
    → (if ltb (rank (s.status x)) (rank target) then false else processed) ≡ true
    → (elem id rest ≡ true) ⊎ Met target s id
check_next target s id x rest processed h e =
    elim (Bool-cases (ltb (rank (s.status x)) (rank target))) [
      | inl low ↦ cc (rw low at e)
      | inr met ↦ elim (h (rw met at e)) [
        | inr done ↦ inr done
        | inl left ↦ elim (Bool-cases (id == x)) [
          | inl here ↦
              let same : id ≡ x = ground (arith, here) in
              inr (subst (λ j. rank target ≤ rank (s.status j)) (sym same) (ltb→le _ _ met))
          | inr other ↦ inl (ground (arith, left, other))
        ]
      ]
    ]

module _ (target : Status) (ids : List ℕ) (distinct : Distinct ids) (before id : ℕ)
    (held : elem id ids ≡ true) where
  -- The jobs that the pool has been given, with what holds of the lifecycle at a place.
  abbrev Stands : Phase → Flush → Type 0
  Stands f s =
      (given : List ℕ) × Place target before given s id f
      × Alone f s.worker_pool
      × Reach (pos 10) given s.worker_pool

  sent-Stands :
      (block : ℕ) (rest : List ℕ) (s : Flush) (o : Option Pool)
      → s.phase ≡ sending block rest
      → send_at 0 s.worker_pool ≡ o
      → Stands (sending block rest) s
      → Stands (sent_at target ids o block rest s).phase (sent_at target ids o block rest s)
  sent-Stands block rest s none e k h = rw e h
  sent-Stands block rest s (some t) e k (given, place, (x, alone), r) = through t.panicked refl
    where
      through :
          (dead : Bool)
          → t.panicked ≡ dead
          → Stands (if dead then crashed else submitting block rest) (record s {
            phase = if dead then crashed else submitting block rest;
            worker_pool = t;
          })
      through true dead = (given, tt, tt, stepped r (sends 0 k))
      through false alive =
          (given, place, send-alone s.worker_pool t x alone k alive, stepped r (sends 0 k))

  step-Stands :
      (f : Phase) (best : Reply ℕ) (s : Flush)
      → s.phase ≡ f
      → Stands f s
      → Stands (step_at target ids f best s).phase (step_at target ids f best s)
  unfolding step_at
  step-Stands waiting (err x) s e h = rw e h
  step-Stands waiting (ok block) s e (given, times, alone, r) =
      (given, (omega arith, omega (arith, count-elem id ids distinct held)), alone, r)
  step-Stands (submitting block []) best s e (given, (b, times), alone, r) =
      (given, (b, omega arith, λ all. inl held), alone, r)
  step-Stands (submitting block (x ∷ rest)) best s e (given, (b, times), alone, r) =
      (x ∷ given, (b, omega arith), (x, Alone-submitted x s.worker_pool alone), submitted x r)
  step-Stands (sending block rest) best s e h =
      sent-Stands block rest s (send_at 0 s.worker_pool) e refl h
  step-Stands (checking [] true) best s e (given, (b, times, all), alone, r) =
      (given, (b, times, elim (all refl) [ inl none_left ↦ cc | inr met ↦ met ]), alone, r)
  step-Stands (checking [] false) best s e (given, (b, times, all), alone, r) =
      (given, times, alone, r)
  step-Stands (checking (x ∷ rest) processed) best s e (given, (b, times, all), alone, r) =
      (given, (b, times, check_next target s id x rest processed all), alone, r)
  step-Stands returned best s e h = rw e h
  step-Stands crashed best s e h = rw e h

  risen-Place :
      (f : Phase) (given : List ℕ) (s : Flush) (status : ℕ → Status)
      → ((j : ℕ) → rank (s.status j) ≤ rank (status j))
      → Place target before given s id f
      → Place target before given (record s { status = status }) id f
  risen-Place waiting given s status up h = h
  risen-Place (submitting block rest) given s status up h = h
  risen-Place (sending block rest) given s status up h = h
  risen-Place (checking rest processed) given s status up (b, times, h) = (
    b,
    times,
    λ e. elim (h e) [ inl left ↦ inl left | inr met ↦ inr (omega (arith, up id, met)) ],
  )
  risen-Place returned given s status up (b, times, met) = (b, times, omega (arith, up id, met))
  risen-Place crashed given s status up h = tt

  pooled-Place :
      (f : Phase) (given : List ℕ) (s : Flush) (t : Pool)
      → Place target before given s id f
      → Place target before given (record s { worker_pool = t }) id f
  pooled-Place waiting given s t h = h
  pooled-Place (submitting block rest) given s t h = h
  pooled-Place (sending block rest) given s t h = h
  pooled-Place (checking rest processed) given s t h = h
  pooled-Place returned given s t h = h
  pooled-Place crashed given s t h = tt

module _ (target : Status) (ids : List ℕ) (distinct : Distinct ids) (jobs : List ℕ) (id : ℕ)
    (held : elem id ids ≡ true) where
  Flushing-Stands :
      (s : Flush)
      → Flushing target ids jobs s
      → Stands target ids distinct (count id jobs) id held s.phase s
  unfolding flush_step
  Flushing-Stands s (enters status r alone) = (jobs, omega arith, alone, r)
  Flushing-Stands s (goes best {s = before} f) =
      step-Stands target ids distinct (count id jobs) id held before.phase best before refl
        (Flushing-Stands before f)
  Flushing-Stands s (works i {s = before} {t = t} f e) =
      let (given, place, alone, r) = Flushing-Stands before f in
      let (same, _) = work-Spares i before.worker_pool t e in
      (
        given,
        pooled-Place target ids distinct (count id jobs) id held before.phase given before t place,
        Alone-spared before.phase before.worker_pool t same alone,
        worked i r e,
      )
  Flushing-Stands s (rises status {s = before} f up) =
      let (given, place, alone, r) = Flushing-Stands before f in
      (
        given,
        risen-Place target ids distinct (count id jobs) id held before.phase given before status up
            place,
        alone,
        r,
      )

  -- Where Flush has returned, in any order of its steps, of those of the pool's goroutines and of
  -- changes that set no status back: each lifecycle of the engine has at least the status that was
  -- asked for, the ticker has given at least one block, and the jobs for the lifecycle that are in
  -- the pool's channel, taken by a goroutine, or called, are those that the pool had been given
  -- before and one more for each block.
  pub flush_lem :
      (s : Flush)
      → Flushing target ids jobs s
      → s.phase ≡ returned
      → (rank target ≤ rank (s.status id))
        × (1 ≤ s.blocks)
        × (count id s.worker_pool.queue
              + total (doing id) s.worker_pool.workers
              + count id s.worker_pool.executed
            ≡ count id jobs + s.blocks)
  flush_lem s f over =
      let (given, place, alone, r) =
        subst (λ p. Stands target ids distinct (count id jobs) id held p s) over
          (Flushing-Stands s f) in
      let (b, times, met) = place in
      let through : count id s.worker_pool.blocked ≡ 0 = ap (count id) alone in
      (met, b, omega (arith, times, through, (Reach-Sound (pos 10) given s.worker_pool r).kept id))
