-- ===== src/Workers/Callers.antt =====
-- worker_pool.go: what a goroutine of the pool leaves alone, and what the send of a lone caller does.
use hayabusa_e2e.Prelude.{
  ℕ, zero, suc, ◌+◌, ◌*◌, ◌≡◌, ◌<◌, ◌≤◌, refl, inl, inr, true, false, none, some, List, [], ◌∷◌,
  arith, length, get_elem?, if◌then◌else◌, if-case, ltb, Option-cases, Bool-cases, length-append,
}
use hayabusa_e2e.Prelude.Int.{ℤ}
use hayabusa_e2e.Workers.Pool.{
  Worker, receiving, executing, signalling, exited, Pool, replicate, start, submit, panic, send_at,
  worker, work_at, works, set_at, Reach, stepped,
}
use hayabusa_e2e.Workers.Counts.{total}
use hayabusa_e2e.Workers.Sound.{Sound, Holds}
use hayabusa_e2e.Workers.Order.{Holds-some, off-no_worker}
use hayabusa_e2e.Workers.Steps.{left, steps_left, step-Lowers}

-- The callers and whether it is started are the same.
abbrev pub Spares : Pool → Pool → Type 0
Spares s t = (t.blocked ≡ s.blocked) × (t.started ≡ s.started)

worker-Spares : (i : ℕ) (w : Worker) (s : Pool) → Holds (Spares s) (worker i w s)
unfolding worker
worker-Spares i receiving s = from_queue s.queue
  where
    from_queue :
        (q : List ℕ)
        → Holds (Spares s) (elim q [
          | [] ↦ if s.closed then some (record s { workers = set_at i exited s.workers }) else none
          | job ∷ rest ↦
              some (record s { queue = rest; workers = set_at i (executing job) s.workers })
        ])
    from_queue [] = if-case (Holds (Spares s)) s.closed _ none (λ over. (refl, refl)) (λ open_. tt)
    from_queue (job ∷ rest) = (refl, refl)
worker-Spares i (executing job) s = (refl, refl)
worker-Spares i signalling s = signalled s.wait_group
  where
    signalled :
        (n : ℕ)
        → Holds (Spares s) (elim n [
          | zero ↦ some (panic s)
          | suc m ↦ some (record s { wait_group = m; workers = set_at i receiving s.workers })
        ])
    signalled zero = (refl, refl)
    signalled (suc n) = (refl, refl)
worker-Spares i exited s = tt

pub work-Spares : (i : ℕ) (s t : Pool) → work_at i s ≡ some t → Spares s t
unfolding work_at
work-Spares i s t e =
    Holds-some (Spares s) (work_at i s) t
      (elim (Option-cases (get_elem? s.workers i)) [
        | inl nobody ↦ rw (Holds, nobody) tt
        | inr (w, here) ↦ rw (Holds, here) (worker-Spares i w s)
      ])
      e

pub worked :
    {n : ℤ} {jobs : List ℕ} {s t : Pool} (i : ℕ)
    → Reach n jobs s
    → work_at i s ≡ some t
    → Reach n jobs t
worked i r e = stepped r (works i e)

-- A pool that is not started has no goroutine to take a step.
pub work-started :
    (jobs : List ℕ) (i : ℕ) (s t : Pool) → Sound jobs s → work_at i s ≡ some t → s.started ≡ true
unfolding work_at
work-started jobs i s t h e = elim (Bool-cases s.started) [
  | inl on ↦ on
  | inr off ↦ elim (Option-cases (get_elem? s.workers i)) [
    | inl nobody ↦ cc (rw (work_at, nobody) at e)
    | inr (w, here) ↦ absurd (off-no_worker jobs s i h here off)
  ]
]

-- A lone caller that has sent its job is through, unless the send has panicked.
pub send-alone :
    (s t : Pool) (x : ℕ)
    → s.blocked ≡ x ∷ []
    → send_at 0 s ≡ some t
    → t.panicked ≡ false
    → t.blocked ≡ []
unfolding send_at
send-alone s t x alone e =
    let P = λ (u : Pool). u.panicked ≡ false → u.blocked ≡ [] in
    Holds-some P (send_at 0 s) t
      (rw (Holds, alone)
        (if-case (Holds P) s.closed _ _ (λ over k. cc)
          (λ open_.
            if-case (Holds P) (ltb (length s.queue) (s.max_workers * 2)) _ _
              (λ room k. rw alone refl) (λ full. tt))))
      e

-- There is no other caller than a lone one.
pub send-first :
    (s t : Pool) (x i : ℕ) → s.blocked ≡ x ∷ [] → send_at i s ≡ some t → send_at 0 s ≡ some t
unfolding send_at
send-first s t x zero alone e = e
send-first s t x (suc i) alone e = cc (rw alone at e)

-- The steps that a pool has left, with those of the goroutines that it has still to start.
abbrev pub all_left : Pool → ℕ
all_left s = steps_left s + (if s.started then 0 else s.max_workers)

total-receiving : (n : ℕ) → total left (replicate n receiving) ≡ n
total-receiving zero = refl
total-receiving (suc n) = omega (arith, total-receiving n)

pub submit_left : (x : ℕ) (s : Pool) → all_left (submit x s) ≤ all_left s + 4
unfolding submit start
submit_left x s = elim (Bool-cases s.started) [
  | inl on ↦ rw on (omega (arith, length-append s.blocked (x ∷ [])))
  | inr off ↦
      rw off (omega (arith, length-append s.blocked (x ∷ []), total-receiving s.max_workers))
]

pub work_left :
    (jobs : List ℕ) (i : ℕ) (s t : Pool)
    → Sound jobs s
    → s.closed ≡ false
    → work_at i s ≡ some t
    → (all_left t < all_left s) × (t.closed ≡ false)
work_left jobs i s t h after e =
    let (lower, still) = step-Lowers jobs s t h after (works i e) in
    let on = work-started jobs i s t h e in
    let (_, same) = work-Spares i s t e in (rw (on, same, on) (omega arith), still)
