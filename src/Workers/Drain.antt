-- ===== src/Workers/Drain.antt =====
-- worker_pool.go: a pool that is open always goes on, and comes to an end.
use hayabusa_e2e.Prelude.{
  ℕ, zero, suc, ◌+◌, ◌*◌, ◌≡◌, ◌≤◌, ◌<◌, refl, ◌⊎◌, inl, inr, false, true, ltb→le, none, some, List,
  [], ◌∷◌, ◌++◌, arith, length, get_elem?, if◌then◌else◌, ltb, ltb→lt, lt→ltb, Bool-cases,
}
use hayabusa_e2e.Prelude.Int.{ℤ}
use hayabusa_e2e.Workers.Pool.{
  Worker, receiving, executing, signalling, exited, Pool, set_at, panic, send_at, worker, work_at,
  Waited, Step, sends, works, Reach, stepped, remove_at,
}
use hayabusa_e2e.Workers.Counts.{total, total-remove, total-positive}
use hayabusa_e2e.Workers.Sound.{busy, gone, Sound}
use hayabusa_e2e.Workers.Order.{Reach-Sound}
use hayabusa_e2e.Workers.Steps.{steps_left, step-Lowers}

signal_goes :
    (s : Pool) (i n : ℕ)
    → (t : Pool) × ((elim n [
      | zero ↦ some (panic s)
      | suc m ↦ some (record s { wait_group = m; workers = set_at i receiving s.workers })
    ])
        ≡ some t)
signal_goes s i zero = (panic s, refl)
signal_goes s i (suc m) =
    (record s { wait_group = m; workers = set_at i receiving s.workers }, refl)

-- A worker that is not at the receive can go on, and so can one that finds a job there.
worker_goes :
    (s : Pool) (i : ℕ) (w : Worker)
    → (0 < busy w) ⊎ ((0 < length s.queue) × (gone w ≡ 0))
    → (t : Pool) × (worker i w s ≡ some t)
unfolding worker
worker_goes s i receiving (inl h) = absurd (omega arith)
worker_goes s i receiving (inr h) = from_queue s.queue h.0
  where
    from_queue :
        (q : List ℕ)
        → 0 < length q
        → (t : Pool) × ((elim q [
          | [] ↦ if s.closed then some (record s { workers = set_at i exited s.workers }) else none
          | job ∷ rest ↦
              some (record s { queue = rest; workers = set_at i (executing job) s.workers })
        ])
            ≡ some t)
    from_queue [] k = absurd (omega arith)
    from_queue (job ∷ rest) k =
        (record s { queue = rest; workers = set_at i (executing job) s.workers }, refl)
worker_goes s i (executing job) h =
    (record s { executed = job ∷ s.executed; workers = set_at i signalling s.workers }, refl)
worker_goes s i signalling h = signal_goes s i s.wait_group
worker_goes s i exited (inl h) = absurd (omega arith)
worker_goes s i exited (inr (_, here)) = absurd (omega arith)

works_on :
    (s : Pool) (i : ℕ) (w : Worker)
    → get_elem? s.workers i ≡ some w
    → (0 < busy w) ⊎ ((0 < length s.queue) × (gone w ≡ 0))
    → (t : Pool) × Step s t
unfolding work_at
works_on s i w here h = let (t, e) = worker_goes s i w h in (t, works i (rw (work_at, here) e))

first {ℓ} : {A : Type ℓ} (xs : List A) → 0 < length xs → (x : A) × (get_elem? xs 0 ≡ some x)
first [] h = absurd (omega arith)
first (x ∷ xs) h = (x, refl)

-- With a job in the queue, the first worker can go on.
queue_goes :
    (jobs : List ℕ) (s : Pool)
    → Sound jobs s
    → s.closed ≡ false
    → s.started ≡ true
    → 0 < length s.queue
    → (t : Pool) × Step s t
queue_goes jobs s h after on some_queued =
    let (w, here) = first s.workers (omega (arith, h.staffed on, h.manned)) in
    works_on s 0 w here
      (inr (some_queued, omega (arith, h.open_workers after, total-remove gone 0 s.workers here)))

-- With a job that is not in the queue yet, its caller can go on if the queue is empty.
blocked_goes :
    (jobs : List ℕ) (s : Pool)
    → Sound jobs s
    → s.closed ≡ false
    → length s.queue ≡ 0
    → 0 < length s.blocked
    → (t : Pool) × Step s t
unfolding send_at
blocked_goes jobs s h after nothing some_blocked =
    let (job, here) = first s.blocked some_blocked in
    let room : ltb (length s.queue) (s.max_workers * 2) ≡ true =
      lt→ltb _ _ (omega (arith, h.manned)) in
    (
      record s { queue = s.queue ++ (job ∷ []); blocked = remove_at 0 s.blocked },
      sends 0 (rw (send_at, here) (simp (after, room) refl)),
    )

idle_or_started : (jobs : List ℕ) (s : Pool) → Sound jobs s → Waited s ⊎ (s.started ≡ true)
idle_or_started jobs s h = elim (Bool-cases s.started) [
  | inl on ↦ inr on
  | inr off ↦ inl (h.idle off).0
]

goes_on :
    (jobs : List ℕ) (s : Pool)
    → Sound jobs s
    → s.closed ≡ false
    → Waited s ⊎ ((t : Pool) × Step s t)
goes_on jobs s h after = elim (idle_or_started jobs s h) [
  | inl over ↦ inl over
  | inr on ↦ elim (Bool-cases (ltb 0 (total busy s.workers))) [
    | inl some_busy ↦
        let (i, w, here, going) = total-positive busy s.workers (ltb→lt _ _ some_busy) in
        inr (works_on s i w here (inl going))
    | inr none_busy ↦ elim (Bool-cases (ltb 0 (length s.queue))) [
      | inl some_queued ↦ inr (queue_goes jobs s h after on (ltb→lt _ _ some_queued))
      | inr none_queued ↦ elim (Bool-cases (ltb 0 (length s.blocked))) [
        | inl some_blocked ↦
            inr (blocked_goes jobs s h after (omega (arith, ltb→le)) (ltb→lt _ _ some_blocked))
        | inr none_blocked ↦ inl (omega (arith, ltb→le, h.counted))
      ]
    ]
  ]
]

-- So many steps, one after the other.
pub data Run : ℕ → Pool → Pool → Type 0 where
  rests : (s : Pool) → Run 0 s s
  goes : {k : ℕ} {s t u : Pool} → Step s t → Run k t u → Run (suc k) s u

-- From a state that a pool that is open reaches, with no job submitted and no close in between, in
-- whatever order the goroutines and the callers go on: the steps are no more than those that the
-- state has left, none of them panics, and as long as a wait cannot return another step is possible.
pub drain_lem :
    (n : ℤ) (jobs : List ℕ) (k : ℕ) (s t : Pool)
    → Reach n jobs s
    → s.closed ≡ false
    → Run k s t
    → (k + steps_left t ≤ steps_left s)
      × (t.panicked ≡ false)
      × (Waited t ⊎ ((u : Pool) × Step t u))
drain_lem n jobs k s t r after (rests s') =
    let h = Reach-Sound n jobs s r in (omega arith, h.calm after, goes_on jobs s h after)
drain_lem n jobs k s t r after (goes e more) =
    let (lower, still) = step-Lowers jobs _ _ (Reach-Sound n jobs s r) after e in
    let (less, calm, on) = drain_lem n jobs _ _ t (stepped r e) still more in
    (omega arith, calm, on)
