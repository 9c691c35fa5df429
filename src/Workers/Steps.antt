-- ===== src/Workers/Steps.antt =====
-- worker_pool.go: how many steps a pool has left, while it is open.
use hayabusa_e2e.Prelude.{
  if-case, ℕ, zero, suc, ◌+◌, ◌*◌, ◌≡◌, ◌<◌, refl, ap, inl, inr, false, none, some, List, [], ◌∷◌,
  arith, length, get_elem?, if◌then◌else◌, ltb, Option-cases, length-append,
}
use hayabusa_e2e.Workers.Pool.{
  Worker, receiving, executing, signalling, exited, Pool, set_at, panic, send_at, worker, work_at,
  Step, sends, works,
}
use hayabusa_e2e.Workers.Counts.{total, total-set, length-remove}
use hayabusa_e2e.Workers.Sound.{busy, Sound, Holds}
use hayabusa_e2e.Workers.Order.{Holds-some}

-- The steps that a worker has left in its round.
abbrev pub left : Worker → ℕ
left receiving = 1
left (executing job) = 3
left signalling = 2
left exited = 0

-- The steps that a pool has left.
abbrev pub steps_left : Pool → ℕ
steps_left s = 4 * length s.blocked + 3 * length s.queue + total left s.workers

send_lowers :
    (s : Pool)
    → s.closed ≡ false
    → (i : ℕ) → Holds (λ t. (steps_left t < steps_left s) × (t.closed ≡ false)) (send_at i s)
unfolding send_at
send_lowers s after i = elim (Option-cases (get_elem? s.blocked i)) [
  | inl nobody ↦ rw (Holds, nobody) tt
  | inr (job, found) ↦
      rw (Holds, found, after)
        (if-case (Holds (λ t. (steps_left t < steps_left s) × (t.closed ≡ false)))
          (ltb (length s.queue) (s.max_workers * 2)) _ _
          (λ room. (
            omega (arith, length-remove i s.blocked found, length-append s.queue (job ∷ [])),
            refl,
          ))
          (λ full. tt))
]

-- Lower, and still open.
abbrev pub Lowers : Pool → Pool → Type 0
Lowers s t = (steps_left t < steps_left s) × (t.closed ≡ false)

receive-Lowers :
    (s : Pool) (i : ℕ)
    → s.closed ≡ false
    → get_elem? s.workers i ≡ some receiving
    → (q : List ℕ) → s.queue ≡ q
    → Holds (Lowers s) (elim q [
      | [] ↦ if s.closed then some (record s { workers = set_at i exited s.workers }) else none
      | job ∷ rest ↦ some (record s { queue = rest; workers = set_at i (executing job) s.workers })
    ])
receive-Lowers s i after here [] e = rw (Holds, after) tt
receive-Lowers s i after here (job ∷ rest) e =
    let queued : length s.queue ≡ suc (length rest) = ap length e in
    (omega (arith, queued, total-set left i (executing job) s.workers here), after)

signal-Lowers :
    (jobs : List ℕ) (s : Pool) (i : ℕ)
    → Sound jobs s
    → s.closed ≡ false
    → get_elem? s.workers i ≡ some signalling
    → (n : ℕ) → s.wait_group ≡ n
    → Holds (Lowers s) (elim n [
      | zero ↦ some (panic s)
      | suc m ↦ some (record s { wait_group = m; workers = set_at i receiving s.workers })
    ])
signal-Lowers jobs s i h after here zero e =
    let changed = total-set busy i receiving s.workers here in absurd (omega (arith, h.counted))
signal-Lowers jobs s i h after here (suc m) e =
    (omega (arith, total-set left i receiving s.workers here), after)

worker-Lowers :
    (jobs : List ℕ) (s : Pool) (i : ℕ) (w : Worker)
    → Sound jobs s
    → s.closed ≡ false
    → get_elem? s.workers i ≡ some w
    → Holds (Lowers s) (worker i w s)
unfolding worker
worker-Lowers jobs s i receiving h after here = receive-Lowers s i after here s.queue refl
worker-Lowers jobs s i (executing job) h after here =
    (omega (arith, total-set left i signalling s.workers here), after)
worker-Lowers jobs s i signalling h after here =
    signal-Lowers jobs s i h after here s.wait_group refl
worker-Lowers jobs s i exited h after here = tt

pub step-Lowers :
    (jobs : List ℕ) (s t : Pool) → Sound jobs s → s.closed ≡ false → Step s t → Lowers s t
unfolding work_at
step-Lowers jobs s t h after (sends i e) =
    Holds-some (Lowers s) (send_at i s) t (send_lowers s after i) e
step-Lowers jobs s t h after (works i e) =
    Holds-some (Lowers s) (work_at i s) t
      (elim (Option-cases (get_elem? s.workers i)) [
        | inl nobody ↦ rw (Holds, nobody) tt
        | inr (w, here) ↦ rw (Holds, here) (worker-Lowers jobs s i w h after here)
      ])
      e
