-- ===== src/Workers/Bags.antt =====
-- worker_pool.go against what a pool promises: jobs are added to a bag, each is performed once, in
-- any order, and who has waited finds the bag empty.
use hayabusa_e2e.Prelude.{
  if-case, ℕ, zero, suc, ◌+◌, ◌*◌, ◌≡◌, refl, ap, sym, ◌∙◌, ◌⊎◌, inl, inr, none, some, List, [],
  ◌∷◌, ◌++◌, arith, length, get_elem?, if◌then◌else◌, ltb, Option-cases,
}
use mathlib.Core.Quot
use mathlib.Core.Quot.{Quot, Quot-set}
use hayabusa_e2e.Workers.Pool.{
  Worker, receiving, executing, signalling, exited, Pool, set_at, remove_at, send_at, worker,
  work_at, panic, Step, sends, works,
}
use hayabusa_e2e.Workers.Counts.{total, total-append, total-set, total-remove, hit, count}
use hayabusa_e2e.Workers.Sound.{doing, Holds}
use hayabusa_e2e.Workers.Order.{Holds-some}

abbrev pub SameJobs : List ℕ → List ℕ → Type 0
SameJobs xs ys = (a : ℕ) → count a xs ≡ count a ys

-- Jobs without an order.
abbrev pub Bag : Type 0
Bag = Quot SameJobs

abbrev pub bag : List ℕ → Bag
bag xs = Quot.mk xs

pub SameJobs-cons : (x : ℕ) (xs ys : List ℕ) → SameJobs xs ys → SameJobs (x ∷ xs) (x ∷ ys)
SameJobs-cons x xs ys h a = omega (arith, h a)

unfoldable pub put : ℕ → Bag → Bag
put x =
    Quot.lift Quot-set (λ xs. Quot.mk (x ∷ xs)) (λ xs ys h. Quot.sound (SameJobs-cons x xs ys h))

-- What a caller may know of a pool: the jobs to do and the jobs done.
pub record Promise : Type 0 where
  pub to_do : Bag
  pub done : Bag

abbrev pub held : List Worker → List ℕ
held [] = []
held (receiving ∷ ws) = held ws
held (executing job ∷ ws) = job ∷ held ws
held (signalling ∷ ws) = held ws
held (exited ∷ ws) = held ws

count-held : (a : ℕ) (ws : List Worker) → count a (held ws) ≡ total (doing a) ws
count-held a [] = refl
count-held a (receiving ∷ ws) = omega (arith, count-held a ws)
count-held a (executing job ∷ ws) = omega (arith, count-held a ws)
count-held a (signalling ∷ ws) = omega (arith, count-held a ws)
count-held a (exited ∷ ws) = omega (arith, count-held a ws)

abbrev pub waiting : Pool → List ℕ
waiting s = s.blocked ++ (s.queue ++ held s.workers)

abbrev pub promise : Pool → Promise
promise s = record { to_do = bag (waiting s); done = bag s.executed }

pub count-waiting :
    (a : ℕ) (s : Pool)
    → count a (waiting s) ≡ count a s.blocked + count a s.queue + total (doing a) s.workers
count-waiting a s = omega (
  arith,
  total-append (hit a) s.blocked (s.queue ++ held s.workers),
  total-append (hit a) s.queue (held s.workers),
  count-held a s.workers,
)

-- A job is performed: it leaves the jobs to do and joins the jobs done.
abbrev pub Performs : ℕ → Promise → Promise → Type 0
Performs job p q = (p.to_do ≡ put job q.to_do) × (q.done ≡ put job p.done)

abbrev pub Moves : Promise → Promise → Type 0
Moves p q = (p ≡ q) ⊎ ((job : ℕ) × Performs job p q)

same_promise :
    (s t : Pool)
    → SameJobs (waiting s) (waiting t)
    → s.executed ≡ t.executed
    → promise s ≡ promise t
same_promise s t h k =
    let same : bag (waiting s) ≡ bag (waiting t) = Quot.sound h in rw (k, same) refl

performed :
    (job : ℕ) (s t : Pool)
    → SameJobs (waiting s) (job ∷ waiting t)
    → t.executed ≡ job ∷ s.executed
    → Performs job (promise s) (promise t)
unfolding put
performed job s t h k = (Quot.sound h, ap bag k)

-- As the counts say it.
counted-Moves :
    (s t : Pool)
    → ((a : ℕ)
        → count a s.blocked + count a s.queue + total (doing a) s.workers
          ≡ count a t.blocked + count a t.queue + total (doing a) t.workers)
    → s.executed ≡ t.executed
    → Moves (promise s) (promise t)
counted-Moves s t h k =
    inl (same_promise s t (λ a. count-waiting a s ∙ h a ∙ sym (count-waiting a t)) k)

send-Moves : (s : Pool) (i : ℕ) → Holds (λ t. Moves (promise s) (promise t)) (send_at i s)
unfolding send_at
send-Moves s i = elim (Option-cases (get_elem? s.blocked i)) [
  | inl nobody ↦ rw (Holds, nobody) tt
  | inr (job, found) ↦
      rw (Holds, found)
        (if-case (Holds (λ t. Moves (promise s) (promise t))) s.closed _ _ (λ before. inl refl)
          (λ after.
            if-case (Holds (λ t. Moves (promise s) (promise t)))
              (ltb (length s.queue) (s.max_workers * 2)) _ _
              (λ room.
                counted-Moves s
                  (record s { queue = s.queue ++ (job ∷ []); blocked = remove_at i s.blocked })
                  (λ a. omega (
                    arith,
                    total-remove (hit a) i s.blocked found,
                    total-append (hit a) s.queue (job ∷ []),
                  ))
                  refl)
              (λ full. tt)))
]

receive-Moves :
    (s : Pool) (i : ℕ)
    → get_elem? s.workers i ≡ some receiving
    → (q : List ℕ) → s.queue ≡ q
    → Holds
        (λ t. Moves (promise s) (promise t))
        (elim q [
          | [] ↦ if s.closed then some (record s { workers = set_at i exited s.workers }) else none
          | job ∷ rest ↦
              some (record s { queue = rest; workers = set_at i (executing job) s.workers })
        ])
receive-Moves s i here [] e =
    if-case (Holds (λ t. Moves (promise s) (promise t))) s.closed _ none
      (λ before.
        counted-Moves s (record s { workers = set_at i exited s.workers })
          (λ a. omega (arith, total-set (doing a) i exited s.workers here)) refl)
      (λ after. tt)
receive-Moves s i here (job ∷ rest) e =
    counted-Moves s (record s { queue = rest; workers = set_at i (executing job) s.workers })
      (λ a.
        let queued : count a s.queue ≡ hit a job + count a rest = ap (count a) e in
        omega (arith, queued, total-set (doing a) i (executing job) s.workers here))
      refl

signal-Moves :
    (s : Pool) (i : ℕ)
    → get_elem? s.workers i ≡ some signalling
    → (n : ℕ)
    → Holds
        (λ t. Moves (promise s) (promise t))
        (elim n [
          | zero ↦ some (panic s)
          | suc m ↦ some (record s { wait_group = m; workers = set_at i receiving s.workers })
        ])
signal-Moves s i here zero = inl refl
signal-Moves s i here (suc m) =
    counted-Moves s (record s { wait_group = m; workers = set_at i receiving s.workers })
      (λ a. omega (arith, total-set (doing a) i receiving s.workers here)) refl

worker-Moves :
    (s : Pool) (i : ℕ) (w : Worker)
    → get_elem? s.workers i ≡ some w
    → Holds (λ t. Moves (promise s) (promise t)) (worker i w s)
unfolding worker
worker-Moves s i receiving here = receive-Moves s i here s.queue refl
worker-Moves s i (executing job) here =
    let t = record s { executed = job ∷ s.executed; workers = set_at i signalling s.workers } in
    inr (
      job,
      performed job s t
          (λ a. omega (
            arith,
            count-waiting a s,
            count-waiting a t,
            total-set (doing a) i signalling s.workers here,
          ))
          refl,
    )
worker-Moves s i signalling here = signal-Moves s i here s.wait_group
worker-Moves s i exited here = tt

work-Moves : (s : Pool) (i : ℕ) → Holds (λ t. Moves (promise s) (promise t)) (work_at i s)
unfolding work_at
work-Moves s i = elim (Option-cases (get_elem? s.workers i)) [
  | inl nobody ↦ rw (Holds, nobody) tt
  | inr (w, here) ↦ rw (Holds, here) (worker-Moves s i w here)
]

pub step-Moves : (s t : Pool) → Step s t → Moves (promise s) (promise t)
step-Moves s t (sends i e) =
    Holds-some (λ u. Moves (promise s) (promise u)) (send_at i s) t (send-Moves s i) e
step-Moves s t (works i e) =
    Holds-some (λ u. Moves (promise s) (promise u)) (work_at i s) t (work-Moves s i) e
