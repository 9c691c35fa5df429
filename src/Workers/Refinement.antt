-- ===== src/Workers/Refinement.antt =====
-- worker_pool.go: each turn of a pool is one that the promise allows.
use hayabusa_e2e.Prelude.{
  if-case, ℕ, ◌≤◌, ◌≡◌, refl, ap, sym, inl, Option, none, some, List, [], ◌∷◌, arith, length,
}
use hayabusa_e2e.Prelude.Int.{ℤ}
use mathlib.Core.Quot
use mathlib.Core.Quot.{Quot, Quot-set}
use hayabusa_e2e.Workers.Pool.{
  Worker, receiving, executing, signalling, exited, Pool, start, submit, close, panic, Waited, Step,
  Reach,
}
use hayabusa_e2e.Workers.Counts.{total, count}
use hayabusa_e2e.Workers.Sound.{busy, doing, Sound, start-Sound, submit-Sound}
use hayabusa_e2e.Workers.Order.{Reach-Sound}
use hayabusa_e2e.Workers.Bags.{
  bag, put, Promise, waiting, promise, count-waiting, Moves, step-Moves,
}

doing-busy : (a : ℕ) (ws : List Worker) → total (doing a) ws ≤ total busy ws
doing-busy a [] = omega arith
doing-busy a (receiving ∷ ws) = omega (arith, doing-busy a ws)
doing-busy a (executing job ∷ ws) = let rest = doing-busy a ws in ground arith
doing-busy a (signalling ∷ ws) = omega (arith, doing-busy a ws)
doing-busy a (exited ∷ ws) = omega (arith, doing-busy a ws)

count-empty : (a : ℕ) (xs : List ℕ) → length xs ≡ 0 → count a xs ≡ 0
count-empty a [] h = refl
count-empty a (x ∷ xs) h = absurd (omega arith)

submit-executed : (job : ℕ) (s : Pool) → (submit job s).executed ≡ s.executed
unfolding submit start
submit-executed job s =
    if-case (λ t. t.executed ≡ s.executed) s.started s _ (λ on. refl) (λ off. refl)

close-promise : (s : Pool) → promise (close s) ≡ promise s
unfolding close
close-promise s =
    if-case (λ t. promise t ≡ promise s) s.started _ s
      (λ on.
        if-case (λ t. promise t ≡ promise s) s.closed (panic s) _ (λ before. refl) (λ after. refl))
      (λ off. refl)

start-executed : (s : Pool) → (start s).executed ≡ s.executed
unfolding start
start-executed s = if-case (λ t. t.executed ≡ s.executed) s.started s _ (λ on. refl) (λ off. refl)

start-promise : (jobs : List ℕ) (s : Pool) → Sound jobs s → promise (start s) ≡ promise s
start-promise jobs s h =
    let k = start-Sound jobs s h in
    let same = start-executed s in
    let moved : bag (waiting (start s)) ≡ bag (waiting s) = Quot.sound (λ a.
      let called : count a (start s).executed ≡ count a s.executed = ap (count a) same in
      omega (arith, count-waiting a s, count-waiting a (start s), h.kept a, k.kept a)) in
    rw (same, moved) refl

submit-promise :
    (job : ℕ) (jobs : List ℕ) (s : Pool)
    → Sound jobs s
    → promise (submit job s) ≡ record { to_do = put job (bag (waiting s)); done = bag s.executed }
unfolding put
submit-promise job jobs s h =
    let k = submit-Sound job jobs s h in
    let same = submit-executed job s in
    let added : bag (waiting (submit job s)) ≡ bag (job ∷ waiting s) = Quot.sound (λ a.
      let called : count a (submit job s).executed ≡ count a s.executed = ap (count a) same in
      omega (arith, count-waiting a s, count-waiting a (submit job s), h.kept a, k.kept a)) in
    rw (same, added) refl

-- Once nothing is counted, each job has been called as often as it was submitted.
pub all_done_counts :
    (jobs : List ℕ) (s : Pool)
    → Sound jobs s
    → Waited s
    → (a : ℕ) → count a s.executed ≡ count a jobs
all_done_counts jobs s h over a =
    let (none_blocked, none_queued) : (length s.blocked ≡ 0) × (length s.queue ≡ 0) =
      (omega (arith, h.counted), omega (arith, h.counted)) in
    omega (
      arith,
      h.counted,
      h.kept a,
      doing-busy a s.workers,
      count-empty a s.blocked none_blocked,
      count-empty a s.queue none_queued,
    )

all_done_promised :
    (jobs : List ℕ) (s : Pool)
    → Sound jobs s
    → Waited s
    → promise s ≡ record { to_do = bag []; done = bag jobs }
all_done_promised jobs s h over =
    let called = all_done_counts jobs s h over in
    let empty : bag (waiting s) ≡ bag [] =
      Quot.sound (λ a. omega (arith, h.kept a, count-waiting a s, called a)) in
    let all_done : bag s.executed ≡ bag jobs = Quot.sound called in rw (empty, all_done) refl

-- A turn of a caller or a goroutine, with the job that it submits, if it does.
pub data Turn : Option ℕ → Pool → Pool → Type 0 where
  submits : (job : ℕ) (s : Pool) → Turn (some job) s (submit job s)
  goes : {s t : Pool} → Step s t → Turn none s t
  begins : (s : Pool) → Turn none s (start s)
  shuts : (s : Pool) → Turn none s (close s)

abbrev pub Allowed : Option ℕ → Promise → Promise → Type 0
Allowed none p q = Moves p q
Allowed (some job) p q = (q.to_do ≡ put job p.to_do) × (q.done ≡ p.done)

-- In every state that a pool reaches, in any interleaving of its callers and goroutines: submitting
-- a job adds it to the bag of jobs to do and leaves the jobs done, and any other turn, a start or a
-- close among them, either leaves both as they are or performs exactly one of the jobs to do.
pub Turn-Allowed :
    (n : ℤ) (jobs : List ℕ) (s t : Pool) (o : Option ℕ)
    → Reach n jobs s
    → Turn o s t
    → Allowed o (promise s) (promise t)
unfolding put
Turn-Allowed n jobs s t o r (submits job u) =
    let e = submit-promise job jobs s (Reach-Sound n jobs s r) in
    (ap (λ p. p.to_do) e, ap (λ p. p.done) e)
Turn-Allowed n jobs s t o r (goes e) = step-Moves s t e
Turn-Allowed n jobs s t o r (begins u) = inl (sym (start-promise jobs s (Reach-Sound n jobs s r)))
Turn-Allowed n jobs s t o r (shuts u) = inl (sym (close-promise s))

-- Once a wait can return, in any interleaving of the callers and goroutines of a pool, there is
-- nothing to do and the jobs done are those submitted, each as often.
pub waited_lem :
    (n : ℤ) (jobs : List ℕ) (s : Pool)
    → Reach n jobs s
    → Waited s
    → promise s ≡ record { to_do = bag []; done = bag jobs }
waited_lem n jobs s r over = all_done_promised jobs s (Reach-Sound n jobs s r) over
