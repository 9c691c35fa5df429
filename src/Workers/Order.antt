-- ===== src/Workers/Order.antt =====
-- worker_pool.go: the steps of the goroutines, and every interleaving of them.
use hayabusa_e2e.Prelude.{
  if-case, ℕ, zero, suc, ◌+◌, ◌*◌, ◌≡◌, refl, ap, subst, ◌∙◌, inl, inr, false, Option, none, some,
  List, [], ◌∷◌, arith, length, get_elem?, if◌then◌else◌, ltb, ltb→lt, Option-cases, length-append,
}
use hayabusa_e2e.Prelude.Int.{ℤ}
use hayabusa_e2e.Workers.Pool.{
  Worker, receiving, executing, signalling, exited, Pool, set_at, send_at, worker, work_at, panic,
  Step, sends, works, Reach, fresh, submitted, stepped, begun, shut,
}
use hayabusa_e2e.Workers.Counts.{
  total-append, total-set, total-remove, length-set, length-remove, hit, count,
}
use hayabusa_e2e.Workers.Sound.{
  busy, gone, doing, Sound, fresh-Sound, start-Sound, submit-Sound, close-Sound, Holds,
}

send-Sound : (jobs : List ℕ) (s : Pool) → Sound jobs s → (i : ℕ) → Holds (Sound jobs) (send_at i s)
unfolding send_at
send-Sound jobs s h i = elim (Option-cases (get_elem? s.blocked i)) [
  | inl nobody ↦ rw (Holds, nobody) tt
  | inr (job, found) ↦
      rw (Holds, found)
        (if-case (Holds (Sound jobs)) s.closed _ _
          (λ shut_. record {
            counted = h.counted;
            bounded = h.bounded;
            manned = h.manned;
            staffed = h.staffed;
            idle = h.idle;
            open_workers = h.open_workers;
            kept = h.kept;
            calm = λ e. cc;
          })
          (λ open_.
            if-case (Holds (Sound jobs)) (ltb (length s.queue) (s.max_workers * 2)) _ _
              (λ room. record {
                manned = h.manned;
                staffed = h.staffed;
                idle = h.idle;
                open_workers = h.open_workers;
                calm = h.calm;
                counted = omega (
                  arith,
                  h.counted,
                  length-remove i s.blocked found,
                  length-append s.queue (job ∷ []),
                );
                bounded = omega (arith, ltb→lt _ _ room, length-append s.queue (job ∷ []));
                kept = λ a. omega (
                  arith,
                  h.kept a,
                  total-remove (hit a) i s.blocked found,
                  total-append (hit a) s.queue (job ∷ []),
                );
              })
              (λ full. tt)))
]

-- A worker at some place stands for a pool that is started.
pub off-no_worker :
    (jobs : List ℕ) (s : Pool) (i : ℕ) {w : Worker}
    → Sound jobs s
    → get_elem? s.workers i ≡ some w
    → s.started ≡ false
    → ⊥
off-no_worker jobs s i h here off =
    let (_, no_one) = h.idle off in
    let one_less = total-remove (λ v. 1) i s.workers here in
    let none_there = no_one (λ v. 1) in omega arith

receive-Sound :
    (jobs : List ℕ) (s : Pool) (i : ℕ)
    → Sound jobs s
    → get_elem? s.workers i ≡ some receiving
    → (q : List ℕ) → s.queue ≡ q
    → Holds (Sound jobs) (elim q [
      | [] ↦ if s.closed then some (record s { workers = set_at i exited s.workers }) else none
      | job ∷ rest ↦ some (record s { queue = rest; workers = set_at i (executing job) s.workers })
    ])
receive-Sound jobs s i h here [] e =
    if-case (Holds (Sound jobs)) s.closed _ none
      (λ before. record {
        counted = omega (arith, h.counted, total-set busy i exited s.workers here);
        bounded = h.bounded;
        manned = h.manned;
        staffed = λ on. length-set i exited s.workers ∙ h.staffed on;
        idle = λ off. absurd (off-no_worker jobs s i h here off);
        open_workers = λ after. cc;
        calm = h.calm;
        kept = λ a. omega (arith, h.kept a, total-set (doing a) i exited s.workers here);
      })
      (λ after. tt)
receive-Sound jobs s i h here (job ∷ rest) e =
    let queued : length s.queue ≡ suc (length rest) = ap length e in
    record {
      counted = omega (arith, h.counted, queued, total-set busy i (executing job) s.workers here);
      bounded = omega (arith, h.bounded, queued);
      manned = h.manned;
      staffed = λ on. length-set i (executing job) s.workers ∙ h.staffed on;
      idle = λ off. absurd (off-no_worker jobs s i h here off);
      open_workers = λ after.
          omega (arith, h.open_workers after, total-set gone i (executing job) s.workers here);
      calm = h.calm;
      kept = λ a.
          let held : count a s.queue ≡ hit a job + count a rest = ap (count a) e in
          omega (arith, h.kept a, held, total-set (doing a) i (executing job) s.workers here);
    }

signal-Sound :
    (jobs : List ℕ) (s : Pool) (i : ℕ)
    → Sound jobs s
    → get_elem? s.workers i ≡ some signalling
    → (n : ℕ) → s.wait_group ≡ n
    → Holds (Sound jobs) (elim n [
      | zero ↦ some (panic s)
      | suc m ↦ some (record s { wait_group = m; workers = set_at i receiving s.workers })
    ])
signal-Sound jobs s i h here zero e =
    let changed = total-set busy i receiving s.workers here in absurd (omega (arith, h.counted))
signal-Sound jobs s i h here (suc m) e = record {
  counted = omega (arith, h.counted, total-set busy i receiving s.workers here);
  bounded = h.bounded;
  manned = h.manned;
  staffed = λ on. length-set i receiving s.workers ∙ h.staffed on;
  idle = λ off. absurd (off-no_worker jobs s i h here off);
  open_workers =
      λ after. omega (arith, h.open_workers after, total-set gone i receiving s.workers here);
  calm = h.calm;
  kept = λ a. omega (arith, h.kept a, total-set (doing a) i receiving s.workers here);
}

worker-Sound :
    (jobs : List ℕ) (s : Pool) (i : ℕ) (w : Worker)
    → Sound jobs s
    → get_elem? s.workers i ≡ some w
    → Holds (Sound jobs) (worker i w s)
unfolding worker
worker-Sound jobs s i receiving h here = receive-Sound jobs s i h here s.queue refl
worker-Sound jobs s i (executing job) h here = record {
  counted = omega (arith, h.counted, total-set busy i signalling s.workers here);
  bounded = h.bounded;
  manned = h.manned;
  staffed = λ on. length-set i signalling s.workers ∙ h.staffed on;
  idle = λ off. absurd (off-no_worker jobs s i h here off);
  open_workers = λ e. omega (arith, h.open_workers e, total-set gone i signalling s.workers here);
  calm = h.calm;
  kept = λ a. omega (arith, h.kept a, total-set (doing a) i signalling s.workers here);
}
worker-Sound jobs s i signalling h here = signal-Sound jobs s i h here s.wait_group refl
worker-Sound jobs s i exited h here = tt

work-Sound : (jobs : List ℕ) (s : Pool) → Sound jobs s → (i : ℕ) → Holds (Sound jobs) (work_at i s)
unfolding work_at
work-Sound jobs s h i = elim (Option-cases (get_elem? s.workers i)) [
  | inl nobody ↦ rw (Holds, nobody) tt
  | inr (w, here) ↦ rw (Holds, here) (worker-Sound jobs s i w h here)
]

pub Holds-some : (P : Pool → Type 0) (o : Option Pool) (t : Pool) → Holds P o → o ≡ some t → P t
Holds-some P o t h e = subst (Holds P) e h

step-Sound : (jobs : List ℕ) (s t : Pool) → Sound jobs s → Step s t → Sound jobs t
step-Sound jobs s t h (sends i e) =
    Holds-some (Sound jobs) (send_at i s) t (send-Sound jobs s h i) e
step-Sound jobs s t h (works i e) =
    Holds-some (Sound jobs) (work_at i s) t (work-Sound jobs s h i) e

-- In every interleaving.
pub Reach-Sound : (n : ℤ) (jobs : List ℕ) (s : Pool) → Reach n jobs s → Sound jobs s
Reach-Sound n jobs s fresh = fresh-Sound n
Reach-Sound n jobs s (submitted job r) = submit-Sound job _ _ (Reach-Sound n _ _ r)
Reach-Sound n jobs s (begun r) = start-Sound _ _ (Reach-Sound n _ _ r)
Reach-Sound n jobs s (stepped r e) = step-Sound _ _ _ (Reach-Sound n _ _ r) e
Reach-Sound n jobs s (shut r) = close-Sound _ _ (Reach-Sound n _ _ r)
