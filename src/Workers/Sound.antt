-- ===== src/Workers/Sound.antt =====
-- worker_pool.go: what holds of a pool, and that its callers keep it.
use hayabusa_e2e.Prelude.{
  if-case, ℕ, zero, suc, ◌+◌, ◌*◌, ◌≡◌, ◌≤◌, refl, true, false, Option, none, some, List, [], ◌∷◌,
  arith, length, length-append,
}
use hayabusa_e2e.Prelude.Int.{ℤ, pos, negsuc}
use hayabusa_e2e.Workers.Pool.{
  Worker, receiving, executing, signalling, exited, Pool, replicate, new_worker_pool, start, submit,
  close, panic,
}
use hayabusa_e2e.Workers.Counts.{total, total-append, total-replicate, length-replicate, hit, count}

-- Between the receive of a job and `wg.Done`.
abbrev pub busy : Worker → ℕ
busy receiving = 0
busy (executing job) = 1
busy signalling = 1
busy exited = 0

abbrev pub gone : Worker → ℕ
gone receiving = 0
gone (executing job) = 0
gone signalling = 0
gone exited = 1

-- A worker that is about to call a job.
abbrev pub doing : ℕ → Worker → ℕ
doing a receiving = 0
doing a (executing job) = hit a job
doing a signalling = 0
doing a exited = 0

pub record Sound (jobs : List ℕ) (s : Pool) : Type 0 where
  -- the wait group counts the jobs that are not signalled
  pub counted : s.wait_group ≡ length s.blocked + length s.queue + total busy s.workers
  pub bounded : length s.queue ≤ s.max_workers * 2
  pub manned : 1 ≤ s.max_workers
  pub staffed : s.started ≡ true → length s.workers ≡ s.max_workers
  pub idle : s.started ≡ false → (s.wait_group ≡ 0) × ((f : Worker → ℕ) → total f s.workers ≡ 0)
  pub open_workers : s.closed ≡ false → total gone s.workers ≡ 0
  pub calm : s.closed ≡ false → s.panicked ≡ false
  -- each job is blocked, queued, about to be called, or called
  pub kept :
      (a : ℕ)
      → count a jobs
        ≡ count a s.blocked + count a s.queue + total (doing a) s.workers + count a s.executed

pub fresh-Sound : (n : ℤ) → Sound [] (new_worker_pool n)
unfolding new_worker_pool
fresh-Sound n = record {
  counted = refl;
  bounded = omega arith;
  manned = at_least n;
  staffed = λ h. cc;
  idle = λ h. (refl, λ f. refl);
  open_workers = λ h. refl;
  calm = λ h. refl;
  kept = λ a. refl;
}
  where
    at_least : (n : ℤ) → 1 ≤ (new_worker_pool n).max_workers
    at_least (pos zero) = omega arith
    at_least (pos (suc n)) = omega arith
    at_least (negsuc n) = omega arith

pub start-Sound : (jobs : List ℕ) (s : Pool) → Sound jobs s → Sound jobs (start s)
unfolding start
start-Sound jobs s h =
    if-case (Sound jobs) s.started s _ (λ on. h)
      (λ off.
        let (_, no_one) = h.idle off in
        let crew : (f : Worker → ℕ)
            → f receiving ≡ 0
            → total f (replicate s.max_workers receiving) ≡ 0 =
          λ f. total-replicate f s.max_workers receiving in
        record {
          bounded = h.bounded;
          manned = h.manned;
          calm = h.calm;
          counted = omega (arith, h.counted, no_one busy, crew busy refl);
          staffed = λ e. length-replicate s.max_workers receiving;
          idle = λ e. cc;
          open_workers = λ e. crew gone refl;
          kept = λ a. omega (arith, h.kept a, no_one (doing a), crew (doing a) refl);
        })

start-started : (s : Pool) → (start s).started ≡ true
unfolding start
start-started s = if-case (λ t. t.started ≡ true) s.started s _ (λ on. on) (λ off. refl)

pub submit-Sound :
    (job : ℕ) (jobs : List ℕ) (s : Pool) → Sound jobs s → Sound (job ∷ jobs) (submit job s)
unfolding submit
submit-Sound job jobs s h =
    let t = start s in
    let k = start-Sound jobs s h in
    let on = start-started s in
    let longer = length-append t.blocked (job ∷ []) in
    record {
      counted = omega (arith, k.counted, longer);
      bounded = k.bounded;
      manned = k.manned;
      staffed = k.staffed;
      idle = λ off. cc;
      open_workers = k.open_workers;
      calm = k.calm;
      kept = λ a. omega (arith, k.kept a, total-append (hit a) t.blocked (job ∷ []));
    }

pub close-Sound : (jobs : List ℕ) (s : Pool) → Sound jobs s → Sound jobs (close s)
unfolding close
close-Sound jobs s h =
    if-case (Sound jobs) s.started _ s
      (λ on.
        if-case (Sound jobs) s.closed (panic s) _
          (λ before. record {
            counted = h.counted;
            bounded = h.bounded;
            manned = h.manned;
            staffed = h.staffed;
            idle = h.idle;
            open_workers = h.open_workers;
            kept = h.kept;
            calm = λ e. cc;
          })
          (λ after. record {
            counted = h.counted;
            bounded = h.bounded;
            manned = h.manned;
            staffed = h.staffed;
            idle = h.idle;
            kept = h.kept;
            open_workers = λ e. cc;
            calm = λ e. cc;
          }))
      (λ off. h)

-- A predicate of the state that a step gives.
abbrev pub Holds {κ} : (Pool → Type κ) → Option Pool → Type κ
Holds P none = Unit
Holds P (some t) = P t
