-- ===== src/Examples/Pools.antt =====
-- A pool of one worker with one job, from its submission to the end.
use hayabusa_e2e.Prelude.{ℕ, ◌+◌, ◌≡◌, ◌≤◌, ◌⊎◌, refl, true, false, none, List, [], ◌∷◌}
use hayabusa_e2e.Prelude.Int.{pos}
use hayabusa_e2e.Workers.Pool.{
  Pool, new_worker_pool, start, submit, send_at, worker, work_at, Waited, Step, sends, works, Reach,
  fresh, submitted, stepped, executing, signalling, receiving,
}
use hayabusa_e2e.Workers.Bags.{promise, bag}
use hayabusa_e2e.Workers.Refinement.{goes, Allowed, Turn-Allowed, waited_lem}
use hayabusa_e2e.Workers.Steps.{steps_left}
use hayabusa_e2e.Workers.Drain.{Run, rests, drain_lem}

abbrev at : List ℕ → List ℕ → ℕ → List ℕ → Pool
at q b n x = record {
  max_workers = 1;
  queue = q;
  workers = receiving ∷ [];
  blocked = b;
  wait_group = n;
  started = true;
  closed = false;
  panicked = false;
  executed = x;
}

abbrev one_job : Pool
one_job = at [] (5 ∷ []) 1 []

one_job-Reach : Reach (pos 1) (5 ∷ []) one_job
unfolding submit start new_worker_pool
one_job-Reach = submitted 5 fresh

sent : Step one_job (at (5 ∷ []) [] 1 [])
unfolding submit start new_worker_pool send_at
sent = sends 0 refl

taken : Step (at (5 ∷ []) [] 1 []) (record (at [] [] 1 []) { workers = executing 5 ∷ [] })
unfolding work_at worker
taken = works 0 refl

called :
    Step
      (record (at [] [] 1 []) { workers = executing 5 ∷ [] })
      (record (at [] [] 1 (5 ∷ [])) { workers = signalling ∷ [] })
unfolding work_at worker
called = works 0 refl

signalled : Step (record (at [] [] 1 (5 ∷ [])) { workers = signalling ∷ [] }) (at [] [] 0 (5 ∷ []))
unfolding work_at worker
signalled = works 0 refl

Turn-Allowed_example :
    Allowed none
      (promise (record (at [] [] 1 []) { workers = executing 5 ∷ [] }))
      (promise (record (at [] [] 1 (5 ∷ [])) { workers = signalling ∷ [] }))
Turn-Allowed_example =
    Turn-Allowed (pos 1) (5 ∷ []) (record (at [] [] 1 []) { workers = executing 5 ∷ [] })
      (record (at [] [] 1 (5 ∷ [])) { workers = signalling ∷ [] }) none
      (stepped (stepped one_job-Reach sent) taken) (goes called)

waited_example : promise (at [] [] 0 (5 ∷ [])) ≡ record { to_do = bag []; done = bag (5 ∷ []) }
waited_example =
    waited_lem (pos 1) (5 ∷ []) (at [] [] 0 (5 ∷ []))
      (stepped (stepped (stepped (stepped one_job-Reach sent) taken) called) signalled) refl

drain_example :
    (1 + steps_left (at (5 ∷ []) [] 1 []) ≤ steps_left one_job)
    × ((at (5 ∷ []) [] 1 []).panicked ≡ false)
    × (Waited (at (5 ∷ []) [] 1 []) ⊎ ((u : Pool) × Step (at (5 ∷ []) [] 1 []) u))
drain_example =
    drain_lem (pos 1) (5 ∷ []) 1 one_job (at (5 ∷ []) [] 1 []) one_job-Reach refl
      (Run.goes sent (rests (at (5 ∷ []) [] 1 [])))
