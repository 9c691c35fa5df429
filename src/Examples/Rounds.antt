-- ===== src/Examples/Rounds.antt =====
-- A new engine in a round that creates one delegator, and a flush of one lifecycle.
use hayabusa_e2e.Prelude.{
  ℕ, ◌+◌, ◌*◌, ◌≡◌, ◌≢◌, ◌≤◌, ◌⊎◌, length, refl, true, false, none, some, List, [], ◌∷◌,
  if◌then◌else◌, arith,
}
use hayabusa_e2e.Prelude.Go.{ok}
use hayabusa_e2e.Prelude.Int.{ℤ, pos}
use hayabusa_e2e.Prelude.Dict.{lookup}
use hayabusa_e2e.Lifecycle.{type_delegator, pending, active, rank}
use hayabusa_e2e.Generator.Strategies.{random_between, random_int}
use hayabusa_e2e.Workers.Pool.{
  Pool, Worker, receiving, executing, signalling, new_worker_pool, start, submit, send_at, worker,
  work_at, Step, sends, works, fresh, begun,
}
use hayabusa_e2e.Workers.Counts.{count, total}
use hayabusa_e2e.Workers.Sound.{doing}
use hayabusa_e2e.Workers.Callers.{all_left}
use hayabusa_e2e.Engine.Cycles.{
  Member, count_live, added, create_all, generate_validator_cycles, generate_delegator_cycles,
  is_withdrawn, partition, remove_all, sweep,
}
use hayabusa_e2e.Engine.Rounds.{
  Surroundings, new_engine, Fed, all_fed, feeds, waits, generated, answered, round, Reached,
}
use hayabusa_e2e.Engine.Served.{round_lem}
use hayabusa_e2e.Engine.Flush.{
  Flush, returned, crashed, entered, step_at, flush_step, Flushing, enters, goes, Going, moves,
  rests,
}
use hayabusa_e2e.Engine.Flushed.{flush_lem}
use hayabusa_e2e.Engine.Ending.{SomeGoes, flush_ends}
use hayabusa_e2e.Examples.Generators.{zeros}
use hayabusa_e2e.Examples.Engines.{maker}

abbrev around : Surroundings ℕ
around = record {
  wait = λ w. (ok 7, w);
  has_active = λ w. (true, w);
  available = λ w. (pos 4, w);
  status = λ id w. pending;
}

abbrev two : ℤ → ℕ
two available = 2

abbrev newcomer : Member
newcomer = record { kind = type_delegator; status = pending }

-- Ten goroutines, the first of them at some place.
abbrev ten : Worker → List ℕ → List ℕ → ℕ → List ℕ → Pool
ten first q b n x = record {
  max_workers = 10;
  queue = q;
  workers =
      first ∷ receiving ∷ receiving ∷ receiving ∷ receiving ∷ receiving ∷ receiving ∷ receiving
      ∷ receiving ∷ receiving ∷ [];
  blocked = b;
  wait_group = n;
  started = true;
  closed = false;
  panicked = false;
  executed = x;
}

abbrev served : Pool
served = ten receiving [] [] 0 (5 ∷ [])

sent : Step (ten receiving [] (5 ∷ []) 1 []) (ten receiving (5 ∷ []) [] 1 [])
unfolding send_at
sent = sends 0 refl

taken : Step (ten receiving (5 ∷ []) [] 1 []) (ten (executing 5) [] [] 1 [])
unfolding work_at worker
taken = works 0 refl

called : Step (ten (executing 5) [] [] 1 []) (ten signalling [] [] 1 (5 ∷ []))
unfolding work_at worker
called = works 0 refl

signalled : Step (ten signalling [] [] 1 (5 ∷ [])) served
unfolding work_at worker
signalled = works 0 refl

fed : Fed (5 ∷ []) new_engine.worker_pool served
unfolding new_engine submit start new_worker_pool
fed = feeds (waits sent (waits taken (waits called (waits signalled all_fed))))

given_five : (round zeros maker around 16 two [] 5).0.0 ≡ 5 ∷ []
unfolding round answered generated generate_validator_cycles generate_delegator_cycles create_all
    added count_live random_between random_int sweep partition remove_all
given_five = refl

held_five : lookup 5 (generated zeros maker around 16 two 7 [] 5).0 ≡ some newcomer
unfolding generated generate_validator_cycles generate_delegator_cycles create_all added count_live
    random_between random_int
held_five = refl

-- After the round, the lifecycle that it has created has been processed once, and is kept.
round_example :
    let now = around.status 5 (generated zeros maker around 16 two 7 new_engine.lifecycles 5).1 in
    (count 5 served.executed ≡ count 5 [] + (if is_withdrawn now then 0 else 1))
    × (lookup 5 (round zeros maker around 16 two new_engine.lifecycles 5).0.1
        ≡ (if is_withdrawn now then none else some (record newcomer { status = now })))
unfolding new_engine round answered generated generate_validator_cycles generate_delegator_cycles
    create_all added count_live random_between random_int sweep partition remove_all
round_example =
    round_lem zeros maker around 16 two [] new_engine 5 7 served 5 newcomer (Reached.begun 5) refl
      held_five fed refl

abbrev entry : Flush
entry = entered active (5 ∷ []) new_engine.worker_pool (λ id. active)

abbrev step : Flush → Flush
step s = flush_step active (5 ∷ []) (ok 7) s

abbrev left : Flush
left = step (step (step (step (step (step entry)))))

left_reached : Flushing active (5 ∷ []) [] left
unfolding new_engine new_worker_pool start
left_reached = goes (ok 7) (
    goes (ok 7) (
      goes (ok 7)
        (goes (ok 7) (goes (ok 7) (goes (ok 7) (enters (λ id. active) (begun fresh) refl))))))

flush_example :
    (rank active ≤ rank (left.status 5))
    × (1 ≤ left.blocks)
    × (count 5 left.worker_pool.queue
          + total (doing 5) left.worker_pool.workers
          + count 5 left.worker_pool.executed
        ≡ count 5 [] + left.blocks)
unfolding flush_step step_at new_engine new_worker_pool submit start send_at
flush_example = flush_lem active (5 ∷ []) (refl, tt) [] 5 refl left left_reached refl

left-Going : Going active (5 ∷ []) 6 entry left
unfolding flush_step step_at new_engine new_worker_pool submit start send_at
left-Going = moves 7 tt (
    moves 7 tt (
      moves 7 (ten receiving (5 ∷ []) [] 1 [], refl)
        (moves 7 tt (moves 7 tt (moves 7 tt (rests left))))))

abbrev five : List ℕ
five = 5 ∷ []

flush_ends_example :
    (6 ≤ 3 + 6 * length five + all_left entry.worker_pool)
    × (left.worker_pool.panicked ≡ false)
    × (left.phase ≢ crashed)
    × ((left.phase ≡ returned) ⊎ SomeGoes active (5 ∷ []) left)
unfolding new_engine new_worker_pool start
flush_ends_example =
    flush_ends active (5 ∷ []) [] 6 entry left (begun fresh) refl refl refl (λ j i. omega arith)
      left-Going
