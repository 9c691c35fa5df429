-- ===== src/Workers/Pool.antt =====
-- worker_pool.go: the pool's state, what the callers do to it, and the steps that its goroutines
-- take. A job is known by a number; `executed` notes the jobs that have been called, the last first.
-- `RunBatch` is `Start`, and then the rest of `Run` for each of its jobs, and a caller that has added to the wait group stands in
-- `blocked` with its job until the channel takes it.
use hayabusa_e2e.Prelude.{
  ℕ, zero, suc, ◌+◌, ◌*◌, ◌≡◌, Bool, true, false, Option, none, some, List, [], ◌∷◌, ◌++◌, ltb,
  if◌then◌else◌, length, get_elem?,
}
use hayabusa_e2e.Prelude.Int.{ℤ, pos, negsuc}

-- What a goroutine of the pool is at: the receive from the channel, the call of a job, the
-- `wg.Done` after it, or past its loop.
pub data Worker : Type 0 where
  receiving : Worker
  executing : ℕ → Worker
  signalling : Worker
  exited : Worker

pub record Pool : Type 0 where
  pub max_workers : ℕ
  pub queue : List ℕ
  pub workers : List Worker
  pub blocked : List ℕ
  pub wait_group : ℕ
  pub started : Bool
  pub closed : Bool
  pub panicked : Bool
  pub executed : List ℕ

module _ {ℓ} {A : Type ℓ} where
  abbrev pub set_at : ℕ → A → List A → List A
  set_at i y [] = []
  set_at zero y (x ∷ xs) = y ∷ xs
  set_at (suc i) y (x ∷ xs) = x ∷ set_at i y xs

  abbrev pub remove_at : ℕ → List A → List A
  remove_at i [] = []
  remove_at zero (x ∷ xs) = xs
  remove_at (suc i) (x ∷ xs) = x ∷ remove_at i xs

  abbrev pub replicate : ℕ → A → List A
  replicate zero x = []
  replicate (suc n) x = x ∷ replicate n x

abbrev at_least_one : ℤ → ℕ
at_least_one (pos zero) = 1
at_least_one (pos (suc n)) = suc n
at_least_one (negsuc n) = 1

unfoldable pub new_worker_pool : ℤ → Pool
new_worker_pool n = record {
  max_workers = at_least_one n;
  queue = [];
  workers = [];
  blocked = [];
  wait_group = 0;
  started = false;
  closed = false;
  panicked = false;
  executed = [];
}

unfoldable pub start : Pool → Pool
start s =
    if s.started
    then s
    else record s { started = true; workers = replicate s.max_workers receiving }

-- `Run`, up to the send on the channel.
unfoldable pub submit : ℕ → Pool → Pool
unfolding start
submit job s =
    let t = start s in record t { wait_group = t.wait_group + 1; blocked = t.blocked ++ (job ∷ []) }

abbrev pub panic : Pool → Pool
panic s = record s { panicked = true }

-- The send of a blocked caller, which has to wait while the channel is full, and which panics on
-- a closed channel.
unfoldable pub send_at : ℕ → Pool → Option Pool
send_at i s = elim (get_elem? s.blocked i) [
  | none ↦ none
  | some job ↦
      if s.closed
      then some (panic s)
      else (if ltb (length s.queue) (s.max_workers * 2)
          then some (record s { queue = s.queue ++ (job ∷ []); blocked = remove_at i s.blocked })
          else none)
]

-- The loop of a goroutine, one step at a time: the range ends when the channel is closed and empty,
-- and `wg.Done` panics when the counter is zero.
unfoldable pub worker : ℕ → Worker → Pool → Option Pool
worker i receiving s = elim s.queue [
  | [] ↦ if s.closed then some (record s { workers = set_at i exited s.workers }) else none
  | job ∷ rest ↦ some (record s { queue = rest; workers = set_at i (executing job) s.workers })
]
worker i (executing job) s =
    some (record s { executed = job ∷ s.executed; workers = set_at i signalling s.workers })
worker i signalling s = elim s.wait_group [
  | zero ↦ some (panic s)
  | suc n ↦ some (record s { wait_group = n; workers = set_at i receiving s.workers })
]
worker i exited s = none

unfoldable pub work_at : ℕ → Pool → Option Pool
unfolding worker
work_at i s = elim (get_elem? s.workers i) [ none ↦ none | some w ↦ worker i w s ]

unfoldable pub len : Pool → ℕ
len s = length s.queue

unfoldable pub close : Pool → Pool
close s = if s.started then (if s.closed then panic s else record s { closed = true }) else s

-- `Wait` returns once the counter is zero.
abbrev pub Waited : Pool → Type 0
Waited s = s.wait_group ≡ 0

-- A step of the goroutines, or of a caller at the channel.
pub data Step : Pool → Pool → Type 0 where
  sends : (i : ℕ) {s t : Pool} → send_at i s ≡ some t → Step s t
  works : (i : ℕ) {s t : Pool} → work_at i s ≡ some t → Step s t

-- The states of a new pool that has been given some jobs, the last first, in any interleaving of
-- its callers and goroutines.
pub data Reach (n : ℤ) : List ℕ → Pool → Type 0 where
  fresh : Reach n [] (new_worker_pool n)
  submitted :
      (job : ℕ) {jobs : List ℕ} {s : Pool} → Reach n jobs s → Reach n (job ∷ jobs) (submit job s)
  begun : {jobs : List ℕ} {s : Pool} → Reach n jobs s → Reach n jobs (start s)
  stepped : {jobs : List ℕ} {s t : Pool} → Reach n jobs s → Step s t → Reach n jobs t
  shut : {jobs : List ℕ} {s : Pool} → Reach n jobs s → Reach n jobs (close s)
