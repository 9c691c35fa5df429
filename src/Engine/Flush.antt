-- ===== src/Engine/Flush.antt =====
-- engine.go, Flush: its goroutine with those of the pool, and the lifecycles that these process. Its
-- lock keeps the other methods of the engine out, so the lifecycles are those that it found.
use hayabusa_e2e.Prelude.{
  ℕ, suc, ◌≡◌, ◌≤◌, Bool, true, false, Option, none, some, List, [], ◌∷◌, if◌then◌else◌, ltb,
}
use hayabusa_e2e.Prelude.Go.{Reply, ok, err}
use hayabusa_e2e.Prelude.Int.{pos}
use hayabusa_e2e.Lifecycle.{Status, rank}
use hayabusa_e2e.Workers.Pool.{Pool, Reach, submit, send_at, work_at}

-- What the goroutine is at: the wait for a block, the lifecycles that it has still to submit for a
-- block, the send of a job on the pool's channel with those that follow, the lifecycles that it has
-- still to check with `processed` so far, or past its return or its panic.
pub data Phase : Type 0 where
  waiting : Phase
  submitting : ℕ → List ℕ → Phase
  sending : ℕ → List ℕ → Phase
  checking : List ℕ → Bool → Phase
  returned : Phase
  crashed : Phase

-- `blocks` notes how many blocks the ticker gave.
pub record Flush : Type 0 where
  pub phase : Phase
  pub worker_pool : Pool
  pub status : ℕ → Status
  pub blocks : ℕ

-- `Flush` of the status `target`, over the lifecycles `ids`.
module _ (target : Status) (ids : List ℕ) where
  abbrev pub entered : Pool → (ℕ → Status) → Flush
  entered pool status = record { phase = waiting; worker_pool = pool; status = status; blocks = 0 }

  -- The send of the job, which waits while the channel is full and panics on a closed one. No other
  -- caller stands at the channel, so the goroutine is the first.
  abbrev pub sent_at : Option Pool → ℕ → List ℕ → Flush → Flush
  sent_at none block rest s = s
  sent_at (some t) block rest s = record s {
    phase = if t.panicked then crashed else submitting block rest;
    worker_pool = t;
  }

  -- One step of the loop, with the ticker's answer, which only the wait reads.
  unfoldable pub step_at : Phase → Reply ℕ → Flush → Flush
  step_at waiting (err x) s = s
  step_at waiting (ok block) s = record s { phase = submitting block ids; blocks = suc s.blocks }
  step_at (submitting block []) best s = record s { phase = checking ids true }
  step_at (submitting block (id ∷ rest)) best s = record s {
    phase = sending block rest;
    worker_pool = submit id s.worker_pool;
  }
  step_at (sending block rest) best s = sent_at (send_at 0 s.worker_pool) block rest s
  step_at (checking [] true) best s = record s { phase = returned }
  step_at (checking [] false) best s = record s { phase = waiting }
  step_at (checking (id ∷ rest) processed) best s = record s {
    phase = checking rest (if ltb (rank (s.status id)) (rank target) then false else processed);
  }
  step_at returned best s = s
  step_at crashed best s = s

  unfoldable pub flush_step : Reply ℕ → Flush → Flush
  unfolding step_at
  flush_step best s = step_at s.phase best s

  -- The states of a call of Flush, on a pool that has been given some jobs and at which, with the
  -- lock taken, no caller stands: its own steps, those of the goroutines of the pool, and changes of
  -- the statuses that set none back, in any order.
  pub data Flushing (jobs : List ℕ) : Flush → Type 0 where
    enters :
        {p : Pool} (status : ℕ → Status)
        → Reach (pos 10) jobs p
        → p.blocked ≡ []
        → Flushing jobs (entered p status)
    goes : (best : Reply ℕ) {s : Flush} → Flushing jobs s → Flushing jobs (flush_step best s)
    works :
        (i : ℕ) {s : Flush} {t : Pool}
        → Flushing jobs s
        → work_at i s.worker_pool ≡ some t
        → Flushing jobs (record s { worker_pool = t })
    rises :
        (status : ℕ → Status) {s : Flush}
        → Flushing jobs s
        → ((id : ℕ) → rank (s.status id) ≤ rank (status id))
        → Flushing jobs (record s { status = status })

  -- Whether the goroutine can take a step: at the send only when the channel takes the job.
  abbrev pub CanGo : Phase → Pool → Type 0
  CanGo waiting p = Unit
  CanGo (submitting block rest) p = Unit
  CanGo (sending block rest) p = (t : Pool) × (send_at 0 p ≡ some t)
  CanGo (checking rest processed) p = Unit
  CanGo returned p = ⊥
  CanGo crashed p = ⊥

  -- So many steps, of the goroutine, to which the ticker gives blocks, or of those of the pool, in
  -- any order.
  pub data Going : ℕ → Flush → Flush → Type 0 where
    rests : (s : Flush) → Going 0 s s
    moves :
        (block : ℕ) {k : ℕ} {s u : Flush}
        → CanGo s.phase s.worker_pool
        → Going k (flush_step (ok block) s) u
        → Going (suc k) s u
    serves :
        (i : ℕ) {k : ℕ} {s u : Flush} {t : Pool}
        → work_at i s.worker_pool ≡ some t
        → Going k (record s { worker_pool = t }) u
        → Going (suc k) s u
