-- ===== src/Delegations/Process/Consistency.antt =====
-- delegator.go: the fields that go with each status.
use hayabusa_e2e.Prelude.{ℕ, ◌≤◌, ◌≡◌, ◌≢◌, none, arith, refl}
use hayabusa_e2e.Prelude.Go.{Ends, Ensures-Ends, Ensures, Outcome, returns, fails, panics, diverges}
use hayabusa_e2e.Lifecycle.{Status, rank, pending, queued, active, exit_signalled, withdrawn}
use hayabusa_e2e.Services.{Services, ChainConfig}
use hayabusa_e2e.Delegations.Transaction.{send_or_poll}
use hayabusa_e2e.Delegations.State.{Delegator, DelegatorConfig, new_delegator}
use hayabusa_e2e.Delegations.Process.{
  process, process_state, with_cleanup, process_pending_state, process_queued_state,
  process_active_state, process_exited_state,
}

-- Each step of a delegator finds what it needs, and none of its work done beforehand: the handler
-- of a status never takes the early return that is there for work already done.
pub record Consistent {W : Type 0} (d : Delegator W) : Type 0 where
  pub unqueued : rank d.status ≡ 0 → d.queued_tx.receipt ≡ none
  pub unactivated : rank d.status ≤ 1 → d.activated_block ≡ 0
  pub unexited : rank d.status ≤ 2 → d.exit_tx.receipt ≡ none
  pub unwithdrawn : rank d.status ≤ 3 → d.withdraw_tx.receipt ≡ none
  pub identified :
      1 ≤ rank d.status → rank d.status ≤ 3 → (d.id ≢ none) × (d.queued_tx.receipt ≢ none)
  pub exited : rank d.status ≡ 3 → d.exit_tx.receipt ≢ none

module _ (e : Services) (chain : ChainConfig) (c : DelegatorConfig) where
  pending-Consistent :
      (block : ℕ) (d : Delegator e.World)
      → d.status ≡ pending
      → Consistent d
      → Ensures Consistent (process_pending_state e chain c block d)
  unfolding send_or_poll process_pending_state
  pending-Consistent block d h v = ground arith

  queued-Consistent :
      (block : ℕ) (d : Delegator e.World)
      → d.status ≡ queued
      → Consistent d
      → Ensures Consistent (process_queued_state e chain c block d)
  unfolding process_queued_state
  queued-Consistent block d h v = ground arith

  active-Consistent :
      (block : ℕ) (d : Delegator e.World)
      → d.status ≡ active
      → Consistent d
      → Ensures Consistent (process_active_state e chain c block d)
  unfolding send_or_poll process_active_state
  active-Consistent block d h v = ground arith

  exited-Consistent :
      (block : ℕ) (d : Delegator e.World)
      → d.status ≡ exit_signalled
      → Consistent d
      → Ensures Consistent (process_exited_state e chain c block d)
  unfolding send_or_poll process_exited_state
  exited-Consistent block d h v = ground arith

  state-Consistent :
      (block : ℕ) (k : Status) (d : Delegator e.World)
      → d.status ≡ k
      → Consistent d
      → Ensures Consistent (process_state e chain c block k d)
  unfolding process_state
  state-Consistent block pending = pending-Consistent block
  state-Consistent block queued = queued-Consistent block
  state-Consistent block active = active-Consistent block
  state-Consistent block exit_signalled = exited-Consistent block
  state-Consistent block withdrawn = λ d h v. v

  cleanup-Consistent :
      (o : Outcome (Unit {0}) (Delegator e.World))
      → Ensures Consistent o
      → Ensures Consistent (with_cleanup e chain c o)
  unfolding with_cleanup
  cleanup-Consistent (returns a d) h = ground arith
  cleanup-Consistent (fails x d) h = ground arith
  cleanup-Consistent panics h = tt
  cleanup-Consistent diverges h = tt

  process-Consistent :
      (block : ℕ) (d : Delegator e.World)
      → Consistent d
      → Ensures Consistent (process e chain c block d)
  unfolding process
  process-Consistent block d v = cleanup-Consistent _ (state-Consistent block d.status d refl v)

  -- Any number of blocks. Between two of them the world may change in any way.
  pub data Run (d : Delegator e.World) : Delegator e.World → Type 0 where
    start : Run d d
    next_block :
        {t u : Delegator e.World} (w : e.World) (block : ℕ)
        → Run d t
        → Ends (process e chain c block (record t { world = w })) u
        → Run d u

  new-Consistent : (w : e.World) → Consistent (new_delegator w)
  unfolding new_delegator
  new-Consistent w = ground arith

  -- Over any number of blocks whose handlers return or fail, and in which the chain may answer
  -- anything, a new delegator keeps the fields that go with its status: it has no receipt of work
  -- that it has still to do, and, from being queued until it withdraws, its delegation's number and
  -- the receipts of what is done.
  pub Run-Consistent :
      (w : e.World) {d : Delegator e.World} → Run (new_delegator w) d → Consistent d
  Run-Consistent w start = new-Consistent w
  Run-Consistent w (next_block {t} w' block r h) =
      let v = Run-Consistent w r in
      let v' : Consistent (record t { world = w' }) = ground arith in
      Ensures-Ends Consistent _ (process-Consistent block (record t { world = w' }) v') h
