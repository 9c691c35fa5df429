-- ===== src/Delegations/Process/Order.antt =====
-- delegator.go: along which edges the status of a delegator moves, and when its position is freed.
use hayabusa_e2e.Prelude.{◌⊎◌, refl, ℕ, ◌≡◌, arith}
use hayabusa_e2e.Prelude.Go.{Outcome, returns, fails, panics, diverges, Ensures}
use hayabusa_e2e.Lifecycle.{Status, pending, queued, active, exit_signalled, withdrawn}
use hayabusa_e2e.Services.{Services, ChainConfig}
use hayabusa_e2e.Delegations.State.{Delegator, DelegatorConfig}
use hayabusa_e2e.Delegations.Process.{
  process, process_state, with_cleanup, process_pending_state, process_queued_state,
  process_active_state, process_exited_state,
}

infix 40 ◌⟶◌
-- The edges of the status diagram.
pub data ◌⟶◌ : Status → Status → Type 0 where
  stay : {k : Status} → k ⟶ k
  queue : pending ⟶ queued
  abandon : pending ⟶ withdrawn
  activate : queued ⟶ active
  exit : active ⟶ exit_signalled
  withdraw : exit_signalled ⟶ withdrawn

ruleset edges = (stay, queue, abandon, activate, exit, withdraw)

module _ (e : Services) (chain : ChainConfig) (c : DelegatorConfig) where
  pending_edge :
      (block : ℕ) (d : Delegator e.World)
      → d.status ≡ pending
      → Ensures (λ t. pending ⟶ t.status) (process_pending_state e chain c block d)
  unfolding process_pending_state
  pending_edge block d h = grind (arith, edges)

  queued_edge :
      (block : ℕ) (d : Delegator e.World)
      → d.status ≡ queued
      → Ensures (λ t. queued ⟶ t.status) (process_queued_state e chain c block d)
  unfolding process_queued_state
  queued_edge block d h = grind (arith, edges)

  active_edge :
      (block : ℕ) (d : Delegator e.World)
      → d.status ≡ active
      → Ensures (λ t. active ⟶ t.status) (process_active_state e chain c block d)
  unfolding process_active_state
  active_edge block d h = grind (arith, edges)

  exited_edge :
      (block : ℕ) (d : Delegator e.World)
      → d.status ≡ exit_signalled
      → Ensures (λ t. exit_signalled ⟶ t.status) (process_exited_state e chain c block d)
  unfolding process_exited_state
  exited_edge block d h = grind (arith, edges)

  state_edge :
      (block : ℕ) (k : Status) (d : Delegator e.World)
      → d.status ≡ k
      → Ensures (λ t. k ⟶ t.status) (process_state e chain c block k d)
  unfolding process_state
  state_edge block pending = pending_edge block
  state_edge block queued = queued_edge block
  state_edge block active = active_edge block
  state_edge block exit_signalled = exited_edge block
  state_edge block withdrawn = λ d h. grind (arith, edges)

  cleanup_edge :
      (k : Status) (o : Outcome (Unit {0}) (Delegator e.World))
      → Ensures (λ t. k ⟶ t.status) o
      → Ensures (λ t. k ⟶ t.status) (with_cleanup e chain c o)
  unfolding with_cleanup
  cleanup_edge k (returns a d) h = ground arith
  cleanup_edge k (fails x d) h = ground arith
  cleanup_edge k panics h = tt
  cleanup_edge k diverges h = tt

  -- A block moves a delegator's status along one edge of the diagram, whatever the chain answers,
  -- whether the handler returns or fails.
  pub delegator_process-⟶ :
      (block : ℕ) (d : Delegator e.World)
      → Ensures (λ t. d.status ⟶ t.status) (process e chain c block d)
  unfolding process
  delegator_process-⟶ block d = cleanup_edge d.status _ (state_edge block d.status d refl)

  -- A status in which the position is given back.
  abbrev pub Done : Status → Type 0
  Done k = (k ≡ exit_signalled) ⊎ (k ≡ withdrawn)

  cleanup_frees :
      (o : Outcome (Unit {0}) (Delegator e.World))
      → Ensures
          (λ t. Done t.status → (w : e.World) × (t.world ≡ e.unregister_delegator c.position_id w))
          (with_cleanup e chain c o)
  unfolding with_cleanup
  cleanup_frees (returns a d) = λ h. (d.world, ground arith)
  cleanup_frees (fails x d) = λ h. (d.world, ground arith)
  cleanup_frees panics = tt
  cleanup_frees diverges = tt

  -- Whether its handler returns or fails, a block that leaves the delegator with its exit signalled,
  -- or withdrawn, has unregistered its position as the last thing done to the world.
  pub process_frees :
      (block : ℕ) (d : Delegator e.World)
      → Ensures
          (λ t. Done t.status → (w : e.World) × (t.world ≡ e.unregister_delegator c.position_id w))
          (process e chain c block d)
  unfolding process
  process_frees block d = cleanup_frees _
