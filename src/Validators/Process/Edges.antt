-- ===== src/Validators/Process/Edges.antt =====
-- validator.go: the edges of the status diagram that each part of the handler follows.
use hayabusa_e2e.Prelude.{ℕ, ◌≡◌, ◌⊎◌, true, false, arith, Bool}
use hayabusa_e2e.Prelude.Go.{Outcome, Ensures, Keeps, Keeps-bind}
use hayabusa_e2e.Lifecycle.{Config, Status, pending, queued, active, exit_signalled, withdrawn}
use hayabusa_e2e.Services.{Services, ChainConfig}
use hayabusa_e2e.Validators.Managers.{
  Sim, transition_to, in_world, handle_existing_validator, check_already_exited,
  perform_initial_state_check, adopt_existing, adopt_active, check_exited_if, queue_validator,
  signal_validator_exit, withdraw_validator_stake, change_stake, random_stake_between,
}
use hayabusa_e2e.Validators.Process.{
  process_pending, process_queued, process_active, process_exit_signalled, process_state,
  handle_delegation_registration,
}

infix 40 ◌⟶◌
-- The edges of the status diagram.
pub data ◌⟶◌ : Status → Status → Type 0 where
  stay : {k : Status} → k ⟶ k
  queue : pending ⟶ queued
  activate : queued ⟶ active
  exited_early : queued ⟶ exit_signalled
  gone : queued ⟶ withdrawn
  exit : active ⟶ exit_signalled
  withdraw : exit_signalled ⟶ withdrawn

ruleset edges = (stay, queue, activate, exited_early, gone, exit, withdraw)

-- A validator that has been checked once.
abbrev pub IsProcessed : {W : Type 0} → Sim W → Type 0
IsProcessed s = s.state.first_processed ≡ true

in_world-IsProcessed :
    {A W : Type 0} (m : W → Outcome A W) → Keeps IsProcessed (in_world {A = A} {W = W} m)
in_world-IsProcessed m s h = ground arith

module _ (e : Services) (fuel id : ℕ) where
  existing :
      (s : Sim e.World)
      → Ensures
          (λ t.
            ((t.state.status ≡ s.state.status) ⊎ (t.state.status ≡ queued))
            × (t.state.first_processed ≡ s.state.first_processed))
          (handle_existing_validator e fuel id s)
  unfolding handle_existing_validator
  existing s = ground arith

  existing-IsProcessed : Keeps IsProcessed (handle_existing_validator e fuel id)
  unfolding handle_existing_validator
  existing-IsProcessed s h = ground arith

  exited-IsProcessed : Keeps IsProcessed (check_already_exited e fuel id)
  unfolding check_already_exited
  exited-IsProcessed s h = ground arith

  adopt_active-IsProcessed : (b : Bool) → Keeps IsProcessed (adopt_active e fuel id b)
  unfolding adopt_active
  adopt_active-IsProcessed b s h = ground arith

  check_exited_if-IsProcessed : (b : Bool) → Keeps IsProcessed (check_exited_if e fuel id b)
  unfolding check_exited_if
  check_exited_if-IsProcessed true = exited-IsProcessed
  check_exited_if-IsProcessed false = λ s h. h

  adopt_existing-IsProcessed : (b : Bool) → Keeps IsProcessed (adopt_existing e fuel id b)
  unfolding adopt_existing
  adopt_existing-IsProcessed true = existing-IsProcessed
  adopt_existing-IsProcessed false = λ s h. h

  pub initial-IsProcessed : Keeps IsProcessed (perform_initial_state_check e fuel id)
  unfolding perform_initial_state_check
  initial-IsProcessed s h = search (
    Keeps-bind, in_world-IsProcessed, adopt_existing-IsProcessed, adopt_active-IsProcessed,
    check_exited_if-IsProcessed,
  )

  exited_edge :
      (s : Sim e.World)
      → s.state.status ≡ queued
      → Ensures (λ t. queued ⟶ t.state.status) (check_already_exited e fuel id s)
  unfolding check_already_exited
  exited_edge s h = grind (arith, edges)

  existing_edge :
      (s : Sim e.World)
      → s.state.status ≡ pending
      → Ensures (λ t. pending ⟶ t.state.status) (handle_existing_validator e fuel id s)
  unfolding handle_existing_validator
  existing_edge s h = grind (arith, edges)

module _ (e : Services) (fuel : ℕ) (chain : ChainConfig) (c : Config) (id : ℕ) where
  pending_edge :
      (block : ℕ) (s : Sim e.World)
      → s.state.status ≡ pending
      → Ensures (λ t. pending ⟶ t.state.status) (process_pending e fuel chain c id block s)
  unfolding transition_to process_pending queue_validator random_stake_between
  pending_edge block s h = grind (arith, edges, existing_edge)

  queued_edge :
      (block : ℕ) (s : Sim e.World)
      → s.state.status ≡ queued
      → Ensures (λ t. queued ⟶ t.state.status) (process_queued e fuel chain c id block s)
  unfolding transition_to process_queued
  queued_edge block s h = grind (arith, edges, exited_edge)

  active_edge :
      (block : ℕ) (s : Sim e.World)
      → s.state.status ≡ active
      → Ensures (λ t. active ⟶ t.state.status) (process_active e fuel chain c id block s)
  unfolding transition_to process_active change_stake signal_validator_exit
  active_edge block s h = grind (arith, edges)

  exit_edge :
      (block : ℕ) (s : Sim e.World)
      → s.state.status ≡ exit_signalled
      → Ensures
          (λ t. exit_signalled ⟶ t.state.status)
          (process_exit_signalled e fuel chain c id block s)
  unfolding transition_to process_exit_signalled withdraw_validator_stake
  exit_edge block s h = grind (arith, edges)

  pub state_edge :
      (block : ℕ) (k : Status) (s : Sim e.World)
      → s.state.status ≡ k
      → Ensures (λ t. k ⟶ t.state.status) (process_state e fuel chain c id block k s)
  unfolding process_state
  state_edge block pending = pending_edge block
  state_edge block queued = queued_edge block
  state_edge block active = active_edge block
  state_edge block exit_signalled = exit_edge block
  state_edge block withdrawn = λ s h. grind (arith, edges)

  pub registration-Keeps :
      (k : Status)
      → Keeps
          (λ t. (t.state.status ≡ k) × IsProcessed t)
          (handle_delegation_registration e fuel chain c id)
  unfolding handle_delegation_registration
  registration-Keeps k s h = ground arith

  pub state-IsProcessed :
      (block : ℕ) (k : Status) → Keeps IsProcessed (process_state e fuel chain c id block k)
  unfolding process_state process_pending process_queued process_active process_exit_signalled
      change_stake transition_to queue_validator random_stake_between signal_validator_exit
      withdraw_validator_stake
  state-IsProcessed block pending s h = grind (arith, existing-IsProcessed, exited-IsProcessed)
  state-IsProcessed block queued s h = grind (arith, existing-IsProcessed, exited-IsProcessed)
  state-IsProcessed block active s h = grind arith
  state-IsProcessed block exit_signalled s h = grind arith
  state-IsProcessed block withdrawn s h = h
