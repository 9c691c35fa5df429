-- ===== src/Delegations/Process.antt =====
-- delegator.go: the handler that the engine calls for each block.
pub mod Order
pub mod Consistency
pub mod Activation
use hayabusa_e2e.Prelude.{
  ℕ, ◌+◌, ◌*◌, ◌^◌, Bool, true, false, not, ◌&&◌, ◌||◌, Option, none, some, List, [], ◌∷◌, ◌==◌,
  ltb, leb, if◌then◌else◌, u32, max_u32, is_some,
}
use Prim.Native.String.{String}
use hayabusa_e2e.Prelude.Go.{
  Error, new_error, Reply, ok, err, Outcome, returns, fails, panics, diverges, pure, return_nil,
  throw, modify, gets, or_panic, ◌>>=◌, ◌>>◌,
}
use hayabusa_e2e.Lifecycle.{
  Config, Status, pending, queued, active, exit_signalled, withdrawn, rank, queue_block,
  min_exit_block, min_withdraw_block,
}
use hayabusa_e2e.Services.{
  Services, ChainConfig, Receipt, Validation, Method, add_delegation, signal_delegation_exit,
  withdraw_delegation,
}
use hayabusa_e2e.Delegations.State.{
  DelegatorConfig, Delegator, new_delegator, on_tx, put_queued, put_exit, put_withdraw, or_zero,
}
use hayabusa_e2e.Delegations.Transaction.{Transaction, no_transaction, Sending, send_or_poll}

module _ (e : Services) (chain : ChainConfig) (c : DelegatorConfig) where
  abbrev pub Handler : Type 0 → Type 0
  Handler A = Delegator e.World → Outcome A (Delegator e.World)

  unfoldable pub validator_found : Option (Option Validation) → Handler Validation
  validator_found none d = fails (new_error "failed to get validator info for validation") d
  validator_found (some none) d = fails (new_error "failed to get validator info for validation") d
  validator_found (some (some v)) d = returns v d

  unfoldable pub get_validator_info : Handler Validation
  unfolding validator_found
  get_validator_info d =
      let (v, w) = e.lookup_address c.validation_id d.world in
      validator_found v (record d { world = w })

  unfoldable pub is_validation_unavailable : Validation → Bool
  is_validation_unavailable v = v.status == e.status_exit || is_some v.exit_block

  unfoldable pub period_fetched : Receipt → ℕ → Reply ℕ → Handler (Unit {0})
  period_fetched r id (err x) d = fails x d
  period_fetched r id (ok p) d = returns tt (record d {
    queued_tx = record (d.queued_tx) { receipt = some r };
    start_period = p;
    id = some id;
    status = queued;
  })

  unfoldable pub handle_queue_receipt : Receipt → Handler (Unit {0})
  unfolding period_fetched
  handle_queue_receipt r d =
      if r.reverted
      then returns tt (record d { status = withdrawn })
      else (do
        id ← or_panic r.topic
        (λ d.
            let (p, w) = e.get_delegation_start_period id d.world in
            period_fetched r id p (record d { world = w })))
          d

  unfoldable pub queue_polled : Option Receipt → Handler (Unit {0})
  unfolding handle_queue_receipt
  queue_polled none = return_nil
  queue_polled (some r) = handle_queue_receipt r

  unfoldable pub queue_delegation : Validation → Handler (Unit {0})
  unfolding queue_polled
  queue_delegation v = do
    modify (λ d. record d { staking_period_length = v.period })
    r ←
        on_tx (λ d. d.queued_tx) put_queued
          (send_or_poll e (add_delegation c.validation_id (c.stake * 10 ^ 18) c.multiplier)
            ("validation is not queued or active" ∷ []))
    queue_polled r

  unfoldable pub queue_if_available : Validation → Handler (Unit {0})
  unfolding queue_delegation is_validation_unavailable
  queue_if_available v d =
      if is_validation_unavailable v
      then returns tt (record d { status = withdrawn })
      else queue_delegation v d

  unfoldable pub process_pending_state : ℕ → Handler (Unit {0})
  unfolding queue_if_available get_validator_info
  process_pending_state block d =
      if is_some d.queued_tx.receipt || ltb block (queue_block c.base chain.epoch_length)
      then returns tt d
      else (do v ← get_validator_info; queue_if_available v) d

  -- `validator.CompleteIterations - 1` is a uint32.
  unfoldable pub check_for_activation : Validation → Handler (Unit {0})
  check_for_activation v d =
      if leb (u32 (v.complete_iterations + max_u32)) d.start_period
      then returns tt (record d {
        status = active;
        activated_block = u32 (v.start_block + u32 (d.start_period * d.staking_period_length));
      })
      else returns tt d

  unfoldable pub process_queued_state : ℕ → Handler (Unit {0})
  unfolding check_for_activation get_validator_info
  process_queued_state block d =
      if ltb (rank d.status) (rank queued) || not (d.activated_block == 0)
      then returns tt d
      else (do v ← get_validator_info; check_for_activation v) d

  unfoldable pub exit_polled : Option Receipt → Handler (Unit {0})
  exit_polled none d = returns tt d
  exit_polled (some r) d =
      returns tt
        (record d { status = exit_signalled; exit_tx = record (d.exit_tx) { receipt = some r } })

  unfoldable pub signal_exit : Handler (Unit {0})
  unfolding exit_polled
  signal_exit = do
    id ← gets (λ d. or_zero d.id)
    r ←
        on_tx (λ d. d.exit_tx) put_exit
          (send_or_poll e (signal_delegation_exit id)
            ("delegation has ended" ∷ "delegation has not started yet" ∷ []))
    exit_polled r

  unfoldable pub exit_if_due : ℕ → Validation → ℕ → Handler (Unit {0})
  unfolding signal_exit
  exit_if_due block v last_active_block d =
      if leb last_active_block block || leb e.status_exit v.status
      then signal_exit d
      else returns tt d

  unfoldable pub is_exit_signalled : Status → Bool
  is_exit_signalled exit_signalled = true
  is_exit_signalled _ = false

  unfoldable pub process_active_state : ℕ → Handler (Unit {0})
  unfolding exit_if_due get_validator_info is_exit_signalled
  process_active_state block d =
      if is_exit_signalled d.status || is_some d.exit_tx.receipt
      then returns tt d
      else (do
        v ← get_validator_info
        d' ← gets (λ d. d)
        b ← or_panic (min_exit_block c.base d'.activated_block d'.staking_period_length)
        exit_if_due block v b)
          d

  unfoldable pub withdraw_polled : Option Receipt → Handler (Unit {0})
  withdraw_polled none d = returns tt d
  withdraw_polled (some r) d =
      returns tt
        (record d { status = withdrawn; withdraw_tx = record (d.withdraw_tx) { receipt = some r } })

  unfoldable pub can_withdraw : Delegator e.World → Bool
  unfolding is_exit_signalled
  can_withdraw d = is_some d.exit_tx.receipt && is_exit_signalled d.status

  unfoldable pub withdraw_delegator : Handler (Unit {0})
  unfolding withdraw_polled can_withdraw
  withdraw_delegator d =
      if can_withdraw d
      then (do
        r ←
            on_tx (λ d. d.withdraw_tx) put_withdraw
              (send_or_poll e (withdraw_delegation (or_zero d.id)) [])
        withdraw_polled r)
          d
      else fails (new_error "cannot withdraw delegator that has not signalled exit") d

  unfoldable pub withdraw_if_due : ℕ → Option Receipt → Handler (Unit {0})
  unfolding withdraw_delegator
  withdraw_if_due block none d = panics
  withdraw_if_due block (some r) d =
      if ltb block (min_withdraw_block c.base r.block_number chain.epoch_length)
      then returns tt d
      else withdraw_delegator d

  unfoldable pub process_exited_state : ℕ → Handler (Unit {0})
  unfolding withdraw_if_due can_withdraw
  process_exited_state block d =
      if is_some d.withdraw_tx.receipt || not (can_withdraw d)
      then returns tt d
      else withdraw_if_due block d.exit_tx.receipt d

  unfoldable pub process_state : ℕ → Status → Handler (Unit {0})
  process_state block pending = process_pending_state block
  process_state block queued = process_queued_state block
  process_state block active = process_active_state block
  process_state block exit_signalled = process_exited_state block
  process_state block withdrawn = return_nil

  abbrev is_done : Status → Bool
  is_done exit_signalled = true
  is_done withdrawn = true
  is_done _ = false

  unfoldable pub cleanup_if_complete : Delegator e.World → Delegator e.World
  cleanup_if_complete d =
      if is_done d.status
      then record d { world = e.unregister_delegator c.position_id d.world }
      else d

  -- The deferred call.
  unfoldable pub with_cleanup :
      Outcome (Unit {0}) (Delegator e.World) → Outcome (Unit {0}) (Delegator e.World)
  unfolding cleanup_if_complete
  with_cleanup (returns a d) = returns a (cleanup_if_complete d)
  with_cleanup (fails x d) = fails x (cleanup_if_complete d)
  with_cleanup panics = panics
  with_cleanup diverges = diverges

  unfoldable pub process : ℕ → Handler (Unit {0})
  unfolding process_state with_cleanup
  process block d = with_cleanup (process_state block d.status d)
