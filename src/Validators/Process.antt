-- ===== src/Validators/Process.antt =====
-- validator.go: the handler that the engine calls for each block, under the lifecycle's lock.
pub mod Edges
pub mod Order
pub mod Exits
pub mod Stuck
use hayabusa_e2e.Prelude.{
  ℕ, ◌+◌, Bool, true, false, not, ◌&&◌, ◌||◌, Option, none, some, ◌==◌, ltb, leb, if◌then◌else◌,
  u32, is_some,
}
use hayabusa_e2e.Prelude.Go.{
  Error, new_error, Reply, ok, err, Outcome, returns, fails, panics, pure, return_nil, throw, gets,
  attempt, or_panic, contains, ◌>>=◌, ◌>>◌,
}
use hayabusa_e2e.Lifecycle.{
  Config, Status, pending, queued, active, exit_signalled, withdrawn, queue_block, min_exit_block,
  min_withdraw_block,
}
use hayabusa_e2e.Services.{Services, ChainConfig, Receipt, StakerValidation, Validation}
use hayabusa_e2e.Validators.Events.{call}
use hayabusa_e2e.Validators.Managers.{
  Sim, StateManager, TransactionManager, StakeManager, Handler, in_world, ask, transition_to,
  handle_existing_validator, check_already_exited, refresh_state, queue_validator,
  signal_validator_exit, withdraw_validator_stake, random_stake_between, change_stake,
}

-- `NewValidatorLifecycle`, with the world it starts in.
unfoldable pub new_lifecycle : {W : Type 0} → ℕ → ℕ → W → Sim W
new_lifecycle change_interval staking_period_length w = record {
  state = record { status = pending; activated_block = 0; first_processed = false };
  txs = record { queued_receipt = none; exit_receipt = none; withdraw_receipt = none };
  stake = record {
    change_interval = change_interval;
    staking_period_length = staking_period_length;
    last_stake_update = 0;
    stake_increased = false;
  };
  world = w;
}

module _ (e : Services) (fuel : ℕ) (chain : ChainConfig) (c : Config) (id : ℕ) where
  unfoldable pub when : Bool → Handler e fuel id (Unit {0}) → Handler e fuel id (Unit {0})
  when true m = m
  when false m = return_nil

  unfoldable pub unregister : Handler e fuel id (Unit {0})
  unregister s = returns tt (record s { world = e.unregister_validator id s.world })

  unfoldable pub register : Handler e fuel id (Unit {0})
  register s = returns tt (record s { world = e.register_validator id s.world })

  -- An entry that is there and nil is dereferenced.
  unfoldable pub registration : Option (Option Validation) → Handler e fuel id (Unit {0})
  unfolding when unregister register
  registration none s = returns tt s
  registration (some none) s = panics
  registration (some (some v)) s =
      (do
        when (v.status == e.status_exit || is_some v.offline_block) unregister
        when (v.status == e.status_active) register)
        s

  unfoldable pub handle_delegation_registration : Handler e fuel id (Unit {0})
  unfolding registration
  handle_delegation_registration = do v ← ask (e.lookup_address id); registration v

  unfoldable pub queue_sent : Reply (Unit {0}) → Handler e fuel id (Unit {0})
  queue_sent (ok u) = transition_to queued 0
  queue_sent (err x) =
      if contains x.message "validator already exists"
      then handle_existing_validator e fuel id
      else throw x

  unfoldable pub queue_new : Bool → Handler e fuel id (Unit {0})
  unfolding queue_sent
  queue_new true = handle_existing_validator e fuel id
  queue_new false = do
    amount ← random_stake_between e fuel id 25 31
    s ← gets (λ s. s)
    r ←
        attempt
          (queue_validator e fuel id amount s.stake.staking_period_length s.txs.queued_receipt)
    queue_sent r

  unfoldable pub process_pending : ℕ → Handler e fuel id (Unit {0})
  unfolding queue_new
  process_pending block s =
      if is_some s.txs.queued_receipt
      then returns tt s
      else if ltb block (queue_block c chain.epoch_length)
      then returns tt s
      else (do v ← in_world (call (e.get_validation id)); queue_new v.exists) s

  unfoldable pub validator_found : Option (Option Validation) → Handler e fuel id (Unit {0})
  validator_found none s = check_already_exited e fuel id s
  validator_found (some none) s = panics
  validator_found (some (some v)) s =
      if v.status == e.status_active then transition_to active v.start_block s else returns tt s

  unfoldable pub process_queued : ℕ → Handler e fuel id (Unit {0})
  unfolding validator_found
  process_queued block s =
      if not (is_some s.txs.queued_receipt) && id == 0
      then fails (new_error "cannot set activated block for validator that has not been queued") s
      else if not (s.state.activated_block == 0)
      then returns tt s
      else (do v ← ask (e.lookup_address id); validator_found v) s

  unfoldable pub exit_due : ℕ → ℕ → Handler e fuel id (Unit {0})
  exit_due block min_block s =
      if ltb block min_block
      then change_stake e fuel id block s
      else (do signal_validator_exit e fuel id s.txs.exit_receipt; transition_to exit_signalled 0) s

  unfoldable pub exit_allowed : ℕ → ℕ → Handler e fuel id (Unit {0})
  unfolding exit_due
  exit_allowed block active_validators s =
      if leb active_validators 1
      then returns tt s
      else (do
        min_block ←
            or_panic (min_exit_block c s.state.activated_block s.stake.staking_period_length)
        exit_due block min_block)
          s

  unfoldable pub is_exit_signalled : Status → Bool
  is_exit_signalled exit_signalled = true
  is_exit_signalled _ = false

  unfoldable pub process_active : ℕ → Handler e fuel id (Unit {0})
  unfolding exit_allowed is_exit_signalled
  process_active block s =
      if is_some s.txs.exit_receipt || is_exit_signalled s.state.status
      then returns tt s
      else (do n ← ask e.get_active_count; exit_allowed block n) s

  -- The block from which the stake is withdrawn, in uint32 arithmetic.
  unfoldable pub withdraw_due : Receipt → Sim e.World → ℕ
  withdraw_due r s =
      let exit = min_withdraw_block c r.block_number chain.epoch_length in
      let due = u32 (u32 (exit + s.stake.staking_period_length) + chain.cooldown_period) in
      if s.state.activated_block == 0 then due else u32 (due + chain.cooldown_period)

  unfoldable pub exit_known : ℕ → Option Receipt → Handler e fuel id (Unit {0})
  exit_known block none s =
      fails (new_error "cannot withdraw validator that has not signalled exit") s
  exit_known block (some r) s =
      if ltb block (withdraw_due r s)
      then returns tt s
      else (do withdraw_validator_stake e fuel id s.txs.withdraw_receipt; transition_to withdrawn 0)
          s

  unfoldable pub process_exit_signalled : ℕ → Handler e fuel id (Unit {0})
  unfolding exit_known is_exit_signalled
  process_exit_signalled block s =
      if is_some s.txs.withdraw_receipt
      then returns tt s
      else exit_known block (if is_exit_signalled s.state.status then s.txs.exit_receipt else none)
          s

  unfoldable pub process_state : ℕ → Status → Handler e fuel id (Unit {0})
  process_state block pending = process_pending block
  process_state block queued = process_queued block
  process_state block active = process_active block
  process_state block exit_signalled = process_exit_signalled block
  process_state block withdrawn = return_nil

  unfoldable pub process : ℕ → Handler e fuel id (Unit {0})
  unfolding process_state
  process block = do
    refresh_state e fuel id
    handle_delegation_registration
    k ← gets (λ s. s.state.status)
    process_state block k
