-- ===== src/Validators/Managers.antt =====
-- state_manager.go, transaction_manager.go and stake_manager.go: the state of a validator's
-- lifecycle, and the methods of its managers.
use hayabusa_e2e.Prelude.{
  ℕ, ◌+◌, ◌-◌, ◌*◌, ◌^◌, Bool, true, false, not, ◌||◌, Option, none, some, ◌==◌, ltb, leb,
  if◌then◌else◌, u32, max_u32, is_some,
}
use hayabusa_e2e.Prelude.Go.{
  Reply, ok, err, Outcome, returns, fails, panics, diverges, pure, return_nil, gets, modify,
  attempt, ◌>>=◌, ◌>>◌,
}
use hayabusa_e2e.Lifecycle.{Status, queued, active, exit_signalled, withdrawn}
use hayabusa_e2e.Services.{
  Services, Receipt, StakerValidation, PeriodDetails, Method, add_validation, signal_exit,
  withdraw_stake, increase_stake, decrease_stake,
}
use hayabusa_e2e.Validators.Events.{call, find_queued_receipt, find_exit_receipt}

pub record StateManager : Type 0 where
  pub status : Status
  pub activated_block : ℕ
  pub first_processed : Bool

pub record TransactionManager : Type 0 where
  pub queued_receipt : Option Receipt
  pub exit_receipt : Option Receipt
  pub withdraw_receipt : Option Receipt

pub record StakeManager : Type 0 where
  pub change_interval : ℕ
  pub staking_period_length : ℕ
  pub last_stake_update : ℕ
  pub stake_increased : Bool

-- A lifecycle's managers, and the world around it.
pub record Sim (W : Type 0) : Type 0 where
  pub state : StateManager
  pub txs : TransactionManager
  pub stake : StakeManager
  pub world : W

-- A search, or a call, that touches the world only.
abbrev pub in_world : {A W : Type 0} → (W → Outcome A W) → Sim W → Outcome A (Sim W)
in_world m s = elim (m s.world) [
  | returns a w ↦ returns a (record s { world = w })
  | fails x w ↦ fails x (record s { world = w })
  | panics ↦ panics
  | diverges ↦ diverges
]

-- One call of a service.
abbrev pub ask : {A W : Type 0} → (W → A × W) → Sim W → Outcome A (Sim W)
ask op s = let (a, w) = op s.world in returns a (record s { world = w })

abbrev pub set_status : {W : Type 0} → Status → Sim W → Outcome (Unit {0}) (Sim W)
set_status k s = returns tt (record s { state = record (s.state) { status = k } })

abbrev pub set_activated_block : {W : Type 0} → ℕ → Sim W → Outcome (Unit {0}) (Sim W)
set_activated_block b s = returns tt (record s { state = record (s.state) { activated_block = b } })

abbrev pub set_queued_receipt : {W : Type 0} → Option Receipt → Sim W → Outcome (Unit {0}) (Sim W)
set_queued_receipt r s = returns tt (record s { txs = record (s.txs) { queued_receipt = r } })

abbrev pub set_exit_receipt : {W : Type 0} → Option Receipt → Sim W → Outcome (Unit {0}) (Sim W)
set_exit_receipt r s = returns tt (record s { txs = record (s.txs) { exit_receipt = r } })

abbrev pub set_withdraw_receipt : {W : Type 0} → Option Receipt → Sim W → Outcome (Unit {0}) (Sim W)
set_withdraw_receipt r s = returns tt (record s { txs = record (s.txs) { withdraw_receipt = r } })

-- `TransitionTo`: an activation block of 0 leaves the one that is stored.
unfoldable pub transition_to : {W : Type 0} → Status → ℕ → Sim W → Outcome (Unit {0}) (Sim W)
transition_to k b s = returns tt (record s {
  state = record (s.state) {
    status = k;
    activated_block = if ltb 0 b then b else s.state.activated_block;
  };
})

module _ (e : Services) (fuel id : ℕ) where
  abbrev pub Handler : Type 0 → Type 0
  Handler A = Sim e.World → Outcome A (Sim e.World)

  -- A failure to read the period or the log is logged, and returned as nil.
  unfoldable pub queued_receipt_found : Reply (Option Receipt) → Handler (Unit {0})
  queued_receipt_found (err x) = return_nil
  queued_receipt_found (ok r) = set_queued_receipt r

  unfoldable pub existing_period_found : Reply PeriodDetails → Handler (Unit {0})
  unfolding queued_receipt_found
  existing_period_found (err x) = return_nil
  existing_period_found (ok p) = do
    set_activated_block p.start_block
    set_status queued
    r ← attempt (in_world (find_queued_receipt e fuel id))
    queued_receipt_found r

  unfoldable pub handle_existing_validator : Handler (Unit {0})
  unfolding existing_period_found
  handle_existing_validator = do
    p ← attempt (in_world (call (e.get_validation_period_details id)))
    existing_period_found p

  unfoldable pub has_exited : StakerValidation → PeriodDetails → Bool
  has_exited v p = v.status == e.staker_status_exited || ltb p.exit_block max_u32

  -- The exit receipt itself is not stored.
  unfoldable pub exit_receipt_found : Option Receipt → Handler (Unit {0})
  exit_receipt_found (some r) = set_status exit_signalled
  exit_receipt_found none = return_nil

  unfoldable pub period_known : Bool → Handler (Unit {0})
  unfolding exit_receipt_found
  period_known true = set_status withdrawn
  period_known false = do r ← in_world (find_exit_receipt e fuel id); exit_receipt_found r

  unfoldable pub validator_known : StakerValidation → Bool → Handler (Unit {0})
  unfolding period_known has_exited
  validator_known v false = set_status withdrawn
  validator_known v true = do
    p ← in_world (call (e.get_validation_period_details id))
    period_known (has_exited v p)

  unfoldable pub check_already_exited : Handler (Unit {0})
  unfolding validator_known
  check_already_exited = do v ← in_world (call (e.get_validation id)); validator_known v v.exists

  unfoldable pub adopt_existing : Bool → Handler (Unit {0})
  adopt_existing true = handle_existing_validator
  adopt_existing false = return_nil

  unfoldable pub adopt_active : Bool → Handler (Unit {0})
  adopt_active false = return_nil
  adopt_active true = do
    p ← in_world (call (e.get_validation_period_details id))
    set_activated_block p.start_block
    set_status active

  unfoldable pub check_exited_if : Bool → Handler (Unit {0})
  check_exited_if true = check_already_exited
  check_exited_if false = return_nil

  unfoldable pub perform_initial_state_check : Handler (Unit {0})
  unfolding adopt_existing adopt_active check_exited_if
  perform_initial_state_check = do
    v ← in_world (call (e.get_validation id))
    adopt_existing v.exists
    adopt_active (v.status == e.staker_status_active)
    receipt ← gets (λ s. s.txs.queued_receipt)
    check_exited_if (is_some receipt)

  unfoldable pub first_check : Bool → Handler (Unit {0})
  first_check true = return_nil
  first_check false = do
    modify (λ s. record s { state = record (s.state) { first_processed = true } })
    perform_initial_state_check

  unfoldable pub refresh_state : Handler (Unit {0})
  unfolding first_check
  refresh_state = do processed ← gets (λ s. s.state.first_processed); first_check processed

  -- transaction_manager.go. A receipt that is there already makes each of these a no-op.
  unfoldable pub queue_validator : ℕ → ℕ → Option Receipt → Handler (Unit {0})
  queue_validator amount period (some r) = return_nil
  queue_validator amount period none = do
    r ← in_world (call (e.send_transaction_and_wait (add_validation id amount period)))
    set_queued_receipt (some r)

  -- `tm.exitReceipt = receipt` comes before the test of the error, with which the receipt is nil.
  unfoldable pub store_exit : Reply Receipt → Handler (Unit {0})
  store_exit (ok r) = set_exit_receipt (some r)
  store_exit (err x) = do set_exit_receipt none; (λ s. fails x s)

  unfoldable pub signal_validator_exit : Option Receipt → Handler (Unit {0})
  unfolding store_exit
  signal_validator_exit (some r) = return_nil
  signal_validator_exit none = do
    r ← attempt (in_world (call (e.send_transaction_and_wait (signal_exit id))))
    store_exit r

  unfoldable pub withdraw_validator_stake : Option Receipt → Handler (Unit {0})
  withdraw_validator_stake (some r) = return_nil
  withdraw_validator_stake none = do
    r ← in_world (call (e.send_transaction_and_wait (withdraw_stake id)))
    set_withdraw_receipt (some r)

  -- validator.go: a stake of some millions of VET, in wei.
  unfoldable pub random_stake_between : ℕ → ℕ → Handler ℕ
  random_stake_between lo hi = do
    offset ← ask (e.rand (hi * 10 ^ 6 - lo * 10 ^ 6))
    pure ((lo * 10 ^ 6 + offset) * 10 ^ 18)

  -- stake_manager.go
  unfoldable pub should_change_stake : StakeManager → ℕ → Bool
  should_change_stake m block =
      leb (u32 (m.last_stake_update + u32 (m.change_interval * m.staking_period_length))) block

  unfoldable pub stake_change : Bool → ℕ → Method
  stake_change true amount = decrease_stake id amount
  stake_change false amount = increase_stake id amount

  unfoldable pub change_stake_if : Bool → ℕ → Handler (Unit {0})
  unfolding random_stake_between stake_change
  change_stake_if false block = return_nil
  change_stake_if true block = do
    increased ← gets (λ s. s.stake.stake_increased)
    amount ← random_stake_between 3 5
    modify (λ s. record s {
      stake = record (s.stake) {
        last_stake_update = block;
        stake_increased = not (s.stake.stake_increased);
      };
    })
    t ← in_world (call (e.send_transaction (stake_change increased amount)))
    return_nil

  unfoldable pub change_stake : ℕ → Handler (Unit {0})
  unfolding change_stake_if should_change_stake
  change_stake block = do
    m ← gets (λ s. s.stake)
    change_stake_if (should_change_stake m block) block
