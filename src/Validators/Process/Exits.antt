-- ===== src/Validators/Process/Exits.antt =====
-- validator.go: when an exit is signalled and a stake is withdrawn.
use hayabusa_e2e.Prelude.{ℕ, ◌+◌, ◌*◌, ◌≤◌, ◌<◌, ◌≡◌, ◌≢◌, Option, none, some, arith, max_u32}
use hayabusa_e2e.Prelude.Go.{Ensures}
use hayabusa_e2e.Lifecycle.{
  Config, active, exit_signalled, withdrawn, min_exit_block, min_withdraw_block,
}
use hayabusa_e2e.Services.{Services, ChainConfig, Receipt}
use hayabusa_e2e.Validators.Managers.{
  Sim, transition_to, change_stake, signal_validator_exit, withdraw_validator_stake,
}
use hayabusa_e2e.Validators.Process.{process_active, process_exit_signalled, withdraw_due}

-- A block has reached one that may be missing.
abbrev pub Reached : Option ℕ → ℕ → Type 0
Reached none block = ⊥
Reached (some b) block = b ≤ block

module _ (e : Services) (fuel : ℕ) (chain : ChainConfig) (c : Config) (id : ℕ) where
  -- An active validator comes to have signalled its exit only if more than one validator is active
  -- and its minimal exit block is reached, and then a receipt of the exit is stored.
  pub exit_guard :
      (block : ℕ) (s : Sim e.World)
      → s.state.status ≡ active
      → Ensures
          (λ t.
            t.state.status ≡ exit_signalled
            → (1 < (e.get_active_count s.world).0)
              × Reached
                  (min_exit_block c s.state.activated_block s.stake.staking_period_length)
                  block
              × (t.txs.exit_receipt ≢ none))
          (process_active e fuel chain c id block s)
  unfolding process_active change_stake signal_validator_exit transition_to
  exit_guard block s h = grind arith

  -- A validator that has signalled its exit, and whose exit receipt is stored, comes to have
  -- withdrawn only at a block that is no earlier than the exit's block, the configured delay, the
  -- staking period and the cooldown together, if these and one cooldown more add up to at most the
  -- largest uint32; the withdrawal's receipt is then stored.
  pub withdraw_guard :
      (block : ℕ) (r : Receipt) (s : Sim e.World)
      → s.state.status ≡ exit_signalled
      → s.txs.exit_receipt ≡ some r
      → r.block_number
          + c.withdraw_delay.blocks
          + c.withdraw_delay.epochs * chain.epoch_length
          + s.stake.staking_period_length
          + chain.cooldown_period
          + chain.cooldown_period
        ≤ max_u32
      → Ensures
          (λ t.
            t.state.status ≡ withdrawn
            → (r.block_number
                  + c.withdraw_delay.blocks
                  + c.withdraw_delay.epochs * chain.epoch_length
                  + s.stake.staking_period_length
                  + chain.cooldown_period
                ≤ block)
              × (t.txs.withdraw_receipt ≢ none))
          (process_exit_signalled e fuel chain c id block s)
  unfolding process_exit_signalled withdraw_validator_stake transition_to withdraw_due
      min_withdraw_block
  withdraw_guard block r s h k fits = grind arith
