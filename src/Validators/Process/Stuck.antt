-- ===== src/Validators/Process/Stuck.antt =====
-- validator.go: the states that the handler does not leave.
use hayabusa_e2e.Prelude.{ℕ, ◌≡◌, ◌≢◌, ◌∙◌, refl, none, some, true, arith}
use hayabusa_e2e.Prelude.Go.{Ensures, Ensures-Ends, panics}
use hayabusa_e2e.Lifecycle.{Config, queued, exit_signalled}
use hayabusa_e2e.Services.{Services, ChainConfig}
use hayabusa_e2e.Validators.Managers.{Sim, refresh_state, first_check}
use hayabusa_e2e.Validators.Process.{
  process, process_queued, process_exit_signalled, handle_delegation_registration,
}
use hayabusa_e2e.Validators.Process.Order.{Run, start, next_block}

module _ (e : Services) (fuel : ℕ) (chain : ChainConfig) (c : Config) (id : ℕ) where
  -- The managers of two moments agree.
  abbrev pub Same : Sim e.World → Sim e.World → Type 0
  Same s t = (t.state ≡ s.state) × (t.txs ≡ s.txs) × (t.stake ≡ s.stake)

  exit_step :
      (block : ℕ) (s : Sim e.World)
      → s.state.first_processed ≡ true
      → s.state.status ≡ exit_signalled
      → s.txs.exit_receipt ≡ none
      → Ensures (Same s) (process e fuel chain c id block s)
  unfolding process refresh_state first_check handle_delegation_registration process_exit_signalled
  exit_step block s p k r = ground arith

  queued_step :
      (block : ℕ) (s : Sim e.World)
      → s.state.first_processed ≡ true
      → s.state.status ≡ queued
      → s.state.activated_block ≢ 0
      → Ensures (Same s) (process e fuel chain c id block s)
  unfolding process refresh_state first_check handle_delegation_registration process_queued
  queued_step block s p k a = ground arith

  Same-trans : (s t u : Sim e.World) → Same s t → Same t u → Same s u
  Same-trans s t u p q = (q.0 ∙ p.0, q.1 ∙ p.1, q.2 ∙ p.2)

  -- A processed validator that has signalled its exit, but has no exit receipt, never withdraws: its
  -- managers stay as they are over any number of blocks whose handlers return or fail.
  pub exit_without_receipt :
      {s t : Sim e.World}
      → s.state.first_processed ≡ true
      → s.state.status ≡ exit_signalled
      → s.txs.exit_receipt ≡ none
      → Run e fuel chain c id s t
      → Same s t
  exit_without_receipt p k r start = (refl, refl, refl)
  exit_without_receipt {s} p k r (next_block {t} {u} w block run h) =
      let q = exit_without_receipt p k r run in
      Same-trans s t u q (
        Ensures-Ends (Same t) _
          (exit_step block (record t { world = w }) (ground arith) (ground arith) (ground arith)) h)

  -- A processed validator that is queued with an activation block never becomes active, also where
  -- the chain says that it is: its managers stay as they are over any number of blocks whose
  -- handlers return or fail.
  pub queued_with_block :
      {s t : Sim e.World}
      → s.state.first_processed ≡ true
      → s.state.status ≡ queued
      → s.state.activated_block ≢ 0
      → Run e fuel chain c id s t
      → Same s t
  queued_with_block p k a start = (refl, refl, refl)
  queued_with_block {s} p k a (next_block {t} {u} w block run h) =
      let q = queued_with_block p k a run in
      Same-trans s t u q (
        Ensures-Ends (Same t) _
          (queued_step block (record t { world = w }) (ground arith) (ground arith) (ground arith))
          h)

  -- A processed validator panics on an entry of the contract service that is there and nil.
  pub nil_entry :
      (block : ℕ) (s : Sim e.World)
      → s.state.first_processed ≡ true
      → (e.lookup_address id s.world).0 ≡ some none
      → process e fuel chain c id block s ≡ panics
  unfolding process refresh_state first_check handle_delegation_registration
  nil_entry block s p k = ground arith
