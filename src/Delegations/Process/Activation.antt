-- ===== src/Delegations/Process/Activation.antt =====
-- delegator.go: when a queued delegation is taken to be active.
use hayabusa_e2e.Prelude.{ℕ, ◌∙◌, ◌+◌, ◌≤◌, ◌<◌, ◌≡◌, ◌≢◌, ◌↔◌, some, refl, arith, max_u32}
use hayabusa_e2e.Prelude.Go.{Ensures, Returns, Ends, Ensures-imp, Ensures-Ends}
use hayabusa_e2e.Lifecycle.{queued, active}
use hayabusa_e2e.Services.{Services, ChainConfig, Validation}
use hayabusa_e2e.Delegations.State.{Delegator, DelegatorConfig}
use hayabusa_e2e.Delegations.Process.{
  process, process_state, process_queued_state, with_cleanup, check_for_activation,
}

module _ (e : Services) (chain : ChainConfig) (c : DelegatorConfig) where
  -- A queued delegation becomes active at the first block at which its validator is known to have
  -- completed at least one iteration, and at most one more than the delegation's start period, for
  -- a start period below the largest uint32; with no iteration completed the subtraction wraps
  -- around and it does not.
  pub check_for_activation_lem :
      (v : Validation) (d : Delegator e.World)
      → d.status ≡ queued
      → d.start_period < max_u32
      → v.complete_iterations ≤ max_u32
      → Returns
          (λ t.
            (t.status ≡ active)
            ↔ ((v.complete_iterations ≢ 0) × (v.complete_iterations ≤ d.start_period + 1)))
          (check_for_activation e chain c v d)
  unfolding check_for_activation
  check_for_activation_lem v d h p q = ground arith

  late_step :
      (block : ℕ) (d : Delegator e.World) (v : Validation)
      → d.status ≡ queued
      → (e.lookup_address c.validation_id d.world).0 ≡ some (some v)
      → d.start_period + 1 < v.complete_iterations
      → v.complete_iterations ≤ max_u32
      → Ensures
          (λ t. (t.status ≡ queued) × (t.start_period ≡ d.start_period))
          (process e chain c block d)
  unfolding process process_state process_queued_state with_cleanup
  late_step block d v h k late m = grind arith

  -- The worlds in which the validator has completed more iterations than a start period and one.
  abbrev pub IsLate : ℕ → e.World → Type 0
  IsLate start_period w =
      (v : Validation) × ((e.lookup_address c.validation_id w).0 ≡ some (some v))
      × (start_period + 1 < v.complete_iterations)
      × (v.complete_iterations ≤ max_u32)

  -- Blocks that are all processed in late worlds.
  pub data LateRun (d : Delegator e.World) : Delegator e.World → Type 0 where
    late_start : LateRun d d
    late_then :
        {t u : Delegator e.World} (w : e.World) (block : ℕ)
        → LateRun d t
        → IsLate t.start_period w
        → Ends (process e chain c block (record t { world = w })) u
        → LateRun d u

  -- A queued delegation that was not seen active while its validator had completed at most one
  -- iteration more than the start period is never seen active: it stays queued for good.
  pub late_stays_queued :
      {d t : Delegator e.World}
      → d.status ≡ queued
      → LateRun d t
      → (t.status ≡ queued) × (t.start_period ≡ d.start_period)
  late_stays_queued h late_start = (h, refl)
  late_stays_queued {d} h (late_then {t} {u} w block r (v, k, l, m) p) =
      let (q, same) = late_stays_queued h r in
      Ensures-Ends (λ x. (x.status ≡ queued) × (x.start_period ≡ d.start_period)) _
        (Ensures-imp (λ x. (x.status ≡ queued) × (x.start_period ≡ t.start_period))
          (λ x. (x.status ≡ queued) × (x.start_period ≡ d.start_period)) _
          (λ x z. (z.0, z.1 ∙ same)) (late_step block (record t { world = w }) v q k l m))
        p
