-- ===== src/Xnodes/Balance/Operations.antt =====
-- position_manager.go: each operation of the manager keeps the books balanced.
use hayabusa_e2e.Prelude.{
  ℕ, ◌≡◌, refl, inl, inr, List, [], ◌∷◌, Option, Option-cases, none, some, Bool-cases,
}
use hayabusa_e2e.Prelude.Int.{pos, negsuc, ◌+ℤ◌, ◌-ℤ◌, int_laws, parts}
use hayabusa_e2e.Prelude.Dict.{lookup, erase}
use hayabusa_e2e.Xnodes.Allocation.{Position, DistributionType, Float64, count}
use hayabusa_e2e.Xnodes.Manager.{
  PositionManager, new_manager, register_validator, release, release_if, unregister_delegator,
  unregister_validator, take_slot, new_position_at, new_position, is_empty,
}
use hayabusa_e2e.Xnodes.Balance.Registration.{
  new_manager-Balanced, register_validator-Balanced, unregister_validator-Balanced,
}
use hayabusa_e2e.Xnodes.Balance.{available_of, allocated_of, Balanced, moved-Balanced}

pub unregister_delegator-Balanced :
    (id : ℕ) (pm : PositionManager) → Balanced pm → Balanced (unregister_delegator id pm)
unfolding unregister_delegator release_if release ◌+ℤ◌
unregister_delegator-Balanced id pm b = elim (Option-cases (lookup id pm.delegations)) [
  | inl unknown_id ↦ rw unknown_id b
  | inr (a, known) ↦ elim (Option-cases (lookup a.validator pm.validator_available)) [
    | inl gone ↦
        rw (known, gone)
          (record {
            nodup_available = b.nodup_available;
            nodup_original = b.nodup_original;
            nodup_counts = b.nodup_counts;
            paired = b.paired;
            covered = b.covered;
            balance = b.balance;
          })
    | inr (c, held) ↦
        rw (known, held)
          (moved-Balanced pm b a.validator a.position.name c (pos 1) (negsuc 0) held refl
            (erase id pm.delegations))
  ]
]

take_slot-Balanced :
    (id v k : ℕ) (p : Option Position) (pm : PositionManager)
    → Balanced pm
    → Balanced (take_slot id v k (lookup v pm.validator_available) p pm).1
unfolding take_slot ◌+ℤ◌
take_slot-Balanced id v k p pm b = elim (Option-cases (lookup v pm.validator_available)) [
  | inl absent ↦ rw absent b
  | inr (c, held) ↦ elim (Option-cases p) [
    | inl unknown_kind ↦ rw (held, unknown_kind) b
    | inr (kind, known) ↦
        rw (held, known) (moved-Balanced pm b v k c (negsuc 0) (pos 1) held refl _)
  ]
]

new_position_at-Balanced :
    (id : ℕ) (slot : Option (ℕ × ℕ)) (pm : PositionManager)
    → Balanced pm
    → Balanced (new_position_at id slot pm).1
unfolding new_position_at
new_position_at-Balanced id none pm b = b
new_position_at-Balanced id (some (v, k)) pm b =
    take_slot-Balanced id v k (lookup k pm.positions) pm b

pub new_position-Balanced :
    (shuffle_validators shuffle_positions : List ℕ → List ℕ) (id : ℕ) (pm : PositionManager)
    → Balanced pm
    → Balanced (new_position shuffle_validators shuffle_positions id pm).1
unfolding new_position
new_position-Balanced shuffle_validators shuffle_positions id pm b =
    elim (Bool-cases (is_empty pm.positions)) [
      | inl none_known ↦ rw none_known b
      | inr some_known ↦ rw some_known (new_position_at-Balanced id _ pm b)
    ]

pub data Request : Type 0 where
  register : ℕ → Request
  unregister : ℕ → Request
  delegate : (List ℕ → List ℕ) → (List ℕ → List ℕ) → ℕ → Request
  undelegate : ℕ → Request

module _ (f : Float64) where
  unfoldable pub perform : Request → PositionManager → PositionManager
  perform (register v) pm = register_validator f v pm
  perform (unregister v) pm = unregister_validator v pm
  perform (delegate shuffle_validators shuffle_positions id) pm =
      (new_position shuffle_validators shuffle_positions id pm).1
  perform (undelegate id) pm = unregister_delegator id pm

  unfoldable pub perform_all : List Request → PositionManager → PositionManager
  unfolding perform
  perform_all [] pm = pm
  perform_all (r ∷ rs) pm = perform_all rs (perform r pm)

  perform-Balanced : (r : Request) (pm : PositionManager) → Balanced pm → Balanced (perform r pm)
  unfolding perform
  perform-Balanced (register v) pm b = register_validator-Balanced f v pm b
  perform-Balanced (unregister v) pm b = unregister_validator-Balanced v pm b
  perform-Balanced (delegate shuffle_validators shuffle_positions id) pm b =
      new_position-Balanced shuffle_validators shuffle_positions id pm b
  perform-Balanced (undelegate id) pm b = unregister_delegator-Balanced id pm b

  -- In every state of a manager whose books balance, after any list of calls they still do.
  pub perform_all-Balanced :
      (rs : List Request) (pm : PositionManager) → Balanced pm → Balanced (perform_all rs pm)
  unfolding perform_all
  perform_all-Balanced [] pm b = b
  perform_all-Balanced (r ∷ rs) pm b =
      perform_all-Balanced rs (perform r pm) (perform-Balanced r pm b)

  -- Whatever calls a new manager has served, the positions of a kind that are active are those
  -- allocated to the registered validators, less those they have available.
  pub total_active_lem :
      (len : ℕ) (t : DistributionType) (ps : List Position) (rs : List Request) (k : ℕ)
      → let pm = perform_all rs (new_manager len t ps) in
        count k pm.total_active ≡ allocated_of k pm -ℤ available_of k pm
  total_active_lem len t ps rs k =
      let b = perform_all-Balanced rs (new_manager len t ps) (new_manager-Balanced len t ps) in
      omega (int_laws, parts (b.balance k))
