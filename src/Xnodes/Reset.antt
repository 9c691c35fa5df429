-- ===== src/Xnodes/Reset.antt =====
-- position_manager.go and validator.go 132-137: a validator that is unregistered and registered
-- again while a delegator holds one of its positions.
use hayabusa_e2e.Prelude.{ℕ, ◌≡◌, refl, none, some, false, arith}
use hayabusa_e2e.Prelude.Int.{pos, negsuc, ◌+ℤ◌}
use hayabusa_e2e.Prelude.Dict.{lookup, insert, erase, lookup-insert_self, lookup-erase}
use hayabusa_e2e.Xnodes.Allocation.{Counts, Float64, count, bump}
use hayabusa_e2e.Xnodes.Manager.{
  PositionManager, ActivePosition, register_validator, release, release_if, unregister_delegator,
  subtract_used, retire, unregister_validator, is_empty, make_validators_available_positions,
}
use hayabusa_e2e.Xnodes.Balance.{count-bump_self}

abbrev pub re_register : Float64 → ℕ → PositionManager → PositionManager
re_register f v pm = register_validator f v (unregister_validator v pm)

abbrev re_registered : Float64 → PositionManager → ℕ → Counts → Counts → PositionManager
re_registered f pm v c o =
    let allocation = make_validators_available_positions f pm v in
    record pm {
      total_active = subtract_used o c pm.total_active;
      validator_available = insert v allocation (erase v pm.validator_available);
      validator_original = insert v allocation (erase v pm.validator_original);
    }

re_register_lem :
    (f : Float64) (pm : PositionManager) (v : ℕ) (c o : Counts)
    → is_empty pm.positions ≡ false
    → lookup v pm.validator_available ≡ some c
    → lookup v pm.validator_original ≡ some o
    → re_register f v pm ≡ re_registered f pm v c o
unfolding register_validator unregister_validator retire make_validators_available_positions
re_register_lem f pm v c o some_known current original =
    let gone : lookup v (erase v pm.validator_available) ≡ none =
      ground (arith, lookup-erase v v pm.validator_available) in
    rw (some_known, current, original, some_known, gone) refl

unregister_delegator_lem :
    (id : ℕ) (a : ActivePosition) (c : Counts) (pm : PositionManager)
    → lookup id pm.delegations ≡ some a
    → lookup a.validator pm.validator_available ≡ some c
    → unregister_delegator id pm ≡ release id a (some c) pm
unfolding unregister_delegator release_if
unregister_delegator_lem id a c pm held current = rw (held, current) refl

-- A validator whose delegation holds a position, once unregistered and registered again, has its
-- whole allocation available; when the delegation then leaves it has one position more than it
-- was allocated, and one active position less is counted than after the registration.
pub released_twice :
    (f : Float64) (pm : PositionManager) (id : ℕ) (a : ActivePosition) (c o : Counts)
    → is_empty pm.positions ≡ false
    → lookup id pm.delegations ≡ some a
    → lookup a.validator pm.validator_available ≡ some c
    → lookup a.validator pm.validator_original ≡ some o
    → let k = a.position.name in
      let before = re_register f a.validator pm in
      let after = unregister_delegator id before in
      let allocation = make_validators_available_positions f pm a.validator in
      (lookup a.validator after.validator_original ≡ some allocation)
      × (lookup a.validator before.validator_available ≡ some allocation)
      × (lookup a.validator after.validator_available ≡ some (bump k (pos 1) allocation))
      × (count k after.total_active ≡ count k before.total_active +ℤ negsuc 0)
unfolding release
released_twice f pm id a c o some_known held current original =
    let v = a.validator in
    let k = a.position.name in
    let allocation = make_validators_available_positions f pm v in
    let reset = re_registered f pm v c o in
    let in_available = lookup-insert_self v allocation (erase v pm.validator_available) in
    let leaves = unregister_delegator_lem id a allocation reset held in_available in
    rw (re_register_lem f pm v c o some_known current original, leaves)
      (
        lookup-insert_self v allocation (erase v pm.validator_original),
        in_available,
        lookup-insert_self v (bump k (pos 1) allocation) reset.validator_available,
        count-bump_self k (negsuc 0) reset.total_active,
      )
