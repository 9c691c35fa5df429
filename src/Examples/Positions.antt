-- ===== src/Examples/Positions.antt =====
-- A manager of one kind of position, with two validators to share them.
use hayabusa_e2e.Prelude.{ℕ, ◌≡◌, refl, false, none, some, List, [], ◌∷◌}
use hayabusa_e2e.Prelude.Int.{ℤ, pos, ◌+ℤ◌, ◌-ℤ◌, ltb_ℤ}
use hayabusa_e2e.Xnodes.Allocation.{Position, Float64, even, count}
use hayabusa_e2e.Xnodes.Manager.{
  ActivePosition, PositionManager, is_free, is_empty, new_position, unregister_delegator,
  make_validators_available_positions,
}
use hayabusa_e2e.Xnodes.Manager
use hayabusa_e2e.Xnodes.Balance.{allocated_of, available_of}
use hayabusa_e2e.Xnodes.Balance.Operations.{
  Request, register, unregister, delegate, undelegate, perform_all, total_active_lem,
}
use hayabusa_e2e.Xnodes.Slots.{Granted, new_position-Granted, new_position-none}

abbrev kind : Position
kind = record { name = 2; stake = 100; mainnet_used = 3; multiplier = 100 }

-- A coarse stand-in for float64, in which every quotient is one and a product its first factor.
abbrev whole : Float64
whole = record {
  F = ℤ;
  of_int = λ n. n;
  to_int = λ n. n;
  add = λ a b. a +ℤ b;
  sub = λ a b. a -ℤ b;
  mul = λ a b. a;
  div = λ a b. pos 1;
  less = λ a b. ltb_ℤ a b;
}

abbrev requests : List Request
requests =
    register 5 ∷ delegate (λ vs. vs) (λ ks. ks) 8 ∷ unregister 5 ∷ register 5 ∷ undelegate 8 ∷ []

total_active_example :
    count 2 (perform_all whole requests (Manager.new_manager 1 even (kind ∷ []))).total_active
    ≡ allocated_of 2 (perform_all whole requests (Manager.new_manager 1 even (kind ∷ [])))
      -ℤ available_of 2 (perform_all whole requests (Manager.new_manager 1 even (kind ∷ [])))
total_active_example = total_active_lem whole 1 even (kind ∷ []) requests 2

abbrev manager_of : ℤ → PositionManager
manager_of left = record {
  max_leader_group_length = 1;
  positions = (2, kind) ∷ [];
  distribution_type = even;
  delegations = (8, record { position = kind; validator = 5 }) ∷ [];
  validator_available = (5, (2, left) ∷ []) ∷ [];
  validator_original = (5, (2, pos 3) ∷ []) ∷ [];
  total_active = (2, pos 1) ∷ [];
}

taken :
    (new_position (λ vs. vs) (λ ks. ks) 9 (manager_of (pos 2))).0
    ≡ some (record { position = kind; validator = 5 })
unfolding new_position
taken = refl

new_position-Granted_example :
    Granted (manager_of (pos 2)) (record { position = kind; validator = 5 })
new_position-Granted_example =
    new_position-Granted (λ vs. vs) (λ ks. ks) 9 (manager_of (pos 2))
      (record { position = kind; validator = 5 }) taken

refused : (new_position (λ vs. vs) (λ ks. ks) 9 (manager_of (pos 0))).0 ≡ none
unfolding new_position
refused = refl

new_position-none_example :
    ((new_position (λ vs. vs) (λ ks. ks) 9 (manager_of (pos 0))).1 ≡ manager_of (pos 0))
    × ((v k : ℕ) → is_free (manager_of (pos 0)) v k ≡ false)
new_position-none_example =
    new_position-none (λ vs. vs) (λ ks. ks) 9 (manager_of (pos 0)) (λ x xs h. h) (λ x xs h. h)
      refused
