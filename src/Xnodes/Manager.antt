-- ===== src/Xnodes/Manager.antt =====
-- position_manager.go and positions.go. Position names, addresses and delegation hashes are map
-- keys, of which the code asks equality alone (and the bytes of an address): they are numbers,
-- an address the big-endian number of its 20 bytes. Go's ints are integers, a count that is
-- missing from a map reads 0. Map iteration takes the entries in the order of the association
-- list; where the code shuffles them, the shuffle is an argument.
use hayabusa_e2e.Prelude.{
  ℕ, Bool, true, false, ◌&&◌, ◌||◌, Option, none, some, List, [], ◌∷◌, if◌then◌else◌, map,
}
use hayabusa_e2e.Prelude.Int.{ℤ, pos, negsuc, ◌+ℤ◌, ◌-ℤ◌, ltb_ℤ}
use hayabusa_e2e.Prelude.Dict.{Dict, lookup, insert, erase}
use hayabusa_e2e.Xnodes.Allocation.{
  Position, DistributionType, Counts, count, bump, Float64, make_positions,
}

pub record ActivePosition : Type 0 where
  pub position : Position
  pub validator : ℕ

pub record PositionManager : Type 0 where
  pub max_leader_group_length : ℕ
  pub positions : Dict Position
  pub distribution_type : DistributionType
  pub delegations : Dict ActivePosition
  pub validator_available : Dict Counts
  pub validator_original : Dict Counts
  pub total_active : Counts

pub index_positions : List Position → Dict Position → Dict Position
index_positions [] m = m
index_positions (p ∷ ps) m = index_positions ps (insert p.name p m)

unfoldable pub new_manager : ℕ → DistributionType → List Position → PositionManager
unfolding index_positions
new_manager len t ps = record {
  max_leader_group_length = len;
  positions = index_positions ps [];
  distribution_type = t;
  delegations = [];
  validator_available = [];
  validator_original = [];
  total_active = [];
}

unfoldable pub is_empty : {V : Type 0} → Dict V → Bool
is_empty [] = true
is_empty (x ∷ xs) = false

total_used : Dict Position → ℤ → ℤ
total_used [] total = total
total_used ((k, p) ∷ ps) total = total_used ps (total +ℤ pos p.mainnet_used)

unfoldable pub total_supply : PositionManager → ℤ
unfolding total_used is_empty
total_supply pm = if is_empty pm.positions then pos 0 else total_used pm.positions (pos 0)

unfoldable pub available_from : Counts → Dict Position → ℤ → ℤ
available_from active [] n = n
available_from active ((k, p) ∷ ps) n =
    available_from active ps (n +ℤ (pos p.mainnet_used -ℤ count p.name active))

unfoldable pub available : PositionManager → ℤ
unfolding available_from is_empty
available pm =
    if is_empty pm.positions then pos 0 else available_from pm.total_active pm.positions (pos 0)

module _ (f : Float64) where
  unfoldable pub make_validators_available_positions : PositionManager → ℕ → Counts
  unfolding make_positions
  make_validators_available_positions pm addr =
      make_positions f pm.distribution_type pm.max_leader_group_length addr pm.positions []

  abbrev pub is_there : {V : Type 0} → Option V → Bool
  is_there none = false
  is_there (some v) = true

  unfoldable pub register_validator : ℕ → PositionManager → PositionManager
  unfolding is_empty
  register_validator v pm =
      if is_empty pm.positions || is_there (lookup v pm.validator_available)
      then pm
      else (let allocation = make_validators_available_positions pm v in
          record pm {
            validator_available = insert v allocation pm.validator_available;
            validator_original = insert v allocation pm.validator_original;
          })

unfoldable pub release : ℕ → ActivePosition → Option Counts → PositionManager → PositionManager
release id a none pm = record pm { delegations = erase id pm.delegations }
release id a (some current) pm = record pm {
  validator_available =
      insert a.validator (bump a.position.name (pos 1) current) pm.validator_available;
  total_active = bump a.position.name (negsuc 0) pm.total_active;
  delegations = erase id pm.delegations;
}

unfoldable pub release_if : ℕ → Option ActivePosition → PositionManager → PositionManager
unfolding release
release_if id none pm = pm
release_if id (some a) pm = release id a (lookup a.validator pm.validator_available) pm

unfoldable pub unregister_delegator : ℕ → PositionManager → PositionManager
unfolding release_if
unregister_delegator id pm = release_if id (lookup id pm.delegations) pm

-- The loop over the validator's counts: what it had used is no longer active.
unfoldable pub subtract_used : Counts → Counts → Counts → Counts
subtract_used original [] total = total
subtract_used original ((k, available) ∷ rest) total =
    subtract_used original rest (insert k (count k total -ℤ (count k original -ℤ available)) total)

unfoldable pub retire : ℕ → Option Counts → Option Counts → PositionManager → PositionManager
retire v none original pm = pm
retire v (some current) none pm = record pm { validator_available = erase v pm.validator_available }
retire v (some current) (some original) pm = record pm {
  total_active = subtract_used original current pm.total_active;
  validator_available = erase v pm.validator_available;
  validator_original = erase v pm.validator_original;
}

unfoldable pub unregister_validator : ℕ → PositionManager → PositionManager
unfolding retire is_empty
unregister_validator v pm =
    if is_empty pm.positions
    then pm
    else retire v (lookup v pm.validator_available) (lookup v pm.validator_original) pm

-- `pm.totalActive[id] < pm.positions[id].MainnetUsed`
unfoldable pub below_used : PositionManager → ℕ → Bool
below_used pm k = elim (lookup k pm.positions) [
  | none ↦ false
  | some p ↦ ltb_ℤ (count k pm.total_active) (pos p.mainnet_used)
]

-- The validator has a position of this kind left, and the network has.
unfoldable pub is_free : PositionManager → ℕ → ℕ → Bool
unfolding below_used
is_free pm v k = elim (lookup v pm.validator_available) [
  | none ↦ false
  | some current ↦ ltb_ℤ (pos 0) (count k current) && below_used pm k
]

unfoldable pub open_positions : PositionManager → Dict Position → List ℕ
unfolding below_used
open_positions pm [] = []
open_positions pm ((k, p) ∷ ps) =
    let rest = open_positions pm ps in if below_used pm k then k ∷ rest else rest

unfoldable pub find_position : PositionManager → ℕ → List ℕ → Option ℕ
unfolding is_free
find_position pm v [] = none
find_position pm v (k ∷ ks) =
    let rest = find_position pm v ks in if is_free pm v k then some k else rest

unfoldable pub or_next : ℕ → Option ℕ → Option (ℕ × ℕ) → Option (ℕ × ℕ)
or_next v none rest = rest
or_next v (some k) rest = some (v, k)

unfoldable pub find_slot : PositionManager → List ℕ → List ℕ → Option (ℕ × ℕ)
unfolding find_position or_next
find_slot pm [] ks = none
find_slot pm (v ∷ vs) ks = or_next v (find_position pm v ks) (find_slot pm vs ks)

unfoldable pub take_slot :
    ℕ
    → ℕ
    → ℕ
    → Option Counts
    → Option Position
    → PositionManager
    → Option ActivePosition × PositionManager
take_slot id v k (some current) (some p) pm =
    let a : ActivePosition = record { position = p; validator = v } in
    (
      some a,
      record pm {
        validator_available = insert v (bump k (negsuc 0) current) pm.validator_available;
        total_active = bump k (pos 1) pm.total_active;
        delegations = insert id a pm.delegations;
      },
    )
take_slot id v k _ _ pm = (none, pm)

unfoldable pub new_position_at :
    ℕ → Option (ℕ × ℕ) → PositionManager → Option ActivePosition × PositionManager
unfolding take_slot
new_position_at id none pm = (none, pm)
new_position_at id (some (v, k)) pm =
    take_slot id v k (lookup v pm.validator_available) (lookup k pm.positions) pm

abbrev pub keys : {V : Type 0} → Dict V → List ℕ
keys = map λ x. x.0

-- `id` is the random hash of the new delegation.
unfoldable pub new_position :
    (List ℕ → List ℕ)
    → (List ℕ → List ℕ)
    → ℕ
    → PositionManager
    → Option ActivePosition × PositionManager
unfolding new_position_at find_slot open_positions is_empty
new_position shuffle_validators shuffle_positions id pm =
    if is_empty pm.positions
    then (none, pm)
    else new_position_at id
        (find_slot pm (shuffle_validators (keys pm.validator_available))
          (shuffle_positions (open_positions pm pm.positions)))
        pm
