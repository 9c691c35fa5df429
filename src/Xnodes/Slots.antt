-- ===== src/Xnodes/Slots.antt =====
-- position_manager.go, NewPosition: a delegation takes a position that was free, and one is
-- refused only when none is.
use hayabusa_e2e.Prelude.{
  elem, ℕ, ◌≡◌, ◌≢◌, refl, inl, inr, List, [], ◌∷◌, Option-cases, none, some, true, false,
  Bool-cases, ◌==◌, ==_iff, subst, sym, arith,
}
use hayabusa_e2e.Prelude.Int.{pos, ltb_ℤ}
use hayabusa_e2e.Prelude.Dict.{Dict, lookup}
use hayabusa_e2e.Xnodes.Allocation.{Position, Counts, count}
use hayabusa_e2e.Xnodes.Manager.{
  PositionManager, ActivePosition, below_used, is_free, open_positions, find_position, or_next,
  find_slot, take_slot, new_position_at, keys, new_position, is_empty,
}

-- A shuffle that loses nothing.
abbrev pub KeepsMembers : (List ℕ → List ℕ) → Type 0
KeepsMembers shuffle = (x : ℕ) (xs : List ℕ) → elem x xs ≡ true → elem x (shuffle xs) ≡ true

find_position-free :
    (pm : PositionManager) (v k : ℕ) (ks : List ℕ)
    → find_position pm v ks ≡ some k
    → is_free pm v k ≡ true
unfolding find_position
find_position-free pm v k [] h = cc
find_position-free pm v k (j ∷ ks) h = elim (Bool-cases (is_free pm v j)) [
  | inl free ↦ ground (arith, h, free, subst (λ x. is_free pm v x ≡ true))
  | inr full ↦ find_position-free pm v k ks (ground (arith, h, full))
]

find_position-none :
    (pm : PositionManager) (v k : ℕ) (ks : List ℕ)
    → find_position pm v ks ≡ none
    → elem k ks ≡ true
    → is_free pm v k ≡ false
unfolding find_position
find_position-none pm v k [] h m = cc
find_position-none pm v k (j ∷ ks) h m = ground (arith, find_position-none pm v k ks)

find_slot-free :
    (pm : PositionManager) (vs ks : List ℕ) (v k : ℕ)
    → find_slot pm vs ks ≡ some (v, k)
    → is_free pm v k ≡ true
unfolding find_slot or_next
find_slot-free pm [] ks v k h = cc
find_slot-free pm (u ∷ vs) ks v k h = elim (Option-cases (find_position pm u ks)) [
  | inl nothing ↦ find_slot-free pm vs ks v k (ground (arith, h, nothing))
  | inr (j, found) ↦ ground (arith, h, found, find_position-free pm u j ks found)
]

find_slot-none :
    (pm : PositionManager) (vs ks : List ℕ) (v k : ℕ)
    → find_slot pm vs ks ≡ none
    → elem v vs ≡ true
    → elem k ks ≡ true
    → is_free pm v k ≡ false
unfolding find_slot or_next
find_slot-none pm [] ks v k h m n = cc
find_slot-none pm (u ∷ vs) ks v k h m n = elim (Option-cases (find_position pm u ks)) [
  | inl nothing ↦ elim (Bool-cases (v == u)) [
    | inl hit ↦
        subst (λ x. is_free pm x k ≡ false) (sym ((==_iff v u).0 hit))
          (find_position-none pm u k ks nothing n)
    | inr miss ↦
        find_slot-none pm vs ks v k (ground (arith, h, nothing)) (ground (arith, m, miss)) n
  ]
  | inr (j, found) ↦ absurd (ground (arith, h, found))
]

keys-elem : {V : Type 0} (k : ℕ) (v : V) (d : Dict V) → lookup k d ≡ some v → elem k (keys d) ≡ true
keys-elem k v [] h = cc
keys-elem k v ((j, w) ∷ d) h = ground (arith, keys-elem k v d)

open_positions-elem :
    (pm : PositionManager) (k : ℕ) (p : Position) (ps : Dict Position)
    → below_used pm k ≡ true
    → lookup k ps ≡ some p
    → elem k (open_positions pm ps) ≡ true
unfolding open_positions
open_positions-elem pm k p [] b h = cc
open_positions-elem pm k p ((j, q) ∷ ps) b h = elim (Bool-cases (k == j)) [
  | inl hit ↦
      let used : below_used pm j ≡ true =
        subst (λ x. below_used pm x ≡ true) ((==_iff k j).0 hit) b in
      rw used (ground (arith, hit))
  | inr miss ↦ ground (arith, h, miss, open_positions-elem pm k p ps b)
]

-- What the caller learns of the position it is given.
pub record Granted (pm : PositionManager) (a : ActivePosition) : Type 0 where
  pub kind : ℕ
  pub current : Counts
  pub registered : lookup a.validator pm.validator_available ≡ some current
  pub known : lookup kind pm.positions ≡ some a.position
  pub left : ltb_ℤ (pos 0) (count kind current) ≡ true
  pub below : ltb_ℤ (count kind pm.total_active) (pos a.position.mainnet_used) ≡ true

taken-Granted :
    (pm : PositionManager) (id v k : ℕ) (a : ActivePosition)
    → is_free pm v k ≡ true
    → (new_position_at id (some (v, k)) pm).0 ≡ some a
    → Granted pm a
unfolding new_position_at take_slot is_free below_used
taken-Granted pm id v k a free h = elim (Option-cases (lookup v pm.validator_available)) [
  | inl absent ↦ absurd (ground (arith, free, absent))
  | inr (c, held) ↦ elim (Option-cases (lookup k pm.positions)) [
    | inl unknown_kind ↦ absurd (ground (arith, free, held, unknown_kind))
    | inr (p, known) ↦
        let given : record { position = p; validator = v } ≡ a = ground (arith, h, held, known) in
        subst (Granted pm) given (record {
          kind = k;
          current = c;
          registered = held;
          known = known;
          left = ground (arith, free, held, known);
          below = ground (arith, free, held, known);
        })
  ]
]

free-taken :
    (pm : PositionManager) (id v k : ℕ)
    → is_free pm v k ≡ true
    → (new_position_at id (some (v, k)) pm).0 ≢ none
unfolding new_position_at take_slot is_free below_used
free-taken pm id v k free h = elim (Option-cases (lookup v pm.validator_available)) [
  | inl absent ↦ ground (arith, free, absent)
  | inr (c, held) ↦ elim (Option-cases (lookup k pm.positions)) [
    | inl unknown_kind ↦ ground (arith, free, held, unknown_kind)
    | inr (p, known) ↦ ground (arith, h, held, known)
  ]
]

-- A delegation is given a position of a kind that its validator has available, and of which fewer
-- are active than mainnet uses.
pub new_position-Granted :
    (sv sp : List ℕ → List ℕ) (id : ℕ) (pm : PositionManager) (a : ActivePosition)
    → (new_position sv sp id pm).0 ≡ some a
    → Granted pm a
unfolding new_position
new_position-Granted sv sp id pm a h =
    let vs = sv (keys pm.validator_available) in
    let ks = sp (open_positions pm pm.positions) in
    elim (Bool-cases (is_empty pm.positions)) [
      | inl nothing_known ↦ absurd (ground (arith, h, nothing_known))
      | inr some_known ↦ elim (Option-cases (find_slot pm vs ks)) [
        | inl nothing ↦ absurd (cc (rw (some_known, nothing) at h))
        | inr ((v, k), found) ↦
            taken-Granted pm id v k a (find_slot-free pm vs ks v k found)
              (rw (some_known, found) at h)
      ]
    ]

unregistered :
    (pm : PositionManager) (sv sp : List ℕ → List ℕ) (v k : ℕ)
    → KeepsMembers sv
    → KeepsMembers sp
    → find_slot pm (sv (keys pm.validator_available)) (sp (open_positions pm pm.positions)) ≡ none
    → is_free pm v k ≡ false
unfolding is_free below_used
unregistered pm sv sp v k cv cp h = elim (Bool-cases (is_free pm v k)) [
  | inr full ↦ full
  | inl free ↦ elim (Option-cases (lookup v pm.validator_available)) [
    | inl absent ↦ ground (arith, absent)
    | inr (c, held) ↦ elim (Option-cases (lookup k pm.positions)) [
      | inl unknown_kind ↦ ground (arith, held, unknown_kind)
      | inr (p, known) ↦
          find_slot-none pm (sv (keys pm.validator_available)) (sp (open_positions pm pm.positions))
            v k h (cv v (keys pm.validator_available) (keys-elem v c pm.validator_available held))
            (cp k (open_positions pm pm.positions)
              (open_positions-elem pm k p pm.positions (ground (arith, free, held)) known))
    ]
  ]
]

is_empty-lookup : {V : Type 0} (k : ℕ) (d : Dict V) → is_empty d ≡ true → lookup k d ≡ none
unfolding is_empty
is_empty-lookup k [] h = refl
is_empty-lookup k (x ∷ d) h = cc

empty-unfree :
    (pm : PositionManager) (v k : ℕ) → is_empty pm.positions ≡ true → is_free pm v k ≡ false
unfolding is_free below_used is_empty
empty-unfree pm v k h = elim (Option-cases (lookup v pm.validator_available)) [
  | inl absent ↦ ground (arith, absent)
  | inr (c, held) ↦ ground (arith, held, is_empty-lookup k pm.positions h)
]

-- With shuffles that lose nothing, a delegation is refused only when no registered validator has
-- a position of a kind left of which fewer are active than mainnet uses; the manager is then as
-- it was.
pub new_position-none :
    (sv sp : List ℕ → List ℕ) (id : ℕ) (pm : PositionManager)
    → KeepsMembers sv
    → KeepsMembers sp
    → (new_position sv sp id pm).0 ≡ none
    → ((new_position sv sp id pm).1 ≡ pm) × ((v k : ℕ) → is_free pm v k ≡ false)
unfolding new_position new_position_at
new_position-none sv sp id pm cv cp h =
    let vs = sv (keys pm.validator_available) in
    let ks = sp (open_positions pm pm.positions) in
    elim (Bool-cases (is_empty pm.positions)) [
      | inl nothing_known ↦ rw nothing_known (refl, λ v k. empty-unfree pm v k nothing_known)
      | inr some_known ↦ elim (Option-cases (find_slot pm vs ks)) [
        | inl nothing ↦
            rw (some_known, nothing) (refl, λ v k. unregistered pm sv sp v k cv cp nothing)
        | inr ((v, k), found) ↦
            absurd (
              free-taken pm id v k (find_slot-free pm vs ks v k found)
                (rw (some_known, found) at h))
      ]
    ]
