-- ===== src/Xnodes/Balance.antt =====
-- position_manager.go: the active positions are those that the registered validators have used.
pub mod Registration
pub mod Operations
use hayabusa_e2e.Prelude.{
  ℕ, ◌≡◌, ◌↔◌, ◌∙◌, refl, sym, inl, inr, List, [], ◌∷◌, Option, Option-cases, none, some, true,
  false, Bool-cases, ◌==◌, ==_iff, subst, if◌then◌else◌, arith,
}
use hayabusa_e2e.Prelude.Int.{ℤ, pos, negsuc, pos_part, neg_part, ◌+ℤ◌, ◌-ℤ◌, int_laws, parts}
use hayabusa_e2e.Prelude.Dict.{
  Dict, lookup, insert, erase, lookup-insert, lookup-insert_self, lookup-insert_ne, lookup-erase,
}
use hayabusa_e2e.Prelude.Dict.Sum.{
  Nodup, insert-Nodup, erase-Nodup, sum, sum-insert_new, sum-insert, sum-erase,
}
use hayabusa_e2e.Xnodes.Allocation.{
  Position, DistributionType, Counts, Float64, count, bump, make_positions,
}
use hayabusa_e2e.Xnodes.Manager.{
  PositionManager, ActivePosition, new_manager, make_validators_available_positions,
  register_validator, release, release_if, unregister_delegator, subtract_used, retire,
  unregister_validator, take_slot, new_position_at, new_position,
}

-- Over the registered validators, what is available of a kind and what was allocated of it.
abbrev pub available_of : ℕ → PositionManager → ℤ
available_of k pm = sum (count k) pm.validator_available

abbrev pub allocated_of : ℕ → PositionManager → ℤ
allocated_of k pm = sum (count k) pm.validator_original

pub record Balanced (pm : PositionManager) : Type 0 where
  pub nodup_available : Nodup pm.validator_available
  pub nodup_original : Nodup pm.validator_original
  pub nodup_counts : (v : ℕ) (c : Counts) → lookup v pm.validator_available ≡ some c → Nodup c
  pub paired :
      (v : ℕ) → (lookup v pm.validator_available ≡ none) ↔ (lookup v pm.validator_original ≡ none)
  pub covered :
      (v : ℕ) (c o : Counts)
      → lookup v pm.validator_available ≡ some c
      → lookup v pm.validator_original ≡ some o
      → (k : ℕ) → lookup k c ≡ none
      → count k o ≡ pos 0
  pub balance : (k : ℕ) → count k pm.total_active +ℤ available_of k pm ≡ allocated_of k pm

pub count-bump_self : (k : ℕ) (n : ℤ) (d : Counts) → count k (bump k n d) ≡ count k d +ℤ n
count-bump_self k n d = ground (arith, lookup-insert_self k (count k d +ℤ n) d)

count-bump_ne : (j k : ℕ) (n : ℤ) (d : Counts) → (j == k) ≡ false → count j (bump k n d) ≡ count j d
count-bump_ne j k n d h = ground (arith, h, lookup-insert j k (count k d +ℤ n) d)

subtract_missing :
    (j : ℕ) (o c total : Counts)
    → lookup j c ≡ none
    → count j (subtract_used o c total) ≡ count j total
unfolding subtract_used
subtract_missing j o [] total h = refl
subtract_missing j o ((k, n) ∷ c) total h =
    let next = insert k (count k total -ℤ (count k o -ℤ n)) total in
    ground (
      arith,
      subtract_missing j o c next,
      lookup-insert j k (count k total -ℤ (count k o -ℤ n)) total,
    )

subtract_present :
    (j : ℕ) (n : ℤ) (o c total : Counts)
    → Nodup c
    → lookup j c ≡ some n
    → count j (subtract_used o c total) ≡ count j total -ℤ (count j o -ℤ n)
unfolding subtract_used
subtract_present j n o [] total u h = cc
subtract_present j n o ((k, m) ∷ c) total u h =
    let next = insert k (count k total -ℤ (count k o -ℤ m)) total in
    ground (
      arith,
      subtract_present j n o c next u.1,
      subtract_missing j o c next,
      lookup-insert j k (count k total -ℤ (count k o -ℤ m)) total,
    )

-- One unit of a kind moves between what a validator has available and what is active.
module _ (pm : PositionManager) (b : Balanced pm) (v k : ℕ) (c : Counts) (n m : ℤ)
    (held : lookup v pm.validator_available ≡ some c) (opposite : n +ℤ m ≡ pos 0) where
  abbrev moved_available : Dict Counts
  moved_available = insert v (bump k n c) pm.validator_available

  moved_balance_self :
      count k (bump k m pm.total_active) +ℤ sum (count k) moved_available ≡ allocated_of k pm
  moved_balance_self = omega (
    int_laws,
    parts opposite,
    parts (count-bump_self k m pm.total_active),
    parts (count-bump_self k n c),
    parts (sum-insert (count k) v (bump k n c) c pm.validator_available held),
    parts (b.balance k),
  )

  moved_balance :
      (j : ℕ)
      → count j (bump k m pm.total_active) +ℤ sum (count j) moved_available ≡ allocated_of j pm
  moved_balance j = elim (Bool-cases (j == k)) [
    | inl same ↦
        subst
          (λ x.
            count x (bump k m pm.total_active) +ℤ sum (count x) moved_available ≡ allocated_of x pm)
          (sym ((==_iff j k).0 same)) moved_balance_self
    | inr other ↦ omega (
      int_laws,
      parts (count-bump_ne j k m pm.total_active other),
      parts (count-bump_ne j k n c other),
      parts (sum-insert (count j) v (bump k n c) c pm.validator_available held),
      parts (b.balance j),
    )
  ]

  moved_lookup :
      (u : ℕ)
      → lookup u moved_available
        ≡ (if u == v then some (bump k n c) else lookup u pm.validator_available)
  moved_lookup u = lookup-insert u v (bump k n c) pm.validator_available

  moved-Nodup : (u : ℕ) (c' : Counts) → lookup u moved_available ≡ some c' → Nodup c'
  moved-Nodup u c' h = elim (Bool-cases (u == v)) [
    | inl hit ↦
        let new : bump k n c ≡ c' = ground (arith, hit, moved_lookup u) in
        subst Nodup new (insert-Nodup k (count k c +ℤ n) c (b.nodup_counts v c held))
    | inr miss ↦ b.nodup_counts u c' (ground (arith, miss, moved_lookup u))
  ]

  moved_paired :
      (u : ℕ) → (lookup u moved_available ≡ none) ↔ (lookup u pm.validator_original ≡ none)
  moved_paired u = ground (arith, moved_lookup u, b.paired u)

  moved_covered :
      (u : ℕ) (c' o : Counts)
      → lookup u moved_available ≡ some c'
      → lookup u pm.validator_original ≡ some o
      → (j : ℕ) → lookup j c' ≡ none
      → count j o ≡ pos 0
  moved_covered u c' o h g j e = elim (Bool-cases (u == v)) [
    | inl hit ↦
        let new : bump k n c ≡ c' = ground (arith, hit, moved_lookup u) in
        let gone : lookup j (bump k n c) ≡ none = rw new e in
        b.covered v c o held (ground (arith, hit)) j
          (ground (arith, gone, lookup-insert j k (count k c +ℤ n) c))
    | inr miss ↦ b.covered u c' o (ground (arith, miss, moved_lookup u)) g j e
  ]

  pub moved-Balanced :
      (d : Dict ActivePosition)
      → Balanced (record pm {
        validator_available = moved_available;
        total_active = bump k m pm.total_active;
        delegations = d;
      })
  moved-Balanced d = record {
    nodup_available = insert-Nodup v (bump k n c) pm.validator_available b.nodup_available;
    nodup_original = b.nodup_original;
    nodup_counts = moved-Nodup;
    paired = moved_paired;
    covered = moved_covered;
    balance = moved_balance;
  }
