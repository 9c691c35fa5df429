-- ===== src/Xnodes/Balance/Registration.antt =====
-- position_manager.go: a new manager, and the registration of validators, keep the books balanced.
use hayabusa_e2e.Prelude.{
  ℕ, ◌≡◌, refl, inl, inr, List, [], ◌∷◌, Option, Option-cases, none, some, Bool-cases, ◌==◌, arith,
  ltb,
}
use hayabusa_e2e.Prelude.Int.{ℤ, pos, ◌+ℤ◌, ◌-ℤ◌, int_laws, parts}
use hayabusa_e2e.Prelude.Dict.{Dict, lookup, insert, erase, lookup-insert, lookup-erase}
use hayabusa_e2e.Prelude.Dict.Sum.{Nodup, insert-Nodup, erase-Nodup, sum, sum-insert_new, sum-erase}
use hayabusa_e2e.Xnodes.Allocation.{
  Position, DistributionType, Counts, Float64, count, make_positions, allocate, max_of,
}
use hayabusa_e2e.Xnodes.Manager.{
  PositionManager, new_manager, make_validators_available_positions, register_validator,
  subtract_used, retire, unregister_validator, is_empty,
}
use hayabusa_e2e.Xnodes.Balance.{Balanced, subtract_missing, subtract_present}

pub new_manager-Balanced :
    (len : ℕ) (t : DistributionType) (ps : List Position) → Balanced (new_manager len t ps)
unfolding new_manager sum ◌+ℤ◌
new_manager-Balanced len t ps = record {
  nodup_available = tt;
  nodup_original = tt;
  nodup_counts = λ v c h. cc;
  paired = λ v. (λ h. h, λ h. h);
  covered = λ v c o h g k e. cc;
  balance = λ k. refl;
}

module _ (f : Float64) where
  allocate-Nodup : (n : Option ℤ) (k : ℕ) (m : Counts) → Nodup m → Nodup (allocate f n k m)
  unfolding allocate
  allocate-Nodup none k m h = h
  allocate-Nodup (some n) k m h = ground (arith, h, insert-Nodup k n m h)

  make_positions-Nodup :
      (t : DistributionType) (len addr : ℕ) (ps : Dict Position) (m : Counts)
      → Nodup m
      → Nodup (make_positions f t len addr ps m)
  unfolding make_positions
  make_positions-Nodup t len addr [] m h = h
  make_positions-Nodup t len addr ((k, p) ∷ ps) m h =
      make_positions-Nodup t len addr ps _ (elim (Bool-cases (ltb 0 p.mainnet_used)) [
        | inl some_used ↦ rw some_used (allocate-Nodup (max_of f t len p addr) k m h)
        | inr no_use ↦ rw no_use h
      ])

  -- A validator that is not registered takes its allocation, all of it available.
  added-Balanced :
      (pm : PositionManager) (v : ℕ) (c : Counts)
      → Balanced pm
      → Nodup c
      → lookup v pm.validator_available ≡ none
      → Balanced (record pm {
        validator_available = insert v c pm.validator_available;
        validator_original = insert v c pm.validator_original;
      })
  added-Balanced pm v c b n h =
      let gone = (b.paired v).0 h in
      record {
        nodup_available = insert-Nodup v c pm.validator_available b.nodup_available;
        nodup_original = insert-Nodup v c pm.validator_original b.nodup_original;
        nodup_counts = λ u d e.
            ground (arith, lookup-insert u v c pm.validator_available, b.nodup_counts u d, n);
        paired = λ u. ground (
          arith,
          lookup-insert u v c pm.validator_available,
          lookup-insert u v c pm.validator_original,
          b.paired u,
        );
        covered = λ u d o e g k z. elim (Bool-cases (u == v)) [
          | inl hit ↦
              let left : c ≡ d = ground (arith, hit, lookup-insert u v c pm.validator_available) in
              let right : c ≡ o = ground (arith, hit, lookup-insert u v c pm.validator_original) in
              ground (arith, z, left, right)
          | inr miss ↦
              b.covered u d o (ground (arith, miss, lookup-insert u v c pm.validator_available))
                (ground (arith, miss, lookup-insert u v c pm.validator_original)) k z
        ];
        balance = λ k. omega (
          int_laws,
          parts (b.balance k),
          parts (sum-insert_new (count k) v c pm.validator_available h),
          parts (sum-insert_new (count k) v c pm.validator_original gone),
        );
      }

  pub register_validator-Balanced :
      (v : ℕ) (pm : PositionManager) → Balanced pm → Balanced (register_validator f v pm)
  unfolding register_validator make_validators_available_positions
  register_validator-Balanced v pm b = elim (Bool-cases (is_empty pm.positions)) [
    | inl none_known ↦ rw none_known b
    | inr some_known ↦ elim (Option-cases (lookup v pm.validator_available)) [
      | inl new ↦
          rw (some_known, new)
            (added-Balanced pm v _ b
              (make_positions-Nodup pm.distribution_type pm.max_leader_group_length v pm.positions
                [] tt)
              new)
      | inr (c, registered) ↦ rw (some_known, registered) b
    ]
  ]

-- A validator that leaves takes what it had available, and what it had used is active no more.
module _ (pm : PositionManager) (b : Balanced pm) (v : ℕ) (c o : Counts)
    (current : lookup v pm.validator_available ≡ some c)
    (original : lookup v pm.validator_original ≡ some o) where
  retired_count :
      (k : ℕ)
      → count k (subtract_used o c pm.total_active)
        ≡ count k pm.total_active -ℤ (count k o -ℤ count k c)
  retired_count k = elim (Option-cases (lookup k c)) [
    | inl missing ↦
        let same = subtract_missing k o c pm.total_active missing in
        let unused = b.covered v c o current original k missing in
        let left : count k c ≡ pos 0 = ground (arith, missing) in
        omega (int_laws, parts same, parts unused, parts left)
    | inr (n, held) ↦
        let present = subtract_present k n o c pm.total_active (b.nodup_counts v c current) held in
        let left : count k c ≡ n = ground (arith, held) in
        omega (int_laws, parts present, parts left)
  ]

  retired_balance :
      (k : ℕ)
      → count k (subtract_used o c pm.total_active)
          +ℤ sum (count k) (erase v pm.validator_available)
        ≡ sum (count k) (erase v pm.validator_original)
  retired_balance k = omega (
    int_laws,
    parts (retired_count k),
    parts (sum-erase (count k) v c pm.validator_available b.nodup_available current),
    parts (sum-erase (count k) v o pm.validator_original b.nodup_original original),
    parts (b.balance k),
  )

  retired-Balanced : Balanced (record pm {
    total_active = subtract_used o c pm.total_active;
    validator_available = erase v pm.validator_available;
    validator_original = erase v pm.validator_original;
  })
  retired-Balanced = record {
    nodup_available = erase-Nodup v pm.validator_available b.nodup_available;
    nodup_original = erase-Nodup v pm.validator_original b.nodup_original;
    nodup_counts =
        λ u d e. b.nodup_counts u d (ground (arith, e, lookup-erase u v pm.validator_available));
    paired = λ u. ground (
      arith,
      lookup-erase u v pm.validator_available,
      lookup-erase u v pm.validator_original,
      b.paired u,
    );
    covered = λ u d p e g k z.
        b.covered u d p (ground (arith, e, lookup-erase u v pm.validator_available))
          (ground (arith, g, lookup-erase u v pm.validator_original)) k z;
    balance = retired_balance;
  }

pub unregister_validator-Balanced :
    (v : ℕ) (pm : PositionManager) → Balanced pm → Balanced (unregister_validator v pm)
unfolding unregister_validator retire
unregister_validator-Balanced v pm b = elim (Bool-cases (is_empty pm.positions)) [
  | inl none_known ↦ rw none_known b
  | inr some_known ↦ elim (Option-cases (lookup v pm.validator_available)) [
    | inl absent ↦ rw (some_known, absent) b
    | inr (c, current) ↦ elim (Option-cases (lookup v pm.validator_original)) [
      | inl absent ↦ absurd (ground (arith, current, absent, (b.paired v).1 absent))
      | inr (o, original) ↦
          rw (some_known, current, original) (retired-Balanced pm b v c o current original)
    ]
  ]
]
