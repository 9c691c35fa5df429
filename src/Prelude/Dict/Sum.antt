-- ===== src/Prelude/Dict/Sum.antt =====
-- Sums over a map, and maps that hold each key once.
use hayabusa_e2e.Prelude.Tests.{◌==◌, Bool-cases}
use hayabusa_e2e.Prelude.Int.{ℤ, pos, ◌+ℤ◌, int_laws, parts}
use Prim.Native.Nat.{ℕ}
use mathlib.Core.Path.{◌≡◌, refl, ap}
use mathlib.Core.List.{[], ◌∷◌}
use mathlib.Core.Option.{none, some}
use mathlib.Core.Logic.{inl, inr}
use native.Mathlib.Omega.{arith}
use hayabusa_e2e.Prelude.Dict.{Dict, lookup, insert, erase, lookup-insert, lookup-erase}

module _ {ℓ} {V : Type ℓ} where
  abbrev pub Nodup : Dict V → Type ℓ
  Nodup [] = Unit
  Nodup ((k, v) ∷ d) = (lookup k d ≡ none) × Nodup d

  pub insert-Nodup : (k : ℕ) (v : V) (d : Dict V) → Nodup d → Nodup (insert k v d)
  insert-Nodup k v [] h = (refl, tt)
  insert-Nodup k v ((j, w) ∷ d) h = ground (arith, insert-Nodup k v d h.1, lookup-insert j k v d)

  pub erase-Nodup : (k : ℕ) (d : Dict V) → Nodup d → Nodup (erase k d)
  erase-Nodup k [] h = tt
  erase-Nodup k ((j, w) ∷ d) h = ground (arith, erase-Nodup k d h.1, lookup-erase j k d)

  erase_missing : (k : ℕ) (d : Dict V) → lookup k d ≡ none → erase k d ≡ d
  erase_missing k [] h = refl
  erase_missing k ((j, w) ∷ d) h = ground (arith, erase_missing k d)

  module _ (g : V → ℤ) where
    unfoldable pub sum : Dict V → ℤ
    sum [] = pos 0
    sum ((k, v) ∷ d) = g v +ℤ sum d

    pub sum-insert_new :
        (k : ℕ) (v : V) (d : Dict V) → lookup k d ≡ none → sum (insert k v d) ≡ sum d +ℤ g v
    unfolding sum
    sum-insert_new k v [] h = omega int_laws
    sum-insert_new k v ((j, w) ∷ d) h = elim (Bool-cases (k == j)) [
      | inl hit ↦ cc (rw hit at h)
      | inr miss ↦ rw miss (omega (int_laws, parts (sum-insert_new k v d (rw miss at h))))
    ]

    pub sum-insert :
        (k : ℕ) (v u : V) (d : Dict V)
        → lookup k d ≡ some u
        → sum (insert k v d) +ℤ g u ≡ sum d +ℤ g v
    unfolding sum
    sum-insert k v u [] h = cc
    sum-insert k v u ((j, w) ∷ d) h = elim (Bool-cases (k == j)) [
      | inl hit ↦
          let same : w ≡ u = ground (arith, hit) in rw hit (omega (int_laws, parts (ap g same)))
      | inr miss ↦ rw miss (omega (int_laws, parts (sum-insert k v u d (rw miss at h))))
    ]

    pub sum-erase :
        (k : ℕ) (u : V) (d : Dict V)
        → Nodup d
        → lookup k d ≡ some u
        → sum (erase k d) +ℤ g u ≡ sum d
    unfolding sum
    sum-erase k u [] n h = cc
    sum-erase k u ((j, w) ∷ d) n h = elim (Bool-cases (k == j)) [
      | inl hit ↦
          let gone : erase k d ≡ d = erase_missing k d (ground (arith, hit, n.0)) in
          let same : w ≡ u = ground (arith, hit) in
          rw (hit, gone) (omega (int_laws, parts (ap g same)))
      | inr miss ↦ rw miss (omega (int_laws, parts (sum-erase k u d n.1 (rw miss at h))))
    ]
