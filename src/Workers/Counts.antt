-- ===== src/Workers/Counts.antt =====
-- Sums over lists, and what a change at one place does to them.
use hayabusa_e2e.Prelude.{
  ℕ, zero, suc, ◌+◌, ◌≡◌, ◌<◌, ◌==◌, refl, some, List, [], ◌∷◌, ◌++◌, arith, length, get_elem?, ltb,
  ltb→lt, ltb→le, Bool-cases, inl, inr, if◌then◌else◌,
}
use hayabusa_e2e.Workers.Pool.{set_at, remove_at, replicate}

module _ {ℓ} {A : Type ℓ} (f : A → ℕ) where
  abbrev pub total : List A → ℕ
  total [] = 0
  total (x ∷ xs) = f x + total xs

  pub total-append : (xs ys : List A) → total (xs ++ ys) ≡ total xs + total ys
  total-append [] ys = omega arith
  total-append (x ∷ xs) ys = omega (arith, total-append xs ys)

  pub total-set :
      (i : ℕ) (v : A) (xs : List A) {x : A}
      → get_elem? xs i ≡ some x
      → total (set_at i v xs) + f x ≡ total xs + f v
  total-set i v [] h = absurd (cc)
  total-set zero v (x ∷ xs) {x = y} h = let same : f x ≡ f y = cc in omega arith
  total-set (suc i) v (x ∷ xs) h = omega (arith, total-set i v xs h)

  pub total-remove :
      (i : ℕ) (xs : List A) {x : A}
      → get_elem? xs i ≡ some x
      → total (remove_at i xs) + f x ≡ total xs
  total-remove i [] h = absurd (cc)
  total-remove zero (x ∷ xs) {x = y} h = let same : f x ≡ f y = cc in omega arith
  total-remove (suc i) (x ∷ xs) h = omega (arith, total-remove i xs h)

  pub total-replicate : (n : ℕ) (x : A) → f x ≡ 0 → total (replicate n x) ≡ 0
  total-replicate zero x h = refl
  total-replicate (suc n) x h = omega (arith, total-replicate n x h)

  -- Where a sum is positive, one of its terms is.
  pub total-positive :
      (xs : List A) → 0 < total xs → (i : ℕ) × (x : A) × (get_elem? xs i ≡ some x) × (0 < f x)
  total-positive [] h = absurd (omega arith)
  total-positive (x ∷ xs) h = elim (Bool-cases (ltb 0 (f x))) [
    | inl here ↦ (0, x, refl, ltb→lt _ _ here)
    | inr zero_here ↦
        let (i, y, found, positive) = total-positive xs (omega (arith, ltb→le)) in
        (suc i, y, found, positive)
  ]

module _ {ℓ} {A : Type ℓ} where
  pub length-set : (i : ℕ) (v : A) (xs : List A) → length (set_at i v xs) ≡ length xs
  length-set i v [] = refl
  length-set zero v (x ∷ xs) = refl
  length-set (suc i) v (x ∷ xs) = omega (arith, length-set i v xs)

  pub length-remove :
      (i : ℕ) (xs : List A) {x : A}
      → get_elem? xs i ≡ some x
      → suc (length (remove_at i xs)) ≡ length xs
  length-remove i [] h = absurd (cc)
  length-remove zero (x ∷ xs) h = refl
  length-remove (suc i) (x ∷ xs) h = omega (arith, length-remove i xs h)

  pub length-replicate : (n : ℕ) (x : A) → length (replicate n x) ≡ n
  length-replicate zero x = refl
  length-replicate (suc n) x = omega (arith, length-replicate n x)

abbrev pub hit : ℕ → ℕ → ℕ
hit a x = if x == a then 1 else 0

-- How often a job stands in a list.
abbrev pub count : ℕ → List ℕ → ℕ
count a = total (hit a)
