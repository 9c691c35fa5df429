-- ===== src/Prelude/Go.antt =====
-- How a Go function ends, over a state that it mutates: with a value, with an error (what was
-- written stays written), with a panic, or, where a loop is bounded by fuel, not yet.
use Prim.Native.Nat.{ℕ}
use Prim.Native.String.{String}
use Prim.Native.Char.{code}
use mathlib.Core.Path.{◌≡◌, subst}
use mathlib.Core.Bool.{Bool, true, false, ◌&&◌, ◌||◌}
use mathlib.Core.List.{List, [], ◌∷◌}
use mathlib.Core.Option.{Option, none, some}
use hayabusa_e2e.Prelude.Tests.{◌==◌}

-- `is_not_found` is what `errors.Is(err, httpclient.ErrNotFound)` answers.
pub record Error : Type 0 where
  pub message : String
  pub is_not_found : Bool

-- `errors.New` and `fmt.Errorf`.
abbrev pub new_error : String → Error
new_error m = record { message = m; is_not_found = false }

pub data Reply (A : Type 0) : Type 0 where
  ok : A → Reply A
  err : Error → Reply A

pub data Outcome (A S : Type 0) : Type 0 where
  returns : A → S → Outcome A S
  fails : Error → S → Outcome A S
  panics : Outcome A S
  diverges : Outcome A S

module _ {S : Type 0} where
  infixl 5 ◌>>=◌ ◌>>◌
  abbrev pub ◌>>=◌ : {A B : Type 0} → (S → Outcome A S) → (A → S → Outcome B S) → S → Outcome B S
  ◌>>=◌ m f s = elim (m s) [
    | returns a t ↦ f a t
    | fails e t ↦ fails e t
    | panics ↦ panics
    | diverges ↦ diverges
  ]

  abbrev pub ◌>>◌ : {A B : Type 0} → (S → Outcome A S) → (S → Outcome B S) → S → Outcome B S
  m >> k = m >>= λ _. k

  abbrev pub pure : {A : Type 0} → A → S → Outcome A S
  pure a s = returns a s

  -- `return nil` of a function whose only result is an error.
  abbrev pub return_nil : S → Outcome (Unit {0}) S
  return_nil s = returns tt s

  abbrev pub throw : {A : Type 0} → Error → S → Outcome A S
  throw e s = fails e s

  abbrev pub gets : {A : Type 0} → (S → A) → S → Outcome A S
  gets f s = returns (f s) s

  abbrev pub modify : (S → S) → S → Outcome (Unit {0}) S
  modify f s = returns tt (f s)

  -- `a, err := m()`, with the error at hand.
  abbrev pub attempt : {A : Type 0} → (S → Outcome A S) → S → Outcome (Reply A) S
  attempt m s = elim (m s) [
    | returns a t ↦ returns (ok a) t
    | fails e t ↦ returns (err e) t
    | panics ↦ panics
    | diverges ↦ diverges
  ]

  -- A division by zero, or an index out of range.
  abbrev pub or_panic : {A : Type 0} → Option A → S → Outcome A S
  or_panic none s = panics
  or_panic (some a) s = returns a s

-- A postcondition of the state in which a function returns or fails.
abbrev pub Ensures {ℓ} : {A S : Type 0} → (S → Type ℓ) → Outcome A S → Type ℓ
Ensures Q (returns a t) = Q t
Ensures Q (fails e t) = Q t
Ensures Q panics = Unit
Ensures Q diverges = Unit

-- A function that keeps an invariant of the state, however it ends.
abbrev pub Keeps {ℓ} : {A S : Type 0} → (S → Type ℓ) → (S → Outcome A S) → Type ℓ
Keeps {S} I m = (s : S) → I s → Ensures I (m s)

module _ {ℓ} {A B S : Type 0} (I : S → Type ℓ) where
  Ensures-bind :
      (o : Outcome A S) (f : A → S → Outcome B S)
      → Ensures I o
      → ((a : A) → Keeps I (f a))
      → Ensures I (elim o [
        | returns a t ↦ f a t
        | fails e t ↦ fails e t
        | panics ↦ panics
        | diverges ↦ diverges
      ])
  Ensures-bind (returns a t) f h k = k a t h
  Ensures-bind (fails e t) f h k = h
  Ensures-bind panics f h k = tt
  Ensures-bind diverges f h k = tt

  pub Keeps-bind :
      (m : S → Outcome A S) (f : A → S → Outcome B S)
      → Keeps I m
      → ((a : A) → Keeps I (f a))
      → Keeps I (m >>= f)
  Keeps-bind m f h k s i = Ensures-bind (m s) f (h s i) k

module _ {ℓ κ} {A B S : Type 0} (P : S → Type ℓ) (Q : S → Type κ) where
  Ensures-then_outcome :
      (o : Outcome A S) (f : A → S → Outcome B S)
      → Ensures P o
      → ((t : S) → P t → Q t)
      → ((a : A) (t : S) → P t → Ensures Q (f a t))
      → Ensures Q (elim o [
        | returns a t ↦ f a t
        | fails e t ↦ fails e t
        | panics ↦ panics
        | diverges ↦ diverges
      ])
  Ensures-then_outcome (returns a t) f h w k = k a t h
  Ensures-then_outcome (fails e t) f h w k = w t h
  Ensures-then_outcome panics f h w k = tt
  Ensures-then_outcome diverges f h w k = tt

  -- A first part that ends in `P`, which is enough where it fails, and from which the second
  -- ends in `Q`.
  pub Ensures-then :
      (m : S → Outcome A S) (f : A → S → Outcome B S) (s : S)
      → Ensures P (m s)
      → ((t : S) → P t → Q t)
      → ((a : A) (t : S) → P t → Ensures Q (f a t))
      → Ensures Q ((m >>= f) s)
  Ensures-then m f s h w k = Ensures-then_outcome (m s) f h w k

pub Ensures-and {ℓ κ} :
    {A S : Type 0} (P : S → Type ℓ) (Q : S → Type κ) (o : Outcome A S)
    → Ensures P o
    → Ensures Q o
    → Ensures (λ t. P t × Q t) o
Ensures-and P Q (returns a t) p q = (p, q)
Ensures-and P Q (fails e t) p q = (p, q)
Ensures-and P Q panics p q = tt
Ensures-and P Q diverges p q = tt

pub Ensures-imp {ℓ κ} :
    {A S : Type 0} (P : S → Type ℓ) (Q : S → Type κ) (o : Outcome A S)
    → ((t : S) → P t → Q t)
    → Ensures P o
    → Ensures Q o
Ensures-imp P Q (returns a t) k p = k t p
Ensures-imp P Q (fails e t) k p = k t p
Ensures-imp P Q panics k p = tt
Ensures-imp P Q diverges k p = tt

-- The function returns, with no error, in a state of which `Q` holds.
abbrev pub Returns : {A S : Type 0} → (S → Type 0) → Outcome A S → Type 0
Returns Q (returns a t) = Q t
Returns Q (fails e t) = ⊥
Returns Q panics = ⊥
Returns Q diverges = ⊥

-- The function returns the value `b`, with no error.
abbrev pub Yields : {A S : Type 0} → A → Outcome A S → Type 0
Yields b (returns a t) = a ≡ b
Yields b (fails e t) = ⊥
Yields b panics = ⊥
Yields b diverges = ⊥

-- The state in which a function has returned or failed.
abbrev pub Ends : {A S : Type 0} → Outcome A S → S → Type 0
Ends (returns a u) t = u ≡ t
Ends (fails e u) t = u ≡ t
Ends panics t = ⊥
Ends diverges t = ⊥

pub Ensures-Ends {ℓ} :
    {A S : Type 0} (Q : S → Type ℓ) (o : Outcome A S) {t : S} → Ensures Q o → Ends o t → Q t
Ensures-Ends Q (returns a u) q h = subst Q h q
Ensures-Ends Q (fails e u) q h = subst Q h q
Ensures-Ends Q panics q h = absurd h
Ensures-Ends Q diverges q h = absurd h

-- `strings.Contains`.
abbrev pub codes : String → List ℕ
codes String.[] = []
codes (String.◌∷◌ c s) = code c ∷ codes s

pub has_prefix : List ℕ → List ℕ → Bool
has_prefix s [] = true
has_prefix [] (p ∷ ps) = false
has_prefix (c ∷ s) (p ∷ ps) = c == p && has_prefix s ps

pub has_infix : List ℕ → List ℕ → Bool
unfolding has_prefix
has_infix [] p = has_prefix [] p
has_infix (c ∷ s) p = has_prefix (c ∷ s) p || has_infix s p

unfoldable pub contains : String → String → Bool
unfolding has_infix
contains s p = has_infix (codes s) (codes p)
