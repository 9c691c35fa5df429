-- ===== src/Prelude/Results.antt =====
-- What a Go function leaves where it returns a value.
use mathlib.Core.Path.{◌≡◌, refl}
use hayabusa_e2e.Prelude.Go.{Error, Outcome, returns, fails, panics, diverges, ◌>>=◌}

-- A predicate of the value that is returned and of the state it is returned in.
abbrev pub Leaves : {A S : Type 0} → (A → S → Type 0) → Outcome A S → Type 0
Leaves P (returns a t) = P a t
Leaves P (fails x t) = Unit
Leaves P panics = Unit
Leaves P diverges = Unit

module _ {A B S : Type 0} (P : A → S → Type 0) (Q : B → S → Type 0) where
  Leaves-bind_outcome :
      (o : Outcome A S) (f : A → S → Outcome B S)
      → Leaves P o
      → ((a : A) (t : S) → P a t → Leaves Q (f a t))
      → Leaves Q (elim o [
        | returns a t ↦ f a t
        | fails e t ↦ fails e t
        | panics ↦ panics
        | diverges ↦ diverges
      ])
  Leaves-bind_outcome (returns a t) f h k = k a t h
  Leaves-bind_outcome (fails e t) f h k = tt
  Leaves-bind_outcome panics f h k = tt
  Leaves-bind_outcome diverges f h k = tt

  pub Leaves-bind :
      (m : S → Outcome A S) (f : A → S → Outcome B S) (s : S)
      → Leaves P (m s)
      → ((a : A) (t : S) → P a t → Leaves Q (f a t))
      → Leaves Q ((m >>= f) s)
  Leaves-bind m f s h k = Leaves-bind_outcome (m s) f h k

pub Leaves-imp :
    {A S : Type 0} (P Q : A → S → Type 0) (o : Outcome A S)
    → Leaves P o
    → ((a : A) (t : S) → P a t → Q a t)
    → Leaves Q o
Leaves-imp P Q (returns a t) h k = k a t h
Leaves-imp P Q (fails x t) h k = tt
Leaves-imp P Q panics h k = tt
Leaves-imp P Q diverges h k = tt

-- A predicate of the value that is returned.
abbrev pub Gives : {A S : Type 0} → (A → Type 0) → Outcome A S → Type 0
Gives P o = Leaves (λ a t. P a) o

pub Gives-bind :
    {A B S : Type 0} (P : A → Type 0) (Q : B → Type 0) (m : S → Outcome A S)
    (f : A → S → Outcome B S) (s : S)
    → Gives P (m s)
    → ((a : A) (t : S) → P a → Gives Q (f a t))
    → Gives Q ((m >>= f) s)
Gives-bind P Q m f s h k = Leaves-bind (λ a t. P a) (λ b t. Q b) m f s h k

-- A first part that returns.
pub returns-bind :
    {A B S : Type 0} (m : S → Outcome A S) (f : A → S → Outcome B S) (s : S) (a : A) (t : S)
    → m s ≡ returns a t
    → (m >>= f) s ≡ f a t
returns-bind m f s a t h = rw (◌>>=◌, h) refl

pub fails-bind :
    {A B S : Type 0} (m : S → Outcome A S) (f : A → S → Outcome B S) (s : S) (x : Error) (t : S)
    → m s ≡ fails x t
    → (m >>= f) s ≡ fails x t
fails-bind m f s x t h = rw (◌>>=◌, h) refl
