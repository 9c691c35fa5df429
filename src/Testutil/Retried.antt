-- ===== src/Testutil/Retried.antt =====
-- testutil/retry.go: which attempts are made.
use hayabusa_e2e.Prelude.{ℕ, zero, suc, ◌*◌, ◌≡◌, ◌<◌, refl, Option, none, some, arith}
use hayabusa_e2e.Prelude.Go.{Error, Outcome, returns, fails, panics, diverges}
use hayabusa_e2e.Testutil.Clauses.{Flaky, attempted, retries, run_test_with_retry}

module _ (e : Flaky) where
  -- So many attempts fail, with a sleep after each, of a delay that doubles, and the next succeeds.
  abbrev pub Passes : ℕ → ℕ → e.World → e.World → Type 0
  Passes zero delay w v = ((e.test w).0 ≡ none) × ((e.test w).1 ≡ v)
  Passes (suc k) delay w v =
      ((x : Error) × ((e.test w).0 ≡ some x)) × Passes k (delay * 2) (e.sleep delay (e.test w).1) v

  -- So many attempts fail.
  abbrev pub AllFail : ℕ → ℕ → e.World → Type 0
  AllFail zero delay w = Unit
  AllFail (suc n) delay w =
      ((x : Error) × ((e.test w).0 ≡ some x)) × AllFail n (delay * 2) (e.sleep delay (e.test w).1)

  -- The end of so many attempts.
  abbrev pub Retries : ℕ → ℕ → e.World → Outcome (Unit {0}) e.World → Type 0
  Retries n delay w (returns u v) = (k : ℕ) × (k < n) × Passes k delay w v
  Retries n delay w (fails x v) = AllFail n delay w
  Retries n delay w panics = ⊥
  Retries n delay w diverges = ⊥

  later-Retries :
      (n delay : ℕ) (w : e.World) (x : Error) (o : Outcome (Unit {0}) e.World)
      → (e.test w).0 ≡ some x
      → Retries n (delay * 2) (e.sleep delay (e.test w).1) o
      → Retries (suc n) delay w o
  later-Retries n delay w x (returns u v) h (k, few, passes) =
      (suc k, omega arith, ((x, h), passes))
  later-Retries n delay w x (fails y v) h k = ((x, h), k)
  later-Retries n delay w x panics h k = k
  later-Retries n delay w x diverges h k = k

  attempted-Retries :
      (n delay : ℕ) (w : e.World) (o : Option Error)
      → (e.test w).0 ≡ o
      → ((last : Option Error)
          → Retries n
              (delay * 2)
              (e.sleep delay (e.test w).1)
              (retries e n delay last (e.test w).1))
      → Retries (suc n) delay w (attempted e o (retries e n delay) (e.test w).1)
  attempted-Retries n delay w none h k = (0, omega arith, (h, refl))
  attempted-Retries n delay w (some x) h k =
      later-Retries n delay w x (retries e n delay (some x) (e.test w).1) h (k (some x))

  retries-Retries :
      (n delay : ℕ) (last : Option Error) (w : e.World)
      → Retries n (delay * 2) (e.sleep delay w) (retries e n delay last w)
  unfolding retries
  retries-Retries zero delay last w = tt
  retries-Retries (suc n) delay last w =
      let v = e.sleep delay w in
      attempted-Retries n (delay * 2) v (e.test v).0 refl
        (λ again. retries-Retries n (delay * 2) again (e.test v).1)

  -- RunTestWithRetry always ends. It returns after the first attempt that succeeds, of at most so
  -- many, with a sleep after each that fails, of three seconds at first and twice as long each time;
  -- it fails only if all of them fail.
  pub run_test_with_retry-Retries :
      (n : ℕ) (w : e.World) → Retries n 3000000000 w (run_test_with_retry e n w)
  unfolding run_test_with_retry
  run_test_with_retry-Retries zero w = tt
  run_test_with_retry-Retries (suc n) w =
      attempted-Retries n 3000000000 w (e.test w).0 refl
        (λ last. retries-Retries n 3000000000 last (e.test w).1)
