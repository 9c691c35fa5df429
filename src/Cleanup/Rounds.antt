-- ===== src/Cleanup/Rounds.antt =====
-- delegations.go: a whole round of the cleanup, from the events to the transactions.
use hayabusa_e2e.Prelude.{ℕ, ◌+◌, ◌≡◌, Bool, Option, none, some, List, [], ◌∷◌, ◌++◌}
use hayabusa_e2e.Prelude.Go.{◌>>=◌, ◌>>◌}
use hayabusa_e2e.Cleanup.Run.{Chain, Cleanup}
use hayabusa_e2e.Cleanup.Pages.{Tells, between}

-- The first identifier of a round.
abbrev pub start : Option ℕ → ℕ
start none = 1
start (some p) = p + 1

-- What a contract with two logs, of the exits and of the withdrawals, does with them.
module _ (e : Chain) (locked withdrawable : ℕ → Bool) (tells : Tells e locked withdrawable)
    (exits withdrawals : e.World → List ℕ)
    (events_quiet : (w : e.World)
      → (exits (e.filter_delegation_added w).1 ≡ exits w)
        × (withdrawals (e.filter_delegation_added w).1 ≡ withdrawals w))
    (fetch_quiet : (a b : ℕ) (w : e.World)
      → (exits (e.fetch_locked_delegators a b w).1 ≡ exits w)
        × (withdrawals (e.fetch_locked_delegators a b w).1 ≡ withdrawals w))
    (wait_quiet : (w : e.World)
      → (exits (e.wait w) ≡ exits w) × (withdrawals (e.wait w) ≡ withdrawals w))
    (exit_logged : (id : ℕ) (w : e.World)
      → (exits (e.send_exit id w).1 ≡ exits w ++ (id ∷ []))
        × (withdrawals (e.send_exit id w).1 ≡ withdrawals w))
    (withdrawal_logged : (id : ℕ) (w : e.World)
      → (exits (e.send_withdrawal id w).1 ≡ exits w)
        × (withdrawals (e.send_withdrawal id w).1 ≡ withdrawals w ++ (id ∷ []))) where
  -- The exits and withdrawals of a round that starts from one identifier.
  abbrev Sent : ℕ → ℕ → e.World → e.World → Type 0
  Sent current last before after =
      (exits after ≡ exits before ++ between locked current last)
      × (withdrawals after ≡ withdrawals before ++ between withdrawable current last)

  abbrev logs : e.World → List ℕ × List ℕ
  logs w = (exits w, withdrawals w)
