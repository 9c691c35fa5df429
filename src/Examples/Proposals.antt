-- ===== src/Examples/Proposals.antt =====
-- Two executors who set the stargate of a network that has another.
use hayabusa_e2e.Prelude.{ℕ, suc, ◌+◌, false, none, some, [], ◌∷◌}
use hayabusa_e2e.Prelude.Go.{ok}
use hayabusa_e2e.Prelude.Results.{Gives}
use hayabusa_e2e.Proposal.Run.{Contracts, set_stargate}
use hayabusa_e2e.Proposal.Setting.{WasSet, stargate_lem}

-- Contracts whose world is the number of their calls.
abbrev contracts : Contracts
contracts = record {
  World = ℕ;
  new_params = λ n. (none, suc n);
  new_executor = λ n. (none, suc n);
  get_stargate = λ n. (ok 4, suc n);
  to_address = λ a. a;
  set_clause = λ a. ok a;
  propose = λ d p n. (ok (record { reverted = false; proposal = some 70 }), suc n);
  approve = λ id a n. (ok (a + 100), suc n);
  wait = λ n. suc n;
  approval_reverted = λ tx n. (ok false, suc n);
  execute_reverted = λ id a n. (ok false, suc n);
}

stargate_example : Gives (WasSet contracts (1 ∷ 2 ∷ []) 9) (set_stargate contracts (1 ∷ 2 ∷ []) 9 0)
stargate_example = stargate_lem contracts (1 ∷ 2 ∷ []) 9 0
