-- ===== src/Examples/Cleanups.antt =====
-- A cleanup of three delegations, of which the second is locked and the third can be withdrawn.
use hayabusa_e2e.Prelude.{ℕ, ◌≡◌, ◌==◌, none, List, [], ◌∷◌, ◌++◌}
use hayabusa_e2e.Prelude.Go.{ok}
use hayabusa_e2e.Cleanup.Run.{Chain, Cleanup, groups}
use hayabusa_e2e.Cleanup.Pages.{answered_to, between}
use hayabusa_e2e.Cleanup.Groups.{concat, Sized, groups_lem}

abbrev contract : Chain
contract = record {
  World = List ℕ × List ℕ;
  filter_delegation_added = λ w. (ok (3 ∷ []), w);
  fetch_locked_delegators = λ a b w. (
    ok (between (λ i. i == 2) a (answered_to a b), between (λ i. i == 3) a (answered_to a b)),
    w,
  );
  send_exit = λ i w. (ok 0, (w.0 ++ (i ∷ []), w.1));
  send_withdrawal = λ i w. (ok 0, (w.0, w.1 ++ (i ∷ [])));
  wait = λ w. w;
}

abbrev at_start : Cleanup (List ℕ × List ℕ)
at_start = record { previous_cleaned = none; world = ([], []) }

groups_example : (concat (groups (4 ∷ 8 ∷ [])) ≡ 4 ∷ 8 ∷ []) × Sized (groups (4 ∷ 8 ∷ []))
groups_example = groups_lem (4 ∷ 8 ∷ [])
