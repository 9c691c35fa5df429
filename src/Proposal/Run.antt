-- ===== src/Proposal/Run.antt =====
-- devnet.go: `setStargate`. The contracts' bindings are a parameter, and an executor is known by
-- its address; `approved` is a map, of which the keys are kept.
use hayabusa_e2e.Prelude.{
  ℕ, zero, suc, Bool, true, false, Option, none, some, List, [], ◌∷◌, ◌==◌, ltb, leb, elem, length,
  if◌then◌else◌,
}
use hayabusa_e2e.Prelude.Go.{
  Error, new_error, Reply, ok, err, Outcome, returns, fails, panics, or_panic, ◌>>=◌, ◌>>◌,
}

-- The receipt of a proposal, with `Outputs[0].Events[0].Topics[1]`, if there is one.
pub record ProposalReceipt : Type 0 where
  pub reverted : Bool
  pub proposal : Option ℕ

pub record Contracts : Type 1 where
  pub World : Type 0
  -- `builtin.NewParams` and `builtin.NewExecutor`
  pub new_params : World → Option Error × World
  pub new_executor : World → Option Error × World
  -- the number at the stargate's key, and `thor.BytesToAddress` of a number's bytes
  pub get_stargate : World → Reply ℕ × World
  pub to_address : ℕ → ℕ
  -- the data of the clause that sets the stargate
  pub set_clause : ℕ → Reply ℕ
  pub propose : ℕ → ℕ → World → Reply ProposalReceipt × World
  pub approve : ℕ → ℕ → World → Reply ℕ × World
  -- the ticker's wait, of which the code ignores how it ends
  pub wait : World → World
  -- of an approval: whether it was reverted
  pub approval_reverted : ℕ → World → Reply Bool × World
  pub execute_reverted : ℕ → ℕ → World → Reply Bool × World

module _ (e : Contracts) where
  abbrev pub Handler : Type 0 → Type 0
  Handler A = e.World → Outcome A e.World

  -- A call that returns only an error, and one that returns a value or an error.
  abbrev pub tried : (e.World → Option Error × e.World) → Handler (Unit {0})
  tried f w = elim (f w).0 [ none ↦ returns tt (f w).1 | some x ↦ fails x (f w).1 ]

  abbrev pub called : {A : Type 0} → (e.World → Reply A × e.World) → Handler A
  called f w = elim (f w).0 [ ok a ↦ returns a (f w).1 | err x ↦ fails x (f w).1 ]

  abbrev pub answered : {A : Type 0} → Reply A → Handler A
  answered (ok a) w = returns a w
  answered (err x) w = fails x w

  abbrev pub first : List ℕ → Handler ℕ
  first [] w = panics
  first (a ∷ rest) w = returns a w

  abbrev pub refused_if : Bool → Handler (Unit {0})
  refused_if true w = fails (new_error "transaction reverted") w
  refused_if false w = returns tt w

  -- The approvals that are sent, each with its executor.
  unfoldable pub approve_all : ℕ → List ℕ → Handler (List (ℕ × ℕ))
  approve_all id [] w = returns [] w
  approve_all id (a ∷ rest) w =
      (do
        tx ← called (e.approve id a)
        sent ← approve_all id rest
        (λ v. returns ((a, tx) ∷ sent) v))
        w

  unfoldable pub receipt_polled : ℕ → Reply Bool → List ℕ → Handler (List ℕ)
  receipt_polled a (err x) approved w = if x.is_not_found then returns approved w else fails x w
  receipt_polled a (ok reverted) approved w =
      if reverted then fails (new_error "approve tx reverted") w else returns (a ∷ approved) w

  -- The receipts of the approvals that are not known yet.
  unfoldable pub poll_approvals : List (ℕ × ℕ) → List ℕ → Handler (List ℕ)
  unfolding receipt_polled
  poll_approvals [] approved w = returns approved w
  poll_approvals ((a, tx) ∷ rest) approved w =
      let skipped = poll_approvals rest approved w in
      let (r, w') = e.approval_reverted tx w in
      let polled = (receipt_polled a r approved >>= poll_approvals rest) w' in
      if elem a approved then skipped else polled

  unfoldable pub approval_rounds : ℕ → ℕ → List (ℕ × ℕ) → List ℕ → Handler (List ℕ)
  unfolding poll_approvals
  approval_rounds zero count sent approved w = returns approved w
  approval_rounds (suc n) count sent approved w =
      let next = (poll_approvals sent approved >>= approval_rounds n count sent) (e.wait w) in
      if leb count (length approved) then returns approved w else next

  unfoldable pub all_approved : List ℕ → List ℕ → Handler (Unit {0})
  all_approved executors approved w =
      if ltb (length approved) (length executors)
      then fails (new_error "not all executors approved the proposal") w
      else returns tt w

  unfoldable pub propose_stargate : List ℕ → ℕ → Handler (Unit {0})
  unfolding approve_all approval_rounds all_approved
  propose_stargate executors stargate = do
    data_ ← answered (e.set_clause stargate)
    proposer ← first executors
    receipt ← called (e.propose data_ proposer)
    refused_if receipt.reverted
    id ← or_panic receipt.proposal
    sent ← approve_all id executors
    approved ← approval_rounds 6 (length executors) sent []
    all_approved executors approved
    executor ← first executors
    reverted ← called (e.execute_reverted id executor)
    refused_if reverted

  unfoldable pub set_stargate : List ℕ → ℕ → Handler (Unit {0})
  unfolding propose_stargate
  set_stargate executors stargate = do
    tried e.new_params
    tried e.new_executor
    current ← called e.get_stargate
    (λ w.
        if e.to_address current == stargate
        then returns tt w
        else propose_stargate executors stargate w)
