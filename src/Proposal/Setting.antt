-- ===== src/Proposal/Setting.antt =====
-- devnet.go: what stands behind a stargate that `setStargate` reports as set.
use hayabusa_e2e.Prelude.{
  Distinct, ℕ, ◌≡◌, ◌≤◌, ◌⊎◌, refl, ap, ◌∙◌, inl, inr, Bool, true, false, Option, none, some, List,
  get_elem?, subst, [], ◌∷◌, ◌==◌, ==_iff, ltb, ltb→le, length, if-case,
}
use hayabusa_e2e.Prelude.Go.{Error, Reply, ok, err, returns, fails, or_panic, ◌>>=◌, ◌>>◌}
use hayabusa_e2e.Prelude.Results.{Gives, Gives-bind, Leaves-imp}
use hayabusa_e2e.Proposal.Run.{
  ProposalReceipt, Contracts, tried, called, answered, first, refused_if, approve_all,
  approval_rounds, all_approved, propose_stargate, set_stargate,
}
use hayabusa_e2e.Proposal.Approvals.{
  All, Sent, Approved, AreApproved, called-Gives, approve_all-Sent, approval_rounds-AreApproved,
}

module _ (e : Contracts) where
  -- A proposal of a clause that is proposed by the first of the executors, approved by different
  -- ones of them, no fewer than they are, and executed by the first, none of it reverted.
  abbrev pub WasExecuted : List ℕ → ℕ → Type 0
  WasExecuted executors data_ =
      (executor : ℕ) × (receipt : ProposalReceipt) × (id : ℕ) × (approved : List ℕ) × (get_elem?
          executors 0
        ≡ some executor)
      × ((w : e.World) × ((e.propose data_ executor w).0 ≡ ok receipt))
      × (receipt.reverted ≡ false)
      × (receipt.proposal ≡ some id)
      × (All (Approved e executors id) approved × Distinct approved)
      × (length executors ≤ length approved)
      × ((w : e.World) × ((e.execute_reverted id executor w).0 ≡ ok false))

  answered-Gives : {A : Type 0} (r : Reply A) (w : e.World) → Gives (λ a. r ≡ ok a) (answered e r w)
  answered-Gives (ok a) w = refl
  answered-Gives (err x) w = tt

  first-Gives : (l : List ℕ) (w : e.World) → Gives (λ a. get_elem? l 0 ≡ some a) (first e l w)
  first-Gives [] w = tt
  first-Gives (a ∷ l) w = refl

  refused_if-Gives :
      (P : Type 0) (b : Bool) (w : e.World) → (b ≡ false → P) → Gives (λ u. P) (refused_if e b w)
  refused_if-Gives P true w k = tt
  refused_if-Gives P false w k = k refl

  or_panic-Gives : (o : Option ℕ) (w : e.World) → Gives (λ a. o ≡ some a) (or_panic o w)
  or_panic-Gives none w = tt
  or_panic-Gives (some a) w = refl

  all_approved-Gives :
      (executors approved : List ℕ) (w : e.World)
      → Gives (λ u. length executors ≤ length approved) (all_approved e executors approved w)
  unfolding all_approved
  all_approved-Gives executors approved w =
      if-case (Gives (λ u. length executors ≤ length approved))
        (ltb (length approved) (length executors)) _ _ (λ short. tt) (λ enough. ltb→le _ _ enough)

  -- The first executor has executed a proposal.
  abbrev WasRun : List ℕ → ℕ → Type 0
  WasRun executors id =
      (executor : ℕ) × (get_elem? executors 0 ≡ some executor)
      × ((w : e.World) × ((e.execute_reverted id executor w).0 ≡ ok false))

  -- The last part, once enough have approved.
  executed-Gives :
      (id : ℕ) (executors : List ℕ) (w : e.World)
      → Gives
          (λ u. WasRun executors id)
          ((do
            executor ← first e executors
            reverted ← called e (e.execute_reverted id executor)
            refused_if e reverted)
            w)
  executed-Gives id executors w =
      let Done = λ (u : Unit {0}). WasRun executors id in
      Gives-bind (λ a. get_elem? executors 0 ≡ some a) Done (first e executors) _ w
        (first-Gives executors w)
        (λ executor t leads.
          Gives-bind (λ b. (e.execute_reverted id executor t).0 ≡ ok b) Done
            (called e (e.execute_reverted id executor)) (refused_if e) t
            (called-Gives e _ (e.execute_reverted id executor) t (λ b h. h))
            (λ b u h. refused_if-Gives _ b u (λ fine. (executor, leads, (t, h ∙ ap ok fine)))))

  abbrev Set : List ℕ → ℕ → Unit {0} → Type 0
  Set executors stargate u =
      (data_ : ℕ) × (e.set_clause stargate ≡ ok data_) × WasExecuted executors data_

  -- What follows the proposal.
  proposal_sent :
      (executors : List ℕ) (stargate data_ proposer : ℕ) (r : ProposalReceipt) (w v : e.World)
      → e.set_clause stargate ≡ ok data_
      → get_elem? executors 0 ≡ some proposer
      → (e.propose data_ proposer w).0 ≡ ok r
      → Gives (Set executors stargate) (
          (do
            refused_if e r.reverted
            id ← or_panic r.proposal
            sent ← approve_all e id executors
            approved ← approval_rounds e 6 (length executors) sent []
            all_approved e executors approved
            executor ← first e executors
            reverted ← called e (e.execute_reverted id executor)
            refused_if e reverted)
            v)
  proposal_sent executors stargate data_ proposer r w v clause leads sent =
      Gives-bind (λ u. r.reverted ≡ false) (Set executors stargate) (refused_if e r.reverted) _ v
        (refused_if-Gives _ r.reverted v (λ fine. fine))
        (λ u t fine.
          Gives-bind (λ id. r.proposal ≡ some id) (Set executors stargate) (or_panic r.proposal) _ t
            (or_panic-Gives r.proposal t)
            (λ id t named.
              Gives-bind (All (Sent e executors id)) (Set executors stargate)
                (approve_all e id executors) _ t
                (approve_all-Sent e executors id executors t (λ a i. i))
                (λ approvals t all.
                  Gives-bind (AreApproved e executors id) (Set executors stargate)
                    (approval_rounds e 6 (length executors) approvals []) _ t
                    (approval_rounds-AreApproved e executors 6 (length executors) id approvals [] t
                      all (tt, tt))
                    (λ approved t known.
                      Gives-bind (λ u. length executors ≤ length approved) (Set executors stargate)
                        (all_approved e executors approved) _ t
                        (all_approved-Gives executors approved t)
                        (λ u t enough.
                          Leaves-imp _ (λ a t. Set executors stargate a) _
                            (executed-Gives id executors t)
                            (λ u t (executor, leads', (v, done)).
                              let same : executor ≡ proposer = cc in
                              (
                                data_,
                                clause,
                                (
                                  proposer,
                                  r,
                                  id,
                                  approved,
                                  leads,
                                  (w, sent),
                                  fine,
                                  named,
                                  known,
                                  enough,
                                  (
                                    v,
                                    subst (λ x. (e.execute_reverted id x v).0 ≡ ok false) same done,
                                  ),
                                ),
                              )))))))

  proposed :
      (executors : List ℕ) (stargate : ℕ) (w : e.World)
      → Gives
          (λ u. (data_ : ℕ) × (e.set_clause stargate ≡ ok data_) × WasExecuted executors data_)
          (propose_stargate e executors stargate w)
  unfolding propose_stargate
  proposed executors stargate w =
      Gives-bind (λ data_. e.set_clause stargate ≡ ok data_) (Set executors stargate)
        (answered e (e.set_clause stargate)) _ w (answered-Gives (e.set_clause stargate) w)
        (λ data_ t clause.
          Gives-bind (λ a. get_elem? executors 0 ≡ some a) (Set executors stargate)
            (first e executors) _ t (first-Gives executors t)
            (λ proposer u leads.
              Gives-bind (λ r. (e.propose data_ proposer u).0 ≡ ok r) (Set executors stargate)
                (called e (e.propose data_ proposer)) _ u
                (called-Gives e _ (e.propose data_ proposer) u (λ r h. h))
                (λ r v sent.
                  proposal_sent executors stargate data_ proposer r u v clause leads sent)))

  tried-Gives :
      (f : e.World → Option Error × e.World) (w : e.World) → Gives (λ u. Unit {0}) (tried e f w)
  tried-Gives f w = tried_outcome (f w).0 (f w).1
    where
      tried_outcome :
          (o : Option Error) (v : e.World)
          → Gives (λ u. Unit {0}) (elim o [ none ↦ returns tt v | some x ↦ fails x v ])
      tried_outcome none v = tt
      tried_outcome (some x) v = tt

  -- The number at the stargate's key was that of the stargate, or a proposal to set it was executed.
  abbrev pub WasSet : List ℕ → ℕ → Unit {0} → Type 0
  WasSet executors stargate u =
      ((v : e.World) × (current : ℕ) × ((e.get_stargate v).0 ≡ ok current)
        × (e.to_address current ≡ stargate))
      ⊎ Set executors stargate u

  -- Whatever the contracts answer, `setStargate` returns without an error only if the stargate that
  -- is stored is the one asked for, or if a proposal to set it was sent by the first executor and not
  -- reverted, approvals of it were sent by different executors, no fewer than there are keys, and
  -- their receipts were not reverted, and its execution by the first executor was not reverted.
  pub stargate_lem :
      (executors : List ℕ) (stargate : ℕ) (w : e.World)
      → Gives (WasSet executors stargate) (set_stargate e executors stargate w)
  unfolding set_stargate
  stargate_lem executors stargate w =
      Gives-bind (λ u. Unit {0}) (WasSet executors stargate) (tried e e.new_params) _ w
        (tried-Gives e.new_params w)
        (λ u t i.
          Gives-bind (λ u. Unit {0}) (WasSet executors stargate) (tried e e.new_executor) _ t
            (tried-Gives e.new_executor t)
            (λ u t i.
              Gives-bind (λ c. (e.get_stargate t).0 ≡ ok c) (WasSet executors stargate)
                (called e e.get_stargate) _ t (called-Gives e _ e.get_stargate t (λ c h. h))
                (λ current v got.
                  if-case (Gives (WasSet executors stargate)) (e.to_address current == stargate) _ _
                    (λ mine. inl (t, current, got, ((==_iff _ _).0 mine)))
                    (λ other.
                      Leaves-imp (λ a t. Set executors stargate a)
                        (λ a t. WasSet executors stargate a) _ (proposed executors stargate v)
                        (λ u t done. inr done)))))
