-- ===== src/Proposal/Approvals.antt =====
-- devnet.go: the approvals that `setStargate` collects.
use hayabusa_e2e.Prelude.{
  Distinct, ℕ, zero, suc, ◌≡◌, refl, Bool, true, false, List, [], ◌∷◌, leb, elem, length, if-case,
  arith,
}
use hayabusa_e2e.Prelude.Go.{Reply, ok, err, returns, fails}
use hayabusa_e2e.Prelude.Results.{Gives, Gives-bind}
use hayabusa_e2e.Proposal.Run.{
  Contracts, called, approve_all, receipt_polled, poll_approvals, approval_rounds,
}

abbrev pub All : {A : Type 0} → (A → Type 0) → List A → Type 0
All P [] = Unit
All P (x ∷ xs) = P x × All P xs

module _ (e : Contracts) where
  called_reply-Gives :
      {A : Type 0} (P : A → Type 0) (r : Reply A) (w : e.World)
      → ((a : A) → r ≡ ok a → P a)
      → Gives P (elim r [ ok a ↦ returns a w | err x ↦ fails x w ])
  called_reply-Gives P (ok a) w k = k a refl
  called_reply-Gives P (err x) w k = tt

  pub called-Gives :
      {A : Type 0} (P : A → Type 0) (f : e.World → Reply A × e.World) (w : e.World)
      → ((a : A) → (f w).0 ≡ ok a → P a)
      → Gives P (called e f w)
  called-Gives P f w k = called_reply-Gives P (f w).0 (f w).1 k

  -- An approval was sent, by one of the executors.
  abbrev pub Sent : List ℕ → ℕ → ℕ × ℕ → Type 0
  Sent executors id x =
      (elem x.0 executors ≡ true) × ((w : e.World) × ((e.approve id x.0 w).0 ≡ ok x.1))

  -- An approval was sent, by one of the executors, and its receipt was not reverted.
  abbrev pub Approved : List ℕ → ℕ → ℕ → Type 0
  Approved executors id a =
      (elem a executors ≡ true)
      × ((tx : ℕ) × (w : e.World) × (v : e.World) × ((e.approve id a w).0 ≡ ok tx)
          × ((e.approval_reverted tx v).0 ≡ ok false))

  abbrev pub AreApproved : List ℕ → ℕ → List ℕ → Type 0
  AreApproved executors id approved = All (Approved executors id) approved × Distinct approved

  pub approve_all-Sent :
      (executors : List ℕ) (id : ℕ) (part : List ℕ) (w : e.World)
      → ((a : ℕ) → elem a part ≡ true → elem a executors ≡ true)
      → Gives (All (Sent executors id)) (approve_all e id part w)
  unfolding approve_all
  approve_all-Sent executors id [] w within = tt
  approve_all-Sent executors id (a ∷ rest) w within =
      Gives-bind (λ tx. Sent executors id (a, tx)) (All (Sent executors id))
        (called e (e.approve id a)) _ w
        (called-Gives (λ tx. Sent executors id (a, tx)) (e.approve id a) w
          (λ tx h. (within a (ground arith), (w, h))))
        (λ tx t one.
          Gives-bind (All (Sent executors id)) (All (Sent executors id)) (approve_all e id rest) _ t
            (approve_all-Sent executors id rest t (λ b i. within b (ground (arith, i))))
            (λ sent u more. (one, more)))

  receipt_polled-AreApproved :
      (executors : List ℕ) (id a tx : ℕ) (approved : List ℕ) (v w : e.World)
      → Sent executors id (a, tx)
      → AreApproved executors id approved
      → elem a approved ≡ false
      → (r : Reply Bool) → (e.approval_reverted tx v).0 ≡ r
      → Gives (AreApproved executors id) (receipt_polled e a r approved w)
  unfolding receipt_polled
  receipt_polled-AreApproved executors id a tx approved v w sent h new (err x) p =
      if-case (Gives (AreApproved executors id)) x.is_not_found _ _ (λ lost. h) (λ other. tt)
  receipt_polled-AreApproved executors id a tx approved v w sent h new (ok true) p = tt
  receipt_polled-AreApproved executors id a tx approved v w (member, (u, sent)) (all, distinct) new
        (ok false) p =
      (((member, (tx, u, v, sent, p)), all), (new, distinct))

  poll_approvals-AreApproved :
      (executors : List ℕ) (id : ℕ) (sent : List (ℕ × ℕ)) (approved : List ℕ) (w : e.World)
      → All (Sent executors id) sent
      → AreApproved executors id approved
      → Gives (AreApproved executors id) (poll_approvals e sent approved w)
  unfolding poll_approvals
  poll_approvals-AreApproved executors id [] approved w s h = h
  poll_approvals-AreApproved executors id ((a, tx) ∷ rest) approved w (one, more) h =
      if-case (Gives (AreApproved executors id)) (elem a approved) _ _
        (λ known. poll_approvals-AreApproved executors id rest approved w more h)
        (λ new.
          Gives-bind (AreApproved executors id) (AreApproved executors id)
            (receipt_polled e a (e.approval_reverted tx w).0 approved) (poll_approvals e rest) _
            (receipt_polled-AreApproved executors id a tx approved w _ one h new _ refl)
            (λ l t k. poll_approvals-AreApproved executors id rest l t more k))

  pub approval_rounds-AreApproved :
      (executors : List ℕ) (n count id : ℕ) (sent : List (ℕ × ℕ)) (approved : List ℕ) (w : e.World)
      → All (Sent executors id) sent
      → AreApproved executors id approved
      → Gives (AreApproved executors id) (approval_rounds e n count sent approved w)
  unfolding approval_rounds
  approval_rounds-AreApproved executors zero count id sent approved w s h = h
  approval_rounds-AreApproved executors (suc n) count id sent approved w s h =
      if-case (Gives (AreApproved executors id)) (leb count (length approved)) _ _ (λ enough. h)
        (λ more.
          Gives-bind (AreApproved executors id) (AreApproved executors id)
            (poll_approvals e sent approved) (approval_rounds e n count sent) (e.wait w)
            (poll_approvals-AreApproved executors id sent approved (e.wait w) s h)
            (λ l t k. approval_rounds-AreApproved executors n count id sent l t s k))
