-- ===== src/Validators/Process/Order.antt =====
-- validator.go: the status of a validator over any number of blocks.
use hayabusa_e2e.Prelude.{ℕ, ◌≤◌, ◌≡◌, ◌⊎◌, inl, inr, refl, sym, subst, true, false, Bool, arith}
use hayabusa_e2e.Prelude.Go.{
  Ensures, Ensures-then, Ensures-and, Ensures-imp, Ensures-Ends, Ends, gets, ◌>>=◌, ◌>>◌,
}
use hayabusa_e2e.Lifecycle.{Config, Status, rank}
use hayabusa_e2e.Services.{Services, ChainConfig}
use hayabusa_e2e.Validators.Managers.{Sim, Handler, first_check, refresh_state}
use hayabusa_e2e.Validators.Process.{
  handle_delegation_registration, process_state, process, new_lifecycle,
}
use hayabusa_e2e.Validators.Process.Edges.{
  ◌⟶◌, stay, queue, activate, exited_early, gone, exit, withdraw, IsProcessed, state_edge,
  registration-Keeps, state-IsProcessed, initial-IsProcessed,
}

module _ (e : Services) (fuel : ℕ) (chain : ChainConfig) (c : Config) (id : ℕ) where
  first_check-IsProcessed :
      (b : Bool) (s : Sim e.World)
      → s.state.first_processed ≡ b
      → Ensures IsProcessed (first_check e fuel id b s)
  unfolding first_check
  first_check-IsProcessed true s h = h
  first_check-IsProcessed false s h = initial-IsProcessed e fuel id _ refl

  refresh-IsProcessed : (s : Sim e.World) → Ensures IsProcessed (refresh_state e fuel id s)
  unfolding refresh_state
  refresh-IsProcessed s = first_check-IsProcessed s.state.first_processed s refl

  refresh_again :
      (s : Sim e.World)
      → IsProcessed s
      → Ensures (λ t. (t.state.status ≡ s.state.status) × IsProcessed t) (refresh_state e fuel id s)
  unfolding refresh_state first_check
  refresh_again s h = ground arith

  abbrev rest : ℕ → Handler e fuel id (Unit {0})
  rest block = do
    handle_delegation_registration e fuel chain c id
    k ← gets (λ s. s.state.status)
    process_state e fuel chain c id block k

  abbrev Follows : Status → Sim e.World → Type 0
  Follows k t = (k ⟶ t.state.status) × IsProcessed t

  abbrev StaysAt : Status → Sim e.World → Type 0
  StaysAt k t = (t.state.status ≡ k) × IsProcessed t

  StaysAt-Follows : (k : Status) (t : Sim e.World) → StaysAt k t → Follows k t
  StaysAt-Follows k t p = (subst (λ x. k ⟶ x) (sym p.0) stay, p.1)

  dispatch-Follows :
      (block : ℕ) (k : Status) (t : Sim e.World)
      → StaysAt k t
      → Ensures (Follows k) (process_state e fuel chain c id block t.state.status t)
  dispatch-Follows block k t p =
      subst (λ x. Ensures (Follows x) (process_state e fuel chain c id block t.state.status t)) p.0
        (Ensures-and (λ u. t.state.status ⟶ u.state.status) IsProcessed _
          (state_edge e fuel chain c id block t.state.status t refl)
          (state-IsProcessed e fuel chain c id block t.state.status t p.1))

  rest-Follows :
      (block : ℕ) (k : Status) (s : Sim e.World) → StaysAt k s → Ensures (Follows k) (rest block s)
  rest-Follows block k s h =
      Ensures-then (StaysAt k) (Follows k) (handle_delegation_registration e fuel chain c id)
        (λ _ t. process_state e fuel chain c id block t.state.status t) s
        (registration-Keeps e fuel chain c id k s h) (StaysAt-Follows k)
        (λ _ t p. dispatch-Follows block k t p)

  -- Once a validator has been checked against the chain, a block moves its status along one edge of
  -- the diagram, whatever the chain and the services answer, whether the handler returns or fails.
  pub validator_process-⟶ :
      (block : ℕ) (s : Sim e.World)
      → s.state.first_processed ≡ true
      → Ensures
          (λ t. (s.state.status ⟶ t.state.status) × (t.state.first_processed ≡ true))
          (process e fuel chain c id block s)
  unfolding process
  validator_process-⟶ block s h =
      Ensures-then (StaysAt s.state.status) (Follows s.state.status) (refresh_state e fuel id)
        (λ _. rest block) s (refresh_again s h) (StaysAt-Follows s.state.status)
        (λ _ t p. rest-Follows block s.state.status t p)

  process-IsProcessed :
      (block : ℕ) (s : Sim e.World) → Ensures IsProcessed (process e fuel chain c id block s)
  unfolding process
  process-IsProcessed block s =
      Ensures-then IsProcessed IsProcessed (refresh_state e fuel id) (λ _. rest block) s
        (refresh-IsProcessed s) (λ t p. p)
        (λ _ t p.
          Ensures-imp (Follows t.state.status) IsProcessed _ (λ u q. q.1)
            (rest-Follows block t.state.status t (refl, p)))

  -- Any number of blocks. Between two of them the world may change in any way.
  pub data Run (s : Sim e.World) : Sim e.World → Type 0 where
    start : Run s s
    next_block :
        {t u : Sim e.World} (w : e.World) (block : ℕ)
        → Run s t
        → Ends (process e fuel chain c id block (record t { world = w })) u
        → Run s u

  ⟶-rank : {j k : Status} → j ⟶ k → rank j ≤ rank k
  ⟶-rank stay = omega arith
  ⟶-rank queue = omega arith
  ⟶-rank activate = omega arith
  ⟶-rank exited_early = omega arith
  ⟶-rank gone = omega arith
  ⟶-rank exit = omega arith
  ⟶-rank withdraw = omega arith

  Run-rank :
      {s t : Sim e.World}
      → IsProcessed s
      → Run s t
      → (rank s.state.status ≤ rank t.state.status) × IsProcessed t
  Run-rank h start = (omega arith, h)
  Run-rank {s} h (next_block {t} {u} w block r p) =
      let (le, done) = Run-rank h r in
      let (edge, done') =
        Ensures-Ends (Follows t.state.status) _
          (validator_process-⟶ block (record t { world = w }) done) p in
      (omega (arith, ⟶-rank edge), done')

  Run-new :
      (interval period : ℕ) (w₀ : e.World) {s : Sim e.World}
      → Run (new_lifecycle interval period w₀) s
      → (rank s.state.status ≡ 0) ⊎ IsProcessed s
  unfolding new_lifecycle
  Run-new interval period w₀ start = inl refl
  Run-new interval period w₀ (next_block w block r p) =
      inr (Ensures-Ends IsProcessed _ (process-IsProcessed block _) p)

  -- From the creation of a validator on, over any number of blocks whose handlers return or fail,
  -- and in which the chain may answer anything, its status never goes back to one that stands
  -- earlier in the diagram.
  pub never_backwards :
      (interval period : ℕ) (w₀ : e.World) {s t : Sim e.World}
      → Run (new_lifecycle interval period w₀) s
      → Run s t
      → rank s.state.status ≤ rank t.state.status
  never_backwards interval period w₀ r q = elim (Run-new interval period w₀ r) [
    | inl fresh ↦ omega arith
    | inr done ↦ (Run-rank done q).0
  ]
