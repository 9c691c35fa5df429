-- ===== src/Network/Awaited.antt =====
-- utils/ticker.go, WaitForBlock: how it ends.
use hayabusa_e2e.Prelude.{
  ℕ, zero, suc, ◌+◌, ◌-◌, ◌*◌, ◌%◌, ◌^◌, ◌≡◌, ◌≤◌, ◌<◌, ◌⊎◌, inl, inr, refl, ap, false, Bool-cases,
  none, some, leb, leb→le, ◌==◌, if◌then◌else◌, if-case, arith,
}
use hayabusa_e2e.Prelude.Go.{Outcome, returns, fails, panics, diverges}
use hayabusa_e2e.Network.Ticker.{
  ExpandedBlock, Revision, best_block, at_number, Answer, BlockClient, seen, with_best, looped,
  block_loop, wait_until_due, wait_for_block,
}
use hayabusa_e2e.Network.Ticking.{Timed}

module _ (e : BlockClient) (left : e.World → ℕ) (timed : Timed e left) where
  -- The client has given a block of at least a number.
  abbrev pub HasSeen : ℕ → Type 0
  HasSeen n =
      (w : e.World) × (r : Revision) × (b : ExpandedBlock) × (((e.expanded_block r w).0).0 ≡ some b)
      × (n ≤ b.number)

  -- The moment until which a wait that begins at a best block lasts: the block's time, or the
  -- clock's at genesis, ten seconds for each block that is missing, and twenty.
  abbrev pub due_by : ℕ → ExpandedBlock → e.World → ℕ
  due_by n best w =
      let start = if best.number == 0 then (e.now w).0 else best.timestamp in
      (start + (n - best.number) * 10) % 2 ^ 64 + 20

  -- The best block that the client gives first is below a number, and the moment that a wait for it
  -- lasts until lies behind.
  abbrev pub IsLate : ℕ → e.World → Type 0
  IsLate n w =
      let v = (e.expanded_block best_block w).1 in
      (best : ExpandedBlock) × ((e.expanded_block best_block w).0 ≡ (some best, none))
      × (best.number < n)
      × ((e.is_ahead (due_by n best v) (if best.number == 0 then (e.now v).1 else v)).0 ≡ false)

  -- An end of a wait that begins in a world: a panic only for a wait whose end lies behind, or for a
  -- best block that the client left out without an error.
  abbrev pub Awaits : ℕ → e.World → Outcome (Unit {0}) e.World → Type 0
  Awaits n w₀ (returns u v) = HasSeen n
  Awaits n w₀ (fails x v) = Unit
  Awaits n w₀ panics = IsLate n w₀ ⊎ ((e.expanded_block best_block w₀).0 ≡ (none, none))
  Awaits n w₀ diverges = ⊥

  looped-Awaits :
      (n : ℕ) (w₀ : e.World) (a : Answer) (r : Revision) (w v : e.World)
      (rest : e.World → Outcome (Unit {0}) e.World)
      → (e.expanded_block r w).0 ≡ a
      → Awaits n w₀ (rest v)
      → Awaits n w₀ (looped e (seen n a) (e.expanded_block r w).1 rest v)
  looped-Awaits n w₀ (none, none) r w v rest h k = k
  looped-Awaits n w₀ (none, some x) r w v rest h k = elim (Bool-cases x.is_not_found) [
    | inl known ↦ rw known k
    | inr other ↦ rw other tt
  ]
  looped-Awaits n w₀ (some b, none) r w v rest h k = elim (Bool-cases (leb n b.number)) [
    | inl here ↦ rw here (w, r, b, ap (λ a. a.0) h, leb→le _ _ here)
    | inr below ↦ rw below k
  ]
  looped-Awaits n w₀ (some b, some x) r w v rest h k = elim (Bool-cases (leb n b.number)) [
    | inl here ↦ rw here (w, r, b, ap (λ a. a.0) h, leb→le _ _ here)
    | inr below ↦ elim (Bool-cases x.is_not_found) [
      | inl known ↦ rw (below, known) k
      | inr other ↦ rw (below, other) tt
    ]
  ]

  block_loop-Awaits :
      (fuel n : ℕ) (w₀ w : e.World) → left w < fuel → Awaits n w₀ (block_loop e fuel n w)
  unfolding block_loop
  block_loop-Awaits zero n w₀ w h = absurd (omega arith)
  block_loop-Awaits (suc fuel) n w₀ w h =
      let (fired, w₁) = e.fires w in
      let w₂ = (e.expanded_block (at_number n) w₁).1 in
      if-case (Awaits n w₀) fired _ _ (λ over. tt)
        (λ more.
          let sooner : left w₁ < left w = elim (timed.runs_out w) [
            | inl over ↦ absurd (cc)
            | inr less ↦ less
          ] in
          looped-Awaits n w₀ (e.expanded_block (at_number n) w₁).0 (at_number n) w₁ (e.sleep w₂)
            (block_loop e fuel n) refl
            (block_loop-Awaits fuel n w₀ (e.sleep w₂)
              (omega (arith, timed.by_block (at_number n) w₁, timed.by_sleep w₂))))

  module _ (fuel : ℕ) (enough : (w : e.World) → left w < fuel) (n : ℕ) where
    due-Awaits :
        (best : ExpandedBlock) (w : e.World)
        → (e.expanded_block best_block w).0 ≡ (some best, none)
        → best.number < n
        → Awaits n w (wait_until_due e fuel n best (e.expanded_block best_block w).1)
    unfolding wait_until_due
    due-Awaits best w given below =
        let v = (e.expanded_block best_block w).1 in
        let (start, u) = if best.number == 0 then e.now v else (best.timestamp, v) in
        let deadline = (start + (n - best.number) * 10) % 2 ^ 64 + 20 in
        let (ahead, w₂) = e.is_ahead deadline u in
        if-case (Awaits n w) ahead _ _ (λ in_time. block_loop-Awaits fuel n w w₂ (enough w₂))
          (λ late. elim (Bool-cases (best.number == 0)) [
            | inl first ↦ inl (best, given, below, ground (arith, late, first))
            | inr other ↦ inl (best, given, below, ground (arith, late, other))
          ])

    with_best-Awaits :
        (a : Answer) (w : e.World)
        → (e.expanded_block best_block w).0 ≡ a
        → Awaits n w (
            with_best e a
              (λ best v. if leb n best.number then returns tt v else wait_until_due e fuel n best v)
              (e.expanded_block best_block w).1)
    with_best-Awaits (none, none) w h = inr h
    with_best-Awaits (none, some x) w h = tt
    with_best-Awaits (some b, some x) w h = tt
    with_best-Awaits (some b, none) w h =
        if-case (Awaits n w) (leb n b.number) _ _
          (λ here. (w, best_block, b, ap (λ a. a.0) h, leb→le _ _ here))
          (λ below. due-Awaits b w h (ground arith))

    -- With timers that never have more rounds than the fuel: WaitForBlock ends, it returns without
    -- an error only if the client has given a block of at least the number, and it panics only if
    -- the best block that the client gives first is below the number and the deadline reckoned from
    -- that block, ten seconds for each block that is missing and twenty, lies behind when the timer
    -- is made, or if the client gives no best block and no error.
    pub wait_for_block-Awaits : (w : e.World) → Awaits n w (wait_for_block e fuel n w)
    unfolding wait_for_block
    wait_for_block-Awaits w = with_best-Awaits (e.expanded_block best_block w).0 w refl
