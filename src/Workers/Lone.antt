-- ===== src/Workers/Lone.antt =====
-- worker_pool.go: a lone caller of an open pool, and its goroutines.
use hayabusa_e2e.Prelude.{
  ℕ, ◌*◌, ◌≡◌, ◌<◌, ◌⊎◌, refl, inl, inr, false, some, List, [], ◌∷◌, arith, length, get_elem?,
  if-case, ltb, Option-cases,
}
use hayabusa_e2e.Prelude.Int.{ℤ}
use hayabusa_e2e.Workers.Pool.{Pool, send_at, work_at, Step, sends, works, Reach, stepped}
use hayabusa_e2e.Workers.Sound.{Holds}
use hayabusa_e2e.Workers.Order.{Holds-some, Reach-Sound}
use hayabusa_e2e.Workers.Steps.{step-Lowers}
use hayabusa_e2e.Workers.Drain.{rests, drain_lem}
use hayabusa_e2e.Workers.Callers.{all_left, send-first}

send-staff :
    (i : ℕ) (s t : Pool)
    → send_at i s ≡ some t
    → (t.started ≡ s.started) × (t.max_workers ≡ s.max_workers)
unfolding send_at
send-staff i s t e =
    let P = λ (u : Pool). (u.started ≡ s.started) × (u.max_workers ≡ s.max_workers) in
    Holds-some P (send_at i s) t
      (elim (Option-cases (get_elem? s.blocked i)) [
        | inl nobody ↦ rw (Holds, nobody) tt
        | inr (job, found) ↦
            rw (Holds, found)
              (if-case (Holds P) s.closed _ _ (λ over. (refl, refl))
                (λ open_.
                  if-case (Holds P) (ltb (length s.queue) (s.max_workers * 2)) _ _
                    (λ room. (refl, refl)) (λ full. tt)))
      ])
      e

module _ {n : ℤ} {jobs : List ℕ} (s : Pool) (r : Reach n jobs s) (after : s.closed ≡ false) where
  -- A send takes one of the steps that are left, and does not panic.
  pub send_left :
      (t : Pool)
      → send_at 0 s ≡ some t
      → (all_left t < all_left s) × (t.closed ≡ false) × (t.panicked ≡ false)
  send_left t e =
      let (lower, still) = step-Lowers jobs s t (Reach-Sound n jobs s r) after (sends 0 e) in
      let (on, most) = send-staff 0 s t e in
      let fewer : all_left t < all_left s = rw (on, most) (omega (arith, lower)) in
      (fewer, still, (Reach-Sound n jobs t (stepped r (sends 0 e))).calm still)

  -- As long as a lone caller stands at the channel, it or a goroutine can go on.
  pub lone_goes :
      (x : ℕ)
      → s.blocked ≡ x ∷ []
      → ((t : Pool) × (send_at 0 s ≡ some t)) ⊎ ((i : ℕ) × (t : Pool) × (work_at i s ≡ some t))
  lone_goes x alone =
      let (_, _, on) = drain_lem n jobs 0 s s r after (rests s) in
      elim on [
        | inl over ↦
            let one : length s.blocked ≡ 1 = rw alone refl in
            absurd (omega (arith, over, one, (Reach-Sound n jobs s r).counted))
        | inr (t, step) ↦ stepping t step
      ]
    where
      stepping :
          (t : Pool)
          → Step s t
          → ((t : Pool) × (send_at 0 s ≡ some t)) ⊎ ((i : ℕ) × (t : Pool) × (work_at i s ≡ some t))
      stepping t (sends i e) = inl (t, send-first s t x i alone e)
      stepping t (works i e) = inr (i, t, e)
