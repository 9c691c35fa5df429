-- ===== src/Contracts/Lookups.antt =====
-- contract_service.go: what a round leaves for the lifecycles.
use hayabusa_e2e.Prelude.{
  ℕ, ◌≡◌, ◌↔◌, refl, inl, inr, ◌∙◌, Bool, true, false, Bool-cases, Option-cases, Option, none, some,
  [], ◌∷◌, ◌==◌, ==_iff, subst, sym, if◌then◌else◌, is_some, arith, ◌||◌,
}
use hayabusa_e2e.Prelude.Dict.{Dict, lookup, insert, lookup-insert}
use hayabusa_e2e.Prelude.Dict.Sum.{Nodup}
use hayabusa_e2e.Contracts.Service.{
  Validator, Staker, Service, lookup_address, check_exited, select, is_active, is_exiting,
  is_queued, entry_of, has_exited, recheck, copy, poll_round,
}

lookup-select :
    (e : Staker) (p : Validator → Bool) (id : ℕ) (vs : Dict Validator)
    → Nodup vs
    → lookup id (select e p vs)
      ≡ elim (lookup id vs) [ none ↦ none | some v ↦ if p v then some v else none ]
unfolding select
lookup-select e p id [] u = refl
lookup-select e p id ((j, v) ∷ vs) u = elim (Bool-cases (id == j)) [
  | inl hit ↦ elim (Bool-cases (p v)) [
    | inl taken ↦ ground (arith, hit, taken)
    | inr passed ↦
        let gone : lookup id vs ≡ none =
          subst (λ x. lookup x vs ≡ none) (sym ((==_iff id j).0 hit)) u.0 in
        let rest : lookup id (select e p vs) ≡ none = lookup-select e p id vs u.1 ∙ rw gone refl in
        ground (arith, hit, passed, rest)
  ]
  | inr miss ↦ elim (Bool-cases (p v)) [
    | inl taken ↦ rw (taken, miss) (lookup-select e p id vs u.1)
    | inr passed ↦ rw (passed, miss) (lookup-select e p id vs u.1)
  ]
]

select_iff :
    (e : Staker) (p : Validator → Bool) (id : ℕ) (vs : Dict Validator)
    → Nodup vs
    → (v : Validator)
    → (lookup id (select e p vs) ≡ some v) ↔ ((lookup id vs ≡ some v) × (p v ≡ true))
select_iff e p id vs u v = elim (Option-cases (lookup id vs)) [
  | inl gone ↦
      let q : lookup id (select e p vs) ≡ none = lookup-select e p id vs u ∙ rw gone refl in
      (λ h. cc, λ h. cc)
  | inr (x, here) ↦ elim (Bool-cases (p x)) [
    | inl taken ↦
        let q : lookup id (select e p vs) ≡ some x =
          lookup-select e p id vs u ∙ rw (here, taken) refl in
        (λ h. (cc, cc), λ h. cc)
    | inr passed ↦
        let q : lookup id (select e p vs) ≡ none =
          lookup-select e p id vs u ∙ rw (here, passed) refl in
        (λ h. cc, λ h. cc)
  ]
]

lookup-copy_new :
    (e : Staker) (id : ℕ) (d : Dict (Option Validator)) (vs : Dict Validator)
    → lookup id vs ≡ none
    → lookup id (copy e d vs) ≡ lookup id d
unfolding copy
lookup-copy_new e id d [] h = refl
lookup-copy_new e id d ((j, v) ∷ vs) h =
    ground (arith, lookup-copy_new e id (insert j (some v) d) vs, lookup-insert id j (some v) d)

lookup-copy :
    (e : Staker) (id : ℕ) (v : Validator) (d : Dict (Option Validator)) (vs : Dict Validator)
    → Nodup vs
    → lookup id vs ≡ some v
    → lookup id (copy e d vs) ≡ some (some v)
unfolding copy
lookup-copy e id v d [] u h = cc
lookup-copy e id v d ((j, x) ∷ vs) u h = ground (
  arith,
  lookup-copy e id v (insert j (some x) d) vs u.1,
  lookup-copy_new e id (insert j (some x) d) vs,
  lookup-insert id j (some x) d,
)

lookup-recheck_kept :
    (e : Staker) (id : ℕ) (vs : Dict Validator) (x : Dict Bool) (d : Dict (Option Validator))
    (w : e.World)
    → lookup id d ≡ none
    → lookup id (recheck e vs x d w).0 ≡ none
unfolding recheck
lookup-recheck_kept e id vs x [] w h = refl
lookup-recheck_kept e id vs x ((j, old) ∷ d) w h =
    let keep = is_some (lookup j vs) || has_exited e j x in
    let w' = if keep then w else (check_exited e j w).1 in
    ground (arith, h, lookup-recheck_kept e id vs x d w')

-- A validator that is known and has left is asked about, in some world.
lookup-recheck_left :
    (e : Staker) (id : ℕ) (vs : Dict Validator) (d : Dict (Option Validator))
    (old : Option Validator) (w : e.World)
    → lookup id d ≡ some old
    → lookup id vs ≡ none
    → (w' : e.World) × (lookup id (recheck e vs [] d w).0
        ≡ some (entry_of e (check_exited e id w').0))
unfolding recheck has_exited
lookup-recheck_left e id vs [] old w h g = cc
lookup-recheck_left e id vs ((j, o) ∷ d) old w h g =
    let keep = is_some (lookup j vs) || has_exited e j [] in
    let next = if keep then w else (check_exited e j w).1 in
    elim (Bool-cases (id == j)) [
      | inl hit ↦
          let same : j ≡ id = sym ((==_iff id j).0 hit) in
          let left : is_some (lookup j vs) ≡ false = rw (same, g) refl in
          (w, rw (hit, left, same) refl)
      | inr miss ↦
          let (w', p) = lookup-recheck_left e id vs d old next (rw miss at h) g in (w', rw miss p)
    ]

-- What a lifecycle is told of a validator after a round: what the round was given, if it is of
-- the validator; the answer of the contract in some world, or nil if that was an error, for one
-- that was known and is not of the round; and nothing of one that was never seen.
abbrev pub Told :
    (e : Staker)
    → ℕ
    → Option Validator
    → Option (Option Validator)
    → Option (Option Validator)
    → Type 0
Told e id (some v) before answer = answer ≡ some (some v)
Told e id none none answer = answer ≡ none
Told e id none (some old) answer =
    (w : e.World) × (answer ≡ some (entry_of e (check_exited e id w).0))

-- After a round, as long as no validator is marked as exited, a lifecycle that asks for a validator
-- is told what the round was given of it, if it is of the round; if it was known before, the
-- contract's answer in some world, nil for an error; and that it is unknown otherwise.
pub poll_round-Told :
    (e : Staker) (id : ℕ) (validators : Dict Validator) (s : Service) (w : e.World)
    → Nodup validators
    → s.exited ≡ []
    → Told e id
        (lookup id validators)
        (lookup_address id s)
        (lookup_address id (poll_round e validators s w).0)
unfolding poll_round lookup_address
poll_round-Told e id validators s w u x =
    let checked = (recheck e validators s.exited s.id_lookup w).0 in
    elim (Option-cases (lookup id validators)) [
      | inr (v, here) ↦ rw here (lookup-copy e id v checked validators u here)
      | inl left ↦
          let copied = lookup-copy_new e id checked validators left in
          elim (Option-cases (lookup id s.id_lookup)) [
            | inl new ↦
                rw (left, new)
                  (copied ∙ lookup-recheck_kept e id validators s.exited s.id_lookup w new)
            | inr (old, known) ↦
                let (w', p) = lookup-recheck_left e id validators s.id_lookup old w known left in
                rw (left, known) (w', copied ∙ rw x p)
          ]
    ]

-- After a round over validators that are listed once each, a validator is among the active, the
-- exiting or the queued exactly as its own fields say.
pub poll_round_partition :
    (e : Staker) (id : ℕ) (validators : Dict Validator) (s : Service) (w : e.World)
    → Nodup validators
    → let t = (poll_round e validators s w).0 in
      ((v : Validator)
        → (lookup id t.active ≡ some v)
          ↔ ((lookup id validators ≡ some v) × (is_active e v ≡ true)))
      × ((v : Validator)
          → (lookup id t.exiting ≡ some v)
            ↔ ((lookup id validators ≡ some v) × (is_exiting e v ≡ true)))
      × ((v : Validator)
          → (lookup id t.queued ≡ some v)
            ↔ ((lookup id validators ≡ some v) × (is_queued e v ≡ true)))
unfolding poll_round
poll_round_partition e id validators s w u = (
  select_iff e (is_active e) id validators u,
  select_iff e (is_exiting e) id validators u,
  select_iff e (is_queued e) id validators u,
)
