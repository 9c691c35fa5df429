-- ===== src/Contracts/Decode.antt =====
-- contract_service.go, unpackValidators: the columns that the helper contract returns, put together
-- to validators. Decoding the bytes to columns is the ABI library's; an index past the end of a
-- column panics and is `none` here.
use hayabusa_e2e.Prelude.{
  ℕ, zero, suc, ◌+◌, ◌≡◌, ◌≢◌, ◌<◌, refl, inl, inr, subst, sym, Option, Option-cases, none, some,
  List, [], ◌∷◌, length, get_elem?, arith, elem, false,
}
use hayabusa_e2e.Prelude.Dict.{Dict, lookup, insert, lookup-insert}
use hayabusa_e2e.Contracts.Service.{Validator, wei_to_vet, block_or_nil}

-- The columns of the result that are read, with their indices in it.
pub record Columns : Type 0 where
  pub masters : List ℕ
  pub endorsors : List ℕ
  pub statuses : List ℕ
  pub offline_blocks : List ℕ
  pub staking_period_lengths : List ℕ
  pub start_blocks : List ℕ
  pub exit_blocks : List ℕ
  pub completed_periods : List ℕ
  pub locked_vets : List ℕ
  pub locked_weights : List ℕ
  pub queued_stakes : List ℕ

infixl 5 ◌>>=◌
abbrev ◌>>=◌ : {A B : Type 0} → Option A → (A → Option B) → Option B
none >>= f = none
some a >>= f = f a

unfoldable pub row : Columns → ℕ → Option Validator
unfolding wei_to_vet block_or_nil
row c i = do
  endorser ← get_elem? c.endorsors i
  period ← get_elem? c.staking_period_lengths i
  completed ← get_elem? c.completed_periods i
  status ← get_elem? c.statuses i
  start_block ← get_elem? c.start_blocks i
  locked ← get_elem? c.locked_vets i
  queued ← get_elem? c.queued_stakes i
  weight ← get_elem? c.locked_weights i
  exit_block ← get_elem? c.exit_blocks i
  offline_block ← get_elem? c.offline_blocks i
  some (record {
    endorser = endorser;
    period = period;
    complete_iterations = completed;
    status = status;
    start_block = start_block;
    exit_block = block_or_nil exit_block;
    offline_block = block_or_nil offline_block;
    locked_vet = wei_to_vet locked;
    queued_vet = wei_to_vet queued;
    withdrawable_vet = 0;
    weight = wei_to_vet weight;
  })

-- The loop over the masters from an index on.
unfoldable pub unpack_from : Columns → ℕ → List ℕ → Dict Validator → Option (Dict Validator)
unpack_from c i [] d = some d
unpack_from c i (id ∷ ids) d = row c i >>= λ v. unpack_from c (suc i) ids (insert id v d)

unfoldable pub unpack_validators : Columns → Option (Dict Validator)
unfolding unpack_from
unpack_validators c = unpack_from c 0 c.masters []

-- Each master is named once.
abbrev pub Distinct : List ℕ → Type 0
Distinct [] = Unit
Distinct (x ∷ xs) = (elem x xs ≡ false) × Distinct xs

-- Every column has an entry for every master.
abbrev pub IsRectangular : Columns → Type 0
IsRectangular c =
    (length c.endorsors ≡ length c.masters)
    × (length c.statuses ≡ length c.masters)
    × (length c.offline_blocks ≡ length c.masters)
    × (length c.staking_period_lengths ≡ length c.masters)
    × (length c.start_blocks ≡ length c.masters)
    × (length c.exit_blocks ≡ length c.masters)
    × (length c.completed_periods ≡ length c.masters)
    × (length c.locked_vets ≡ length c.masters)
    × (length c.locked_weights ≡ length c.masters)
    × (length c.queued_stakes ≡ length c.masters)

get_elem?-some : (xs : List ℕ) (i : ℕ) → i < length xs → get_elem? xs i ≢ none
get_elem?-some [] i h = absurd (omega arith)
get_elem?-some (x ∷ xs) zero h = λ e. cc
get_elem?-some (x ∷ xs) (suc i) h = get_elem?-some xs i (omega arith)

row-some : (c : Columns) (i : ℕ) → IsRectangular c → i < length c.masters → row c i ≢ none
unfolding row
row-some c i r h = ground (
  arith,
  get_elem?-some c.endorsors i (omega (arith, r)),
  get_elem?-some c.statuses i (omega (arith, r)),
  get_elem?-some c.offline_blocks i (omega (arith, r)),
  get_elem?-some c.staking_period_lengths i (omega (arith, r)),
  get_elem?-some c.start_blocks i (omega (arith, r)),
  get_elem?-some c.exit_blocks i (omega (arith, r)),
  get_elem?-some c.completed_periods i (omega (arith, r)),
  get_elem?-some c.locked_vets i (omega (arith, r)),
  get_elem?-some c.locked_weights i (omega (arith, r)),
  get_elem?-some c.queued_stakes i (omega (arith, r)),
)

-- What the loop makes of the masters from an index on, over the map so far.
abbrev Unpacked : Columns → ℕ → List ℕ → Dict Validator → Dict Validator → Type 0
Unpacked c i ids d t =
    ((id : ℕ) → elem id ids ≡ false → lookup id t ≡ lookup id d)
    × ((j id : ℕ) → get_elem? ids j ≡ some id → lookup id t ≡ row c (i + j))

shift : (i j : ℕ) → i + suc j ≡ suc i + j
shift i j = omega arith

placed-first :
    (c : Columns) (i x : ℕ) (ids : List ℕ) (d t : Dict Validator) {v : Validator}
    → row c i ≡ some v
    → elem x ids ≡ false
    → Unpacked c (suc i) ids (insert x v d) t
    → (j id : ℕ) → get_elem? (x ∷ ids) j ≡ some id
    → lookup id t ≡ row c (i + j)
placed-first c i x ids d t {v} found new p zero id h =
    let same : x ≡ id = ground (arith, h) in
    let kept : lookup x t ≡ row c i = ground (arith, p.0 x new, lookup-insert x x v d, found) in
    let here : i ≡ i + 0 = omega arith in
    subst (λ k. lookup k t ≡ row c (i + 0)) same (subst (λ k. lookup x t ≡ row c k) here kept)
placed-first c i x ids d t found new p (suc j) id h =
    subst (λ k. lookup id t ≡ row c k) (sym (shift i j)) (p.1 j id h)

unpack_from-Unpacked :
    (c : Columns) (i : ℕ) (ids : List ℕ) (d : Dict Validator)
    → Distinct ids
    → ((j : ℕ) → j < length ids → row c (i + j) ≢ none)
    → (t : Dict Validator) × (unpack_from c i ids d ≡ some t) × Unpacked c i ids d t
unfolding unpack_from
unpack_from-Unpacked c i [] d u k = (d, refl, (λ id h. refl, λ j id h. cc))
unpack_from-Unpacked c i (x ∷ ids) d u k = elim (Option-cases (row c i)) [
  | inl missing ↦
      let here : i + 0 ≡ i = omega arith in
      absurd (subst (λ n. row c n ≢ none) here (k 0 (omega arith)) missing)
  | inr (v, found) ↦
      let (t, done, r) =
        unpack_from-Unpacked c (suc i) ids (insert x v d) u.1
          (λ j h. subst (λ n. row c n ≢ none) (shift i j) (k (suc j) (omega arith))) in
      (
        t,
        rw found done,
        (
          (λ id m. ground (arith, m, r.0 id, lookup-insert id x v d)),
          placed-first c i x ids d t found u.0 r,
        ),
      )
]

-- If every column has an entry for every master, and no master is named twice, unpacking does not
-- panic, every master is mapped to the validator of its own row, and nothing else is in the map.
pub unpack_validators_lem :
    (c : Columns)
    → IsRectangular c
    → Distinct c.masters
    → (t : Dict Validator) × (unpack_validators c ≡ some t)
      × ((id : ℕ) → elem id c.masters ≡ false → lookup id t ≡ none)
      × ((i id : ℕ) → get_elem? c.masters i ≡ some id → lookup id t ≡ row c i)
unfolding unpack_validators
unpack_validators_lem c r u =
    let at : (j : ℕ) → 0 + j ≡ j = λ j. omega arith in
    let (t, done, p) =
      unpack_from-Unpacked c 0 c.masters [] u
        (λ j h. subst (λ n. row c n ≢ none) (sym (at j)) (row-some c j r h)) in
    (t, done, p.0, λ i id h. subst (λ n. lookup id t ≡ row c n) (at i) (p.1 i id h))
