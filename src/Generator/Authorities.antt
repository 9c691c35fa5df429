-- ===== src/Generator/Authorities.antt =====
-- devnet.go with lifecycle.go: the keys that are loaded, and the validators made of them.
use hayabusa_e2e.Prelude.{
  ℕ, zero, suc, ◌+◌, ◌*◌, ◌≡◌, ◌≤◌, ◌<◌, refl, ap, ◌∙◌, sym, subst, Bool-cases, inl, inr, Option,
  none, some, List, [], ◌∷◌, map, arith, ◌==◌, ltb, leb, u32, if◌then◌else◌, length, get_elem?,
  take, drop, take_all, max_u32,
}
use hayabusa_e2e.Prelude.Go.{Reply, ok, err}
use hayabusa_e2e.Lifecycle.{Config, queue_block, min_exit_block}
use hayabusa_e2e.Genesis.Config.{NetworkConfig}
use hayabusa_e2e.Lifecycle.Blocks.{min_exit_block_lem, min_exit_block-none}
use hayabusa_e2e.Generator.Accounts.{drop-some}
use hayabusa_e2e.Generator.Keys.{
  Files, DevnetKeys, if_ok, load_file, load_devnet_keys, AuthorityConfig, authority_config,
  authorities_from, create_authority_configs,
}

ok-injective : {A : Type 0} {a b : A} → ok a ≡ ok b → a ≡ b
ok-injective h = cc

if_ok-ok :
    {A B : Type 0} (r : Reply A) (k : A → Reply B) (b : B)
    → if_ok r k ≡ ok b
    → (a : A) × (k a ≡ ok b)
if_ok-ok (err x) k b h = absurd (cc)
if_ok-ok (ok a) k b h = (a, h)

-- Keys that are loaded are as many authorities as endorsors.
loaded_lengths :
    (f : Files) (keys : DevnetKeys)
    → load_devnet_keys f ≡ ok keys
    → length keys.authorities ≡ length keys.endorsors
unfolding load_devnet_keys
loaded_lengths f keys h =
    let (authorities, h₁) = if_ok-ok (load_file f "authority-keys.json") _ keys h in
    let (endorsors, h₂) = if_ok-ok (load_file f "endorsor-keys.json") _ keys h₁ in
    elim (Bool-cases (length authorities == length endorsors)) [
      | inr differ ↦ cc (rw differ at h₂)
      | inl same ↦
          let (executors, h₃) =
            if_ok-ok (load_file f "executor-keys.json") _ keys (rw same at h₂) in
          let (rotating, h₄) = if_ok-ok (load_file f "rotating-validators-keys.json") _ keys h₃ in
          let (faucet, h₅) = if_ok-ok (load_file f "faucet-keys.json") _ keys h₄ in
          subst (λ k. length k.authorities ≡ length k.endorsors) (ok-injective h₅)
            (ground (arith, same))
    ]

some_elem {ℓ} :
    {A : Type ℓ} (i : ℕ) (xs : List A) → i < length xs → (x : A) × (get_elem? xs i ≡ some x)
some_elem i [] h = absurd (omega arith)
some_elem zero (x ∷ xs) h = (x, refl)
some_elem (suc i) (x ∷ xs) h = some_elem i xs (omega arith)

module _ (config : NetworkConfig) (long_term activated : ℕ) where
  -- The exit after one staking period: none, a division by zero, for a period of no length, and
  -- never where one period more would pass the largest block number.
  abbrev pub one_period_on : ℕ → Option ℕ
  one_period_on period =
      if period == 0
      then none
      else if leb (2 * period) max_u32
      then some (u32 (activated + period))
      else some max_u32

  -- Due at once; one that is kept never exits, and another after one staking period.
  abbrev pub IsKept : ℕ → AuthorityConfig → Type 0
  IsKept i plan =
      (queue_block plan.config config.epoch_length ≡ 0)
      × (min_exit_block plan.config activated plan.staking_period_length
          ≡ (if ltb i long_term then some max_u32 else one_period_on config.min_staking_period))

  abbrev pub AreKept : ℕ → List AuthorityConfig → Type 0
  AreKept i [] = Unit
  AreKept i (plan ∷ plans) = IsKept i plan × AreKept (suc i) plans

  one_period :
      (c : Config) (period : ℕ)
      → c.staking_periods ≡ 1
      → min_exit_block c activated period ≡ one_period_on period
  one_period c zero one =
      ground (arith, (min_exit_block-none c activated 0).1 (refl, omega (arith, one)))
  one_period c (suc n) one =
      min_exit_block_lem c activated (suc n) (omega arith) ∙ rw one (ground arith)

  never_exits :
      (c : Config) (length : ℕ)
      → c.staking_periods ≡ max_u32
      → min_exit_block c activated length ≡ some max_u32
  unfolding min_exit_block
  never_exits c length all = rw all refl

  authority_config-IsKept :
      (i node endorser : ℕ) → IsKept i (authority_config config long_term i node endorser)
  unfolding authority_config queue_block
  authority_config-IsKept i node endorser = elim (Bool-cases (ltb i long_term)) [
    | inl long ↦ rw long (omega arith, never_exits _ config.high_staking_period refl)
    | inr short ↦ rw short (omega arith, one_period _ config.min_staking_period refl)
  ]

  authorities_from_lem :
      (i : ℕ) (nodes endorsors : List ℕ)
      → i + length nodes ≤ length endorsors
      → (plans : List AuthorityConfig) × (authorities_from config long_term i nodes endorsors
          ≡ some plans)
        × (map (λ plan. plan.node) plans ≡ nodes)
        × (map (λ plan. plan.endorser) plans ≡ take (length nodes) (drop i endorsors))
        × AreKept i plans
  unfolding authorities_from authority_config
  authorities_from_lem i [] endorsors h = ([], refl, refl, refl, tt)
  authorities_from_lem i (node ∷ nodes) endorsors h =
      let (plans, made, same_nodes, same_endorsers, kept) =
        authorities_from_lem (suc i) nodes endorsors (omega arith) in
      let (endorser, here) = some_elem i endorsors (omega arith) in
      (
        authority_config config long_term i node endorser ∷ plans,
        rw (here, made) refl,
        ap (λ l. node ∷ l) same_nodes,
        ap (λ l. endorser ∷ l) same_endorsers
            ∙ sym (ap (take (suc (length nodes))) (drop-some i endorser endorsors here)),
        (authority_config-IsKept i node endorser, kept),
      )

  -- The keys that loadDevnetKeys loads are enough for createAuthorityConfigs, which does not panic:
  -- it makes one validator of each authority with the endorsor of the same place, due at once. The
  -- exit of the first so many falls due at the largest block number, and that of each other one
  -- staking period after its activation, a sum that wraps, or at the largest block number where two
  -- periods pass it; with a period of no length it is a division by zero.
  pub load-create_lem :
      (f : Files) (keys : DevnetKeys)
      → load_devnet_keys f ≡ ok keys
      → (plans : List AuthorityConfig) × (create_authority_configs config long_term keys
          ≡ some plans)
        × (map (λ plan. plan.node) plans ≡ keys.authorities)
        × (map (λ plan. plan.endorser) plans ≡ keys.endorsors)
        × AreKept 0 plans
  unfolding create_authority_configs
  load-create_lem f keys h =
      let same = loaded_lengths f keys h in
      let (plans, made, nodes, endorsers, kept) =
        authorities_from_lem 0 keys.authorities keys.endorsors (omega (arith, same)) in
      (
        plans,
        made,
        nodes,
        endorsers ∙ take_all (length keys.authorities) keys.endorsors (omega (arith, same)),
        kept,
      )
