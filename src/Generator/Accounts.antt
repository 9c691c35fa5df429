-- ===== src/Generator/Accounts.antt =====
-- devnet.go and networkhub.go, CreateValidator, as the loop of engine.go calls it: which accounts
-- the validators get.
use hayabusa_e2e.Prelude.{
  ℕ, zero, suc, ◌≡◌, refl, ap, ◌∙◌, sym, Option, none, some, Option-cases, inl, inr, List, [], ◌∷◌,
  map, take, drop, get_elem?,
}
use hayabusa_e2e.Generator.Strategies.{
  Source, StakingPeriods, Generator, ValidatorPlan, random_between, plan_for, plan_validator,
  create_validator,
}
use hayabusa_e2e.Generator.Hub.{hub_plan, hub_plan_for, create_hub_validator}

abbrev until_refused : Option ValidatorPlan → List ValidatorPlan → List ValidatorPlan
until_refused none plans = []
until_refused (some plan) plans = plan ∷ plans

module _ {W : Type 0} where
  -- A CreateValidator refuses once its accounts are used up, and otherwise takes the next of them.
  pub record TakesNext (create : Generator W → Option ValidatorPlan × Generator W) : Type 0 where
    pub keeps : (g : Generator W) → (create g).1.validators ≡ g.validators
    pub refuses :
        (g : Generator W) → get_elem? g.validators g.validator_index ≡ none → (create g).0 ≡ none
    pub takes :
        (g : Generator W) (account : ℕ)
        → get_elem? g.validators g.validator_index ≡ some account
        → (plan : ValidatorPlan) × ((create g).0 ≡ some plan)
          × (plan.account ≡ account)
          × ((create g).1.validator_index ≡ suc g.validator_index)

  module _ (create : Generator W → Option ValidatorPlan × Generator W) where
    -- The plans of so many calls, up to the first that is refused.
    unfoldable pub created : ℕ → Generator W → List ValidatorPlan
    created zero g = []
    created (suc n) g = let rest = created n (create g).1 in until_refused (create g).0 rest

    abbrev pub accounts : ℕ → Generator W → List ℕ
    accounts n g = map (λ plan. plan.account) (created n g)

pub drop-some : (i a : ℕ) (xs : List ℕ) → get_elem? xs i ≡ some a → drop i xs ≡ a ∷ drop (suc i) xs
drop-some i a [] h = cc
drop-some zero a (x ∷ xs) h = cc
drop-some (suc i) a (x ∷ xs) h = drop-some i a xs h

drop-none : (i : ℕ) (xs : List ℕ) → get_elem? xs i ≡ none → drop i xs ≡ []
drop-none zero [] h = refl
drop-none (suc i) [] h = refl
drop-none zero (x ∷ xs) h = cc
drop-none (suc i) (x ∷ xs) h = drop-none i xs h

module _ {W : Type 0} (create : Generator W → Option ValidatorPlan × Generator W)
    (law : TakesNext create) where
  pub created_lem :
      (n : ℕ) (g : Generator W) → accounts create n g ≡ take n (drop g.validator_index g.validators)
  unfolding created
  created_lem zero g = refl
  created_lem (suc n) g = elim (Option-cases (get_elem? g.validators g.validator_index)) [
    | inl over ↦
        let ended = drop-none g.validator_index g.validators over in
        ap (λ o. map (λ plan. plan.account) (until_refused o (created create n (create g).1)))
          (law.refuses g over)
        ∙ sym (ap (take (suc n)) ended)
    | inr (account, next) ↦
        let (plan, made, same, moved) = law.takes g account next in
        let rest : accounts create n (create g).1
            ≡ take n (drop (suc g.validator_index) g.validators) =
          created_lem n (create g).1
          ∙ ap (take n) (
              ap (λ i. drop i (create g).1.validators) moved
              ∙ ap (drop (suc g.validator_index)) (law.keeps g)) in
        let begun = drop-some g.validator_index account g.validators next in
        ap (λ o. map (λ plan. plan.account) (until_refused o (created create n (create g).1))) made
        ∙ (ap (λ a. a ∷ accounts create n (create g).1) same
            ∙ (ap (λ l. account ∷ l) rest ∙ sym (ap (take (suc n)) begun)))
  ]

module _ (e : Source) (p : StakingPeriods) (start_block : ℕ) where
  plan_for-keeps :
      (s : ℕ) (o : Option ℕ) (g : Generator e.World)
      → (plan_for e p start_block s o g).1.validators ≡ g.validators
  unfolding plan_for
  plan_for-keeps s none g = refl
  plan_for-keeps s (some account) g = refl

  pub create_validator-TakesNext : TakesNext (create_validator e p start_block)
  unfolding create_validator plan_for plan_validator
  create_validator-TakesNext = record {
    keeps = λ g.
        let (s, w) = random_between e 1 4 g.world in
        plan_for-keeps s (get_elem? g.validators g.validator_index) (record g { world = w });
    refuses = λ g over.
        let (s, w) = random_between e 1 4 g.world in
        ap (λ o. (plan_for e p start_block s o (record g { world = w })).0) over;
    takes = λ g account next.
        let (s, w) = random_between e 1 4 g.world in
        let made = plan_validator e p start_block account s w in
        (
          made.0,
          ap (λ o. (plan_for e p start_block s o (record g { world = w })).0) next,
          refl,
          ap (λ o. (plan_for e p start_block s o (record g { world = w })).1.validator_index) next,
        );
  }

  module _ (epoch_length : ℕ) where
    hub_plan_for-keeps :
        (o : Option ℕ) (g : Generator e.World)
        → (hub_plan_for e epoch_length p start_block o g).1.validators ≡ g.validators
    unfolding hub_plan_for
    hub_plan_for-keeps none g = refl
    hub_plan_for-keeps (some account) g = refl

    pub create_hub_validator-TakesNext :
        TakesNext (create_hub_validator e epoch_length p start_block)
    unfolding create_hub_validator hub_plan_for hub_plan
    create_hub_validator-TakesNext = record {
      keeps = λ g. hub_plan_for-keeps (get_elem? g.validators g.validator_index) g;
      refuses = λ g over. ap (λ o. (hub_plan_for e epoch_length p start_block o g).0) over;
      takes = λ g account next.
          let made = hub_plan e epoch_length p start_block account g.world in
          (
            made.0,
            ap (λ o. (hub_plan_for e epoch_length p start_block o g).0) next,
            refl,
            ap (λ o. (hub_plan_for e epoch_length p start_block o g).1.validator_index) next,
          );
    }

    -- Of both generators: so many calls of CreateValidator, up to the first that is refused, create a
    -- validator for each of the next so many accounts, in order, and for no other, whatever numbers
    -- are drawn.
    pub accounts_lem :
        (n : ℕ) (g : Generator e.World)
        → let next = take n (drop g.validator_index g.validators) in
          (accounts (create_validator e p start_block) n g ≡ next)
          × (accounts (create_hub_validator e epoch_length p start_block) n g ≡ next)
    accounts_lem n g = (
      created_lem (create_validator e p start_block) create_validator-TakesNext n g,
      created_lem (create_hub_validator e epoch_length p start_block) create_hub_validator-TakesNext
          n g,
    )
