-- ===== src/Examples/Generators.antt =====
-- Generated lifecycles with a source of zeros.
use hayabusa_e2e.Prelude.{ℕ, ◌≡◌, refl, some, List, [], ◌∷◌, map, arith}
use hayabusa_e2e.Prelude.Go.{ok}
use hayabusa_e2e.Genesis.Config.{NetworkConfig}
use hayabusa_e2e.Genesis.Text.{trim_0x}
use hayabusa_e2e.Generator.Strategies.{Source, StakingPeriods, Generator, create_validator}
use hayabusa_e2e.Generator.Hub.{create_hub_validator, seed_all}
use hayabusa_e2e.Generator.Due.{IsDueIfCreated, create_hub_validator-IsDue}
use hayabusa_e2e.Generator.Seeds.{AreSeeds, seed_all-AreSeeds}
use hayabusa_e2e.Generator.Accounts.{accounts, accounts_lem}
use hayabusa_e2e.Generator.Keys.{
  Files, DevnetKeys, AuthorityConfig, keys_of, load_file, load_devnet_keys,
  create_authority_configs,
}
use hayabusa_e2e.Generator.Authorities.{AreKept, load-create_lem}

abbrev pub zeros : Source
zeros = record { World = ℕ; intn = λ n w. (0, w); new_position = λ w. (some (8, 1, 2), w) }

abbrev periods : StakingPeriods
periods = record { low = 6; medium = 12; high = 24 }

abbrev three_accounts : Generator ℕ
three_accounts = record { validators = 31 ∷ 32 ∷ 33 ∷ []; validator_index = 1; world = 0 }

create_hub_validator_example :
    IsDueIfCreated zeros
      (λ n w h. h)
      6
      (omega arith)
      100
      200
      (create_hub_validator zeros 6 periods 100 three_accounts).0
create_hub_validator_example =
    create_hub_validator-IsDue zeros (λ n w h. h) 6 (omega arith) periods 24 200
      (omega arith, omega arith, omega arith, omega arith, omega arith, omega arith) 100
      three_accounts (omega arith) (omega arith)

abbrev plan_accounts : ℕ → List ℕ → List ℕ
plan_accounts i l = map (λ plan. plan.account) (seed_all zeros 6 periods i l 0).0

seed_all_example :
    (plan_accounts 49 (31 ∷ 32 ∷ []) ≡ 31 ∷ 32 ∷ [])
    × AreSeeds 6 200 49 (seed_all zeros 6 periods 49 (31 ∷ 32 ∷ []) 0).0
seed_all_example =
    seed_all-AreSeeds zeros (λ n w h. h) 6 (omega arith) periods 24 200
      (omega arith, omega arith, omega arith, omega arith, omega arith, omega arith) 49
      (31 ∷ 32 ∷ []) 0 (omega arith)

accounts_example :
    (accounts (create_validator zeros periods 100) 5 three_accounts ≡ 32 ∷ 33 ∷ [])
    × (accounts (create_hub_validator zeros 6 periods 100) 5 three_accounts ≡ 32 ∷ 33 ∷ [])
accounts_example = accounts_lem zeros periods 100 6 5 three_accounts

abbrev files : Files
files = record {
  Data = Unit {0};
  read_file = λ name. ok tt;
  unmarshal = λ content. ok ((48 ∷ 120 ∷ 55 ∷ []) ∷ (56 ∷ []) ∷ []);
  hex_to_ecdsa = λ text. elim text [ [] ↦ ok 0 | c ∷ cs ↦ ok c ];
}

abbrev keys : DevnetKeys
keys = record {
  executors = 55 ∷ 56 ∷ [];
  authorities = 55 ∷ 56 ∷ [];
  endorsors = 55 ∷ 56 ∷ [];
  rotating_validators = 55 ∷ 56 ∷ [];
  faucet_keys = 55 ∷ 56 ∷ [];
}

abbrev config : NetworkConfig
config = record {
  nodes = 2;
  max_block_proposers = 16;
  fork_block = 0;
  transition_period = 6;
  stargate_address = 0;
  epoch_length = 6;
  cooldown_period = 6;
  min_staking_period = 6;
  mid_staking_period = 12;
  high_staking_period = 24;
  block_interval = 5;
  validator_eviction_threshold = 0;
  eviction_check_interval = 0;
}

keys_loaded : load_devnet_keys files ≡ ok keys
unfolding load_devnet_keys load_file keys_of trim_0x
keys_loaded = refl

load-create_example :
    (plans : List AuthorityConfig) × (create_authority_configs config 1 keys ≡ some plans)
    × (map (λ plan. plan.node) plans ≡ keys.authorities)
    × (map (λ plan. plan.endorser) plans ≡ keys.endorsors)
    × AreKept config 1 200 0 plans
load-create_example = load-create_lem config 1 200 files keys keys_loaded
