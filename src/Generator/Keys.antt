-- ===== src/Generator/Keys.antt =====
-- devnet.go: `loadDevnetKeys` and `createAuthorityConfigs`. What reads a file of the directory, what
-- decodes its entries (of which the code reads the key alone) and what parses a key are parameters; a
-- signer is known by its key.
use hayabusa_e2e.Prelude.{
  ℕ, suc, Option, none, some, List, [], ◌∷◌, ◌==◌, ltb, if◌then◌else◌, length, get_elem?, max_u32,
}
use hayabusa_e2e.Prelude.Go.{new_error, Reply, ok, err}
use Prim.Native.String.{String}
use hayabusa_e2e.Lifecycle.{Config}
use hayabusa_e2e.Genesis.Text.{Text, trim_0x}
use hayabusa_e2e.Genesis.Config.{NetworkConfig}

pub record Files : Type 1 where
  pub Data : Type 0
  pub read_file : String → Reply Data
  pub unmarshal : Data → Reply (List Text)
  pub hex_to_ecdsa : Text → Reply ℕ

pub record DevnetKeys : Type 0 where
  pub executors : List ℕ
  pub authorities : List ℕ
  pub endorsors : List ℕ
  pub rotating_validators : List ℕ
  pub faucet_keys : List ℕ

-- `if err != nil { return nil, err }`.
abbrev pub if_ok : {A B : Type 0} → Reply A → (A → Reply B) → Reply B
if_ok (err x) k = err x
if_ok (ok a) k = k a

module _ (f : Files) where
  unfoldable pub keys_of : List Text → Reply (List ℕ)
  keys_of [] = ok []
  keys_of (entry ∷ entries) =
      let rest = keys_of entries in
      if_ok (f.hex_to_ecdsa (trim_0x entry)) λ key. if_ok rest λ keys. ok (key ∷ keys)

  unfoldable pub load_file : String → Reply (List ℕ)
  unfolding keys_of
  load_file name = if_ok (f.read_file name) λ content. if_ok (f.unmarshal content) keys_of

  unfoldable pub load_devnet_keys : Reply DevnetKeys
  unfolding load_file
  load_devnet_keys = if_ok (load_file "authority-keys.json") λ authorities.
      if_ok (load_file "endorsor-keys.json") λ endorsors.
        if length authorities == length endorsors
        then (if_ok (load_file "executor-keys.json") λ executors.
            if_ok (load_file "rotating-validators-keys.json") λ rotating.
              if_ok (load_file "faucet-keys.json") λ faucet. ok (record {
                executors = executors;
                authorities = authorities;
                endorsors = endorsors;
                rotating_validators = rotating;
                faucet_keys = faucet;
              }))
        else err (new_error "mismatched authorities and endorsors count")

pub record AuthorityConfig : Type 0 where
  pub node : ℕ
  pub endorser : ℕ
  pub config : Config
  pub stake_change_interval : ℕ
  pub staking_period_length : ℕ

-- `long_term` is the flag of the validators to keep; a negative one keeps none, as zero does.
module _ (config : NetworkConfig) (long_term : ℕ) where
  unfoldable pub authority_config : ℕ → ℕ → ℕ → AuthorityConfig
  authority_config i node endorser = record {
    node = node;
    endorser = endorser;
    config = record {
      queue_delay = record { epochs = 0; blocks = 0 };
      start_block = 0;
      staking_periods = if ltb i long_term then max_u32 else 1;
      withdraw_delay = record { epochs = 5; blocks = config.cooldown_period };
    };
    stake_change_interval = 8;
    staking_period_length =
        if ltb i long_term then config.high_staking_period else config.min_staking_period;
  }

  abbrev with_endorser :
      ℕ → ℕ → Option ℕ → Option (List AuthorityConfig) → Option (List AuthorityConfig)
  with_endorser i node none rest = none
  with_endorser i node (some endorser) none = none
  with_endorser i node (some endorser) (some plans) =
      some (authority_config i node endorser ∷ plans)

  -- The loop from an index on; an endorser out of range panics.
  unfoldable pub authorities_from : ℕ → List ℕ → List ℕ → Option (List AuthorityConfig)
  authorities_from i [] endorsors = some []
  authorities_from i (node ∷ nodes) endorsors =
      let rest = authorities_from (suc i) nodes endorsors in
      with_endorser i node (get_elem? endorsors i) rest

  unfoldable pub create_authority_configs : DevnetKeys → Option (List AuthorityConfig)
  unfolding authorities_from
  create_authority_configs keys = authorities_from 0 keys.authorities keys.endorsors
