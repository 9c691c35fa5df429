-- ===== src/Genesis/Config.antt =====
-- hayabusa/config.go (`Apply`), hayabusa/genesis.go (`uint32ToBytes32`, `nameToBytes32`) and
-- devnet.go (`extractConfigFromAccounts` and what it calls). A storage is a list of its entries, and
-- `range` gives them in an order of its own.
use hayabusa_e2e.Prelude.{ℕ, Option, none, some, List, [], ◌∷◌, ◌==◌, if◌then◌else◌}
use hayabusa_e2e.Prelude.Go.{new_error, Reply, ok, err, Outcome, returns, fails, panics, codes}
use hayabusa_e2e.Genesis.Text.{Text, same, trim_0x, trim_zeros, decode_string, parse_uint}

-- `thor.Config`.
pub record ChainConfig : Type 0 where
  pub block_interval : ℕ
  pub epoch_length : ℕ
  pub cooldown_period : ℕ
  pub low_staking_period : ℕ
  pub medium_staking_period : ℕ
  pub high_staking_period : ℕ
  pub validator_eviction_threshold : ℕ
  pub hayabusa_tp : Option ℕ
  pub eviction_check_interval : ℕ

-- The fields of `Config` that `Apply` or `extractConfigFromAccounts` uses.
pub record NetworkConfig : Type 0 where
  pub nodes : ℕ
  pub max_block_proposers : ℕ
  pub fork_block : ℕ
  pub transition_period : ℕ
  pub stargate_address : ℕ
  pub epoch_length : ℕ
  pub cooldown_period : ℕ
  pub min_staking_period : ℕ
  pub mid_staking_period : ℕ
  pub high_staking_period : ℕ
  pub block_interval : ℕ
  pub validator_eviction_threshold : ℕ
  pub eviction_check_interval : ℕ

-- What is used of the thor, networkhub and go-ethereum libraries. An address is a number, zero for
-- the zero address.
pub record Libraries : Type 1 where
  pub Bytes32 : Type 0
  -- `thor.BytesToBytes32`, `common.BigToHash` and `Bytes32.String`
  pub bytes_to_bytes32 : List ℕ → Bytes32
  pub big_to_hash : ℕ → Bytes32
  pub to_string : Bytes32 → Text
  pub address_bytes : ℕ → List ℕ
  -- `builtin.Params.Address`, `Stargate.Address()` and `thor.KeyDelegatorContractAddress`
  pub params_address : ℕ
  pub stargate : ℕ
  pub params_stargate_key : Bytes32
  -- `thor.BlockInterval()` and `thor.EpochLength()`
  pub default_block_interval : ℕ
  pub default_epoch_length : ℕ
  -- the type of `genesis.Config` in networkhub, and its `ConfigFromThor`
  pub HubConfig : Type 0
  pub config_from_thor : ChainConfig → HubConfig → Reply HubConfig

abbrev pub max_block_proposers_name : Text
max_block_proposers_name = codes "max-block-proposers"

module _ (l : Libraries) where
  abbrev pub Storage : Type 0
  Storage = List (Text × l.Bytes32)

  abbrev pub without : Text → Storage → Storage
  without key [] = []
  without key ((k, v) ∷ rest) =
      let others = without key rest in if same k key then others else (k, v) ∷ others

  -- `m[key] = value`.
  abbrev pub store : Text → l.Bytes32 → Storage → Storage
  store key value s = (key, value) ∷ without key s

module _ (B : Type 0) where
  pub record Account : Type 0 where
    pub address : ℕ
    -- none for a nil map, which reads as empty and cannot be written to
    pub storage : Option (List (Text × B))

  -- The `CustomGenesis` of networkhub, which `Apply` writes to.
  pub record HubGenesis (C : Type 0) : Type 0 where
    pub fork_hayabusa : ℕ
    pub extra_data : Text
    pub accounts : List Account
    pub config : C

  -- The `CustomGenesis` of thor, which `extractConfigFromAccounts` reads.
  pub record ThorGenesis : Type 0 where
    pub fork_hayabusa : ℕ
    pub accounts : List Account
    pub config : ChainConfig

module _ (l : Libraries) where
  unfoldable pub uint32_to_bytes32 : ℕ → ℕ → l.Bytes32
  uint32_to_bytes32 value default = l.big_to_hash (if value == 0 then default else value)

  unfoldable pub name_to_bytes32 : Text → Text
  name_to_bytes32 name = l.to_string (l.bytes_to_bytes32 name)

  abbrev pub stargate_of : NetworkConfig → ℕ
  stargate_of c = if c.stargate_address == 0 then l.stargate else c.stargate_address

  -- The two entries that `Apply` writes to the storage of the params contract.
  unfoldable pub params_stored : NetworkConfig → Storage l → Storage l
  unfolding uint32_to_bytes32 name_to_bytes32
  params_stored c s =
      store l (l.to_string l.params_stargate_key)
        (l.bytes_to_bytes32 (l.address_bytes (stargate_of c)))
        (store l (name_to_bytes32 max_block_proposers_name)
          (uint32_to_bytes32 c.max_block_proposers 3) s)

  abbrev after :
      Account l.Bytes32 → Option (List (Account l.Bytes32)) → Option (List (Account l.Bytes32))
  after a none = none
  after a (some rest) = some (a ∷ rest)

  abbrev stored_in :
      NetworkConfig
      → Account l.Bytes32
      → List (Account l.Bytes32)
      → Option (Storage l)
      → Option (List (Account l.Bytes32))
  stored_in c a rest none = none
  stored_in c a rest (some s) = some (record a { storage = some (params_stored c s) } ∷ rest)

  -- In the first account of the params contract, or in one that is added at the end; none for a
  -- panic.
  unfoldable pub accounts_stored :
      NetworkConfig → List (Account l.Bytes32) → Option (List (Account l.Bytes32))
  unfolding params_stored
  accounts_stored c [] =
      some (record { address = l.params_address; storage = some (params_stored c []) } ∷ [])
  accounts_stored c (a ∷ rest) =
      let later = after a (accounts_stored c rest) in
      if a.address == l.params_address then stored_in c a rest a.storage else later

  abbrev pub or_default : ℕ → ℕ → ℕ
  or_default default n = if n == 0 then default else n

  abbrev pub to_thor : NetworkConfig → ChainConfig
  to_thor c = record {
    block_interval = c.block_interval;
    epoch_length = c.epoch_length;
    cooldown_period = c.cooldown_period;
    low_staking_period = c.min_staking_period;
    medium_staking_period = c.mid_staking_period;
    high_staking_period = c.high_staking_period;
    validator_eviction_threshold = c.validator_eviction_threshold;
    hayabusa_tp = some c.transition_period;
    eviction_check_interval = c.eviction_check_interval;
  }

  -- The random hash is an argument.
  unfoldable pub apply :
      Text
      → NetworkConfig
      → HubGenesis l.Bytes32 l.HubConfig
      → Outcome (Unit {0}) (NetworkConfig × HubGenesis l.Bytes32 l.HubConfig)
  unfolding accounts_stored
  apply hash c g =
      let c' = record c {
        block_interval = or_default l.default_block_interval c.block_interval;
        epoch_length = or_default l.default_epoch_length c.epoch_length;
      } in
      elim (accounts_stored c g.accounts) [
        | none ↦ panics
        | some accounts ↦ elim (l.config_from_thor (to_thor c') g.config) [
          | err x ↦ panics
          | ok config ↦ returns tt (
            c',
            record {
              fork_hayabusa = c.fork_block;
              extra_data = hash;
              accounts = accounts;
              config = config;
            },
          )
        ]
      ]

  -- The last account of the params contract, if there is one.
  unfoldable pub params_account : List (Account l.Bytes32) → Option (Account l.Bytes32)
  params_account [] = none
  params_account (a ∷ rest) = elim (params_account rest) [
    | some b ↦ some b
    | none ↦ if a.address == l.params_address then some a else none
  ]

  unfoldable pub parse_storage_value : l.Bytes32 → Reply ℕ
  parse_storage_value v = elim (parse_uint (trim_0x (l.to_string v))) [
    | none ↦ err (new_error "invalid storage value format")
    | some n ↦ ok n
  ]

  abbrev named : Text → l.Bytes32 → ℕ → (ℕ → Reply ℕ) → Reply ℕ
  named name v n rest =
      if same (trim_zeros name) max_block_proposers_name
      then (elim (parse_storage_value v) [ err x ↦ err x | ok m ↦ rest m ])
      else rest n

  -- The value that `processParamsConfig` leaves in `MaxBlockProposers`.
  unfoldable pub process_storage_values : Storage l → ℕ → Reply ℕ
  unfolding parse_storage_value
  process_storage_values [] n = ok n
  process_storage_values ((key, v) ∷ rest) n = elim (decode_string (trim_0x key)) [
    | none ↦ err (new_error "failed to decode storage key")
    | some name ↦ named name v n (process_storage_values rest)
  ]

  abbrev pub entries : Option (Storage l) → Storage l
  entries none = []
  entries (some s) = s

  abbrev pub proposers : (Storage l → Storage l) → Option (Account l.Bytes32) → Reply ℕ
  proposers order none = ok 0
  proposers order (some a) = process_storage_values (order (entries a.storage)) 0

  unfoldable pub extract_config :
      (Storage l → Storage l)
      → ThorGenesis l.Bytes32
      → Outcome NetworkConfig (ThorGenesis l.Bytes32)
  unfolding process_storage_values params_account
  extract_config order g = elim g.config.hayabusa_tp [
    | none ↦ panics
    | some tp ↦ elim (proposers order (params_account g.accounts)) [
      | err x ↦ fails x g
      | ok n ↦
          returns
            (record {
              nodes = 1;
              max_block_proposers = n;
              fork_block = g.fork_hayabusa;
              transition_period = tp;
              stargate_address = 0;
              epoch_length = g.config.epoch_length;
              cooldown_period = g.config.cooldown_period;
              min_staking_period = g.config.low_staking_period;
              mid_staking_period = g.config.medium_staking_period;
              high_staking_period = g.config.high_staking_period;
              block_interval = g.config.block_interval;
              validator_eviction_threshold = 0;
              eviction_check_interval = 0;
            })
            g
    ]
  ]
