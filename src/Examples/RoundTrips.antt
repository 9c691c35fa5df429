-- ===== src/Examples/RoundTrips.antt =====
-- A configuration applied to a genesis with a params account, and read back.
use hayabusa_e2e.Prelude.{◌≡◌, refl, some, [], ◌∷◌, arith}
use hayabusa_e2e.Prelude.Go.{ok, returns, codes}
use hayabusa_e2e.Genesis.Text.{Text, trim_0x, trim_zeros, decode_string}
use hayabusa_e2e.Genesis.Digits.{digits}
use hayabusa_e2e.Genesis.Config.{
  ChainConfig, NetworkConfig, Libraries, HubGenesis, ThorGenesis, apply, params_account,
  extract_config,
}
use hayabusa_e2e.Genesis.Storage.{padded, read_back}
use hayabusa_e2e.Genesis.RoundTrip.{round_trip}

abbrev libraries : Libraries
libraries = record {
  Bytes32 = Text;
  bytes_to_bytes32 = padded;
  big_to_hash = λ n. 48 ∷ 120 ∷ digits 64 n;
  to_string = λ t. t;
  address_bytes = λ a. a ∷ [];
  params_address = 7;
  stargate = 9;
  params_stargate_key = padded (codes "delegator-contract-address");
  default_block_interval = 10;
  default_epoch_length = 180;
  HubConfig = ChainConfig;
  config_from_thor = λ c d. ok c;
}

abbrev chain : ChainConfig
chain = record {
  block_interval = 10;
  epoch_length = 180;
  cooldown_period = 0;
  low_staking_period = 0;
  medium_staking_period = 0;
  high_staking_period = 0;
  validator_eviction_threshold = 0;
  hayabusa_tp = some 0;
  eviction_check_interval = 0;
}

abbrev genesis : HubGenesis Text ChainConfig
genesis = record {
  fork_hayabusa = 0;
  extra_data = [];
  accounts =
      record { address = 3; storage = some [] } ∷ record { address = 7; storage = some [] } ∷ [];
  config = chain;
}

abbrev config : NetworkConfig
config = record {
  nodes = 6;
  max_block_proposers = 101;
  fork_block = 2;
  transition_period = 12;
  stargate_address = 5;
  epoch_length = 6;
  cooldown_period = 24;
  min_staking_period = 12;
  mid_staking_period = 24;
  high_staking_period = 36;
  block_interval = 0;
  validator_eviction_threshold = 30;
  eviction_check_interval = 6;
}

abbrev reread : HubGenesis Text ChainConfig → ThorGenesis Text
reread g = record { fork_hayabusa = g.fork_hayabusa; accounts = g.accounts; config = g.config }

stargate_decoded :
    decode_string (trim_0x (libraries.to_string libraries.params_stargate_key))
    ≡ some (0 ∷ 0 ∷ 0 ∷ 0 ∷ 0 ∷ 0 ∷ codes "delegator-contract-address")
unfolding decode_string trim_0x
stargate_decoded = refl

round_trip_example :
    (c' : NetworkConfig) × (g' : HubGenesis Text ChainConfig) × (apply libraries [] config genesis
      ≡ returns tt (c', g'))
    × (extract_config libraries (λ s. s) (reread g')
        ≡ returns (read_back libraries config) (reread g'))
unfolding trim_zeros params_account
round_trip_example =
    round_trip libraries (λ b h. refl) (λ n h. refl)
      (0 ∷ 0 ∷ 0 ∷ 0 ∷ 0 ∷ 0 ∷ codes "delegator-contract-address") stargate_decoded refl (λ d. d)
      (λ c d. (c, refl, refl)) reread (λ g. refl) (λ s. s) (λ s x. (λ i. i, λ i. i)) [] config
      genesis (omega arith) (([], refl, λ x i. absurd i), refl)
