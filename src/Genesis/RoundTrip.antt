-- ===== src/Genesis/RoundTrip.antt =====
-- config.go and devnet.go: what is read back from a genesis that a configuration was applied to.
use hayabusa_e2e.Prelude.{
  ℕ, ◌≡◌, ◌≤◌, ◌↔◌, inl, inr, refl, ap, sym, subst, ◌∙◌, true, false, none, some, List, [], ◌∷◌,
  ◌++◌, ◌==◌, arith, if◌then◌else◌, Bool-cases, max_u32, length,
}
use hayabusa_e2e.Prelude.Go.{ok, returns}
use hayabusa_e2e.Genesis.Text.{Text, same, trim_0x, trim_zeros, decode_string}
use hayabusa_e2e.Genesis.Digits.{digits}
use hayabusa_e2e.Genesis.Config.{
  ChainConfig, NetworkConfig, Libraries, max_block_proposers_name, Storage, store, Account,
  HubGenesis, ThorGenesis, uint32_to_bytes32, params_stored, accounts_stored, or_default, to_thor,
  apply, params_account, extract_config,
}
use hayabusa_e2e.Genesis.Storage.{
  In, same→≡, same_refl, zeros, padded, padded_name, name_key, read_back, name_key-text, Readable,
  Written, name_key-name, process_lem, In-without, without-In,
}

module _ (l : Libraries)
    (name_text : (b : List ℕ) → length b ≤ 32 → l.to_string (l.bytes_to_bytes32 b) ≡ padded b)
    (number_text : (n : ℕ) → n ≤ max_u32 → l.to_string (l.big_to_hash n) ≡ 48 ∷ 120 ∷ digits 64 n)
    (stargate_name : Text)
    (stargate_decoded : decode_string (trim_0x (l.to_string l.params_stargate_key))
      ≡ some stargate_name)
    (stargate_other : same (trim_zeros stargate_name) max_block_proposers_name ≡ false) where
  abbrev stargate_key : Text
  stargate_key = l.to_string l.params_stargate_key

  keys_differ : same (name_key l) stargate_key ≡ false
  keys_differ = elim (Bool-cases (same (name_key l) stargate_key)) [
    | inl e ↦
        let mine = name_key-name l name_text number_text stargate_name (
          ap (λ t. decode_string (trim_0x t)) (same→≡ (name_key l) stargate_key e)
          ∙ stargate_decoded) in
        absurd (cc)
    | inr e ↦ e
  ]

  name_key-Readable : Readable l (name_key l)
  name_key-Readable = (
    zeros 13 ++ max_block_proposers_name,
    ap (λ t. decode_string (trim_0x t)) (name_key-text l name_text number_text) ∙ padded_name,
    λ mine. same_refl (name_key l),
  )

  stored-Written :
      (c : NetworkConfig) (s : Storage l)
      → ((x : Text × l.Bytes32) → In x s → Readable l x.0)
      → (x : Text × l.Bytes32) → In x (params_stored l c s)
      → Written l c x
  unfolding params_stored
  stored-Written c s all x (inl e) = rw e (
    (stargate_name, stargate_decoded, λ mine. absurd (cc)),
    λ mine.
        let one : same (name_key l) stargate_key ≡ same (name_key l) (name_key l) =
          ap (same (name_key l)) (same→≡ stargate_key (name_key l) mine) in
        let two = same_refl (name_key l) in let three = keys_differ in absurd (cc),
  )
  stored-Written c s all x (inr h) =
      let value = uint32_to_bytes32 l c.max_block_proposers 3 in
      let (i, j) =
        In-without l name_text number_text stargate_key (store l (name_key l) value s) x h in
      elim i [
        | inl e ↦ rw e (name_key-Readable, λ mine. refl)
        | inr k ↦
            let (m, n) = In-without l name_text number_text (name_key l) s x k in
            (all x m, λ mine. absurd (cc))
      ]

  stored-there :
      (c : NetworkConfig) (s : Storage l)
      → (v : l.Bytes32) × In (name_key l, v) (params_stored l c s)
  unfolding params_stored
  stored-there c s =
      let value = uint32_to_bytes32 l c.max_block_proposers 3 in
      (
        value,
        inr (
            without-In l name_text number_text stargate_key (store l (name_key l) value s)
              (name_key l, value) (inl refl) keys_differ),
      )

  -- The storage of a params account is not nil and its keys are readable, and there is one such
  -- account at most.
  abbrev pub IsReadable : Account l.Bytes32 → Type 0
  IsReadable a =
      (s : Storage l) × (a.storage ≡ some s) × ((x : Text × l.Bytes32) → In x s → Readable l x.0)

  abbrev pub ArePrepared : List (Account l.Bytes32) → Type 0
  ArePrepared [] = Unit
  ArePrepared (a ∷ rest) =
      let later = ArePrepared rest in
      if a.address == l.params_address then IsReadable a × (params_account l rest ≡ none) else later

  -- The accounts as they are after `Apply`, with the one of the params contract among them.
  abbrev Applied : NetworkConfig → List (Account l.Bytes32) → Type 0
  Applied c accounts =
      (after : List (Account l.Bytes32)) × (a : Account l.Bytes32) × (s : Storage l)
      × (accounts_stored l c accounts ≡ some after)
      × (params_account l after ≡ some a)
      × (a.storage ≡ some s)
      × ((x : Text × l.Bytes32) → In x s → Written l c x)
      × ((v : l.Bytes32) × In (name_key l, v) s)

  accounts-Applied :
      (c : NetworkConfig) (accounts : List (Account l.Bytes32))
      → ArePrepared accounts
      → Applied c accounts
  unfolding accounts_stored params_account
  accounts-Applied c [] h =
      let s = params_stored l c [] in
      let self : (l.params_address == l.params_address) ≡ true = ground arith in
      let a : Account l.Bytes32 = record { address = l.params_address; storage = some s } in
      (
        a ∷ [],
        a,
        s,
        refl,
        rw self refl,
        refl,
        stored-Written c [] (λ x i. absurd i),
        stored-there c [],
      )
  accounts-Applied c (a ∷ rest) h = elim (Bool-cases (a.address == l.params_address)) [
    | inl mine ↦
        let ((s, storage, all), last) = rw mine at h in
        let t = params_stored l c s in
        let b : Account l.Bytes32 = record a { storage = some t } in
        (
          b ∷ rest,
          b,
          t,
          rw (accounts_stored, mine, storage) refl,
          rw (params_account, last, mine) refl,
          refl,
          stored-Written c s all,
          stored-there c s,
        )
    | inr other ↦
        let (after, b, s, stored, found, storage, all, there) =
          accounts-Applied c rest (rw other at h) in
        (
          a ∷ after,
          b,
          s,
          rw (accounts_stored, other, stored) refl,
          rw (params_account, found) refl,
          storage,
          all,
          there,
        )
  ]

  -- What is kept of a genesis of networkhub that is written as JSON and read as one of thor.
  abbrev pub Rereads :
      (l.HubConfig → ChainConfig)
      → (HubGenesis l.Bytes32 l.HubConfig → ThorGenesis l.Bytes32)
      → Type 0
  Rereads config_of reread =
      (g : HubGenesis l.Bytes32 l.HubConfig)
      → reread g ≡ record {
        fork_hayabusa = g.fork_hayabusa;
        accounts = g.accounts;
        config = config_of g.config;
      }

  -- With the conversions of the libraries: `ConfigFromThor` does not fail, and what it leaves reads
  -- as the configuration that it was given; and a genesis of networkhub that is written as JSON and
  -- read as one of thor keeps the fork block, the accounts with their storage, and the configuration.
  -- Where the number of proposers is of 32 bits, and the genesis has at most one account of the
  -- params contract, whose storage is not nil and has keys that can be decoded, none but the one that
  -- `Apply` writes being read as the number of proposers: `Apply` does not panic, and from the genesis
  -- that it leaves, reread so, and in whatever order the storage is then ranged over,
  -- `extractConfigFromAccounts` returns the number of proposers (three for zero), the fork block, the
  -- transition period, the epoch length and block interval (the defaults for zero), the three staking
  -- periods and the cooldown period that were applied.
  pub round_trip :
      (config_of : l.HubConfig → ChainConfig)
      (taken : (c : ChainConfig) (d : l.HubConfig)
        → (d' : l.HubConfig) × (l.config_from_thor c d ≡ ok d') × (config_of d' ≡ c))
      (reread : HubGenesis l.Bytes32 l.HubConfig → ThorGenesis l.Bytes32)
      (rereads : Rereads config_of reread) (order : Storage l → Storage l)
      (reorders : (s : Storage l) (x : Text × l.Bytes32) → In x (order s) ↔ In x s) (hash : Text)
      (c : NetworkConfig) (g : HubGenesis l.Bytes32 l.HubConfig)
      → c.max_block_proposers ≤ max_u32
      → ArePrepared g.accounts
      → (c' : NetworkConfig) × (g' : HubGenesis l.Bytes32 l.HubConfig) × (apply l hash c g
          ≡ returns tt (c', g'))
        × (extract_config l order (reread g') ≡ returns (read_back l c) (reread g'))
  unfolding apply extract_config
  round_trip config_of taken reread rereads order reorders hash c g small prepared =
      let (after, a, s, stored, found, storage, all, (v, there)) =
        accounts-Applied c g.accounts prepared in
      let c' = record c {
        block_interval = or_default l l.default_block_interval c.block_interval;
        epoch_length = or_default l l.default_epoch_length c.epoch_length;
      } in
      let (config, given, same_config) = taken (to_thor l c') g.config in
      let g' : HubGenesis l.Bytes32 l.HubConfig = record {
        fork_hayabusa = c.fork_block;
        extra_data = hash;
        accounts = after;
        config = config;
      } in
      let thor : ThorGenesis l.Bytes32 = record {
        fork_hayabusa = c.fork_block;
        accounts = after;
        config = to_thor l c';
      } in
      let reread_so : reread g' ≡ thor =
        rereads g' ∙ ap (λ (x : ChainConfig). record thor { config = x }) same_config in
      let processed =
        process_lem l name_text number_text c small (order s) 0 (λ x i. all x ((reorders s x).0 i))
          (inr (v, (reorders s (name_key l, v)).1 there)) in
      (
        c',
        g',
        rw (apply, stored, given) refl,
        subst (λ h. extract_config l order h ≡ returns (read_back l c) h) (sym reread_so)
            (rw (extract_config, found, storage, processed) refl),
      )
