-- ===== src/Genesis/Storage.antt =====
-- config.go and devnet.go: the storage of the params contract, as it is written and as it is read.
use hayabusa_e2e.Prelude.{
  ℕ, zero, suc, ◌-◌, ◌/◌, ◌%◌, ◌≡◌, ◌≤◌, ◌⊎◌, inl, inr, refl, sym, ap, ◌∙◌, true, false, some, List,
  [], ◌∷◌, ◌++◌, ◌==◌, arith, if◌then◌else◌, Bool-cases, max_u32, length,
}
use hayabusa_e2e.Prelude.Go.{ok}
use hayabusa_e2e.Genesis.Text.{Text, same, trim_0x, trim_zeros, decode_string}
use hayabusa_e2e.Genesis.Digits.{digit, digits, parse_uint-digits}
use hayabusa_e2e.Genesis.Config.{
  NetworkConfig, Libraries, max_block_proposers_name, Storage, without, uint32_to_bytes32,
  name_to_bytes32, or_default, parse_storage_value, process_storage_values,
}

abbrev pub In : {A : Type 0} → A → List A → Type 0
In x [] = ⊥
In x (y ∷ ys) = (x ≡ y) ⊎ In x ys

pub same_refl : (x : Text) → same x x ≡ true
same_refl [] = refl
same_refl (a ∷ x) = let rest = same_refl x in ground arith

pub same→≡ : (x y : Text) → same x y ≡ true → x ≡ y
same→≡ [] [] h = refl
same→≡ [] (b ∷ y) h = cc
same→≡ (a ∷ x) [] h = cc
same→≡ (a ∷ x) (b ∷ y) h = let rest = same→≡ x y in ground arith

-- The two hexadecimal digits of each byte.
abbrev pub hex_text : List ℕ → Text
hex_text [] = []
hex_text (b ∷ bs) = digit (b / 16) ∷ digit (b % 16) ∷ hex_text bs

abbrev pub zeros : ℕ → List ℕ
zeros zero = []
zeros (suc n) = 0 ∷ zeros n

-- The 32 bytes of a name, which it stands at the end of, written after "0x".
abbrev pub padded : List ℕ → Text
padded b = 48 ∷ 120 ∷ hex_text (zeros (32 - length b) ++ b)

pub padded_name :
    decode_string (trim_0x (padded max_block_proposers_name))
    ≡ some (zeros 13 ++ max_block_proposers_name)
unfolding decode_string trim_0x
padded_name = refl

trim_name : trim_zeros (zeros 13 ++ max_block_proposers_name) ≡ max_block_proposers_name
unfolding trim_zeros
trim_name = refl

module _ (l : Libraries) where
  abbrev pub name_key : Text
  name_key = name_to_bytes32 l max_block_proposers_name

  -- A key that `processStorageValues` can decode, and that is read as the number of proposers only
  -- if it is the key that `Apply` writes it to.
  abbrev pub Readable : Text → Type 0
  Readable key =
      (name : Text) × (decode_string (trim_0x key) ≡ some name)
      × (same (trim_zeros name) max_block_proposers_name ≡ true → same key name_key ≡ true)

  -- The number is the one that is written.
  abbrev pub Written : NetworkConfig → Text × l.Bytes32 → Type 0
  Written c x =
      Readable x.0 × (same x.0 name_key ≡ true → x.1 ≡ uint32_to_bytes32 l c.max_block_proposers 3)

  abbrev pub written : NetworkConfig → ℕ
  written c = if c.max_block_proposers == 0 then 3 else c.max_block_proposers

  -- What is read back: the parameters that the genesis holds, with the defaults for those that are
  -- zero; the number of nodes is one, and the fields that are not read are zero.
  abbrev pub read_back : NetworkConfig → NetworkConfig
  read_back c = record {
    nodes = 1;
    max_block_proposers = written c;
    fork_block = c.fork_block;
    transition_period = c.transition_period;
    stargate_address = 0;
    epoch_length = or_default l l.default_epoch_length c.epoch_length;
    cooldown_period = c.cooldown_period;
    min_staking_period = c.min_staking_period;
    mid_staking_period = c.mid_staking_period;
    high_staking_period = c.high_staking_period;
    block_interval = or_default l l.default_block_interval c.block_interval;
    validator_eviction_threshold = 0;
    eviction_check_interval = 0;
  }

module _ (l : Libraries)
    (name_text : (b : List ℕ) → length b ≤ 32 → l.to_string (l.bytes_to_bytes32 b) ≡ padded b)
    (number_text : (n : ℕ)
      → n ≤ max_u32
      → l.to_string (l.big_to_hash n) ≡ 48 ∷ 120 ∷ digits 64 n) where
  pub name_key-text : (name_key l) ≡ padded max_block_proposers_name
  unfolding name_to_bytes32
  name_key-text = name_text max_block_proposers_name (omega arith)

  parse_written :
      (c : NetworkConfig)
      → c.max_block_proposers ≤ max_u32
      → parse_storage_value l (uint32_to_bytes32 l c.max_block_proposers 3) ≡ ok (written l c)
  unfolding parse_storage_value uint32_to_bytes32 trim_0x
  parse_written c h =
      let small : written l c ≤ max_u32 = ground arith in
      rw
        (
          parse_storage_value,
          uint32_to_bytes32,
          number_text (written l c) small,
          trim_0x,
          parse_uint-digits (written l c) small,
        )
        refl

  -- The key that `Apply` writes to is read as the number of proposers.
  pub name_key-name :
      (name : Text)
      → decode_string (trim_0x (name_key l)) ≡ some name
      → same (trim_zeros name) max_block_proposers_name ≡ true
  name_key-name name h =
      let e : some (zeros 13 ++ max_block_proposers_name) ≡ some name =
        sym padded_name ∙ ap (λ t. decode_string (trim_0x t)) (sym name_key-text) ∙ h in
      let f : zeros 13 ++ max_block_proposers_name ≡ name = cc in
      rw⁻¹ f (rw trim_name (same_refl max_block_proposers_name))

  passed :
      (c : NetworkConfig) (key : Text) (v : l.Bytes32) (rest : Storage l) {n : ℕ} (name : Text)
      → decode_string (trim_0x key) ≡ some name
      → same (trim_zeros name) max_block_proposers_name ≡ false
      → (n ≡ written l c) ⊎ ((u : l.Bytes32) × In ((name_key l), u) ((key, v) ∷ rest))
      → (n ≡ written l c) ⊎ ((u : l.Bytes32) × In ((name_key l), u) rest)
  passed c key v rest name decoded other (inl e) = inl e
  passed c key v rest name decoded other (inr (u, inr i)) = inr (u, i)
  passed c key v rest name decoded other (inr (u, inl e)) =
      let mine = name_key-name name (ap (λ x. decode_string (trim_0x x.0)) e ∙ decoded) in
      absurd (cc)

  pub process_lem :
      (c : NetworkConfig)
      → c.max_block_proposers ≤ max_u32
      → (s : Storage l) (n : ℕ) → ((x : Text × l.Bytes32) → In x s → Written l c x)
      → (n ≡ written l c) ⊎ ((v : l.Bytes32) × In ((name_key l), v) s)
      → process_storage_values l s n ≡ ok (written l c)
  unfolding process_storage_values
  process_lem c h [] n all (inl e) = ap ok e
  process_lem c h [] n all (inr (v, here)) = absurd here
  process_lem c h ((key, v) ∷ rest) n all there =
      let ((name, decoded, only), value) = all (key, v) (inl refl) in
      elim (Bool-cases (same (trim_zeros name) max_block_proposers_name)) [
        | inl mine ↦
            rw (process_storage_values, decoded, mine, value (only mine), parse_written c h)
              (process_lem c h rest (written l c) (λ x i. all x (inr i)) (inl refl))
        | inr other ↦
            rw (process_storage_values, decoded, other)
              (process_lem c h rest n (λ x i. all x (inr i))
                (passed c key v rest name decoded other there))
      ]

  pub In-without :
      (key : Text) (s : Storage l) (x : Text × l.Bytes32)
      → In x (without l key s)
      → In x s × (same x.0 key ≡ false)
  In-without key [] x h = absurd h
  In-without key ((k, v) ∷ s) x h = elim (Bool-cases (same k key)) [
    | inl e ↦ let (i, j) = In-without key s x (rw e at h) in (inr i, j)
    | inr e ↦ elim (rw e at h) [
      | inl p ↦ (inl p, ap (λ y. same y.0 key) p ∙ e)
      | inr i ↦ let (i', j) = In-without key s x i in (inr i', j)
    ]
  ]

  pub without-In :
      (key : Text) (s : Storage l) (x : Text × l.Bytes32)
      → In x s
      → same x.0 key ≡ false
      → In x (without l key s)
  without-In key [] x h e = absurd h
  without-In key ((k, v) ∷ s) x (inl h) e =
      let differs : same k key ≡ false = ap (λ y. same y.0 key) (sym h) ∙ e in rw differs (inl h)
  without-In key ((k, v) ∷ s) x (inr h) e = elim (Bool-cases (same k key)) [
    | inl f ↦ rw f (without-In key s x h e)
    | inr f ↦ rw f (inr (without-In key s x h e))
  ]
