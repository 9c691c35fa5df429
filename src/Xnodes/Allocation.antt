-- ===== src/Xnodes/Allocation.antt =====
-- position_manager.go and positions.go: the positions that a validator is allocated. float64 is a
-- parameter; an address is the big-endian number of its 20 bytes.
use hayabusa_e2e.Prelude.{
  ℕ, zero, suc, ◌+◌, ◌-◌, ◌*◌, ◌/◌, ◌%◌, ◌^◌, Bool, Option, none, some, [], ◌∷◌, if◌then◌else◌, ltb,
}
use hayabusa_e2e.Prelude.Int.{ℤ, pos, ◌+ℤ◌, ltb_ℤ}
use hayabusa_e2e.Prelude.Dict.{Dict, lookup, insert}

pub record Position : Type 0 where
  pub name : ℕ
  pub stake : ℕ
  pub mainnet_used : ℕ
  pub multiplier : ℕ

-- A number that is neither constant is an unknown type.
pub data DistributionType : Type 0 where
  even skewed unknown : DistributionType

abbrev pub Counts : Type 0
Counts = Dict ℤ

-- `m[k]` of a map of counts.
abbrev pub count : ℕ → Counts → ℤ
count k d = elim (lookup k d) [ none ↦ pos 0 | some n ↦ n ]

-- `m[k] += n`
abbrev pub bump : ℕ → ℤ → Counts → Counts
bump k n d = insert k (count k d +ℤ n) d

-- The operations of float64 that the allocation uses.
pub record Float64 : Type 1 where
  pub F : Type 0
  pub of_int : ℤ → F
  pub to_int : F → ℤ
  pub add : F → F → F
  pub sub : F → F → F
  pub mul : F → F → F
  pub div : F → F → F
  pub less : F → F → Bool

-- Byte `i` of an address.
address_byte : ℕ → ℕ → ℕ
address_byte addr i = addr / 256 ^ (19 - i) % 256

-- The loop over the first bytes: `n` of them are left.
score_from : ℕ → ℕ → ℕ → ℕ
score_from addr zero score = score
score_from addr (suc n) score =
    score_from addr n (score * 256 % 2 ^ 64 + address_byte addr (8 - suc n))

module _ (f : Float64) where
  open f use {F, of_int, to_int, add, sub, mul, div, less}

  address_to_score : ℕ → F
  unfolding score_from address_byte
  address_to_score addr = div (of_int (pos (score_from addr 8 0))) (of_int (pos (2 ^ 64 - 1)))

  unfoldable pub calculate_even_max : ℕ → Position → ℕ → ℤ
  unfolding address_byte
  calculate_even_max len p addr =
      let max_per_validator = div (of_int (pos p.mainnet_used)) (of_int (pos len)) in
      let max = to_int max_per_validator in
      let remainder = sub max_per_validator (of_int max) in
      let last = div (of_int (pos (address_byte addr 19))) (of_int (pos 255)) in
      if less last remainder then max +ℤ pos 1 else max

  unfoldable pub calculate_skewed_max : ℕ → Position → ℕ → ℤ
  unfolding address_to_score
  calculate_skewed_max len p addr =
      let one = of_int (pos 1) in
      let rest = sub one (address_to_score addr) in
      let skew_factor = mul (mul rest rest) rest in
      let base_max = div (of_int (pos p.mainnet_used)) (of_int (pos len)) in
      to_int (mul base_max (add one (mul (of_int (pos 2)) skew_factor)))

  unfoldable pub max_of : DistributionType → ℕ → Position → ℕ → Option ℤ
  unfolding calculate_even_max calculate_skewed_max
  max_of even len p addr = some (calculate_even_max len p addr)
  max_of skewed len p addr = some (calculate_skewed_max len p addr)
  max_of unknown len p addr = none

  unfoldable pub allocate : Option ℤ → ℕ → Counts → Counts
  allocate none k m = m
  allocate (some n) k m = if ltb_ℤ (pos 0) n then insert k n m else m

  unfoldable pub make_positions : DistributionType → ℕ → ℕ → Dict Position → Counts → Counts
  unfolding max_of allocate
  make_positions t len addr [] m = m
  make_positions t len addr ((k, p) ∷ ps) m =
      make_positions t len addr ps
        (if ltb 0 p.mainnet_used then allocate (max_of t len p addr) k m else m)
