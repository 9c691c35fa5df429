-- ===== src/Genesis/Text.antt =====
-- What config.go, genesis.go and devnet.go do with text, which is a list of character codes:
-- `strings.TrimPrefix`, `strings.TrimLeft`, `hex.DecodeString` and `strconv.ParseUint`.
use hayabusa_e2e.Prelude.{
  ℕ, ◌+◌, ◌-◌, ◌*◌, Bool, true, false, Option, none, some, List, [], ◌∷◌, ◌==◌, leb, ◌&&◌,
  if◌then◌else◌, max_u32,
}

abbrev pub Text : Type 0
Text = List ℕ

abbrev pub same : Text → Text → Bool
same [] [] = true
same [] (y ∷ ys) = false
same (x ∷ xs) [] = false
same (x ∷ xs) (y ∷ ys) = x == y && same xs ys

-- `strings.TrimPrefix(s, "0x")`.
unfoldable pub trim_0x : Text → Text
trim_0x [] = []
trim_0x (a ∷ []) = a ∷ []
trim_0x (a ∷ b ∷ rest) = if a == 48 && b == 120 then rest else a ∷ b ∷ rest

-- `strings.TrimLeft(s, "\x00")`.
unfoldable pub trim_zeros : Text → Text
trim_zeros [] = []
trim_zeros (a ∷ rest) = let trimmed = trim_zeros rest in if a == 0 then trimmed else a ∷ rest

unfoldable pub hex_value : ℕ → Option ℕ
hex_value c =
    if leb 48 c && leb c 57
    then some (c - 48)
    else if leb 97 c && leb c 102
    then some (c - 87)
    else if leb 65 c && leb c 70
    then some (c - 55)
    else none

abbrev pub pair_value : Option ℕ → Option ℕ → Option ℕ
pair_value (some a) (some b) = some (a * 16 + b)
pair_value (some a) none = none
pair_value none o = none

abbrev cons_some : Option ℕ → Option Text → Option Text
cons_some (some a) (some rest) = some (a ∷ rest)
cons_some (some a) none = none
cons_some none o = none

-- `hex.DecodeString`.
unfoldable pub decode_string : Text → Option Text
unfolding hex_value
decode_string [] = some []
decode_string (a ∷ []) = none
decode_string (a ∷ b ∷ rest) =
    cons_some (pair_value (hex_value a) (hex_value b)) (decode_string rest)

unfoldable pub parse_digits : Option ℕ → Text → Option ℕ
unfolding hex_value
parse_digits acc [] = acc
parse_digits acc (c ∷ cs) = parse_digits (pair_value acc (hex_value c)) cs

abbrev in_range : Option ℕ → Option ℕ
in_range none = none
in_range (some n) = if leb n max_u32 then some n else none

-- `strconv.ParseUint(s, 16, 32)`.
unfoldable pub parse_uint : Text → Option ℕ
unfolding parse_digits
parse_uint [] = none
parse_uint (c ∷ cs) = in_range (parse_digits (some 0) (c ∷ cs))
