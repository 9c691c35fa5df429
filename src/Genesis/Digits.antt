-- ===== src/Genesis/Digits.antt =====
-- A number's hexadecimal digits, of a fixed width, and `strconv.ParseUint` on them.
use hayabusa_e2e.Prelude.{
  ℕ, zero, suc, ◌+◌, ◌*◌, ◌/◌, ◌%◌, ◌≡◌, ◌≤◌, ◌<◌, refl, ap, ◌∙◌, true, Option, some, [], ◌∷◌, ◌++◌,
  arith, ltb, leb, if◌then◌else◌, max_u32, length, length-append,
}
use hayabusa_e2e.Genesis.Text.{Text, hex_value, pair_value, parse_digits, parse_uint}

-- The character of a digit.
abbrev pub digit : ℕ → ℕ
digit d = if ltb d 10 then d + 48 else d + 87

unfoldable pub digits : ℕ → ℕ → Text
digits zero n = []
digits (suc w) n = digits w (n / 16) ++ (digit (n % 16) ∷ [])

-- One more than the largest number of so many digits.
abbrev pub top : ℕ → ℕ
top zero = 1
top (suc w) = top w * 16

hex_value-digit : (d : ℕ) → d < 16 → hex_value (digit d) ≡ some d
unfolding hex_value
hex_value-digit d h = ground arith

parse_digits-append :
    (acc : Option ℕ) (xs ys : Text)
    → parse_digits acc (xs ++ ys) ≡ parse_digits (parse_digits acc xs) ys
unfolding parse_digits
parse_digits-append acc [] ys = refl
parse_digits-append acc (x ∷ xs) ys = parse_digits-append (pair_value acc (hex_value x)) xs ys

parse_digits-digits : (w n : ℕ) → n < top w → parse_digits (some 0) (digits w n) ≡ some n
unfolding parse_digits digits
parse_digits-digits zero n h = let none_left : n ≡ 0 = omega arith in rw none_left refl
parse_digits-digits (suc w) n h =
    let one_digit : n % 16 < 16 = omega arith in
    let whole : n / 16 * 16 + n % 16 ≡ n = omega arith in
    parse_digits-append (some 0) (digits w (n / 16)) (digit (n % 16) ∷ [])
    ∙ ap (λ o. pair_value o (hex_value (digit (n % 16))))
        (parse_digits-digits w (n / 16) (omega arith))
    ∙ ap (pair_value (some (n / 16))) (hex_value-digit (n % 16) one_digit)
    ∙ ap some whole

digits_some : (w n : ℕ) → 0 < length (digits (suc w) n)
unfolding digits
digits_some w n = omega (arith, length-append (digits w (n / 16)) (digit (n % 16) ∷ []))

parse_uint-parse_digits :
    (xs : Text)
    → 0 < length xs
    → (n : ℕ) → n ≤ max_u32
    → parse_digits (some 0) xs ≡ some n
    → parse_uint xs ≡ some n
unfolding parse_uint
parse_uint-parse_digits [] h n k e = absurd (omega arith)
parse_uint-parse_digits (c ∷ cs) h n k e =
    let small : leb n max_u32 ≡ true = ground arith in rw (e, small) refl

-- Of up to 32 bits in 64 digits.
pub parse_uint-digits : (n : ℕ) → n ≤ max_u32 → parse_uint (digits 64 n) ≡ some n
parse_uint-digits n h =
    parse_uint-parse_digits (digits 64 n) (digits_some 63 n) n h
      (parse_digits-digits 64 n (omega arith))
