-- ===== src/Text/Number.antt =====
-- `strconv.Itoa`, `%d`, and the reading of decimal digits.
pub mod Digits
pub mod RoundTrip
use node_configurator.Prelude.{
  ℕ, zero, suc, ◌+◌, ◌-◌, ◌*◌, ◌/◌, ◌%◌, ◌<◌, Bool, ◌&&◌, [], ◌∷◌, ◌≡◌, refl, arith, ltb, leb,
  if◌then◌else◌, Option, none, some, ℤ, pos, negsuc, negate, true, false, ◌==◌, ◌^◌,
}
use node_configurator.Text.{Text, codes}

-- The digits of `n` in front of `out`. One round for each digit: `n < fuel` rounds are enough.
digits : ℕ → ℕ → Text → Text
digits zero n out = out
digits (suc f) n out =
    let more = digits f (n / 10) ((b'0' + n % 10) ∷ out) in
    if ltb n 10 then (b'0' + n) ∷ out else more

unfoldable pub itoa : ℕ → Text
unfolding digits
itoa n = digits (n + 1) n []

itoa_example : itoa 1048576 ≡ codes "1048576"
unfolding itoa
itoa_example = refl

-- A decimal digit: the class `\d`.
unfoldable pub is_digit : ℕ → Bool
is_digit c = leb b'0' c && leb c b'9'

-- The number that decimal digits stand for, from the number read so far.
read_digits : ℕ → Text → Option ℕ
unfolding is_digit
read_digits n [] = some n
read_digits n (c ∷ s) = if is_digit c then read_digits (n * 10 + (c - b'0')) s else none

unfoldable pub read_nat : Text → Option ℕ
unfolding read_digits
read_nat [] = none
read_nat (c ∷ s) = read_digits 0 (c ∷ s)

-- A chain of digits reads as the value of its prefix, shifted.
read_digits-digits :
    (f n a : ℕ) (out : Text) → n < f → read_digits 0 (digits f n out) ≡ read_digits n out
unfolding digits read_digits
read_digits-digits zero n a out h = absurd (omega arith)
read_digits-digits (suc f) n a out h =
    ground (arith, read_digits-digits f (n / 10) a ((b'0' + n % 10) ∷ out))

-- `%d` of a signed integer
unfoldable pub show_int : ℤ → Text
show_int (pos n) = itoa n
show_int (negsuc n) = b'-' ∷ itoa (suc n)

-- The value of a numeral if it fits into 64 bits.
in_range64 : Bool → ℕ → Option ℤ
in_range64 negative n =
    if negative
    then if leb n (2 ^ 63) then some (negate n) else none
    else if ltb n (2 ^ 63)
    then some (pos n)
    else none

-- `strconv.ParseInt(s, 10, 64)` and `strconv.Atoi(s)`, where an error is `none`
unfoldable pub parse_int : Text → Option ℤ
unfolding in_range64
parse_int [] = none
parse_int (c ∷ s) =
    if c == b'-'
    then elim (read_nat s) [ some n ↦ in_range64 true n | none ↦ none ]
    else if c == b'+'
    then elim (read_nat s) [ some n ↦ in_range64 false n | none ↦ none ]
    else elim (read_nat (c ∷ s)) [ some n ↦ in_range64 false n | none ↦ none ]
