-- ===== src/Float/Decimal.antt =====
-- `float64` in decimal: quotients, `strconv.ParseFloat` of digits with a point, and the verb `%v`.
use node_configurator.Prelude.{
  ℕ, zero, suc, ◌+◌, ◌-◌, ◌*◌, ◌/◌, ◌%◌, ◌^◌, Bool, false, ◌&&◌, ltb, leb, ◌==◌, [], ◌∷◌, ◌++◌, ◌≡◌,
  refl, if◌then◌else◌, Option, none, some, length,
}
use node_configurator.Text.{Text, codes, is_nil, cut}
use node_configurator.Text.Number.{itoa, read_nat}
use node_configurator.Float.{Float64, excess, round_shift}

-- The number of bits of `n`, if it has at most `fuel` bits.
bit_length : ℕ → ℕ → ℕ
bit_length zero n = 0
bit_length (suc f) n = let more = bit_length f (n / 2) in if n == 0 then 0 else suc more

-- `m / 2 ^ down`, rounded. A number `m` has at most `m` bits.
-- `m / 2 ^ down`, rounded, for a number of at most `bits` bits.
round_dyadic : ℕ → ℕ → ℕ → Float64
unfolding excess round_shift
round_dyadic bits m down =
    let k = excess bits m in
    record {
      negative = false;
      mantissa = if k == 0 then m else round_shift m k;
      up = k;
      down = down;
    }

-- `n / d` for a positive `d`, rounded to the nearest value, where both have at most `bits` bits. The
-- dividend is shifted until the quotient has more than 54 bits; one more bit says whether something
-- is left over.
unfoldable pub quotient : ℕ → ℕ → ℕ → Float64
unfolding bit_length round_dyadic
quotient bits n d =
    let k = 55 + bit_length bits d in
    let dividend = n * 2 ^ k in
    round_dyadic (2 * bits + 56) (2 * (dividend / d) + (if dividend % d == 0 then 0 else 1)) (k + 1)

-- `x / k`, for a positive constant `k` below 2 ^ 53 and an `x` that is not negative
unfoldable pub divide : Float64 → ℕ → Float64
unfolding quotient
divide x k = quotient (54 + x.up + x.down) (x.mantissa * 2 ^ x.up) (k * 2 ^ x.down)

abbrev pub float_zero : Float64
float_zero = record { negative = false; mantissa = 0; up = 0; down = 0 }

-- The absolute values are equal.
same_size : Float64 → Float64 → Bool
same_size x y = x.mantissa * 2 ^ x.up * 2 ^ y.down == y.mantissa * 2 ^ y.up * 2 ^ x.down

-- What rounds to infinity is an error of `strconv.ParseFloat`.
is_finite : Float64 → Bool
is_finite x = ltb (x.mantissa * 2 ^ x.up / 2 ^ x.down) (2 ^ 1024)

-- The value of digits, where there may be none.
digits_value : Text → Option ℕ
digits_value [] = some 0
digits_value (c ∷ s) = read_nat (c ∷ s)

finite : Float64 → Option Float64
unfolding is_finite
finite x = if is_finite x then some x else none

-- `strconv.ParseFloat(s, 64)` of a text of digits and points, where an error is `none`. A digit is
-- worth less than four bits.
unfoldable pub parse_float : Text → Option Float64
unfolding digits_value finite quotient
parse_float s = elim (cut b'.' s) [
  | none ↦ elim (read_nat s) [ some n ↦ finite (quotient (4 * length s) n 1) | none ↦ none ]
  | some (whole, frac) ↦
      if is_nil whole && is_nil frac then none else elim (digits_value (whole ++ frac)) [
        | some n ↦ finite (quotient (4 * length s) n (10 ^ length frac))
        | none ↦ none
      ]
]

-- The number of decimal digits of `n`, if it has at most `fuel` digits.
digit_count : ℕ → ℕ → ℕ
digit_count zero n = 0
digit_count (suc f) n = let more = digit_count f (n / 10) in if n == 0 then 0 else suc more

-- How many zeros stand between the point and the first digit of `n / d`, which is below 1.
leading_zeros : ℕ → ℕ → ℕ → ℕ
leading_zeros zero n d = 0
leading_zeros (suc f) n d =
    let more = leading_zeros f (n * 10) d in if leb d (n * 10) then 0 else suc more

-- 0.digits * 10 ^ (whole - zeros), where `whole` or `zeros` is 0.
record Decimal : Type 0 where
  digits : Text
  whole : ℕ
  zeros : ℕ

drop_zeros : Text → Text
drop_zeros [] = []
drop_zeros (c ∷ s) = let rest = drop_zeros s in if c == b'0' && is_nil rest then [] else c ∷ rest

-- A number of `p` digits, or of one more after a carry.
decimal : ℕ → ℕ → ℕ → ℕ → Decimal
unfolding drop_zeros
decimal n p whole gap =
    let carry = ltb p (length (itoa n)) in
    record {
      digits = drop_zeros (itoa n);
      whole = if carry && gap == 0 then whole + 1 else whole;
      zeros = if carry then gap - 1 else gap;
    }

-- The two numbers of `p` digits around `n / d`: the closer one that reads back as `x`, if there is one.
with_digits : Float64 → ℕ → ℕ → ℕ → ℕ → ℕ → Option ℕ
unfolding same_size quotient
with_digits x n d whole gap p =
    let up = 10 ^ (p + gap - whole) in
    let down = 10 ^ (whole - (p + gap)) in
    let below = n * up / (d * down) in
    let is_below = ltb (2 * (n * up % (d * down))) (d * down) in
    let bits = 128 + x.up + 4 * x.down in
    let near = if is_below then below else below + 1 in
    let far = if is_below then below + 1 else below in
    if same_size (quotient bits (near * down) up) x
    then some near
    else if same_size (quotient bits (far * down) up) x
    then some far
    else none

-- The fewest digits that read back as `x`, from `p` digits on. Seventeen are always enough.
shortest : ℕ → Float64 → ℕ → ℕ → ℕ → ℕ → ℕ → Option Decimal
unfolding with_digits decimal
shortest zero x n d whole gap p = none
shortest (suc f) x n d whole gap p =
    let more = shortest f x n d whole gap (p + 1) in
    elim (with_digits x n d whole gap p) [ some m ↦ some (decimal m p whole gap) | none ↦ more ]

-- The digits in front of the point, with zeros where there are no more, and the others.
at_point : ℕ → Text → Text × Text
at_point zero s = ([], s)
at_point (suc n) [] = let (a, b) = at_point n [] in (b'0' ∷ a, b)
at_point (suc n) (c ∷ s) = let (a, b) = at_point n s in (c ∷ a, b)

zeros_before : ℕ → Text → Text
zeros_before zero s = s
zeros_before (suc n) s = b'0' ∷ zeros_before n s

with_point : Text → Text → Text
with_point a b = if is_nil b then a else a ++ b'.' ∷ b

two_digits : ℕ → Text
two_digits e = if ltb e 10 then b'0' ∷ itoa e else itoa e

scientific : Text → Text → Text
unfolding with_point
scientific [] exponent = exponent
scientific (c ∷ s) exponent = with_point (c ∷ []) s ++ b'e' ∷ exponent

-- `%e` for an exponent below -4 or above 5, and `%f` otherwise
show_decimal : Decimal → Text
unfolding at_point zeros_before two_digits scientific with_point
show_decimal x =
    let (a, b) = at_point x.whole x.digits in
    if ltb 6 x.whole
    then scientific x.digits (b'+' ∷ two_digits (x.whole - 1))
    else if ltb 3 x.zeros
    then scientific x.digits (b'-' ∷ two_digits (x.zeros + 1))
    else if x.whole == 0
    then with_point (b'0' ∷ []) (zeros_before x.zeros x.digits)
    else with_point a b

-- The verb `%v`.
unfoldable pub show_float : Float64 → Text
unfolding digit_count leading_zeros shortest show_decimal
show_float x =
    let n = x.mantissa * 2 ^ x.up in
    let d = 2 ^ x.down in
    let whole = digit_count (54 + x.up) (n / d) in
    let gap = if whole == 0 then leading_zeros (x.down + 1) n d else 0 in
    let text = if n == 0 then b'0' ∷ [] else elim (shortest 17 x n d whole gap 1) [
      | some decimal ↦ show_decimal decimal
      | none ↦ []
    ] in
    if x.negative then b'-' ∷ text else text

abbrev shown : Text → Option Text
shown s = elim (parse_float s) [ some x ↦ some (show_float x) | none ↦ none ]

shown_fraction : shown (codes "0.064") ≡ some (codes "0.064")
unfolding show_float parse_float cut read_nat itoa
shown_fraction = refl

shown_large : shown (codes "1048576.50") ≡ some (codes "1.0485765e+06")
unfolding show_float parse_float cut read_nat itoa
shown_large = refl

shown_small : shown (codes ".00002") ≡ some (codes "2e-05")
unfolding show_float parse_float cut read_nat itoa
shown_small = refl

shown_points : shown (codes "1.2.5") ≡ none
unfolding show_float parse_float cut read_nat itoa
shown_points = refl

divided :
    show_float (divide (record { negative = false; mantissa = 12345; up = 0; down = 0 }) 1000)
    ≡ codes "12.345"
unfolding show_float divide itoa
divided = refl
