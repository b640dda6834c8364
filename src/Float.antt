-- ===== src/Float.antt =====
-- `float64` as far as the program computes with it: conversions from integers, products with
-- constants, and the conversion to `int64`. A value is a dyadic rational with a mantissa of at most
-- 53 bits, and results are rounded to the nearest one, ties to even. Exponents have no bounds: what
-- would be infinite is out of range of `int64`, and what would be subnormal is truncated to 0. Not a
-- number does not occur: the numbers come from the EC2 API, from JSON, or from constants.
pub mod Decimal
use node_configurator.Prelude.{
  ℕ, zero, suc, ◌+◌, ◌*◌, ◌/◌, ◌%◌, ◌^◌, Bool, true, false, ◌&&◌, ◌||◌, ltb, leb, ◌==◌,
  if◌then◌else◌, ℤ, pos, negsuc, negate,
}

-- ± mantissa * 2 ^ up / 2 ^ down
pub record Float64 : Type 0 where
  pub negative : Bool
  pub mantissa : ℕ
  pub up : ℕ
  pub down : ℕ

-- How many bits of `m` are beyond the first 53. The fuel bounds the answer.
excess : ℕ → ℕ → ℕ
excess zero m = 0
excess (suc f) m = let more = excess f (m / 2) in if ltb m (2 ^ 53) then 0 else suc more

-- `m / 2 ^ k` rounded to the nearest integer, ties to even
unfoldable pub round_shift : ℕ → ℕ → ℕ
round_shift m k =
    let q = m / 2 ^ k in
    let r = 2 * (m % 2 ^ k) in if ltb (2 ^ k) r || (r == 2 ^ k && q % 2 == 1) then q + 1 else q

-- The nearest value. Mantissas here are below 2 ^ 181, so that 128 rounds are enough.
unfoldable pub round : Float64 → Float64
unfolding excess round_shift
round x =
    let k = excess 128 x.mantissa in
    if k == 0 then x else record x { mantissa = round_shift x.mantissa k; up = x.up + k }

-- `float64(n)`
unfoldable pub of_int : ℤ → Float64
unfolding round
of_int (pos n) = round (record { negative = false; mantissa = n; up = 0; down = 0 })
of_int (negsuc n) = round (record { negative = true; mantissa = suc n; up = 0; down = 0 })

-- `x * k`, for a constant `k` below 2 ^ 53
unfoldable pub scale : Float64 → ℕ → Float64
unfolding round
scale x k = round (record x { mantissa = x.mantissa * k })

-- `x / 2 ^ k`, for a constant `k`
unfoldable pub halve : Float64 → ℕ → Float64
halve x k = record x { down = x.down + k }

module _ (out_of_range : Float64 → ℤ) where
  -- `int64(x)`: truncated towards zero. What the conversion gives when the value does not fit is
  -- left to the implementation by the language.
  unfoldable pub to_int64 : Float64 → ℤ
  to_int64 x =
      let n = x.mantissa * 2 ^ x.up / 2 ^ x.down in
      if x.negative
      then if leb n (2 ^ 63) then negate n else out_of_range x
      else if ltb n (2 ^ 63)
      then pos n
      else out_of_range x
