-- ===== src/Prelude/Int.antt =====
-- Signed integers over the native numbers, and their arithmetic in 64 bits.
use node_configurator.Prelude.Tests.{ltb, if◌then◌else◌}
use Prim.Native.Nat.{ℕ, zero, suc, ◌-◌, ◌*◌, ◌/◌, ◌%◌, ◌^◌}
use mathlib.Core.Bool.{Bool, true, false}

-- `negsuc n` is -(n + 1).
pub data ℤ : Type 0 where
  pos : ℕ → ℤ
  negsuc : ℕ → ℤ

abbrev pub negate : ℕ → ℤ
negate zero = pos 0
negate (suc n) = negsuc n

abbrev pub ltb_ℤ : ℤ → ℤ → Bool
ltb_ℤ (pos a) (pos b) = ltb a b
ltb_ℤ (pos a) (negsuc b) = false
ltb_ℤ (negsuc a) (pos b) = true
ltb_ℤ (negsuc a) (negsuc b) = ltb b a

-- The integer of a 64-bit word in two's complement.
abbrev pub signed64 : ℕ → ℤ
signed64 n = if ltb n (2 ^ 63) then pos n else negsuc (2 ^ 64 - 1 - n)

-- The wrap-around of 64-bit arithmetic.
unfoldable pub int64 : ℤ → ℤ
int64 (pos n) = signed64 (n % 2 ^ 64)
int64 (negsuc n) = signed64 (2 ^ 64 - 1 - n % 2 ^ 64)

unfoldable pub mul : ℤ → ℤ → ℤ
mul (pos a) (pos b) = pos (a * b)
mul (pos a) (negsuc b) = negate (a * suc b)
mul (negsuc a) (pos b) = negate (suc a * b)
mul (negsuc a) (negsuc b) = pos (suc a * suc b)

-- `a * b` on `int64`
unfoldable pub mul64 : ℤ → ℤ → ℤ
unfolding mul int64
mul64 a b = int64 (mul a b)

-- `a / k`, which is truncated towards zero, for a positive constant `k`
unfoldable pub quot : ℤ → ℕ → ℤ
quot (pos n) k = pos (n / k)
quot (negsuc n) k = negate (suc n / k)

-- `max(a, b)`
unfoldable pub max_ℤ : ℤ → ℤ → ℤ
max_ℤ a b = if ltb_ℤ a b then b else a
