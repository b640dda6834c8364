-- ===== src/Text/Number/RoundTrip.antt =====
-- What is printed of a number is read back: the rounds for its digits are enough.
use node_configurator.Prelude.{
  ℕ, suc, ◌+◌, ◌^◌, ◌<◌, [], ◌∷◌, some, ◌≡◌, ◌≢◌, refl, ◌∙◌, arith, ℤ, pos, negsuc,
}
use node_configurator.Text.{Text}
use node_configurator.Text.Lines.{Lacks}
use node_configurator.Text.Number.{
  itoa, read_digits, read_nat, read_digits-digits, show_int, in_range64, parse_int,
}
use node_configurator.Text.Number.Digits.{itoa-Lacks, itoa-ne-nil}

read_nat-nonempty : (s : Text) → s ≢ [] → read_nat s ≡ read_digits 0 s
unfolding read_nat
read_nat-nonempty [] h = absurd (h refl)
read_nat-nonempty (c ∷ s) h = refl

read_nat-itoa : (n : ℕ) → read_nat (itoa n) ≡ some n
unfolding itoa read_digits
read_nat-itoa n =
    read_nat-nonempty (itoa n) (itoa-ne-nil n) ∙ read_digits-digits (n + 1) n 0 [] (omega arith)

-- Without a sign in front, the numeral is a natural number.
parse_int_unsigned :
    (s : Text) (n : ℕ)
    → Lacks b'-' s
    → Lacks b'+' s
    → read_nat s ≡ some n
    → n < 2 ^ 63
    → parse_int s ≡ some (pos n)
unfolding parse_int in_range64 read_nat
parse_int_unsigned [] n h k e l = absurd (cc e)
parse_int_unsigned (c ∷ s) n h k e l = ground (arith, h.0, k.0, e, l)

-- The range of `int` on a 64-bit machine.
abbrev InInt64 : ℤ → Type 0
InInt64 (pos n) = n < 2 ^ 63
InInt64 (negsuc n) = n < 2 ^ 63

-- What `%d` prints of an `int` is what `strconv.Atoi` reads.
parse_int-show_int : (n : ℤ) → InInt64 n → parse_int (show_int n) ≡ some n
unfolding parse_int show_int in_range64
parse_int-show_int (pos n) h =
    parse_int_unsigned (itoa n) n (itoa-Lacks b'-' n (omega arith))
      (itoa-Lacks b'+' n (omega arith)) (read_nat-itoa n) h
parse_int-show_int (negsuc n) h = rw (read_nat-itoa (suc n)) (ground (arith, h))
