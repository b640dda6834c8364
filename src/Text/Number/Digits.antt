-- ===== src/Text/Number/Digits.antt =====
-- The codes of a decimal numeral.
use node_configurator.Prelude.{
  ℕ, zero, suc, ◌+◌, ◌/◌, ◌%◌, ◌<◌, false, ◌==◌, [], ◌∷◌, ◌≡◌, ◌≢◌, arith, ltb, ltb→lt, Bool-cases,
  inl, inr, ℤ, pos, negsuc,
}
use node_configurator.Text.{Text, is_space}
use node_configurator.Text.Trim.{NoSpace}
use node_configurator.Text.Lines.{Lacks}
use node_configurator.Text.Number.{digits, itoa, show_int}

digits-Lacks : (d f n : ℕ) (out : Text) → d < b'0' → Lacks d out → Lacks d (digits f n out)
unfolding digits
digits-Lacks d zero n out h k = k
digits-Lacks d (suc f) n out h k = elim (Bool-cases (ltb n 10)) [
  | inl e ↦ rw e (ground arith, k)
  | inr e ↦ rw e (digits-Lacks d f (n / 10) ((b'0' + n % 10) ∷ out) h (ground arith, k))
]

digits-ne-nil : (f n : ℕ) (out : Text) → out ≢ [] → digits f n out ≢ []
unfolding digits
digits-ne-nil zero n out h = h
digits-ne-nil (suc f) n out h = elim (Bool-cases (ltb n 10)) [
  | inl e ↦ rw e (λ q. cc q)
  | inr e ↦ rw e (digits-ne-nil f (n / 10) ((b'0' + n % 10) ∷ out) (λ q. cc q))
]

digits-ne-nil_start : (f n : ℕ) → digits (suc f) n [] ≢ []
unfolding digits
digits-ne-nil_start f n = elim (Bool-cases (ltb n 10)) [
  | inl e ↦ rw e (λ q. cc q)
  | inr e ↦ rw e (digits-ne-nil f (n / 10) ((b'0' + n % 10) ∷ []) (λ q. cc q))
]

pub itoa-ne-nil : (n : ℕ) → itoa n ≢ []
unfolding itoa
itoa-ne-nil n = let e : n + 1 ≡ suc n = omega arith in rw (itoa, e) (digits-ne-nil_start n n)

pub itoa-Lacks : (d n : ℕ) → d < b'0' → Lacks d (itoa n)
unfolding itoa
itoa-Lacks d n h = digits-Lacks d (n + 1) n [] h tt

-- A numeral has no code below the digits but the sign.
pub show_int-Lacks : (d : ℕ) (n : ℤ) → d < b'0' → (b'-' == d) ≡ false → Lacks d (show_int n)
unfolding show_int
show_int-Lacks d (pos n) h k = itoa-Lacks d n h
show_int-Lacks d (negsuc n) h k = (k, itoa-Lacks d (suc n) h)

pub show_int-ne-nil : (n : ℤ) → show_int n ≢ []
unfolding show_int
show_int-ne-nil (pos n) = itoa-ne-nil n
show_int-ne-nil (negsuc n) = λ q. cc q

digit-visible : (n : ℕ) → n < 10 → is_space (b'0' + n) ≡ false
unfolding is_space
digit-visible n h = ground arith

digits-NoSpace : (f n : ℕ) (out : Text) → NoSpace out → NoSpace (digits f n out)
unfolding digits
digits-NoSpace zero n out k = k
digits-NoSpace (suc f) n out k = elim (Bool-cases (ltb n 10)) [
  | inl e ↦ rw e (digit-visible n (ltb→lt n 10 e), k)
  | inr e ↦
      rw e (
        digits-NoSpace f (n / 10) ((b'0' + n % 10) ∷ out) (digit-visible (n % 10) (omega arith), k))
]

pub itoa-NoSpace : (n : ℕ) → NoSpace (itoa n)
unfolding itoa
itoa-NoSpace n = digits-NoSpace (n + 1) n [] tt
