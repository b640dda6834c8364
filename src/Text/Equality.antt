-- ===== src/Text/Equality.antt =====
-- `text_eq` decides equality, and `contains` is membership.
use node_configurator.Prelude.{true, false, ◌∷◌, ◌≡◌, ◌↔◌, ◌≢◌, refl, arith}
use node_configurator.Text.{Text, text_eq}

pub text_eq_iff : (a b : Text) → (text_eq a b ≡ true) ↔ (a ≡ b)
unfolding text_eq
text_eq_iff (x ∷ a) (y ∷ b) = ground (arith, text_eq_iff a b)
text_eq_iff _ _ = ground arith

pub text_eq→eq : (a b : Text) → text_eq a b ≡ true → a ≡ b
text_eq→eq a b = (text_eq_iff a b).0

pub text_eq_refl : (a : Text) → text_eq a a ≡ true
text_eq_refl a = (text_eq_iff a a).1 refl

pub text_eq-false : (a b : Text) → text_eq a b ≡ false → a ≢ b
text_eq-false a b h e = cc ((text_eq_iff a b).1 e)

pub text_ne→false : (a b : Text) → a ≢ b → text_eq a b ≡ false
text_ne→false a b h = ground (arith, text_eq_iff a b)
