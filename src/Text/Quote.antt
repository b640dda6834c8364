-- ===== src/Text/Quote.antt =====
-- The verb `%q`. Code points above 0x7e, which Go escapes if they do not print, are left as they are.
use node_configurator.Prelude.{
  ℕ, ◌+◌, ◌-◌, ◌/◌, ◌%◌, ◌||◌, [], ◌∷◌, ◌++◌, ◌==◌, ltb, if◌then◌else◌, ◌≡◌, refl,
}
use node_configurator.Text.{Text, codes}

hex_digit : ℕ → ℕ
hex_digit d = if ltb d 10 then b'0' + d else b'a' + (d - 10)

escape_code : ℕ → Text
unfolding hex_digit
escape_code c =
    if c == b'"' || c == b'\\'
    then b'\\' ∷ c ∷ []
    else if c == 0x07
    then codes "\\a"
    else if c == 0x08
    then codes "\\b"
    else if c == 0x0c
    then codes "\\f"
    else if c == 0x0a
    then codes "\\n"
    else if c == 0x0d
    then codes "\\r"
    else if c == 0x09
    then codes "\\t"
    else if c == 0x0b
    then codes "\\v"
    else if ltb c 0x20 || c == 0x7f
    then codes "\\x" ++ hex_digit (c / 16) ∷ hex_digit (c % 16) ∷ []
    else c ∷ []

escape : Text → Text
unfolding escape_code
escape [] = []
escape (c ∷ s) = escape_code c ++ escape s

unfoldable pub quote : Text → Text
unfolding escape
quote s = b'"' ∷ (escape s ++ b'"' ∷ [])

quote_example : quote (codes "a\tb\"") ≡ codes "\"a\\tb\\\"\""
unfolding quote
quote_example = refl
