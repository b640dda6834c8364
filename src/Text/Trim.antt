-- ===== src/Text/Trim.antt =====
-- White space: words, `strings.Fields` and `strings.TrimSpace`.
use node_configurator.Prelude.{
  ℕ, true, false, List, [], ◌∷◌, ◌++◌, ◌≡◌, ◌≢◌, refl, ap, ◌∙◌, arith, Bool-cases, inl, inr, All,
}
use node_configurator.Text.{Text, is_space, trim_left, trim_right, trim_space, fields, glue, join}

-- No code point of the text is white space.
abbrev pub NoSpace : Text → Type 0
NoSpace [] = Unit
NoSpace (c ∷ s) = (is_space c ≡ false) × NoSpace s

-- A word is what `strings.Fields` yields: not empty, and with no white space.
abbrev pub IsWord : Text → Type 0
IsWord w = (w ≢ []) × NoSpace w

pub space-is_space : is_space 0x20 ≡ true
unfolding is_space
space-is_space = refl

glue_space : (c : ℕ) (s : Text) (ws : List Text) → glue c (0x20 ∷ s) ws ≡ (c ∷ []) ∷ ws
unfolding glue
glue_space c s [] = refl
glue_space c s (w ∷ ws) = rw space-is_space

pub fields-append :
    (c : ℕ) (w s : Text)
    → is_space c ≡ false
    → NoSpace w
    → fields (c ∷ (w ++ 0x20 ∷ s)) ≡ (c ∷ w) ∷ fields s
unfolding fields
fields-append c [] s e h = ground (arith, space-is_space, glue_space c s (fields s))
fields-append c (d ∷ w) s e h = ground (arith, fields-append d w s h.0 h.1, h.0)

pub fields_word :
    (c : ℕ) (w : Text) → is_space c ≡ false → NoSpace w → fields (c ∷ w) ≡ (c ∷ w) ∷ []
unfolding fields
fields_word c [] e h = rw e
fields_word c (d ∷ w) e h = ground (arith, fields_word d w h.0 h.1, h.0)

glue-IsWord :
    (c : ℕ) (s : Text) (ws : List Text)
    → is_space c ≡ false
    → All IsWord ws
    → All IsWord (glue c s ws)
unfolding glue
glue-IsWord c [] [] e h = ground arith
glue-IsWord c (d ∷ s) [] e h = ground arith
glue-IsWord c [] (w ∷ ws) e h = ((ground arith, (e, tt)), h)
glue-IsWord c (d ∷ s) (w ∷ ws) e h = elim (Bool-cases (is_space d)) [
  | inl k ↦ rw k ((ground arith, (e, tt)), h)
  | inr k ↦ rw k ((ground arith, (e, h.0.1)), h.1)
]

pub fields-IsWord : (s : Text) → All IsWord (fields s)
unfolding fields
fields-IsWord [] = tt
fields-IsWord (c ∷ s) = elim (Bool-cases (is_space c)) [
  | inl e ↦ rw e (fields-IsWord s)
  | inr e ↦ rw e (glue-IsWord c s (fields s) e (fields-IsWord s))
]

fields-trim_left : (s : Text) → fields (trim_left s) ≡ fields s
unfolding trim_left fields
fields-trim_left [] = refl
fields-trim_left (c ∷ s) = ground (arith, fields-trim_left s)

fields_cons-append : (w s : Text) → IsWord w → fields (w ++ 0x20 ∷ s) ≡ w ∷ fields s
fields_cons-append [] s h = absurd (h.0 refl)
fields_cons-append (c ∷ w) s h = fields-append c w s h.1.0 h.1.1

fields_single : (w : Text) → IsWord w → fields w ≡ w ∷ []
fields_single [] h = absurd (h.0 refl)
fields_single (c ∷ w) h = fields_word c w h.1.0 h.1.1

-- Words joined by single blanks are read back.
pub fields-join : (ws : List Text) → All IsWord ws → fields (join (0x20 ∷ []) ws) ≡ ws
unfolding join
fields-join [] h = unfold fields in refl
fields-join (w ∷ []) h = fields_single w h.0
fields-join (w ∷ v ∷ ws) h = fields_cons-append w _ h.0 ∙ ap (◌∷◌ w) (fields-join (v ∷ ws) h.1)

-- One word in front of what follows it.
pub fields_word-append : (w s : Text) → IsWord w → fields (w ++ 0x20 ∷ s) ≡ w ∷ fields s
fields_word-append = fields_cons-append

-- A text that starts with a visible character keeps it when it is trimmed.
pub trim_space-cons :
    (c : ℕ) (s : Text) → is_space c ≡ false → trim_space (c ∷ s) ≡ c ∷ trim_right s
unfolding trim_space
trim_space-cons c s e = rw e (rw e)

trim_right-nil-fields : (s : Text) → trim_right s ≡ [] → fields s ≡ []
unfolding trim_right fields
trim_right-nil-fields [] h = refl
trim_right-nil-fields (c ∷ s) h = elim (Bool-cases (is_space c)) [
  | inl e ↦ rw e (trim_right-nil-fields s (ground arith))
  | inr e ↦ ground arith
]

glue-trim_right :
    (c : ℕ) (s : Text) (ws : List Text) → fields s ≡ ws → glue c (trim_right s) ws ≡ glue c s ws
unfolding glue trim_right
glue-trim_right c [] ws h = refl
glue-trim_right c (d ∷ s) [] h = ground arith
glue-trim_right c (d ∷ s) (w ∷ ws) h = ground (arith, trim_right-nil-fields (d ∷ s))

fields-trim_right : (s : Text) → fields (trim_right s) ≡ fields s
unfolding trim_right fields
fields-trim_right [] = refl
fields-trim_right (c ∷ s) =
    ground
      (arith, fields-trim_right s, trim_right-nil-fields s, glue-trim_right c s (fields s) refl)

-- Trimming a line does not change its fields.
pub fields-trim_space : (s : Text) → fields (trim_space s) ≡ fields s
unfolding trim_space
fields-trim_space s = fields-trim_right (trim_left s) ∙ fields-trim_left s

pub NoSpace-append : (a b : Text) → NoSpace a → NoSpace b → NoSpace (a ++ b)
NoSpace-append [] b h k = k
NoSpace-append (c ∷ a) b h k = (h.0, NoSpace-append a b h.1 k)

trim_right-NoSpace : (s : Text) → NoSpace s → trim_right s ≡ s
unfolding trim_right
trim_right-NoSpace [] h = refl
trim_right-NoSpace (c ∷ s) h = rw (h.0, trim_right-NoSpace s h.1)

-- A text with no white space is left as it is.
pub trim_space-NoSpace : (s : Text) → NoSpace s → trim_space s ≡ s
unfolding trim_space trim_left trim_right
trim_space-NoSpace [] h = refl
trim_space-NoSpace (c ∷ s) h = rw h.0 (trim_right-NoSpace (c ∷ s) h)
