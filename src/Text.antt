-- ===== src/Text.antt =====
-- Go strings as lists of code points (a Go string that is valid UTF-8), and the functions of the
-- package `strings` that the program calls.
pub mod Equality
pub mod Lines
pub mod Trim
pub mod Sort
pub mod Dict
pub mod Number
pub mod Quote
pub mod Scan
use Prim.Native.Char.{code}
use Prim.Native.String.{String}
use node_configurator.Prelude.{
  ℕ, Bool, true, false, ◌&&◌, ◌||◌, List, [], ◌∷◌, ◌++◌, leb, ◌==◌, if◌then◌else◌, Option, none,
  some,
}

abbrev pub Text : Type 0
Text = List ℕ

-- The text of a literal. `String` has its own `[]` and `∷`.
abbrev pub codes : String → Text
codes String.[] = []
codes (String.◌∷◌ c s) = code c ∷ codes s

-- `a == b`
unfoldable pub text_eq : Text → Text → Bool
text_eq [] [] = true
text_eq (x ∷ a) (y ∷ b) = x == y && text_eq a b
text_eq _ _ = false

-- `len(s) == 0`, `s == ""`
abbrev pub is_nil {ℓ} : {A : Type ℓ} → List A → Bool
is_nil [] = true
is_nil (_ ∷ _) = false

-- `slices.Contains`, or a map from names to `true`.
unfoldable pub contains : List Text → Text → Bool
contains [] a = false
contains (x ∷ xs) a = text_eq x a || contains xs a

within : ℕ → ℕ → ℕ → Bool
within lo hi c = leb lo c && leb c hi

-- `unicode.IsSpace`
unfoldable pub is_space : ℕ → Bool
unfolding within
is_space c =
    c == 0x20
    || within 0x09 0x0d c
    || c == 0x85
    || c == 0xa0
    || c == 0x1680
    || within 0x2000 0x200a c
    || within 0x2028 0x2029 c
    || c == 0x202f
    || c == 0x205f
    || c == 0x3000

-- `strings.HasPrefix`
unfoldable pub has_prefix : Text → Text → Bool
has_prefix s [] = true
has_prefix [] (_ ∷ _) = false
has_prefix (c ∷ s) (d ∷ p) = c == d && has_prefix s p

-- The last code point of a text is `d`: `strings.HasSuffix` for a suffix of one code point.
unfoldable pub ends_in : ℕ → Text → Bool
ends_in d [] = false
ends_in d (c ∷ []) = c == d
ends_in d (_ ∷ c ∷ s) = ends_in d (c ∷ s)

unfoldable pub trim_left : Text → Text
trim_left [] = []
trim_left (c ∷ s) = let rest = trim_left s in if is_space c then rest else c ∷ s

unfoldable pub trim_right : Text → Text
trim_right [] = []
trim_right (c ∷ s) = let rest = trim_right s in if is_space c && is_nil rest then [] else c ∷ rest

-- `strings.TrimSpace`
unfoldable pub trim_space : Text → Text
unfolding trim_left trim_right
trim_space s = trim_right (trim_left s)

-- Puts `c` in front of the words of `s`: into the first one, if `s` begins inside it.
glue : ℕ → Text → List Text → List Text
glue c (d ∷ s) (w ∷ ws) = if is_space d then (c ∷ []) ∷ w ∷ ws else (c ∷ w) ∷ ws
glue c _ ws = (c ∷ []) ∷ ws

-- `strings.Fields`
unfoldable pub fields : Text → List Text
unfolding glue
fields [] = []
fields (c ∷ s) = let rest = fields s in if is_space c then rest else glue c s rest

-- Puts `c` in front of the first piece.
unfoldable pub onto : ℕ → List Text → List Text
onto c [] = (c ∷ []) ∷ []
onto c (w ∷ ws) = (c ∷ w) ∷ ws

-- `strings.Split` and `strings.SplitSeq`, for a separator of one code point.
unfoldable pub split : ℕ → Text → List Text
unfolding onto
split d [] = [] ∷ []
split d (c ∷ s) = let rest = split d s in if c == d then [] ∷ rest else onto c rest

-- `strings.Join`
unfoldable pub join : Text → List Text → Text
join sep [] = []
join sep (w ∷ []) = w
join sep (w ∷ v ∷ ws) = w ++ (sep ++ join sep (v ∷ ws))

-- `strings.Cut`, for a separator of one code point that occurs: what stands before and after it
unfoldable pub cut : ℕ → Text → Option (Text × Text)
cut d [] = none
cut d (c ∷ s) =
    let rest = cut d s in
    if c == d
    then some ([], s)
    else elim rest [ none ↦ none | some (before, after) ↦ some (c ∷ before, after) ]

has_code : List ℕ → ℕ → Bool
has_code [] c = false
has_code (d ∷ cutset) c = c == d || has_code cutset c

trim_left_set : List ℕ → Text → Text
unfolding has_code
trim_left_set cutset [] = []
trim_left_set cutset (c ∷ s) =
    let rest = trim_left_set cutset s in if has_code cutset c then rest else c ∷ s

trim_right_set : List ℕ → Text → Text
unfolding has_code
trim_right_set cutset [] = []
trim_right_set cutset (c ∷ s) =
    let rest = trim_right_set cutset s in if has_code cutset c && is_nil rest then [] else c ∷ rest

-- `strings.Trim`, with the code points of the cut set
unfoldable pub trim : List ℕ → Text → Text
unfolding trim_left_set trim_right_set
trim cutset s = trim_right_set cutset (trim_left_set cutset s)
