-- ===== src/Resource/CpuMask.antt =====
-- The CPU masks of internal/resource/nictuning.go.
pub mod Laws
pub mod Bits
pub mod RoundTrip
pub mod Padding
use node_configurator.Prelude.{
  ℕ, zero, suc, ◌+◌, ◌-◌, ◌*◌, ◌/◌, ◌%◌, ◌^◌, Bool, true, false, ◌&&◌, ltb, leb, ◌==◌, List, [],
  ◌∷◌, ◌++◌, if◌then◌else◌, Option, none, some, length, ℤ,
}
use node_configurator.Text.{Text, codes, split, join, trim_space}
use node_configurator.Resource.IrqAffinity.{cpu_count}

unfoldable pub hex_char : ℕ → ℕ
hex_char d = if ltb d 10 then b'0' + d else b'a' + (d - 10)

-- `%0<width>x` of a number below `16 ^ width`
unfoldable pub hex : ℕ → ℕ → Text
unfolding hex_char
hex zero n = []
hex (suc width) n = hex width (n / 16) ++ hex_char (n % 16) ∷ []

unfoldable pub min : ℕ → ℕ → ℕ
min a b = if ltb b a then b else a

-- The words of `cpumaskAll`, with the most significant one first, as the reversed slice has them.
unfoldable pub mask_words : ℕ → ℕ → List Text
unfolding hex min
mask_words zero remaining = []
mask_words (suc n) remaining =
    mask_words n (remaining - min remaining 32) ++ hex 8 (2 ^ min remaining 32 - 1) ∷ []

-- `cpumaskAll`
unfoldable pub cpumask_all : ℤ → Text
unfolding mask_words
cpumask_all n = join (codes ",") (mask_words ((cpu_count n + 31) / 32) (cpu_count n))

unfoldable pub hex_value : ℕ → Option ℕ
hex_value c =
    if leb b'0' c && leb c b'9'
    then some (c - b'0')
    else if leb b'a' c && leb c b'f'
    then some (c - b'a' + 10)
    else if leb b'A' c && leb c b'F'
    then some (c - b'A' + 10)
    else none

-- The number that hexadecimal digits stand for, from the number read so far.
unfoldable pub read_hex : ℕ → Text → Option ℕ
unfolding hex_value
read_hex n [] = some n
read_hex n (c ∷ s) = elim (hex_value c) [ some d ↦ read_hex (n * 16 + d) s | none ↦ none ]

-- `strconv.ParseUint(s, 16, 32)`, where an error is `none`
unfoldable pub parse_hex32 : Text → Option ℕ
unfolding read_hex
parse_hex32 [] = none
parse_hex32 (c ∷ s) = elim (read_hex 0 (c ∷ s)) [
  | some n ↦ if ltb n (2 ^ 32) then some n else none
  | none ↦ none
]

-- The loop over the bits of a word, of which `count` are left, the next one having the number `next`.
unfoldable pub bits_from : ℕ → ℕ → ℕ → List ℕ
bits_from zero v next = []
bits_from (suc count) v next =
    let rest = bits_from count (v / 2) (next + 1) in if v % 2 == 1 then next ∷ rest else rest

-- One round of the loop of `parseCPUMaskBits`: a word that is no number has no bits.
unfoldable pub word_bits : Text → ℕ → List ℕ
unfolding parse_hex32 bits_from
word_bits word index = elim (parse_hex32 word) [ some v ↦ bits_from 32 v (index * 32) | none ↦ [] ]

unfoldable pub words_bits : List Text → List ℕ
words_bits [] = []
words_bits (word ∷ words) = word_bits word (length words) ++ words_bits words

unfoldable pub insert_nat : ℕ → List ℕ → List ℕ
insert_nat n [] = n ∷ []
insert_nat n (m ∷ ms) = let rest = insert_nat n ms in if ltb m n then m ∷ rest else n ∷ m ∷ ms

unfoldable pub sort_nats : List ℕ → List ℕ
unfolding insert_nat
sort_nats [] = []
sort_nats (n ∷ ns) = insert_nat n (sort_nats ns)

-- `parseCPUMaskBits`
unfoldable pub parse_cpu_mask_bits : Text → List ℕ
parse_cpu_mask_bits s = sort_nats (words_bits (split b',' (trim_space s)))

unfoldable pub nats_eq : List ℕ → List ℕ → Bool
nats_eq [] [] = true
nats_eq (a ∷ as') (b ∷ bs) = a == b && nats_eq as' bs
nats_eq _ _ = false

-- `cpuMasksEqual`
unfoldable pub cpu_masks_equal : Text → Text → Bool
cpu_masks_equal a b = nats_eq (parse_cpu_mask_bits a) (parse_cpu_mask_bits b)
