-- ===== src/Resource/CpuMask/Laws.antt =====
-- What two masks are compared by.
use node_configurator.Prelude.{ℕ, true, false, ==_refl, List, [], ◌∷◌, ◌++◌, ◌≡◌, refl, ap, ◌∙◌}
use node_configurator.Text.{Text, codes, split, trim_space, trim_left, trim_right, is_space}
use node_configurator.Text.Lines.{split-append, Lacks-of_all}
use node_configurator.Text.Trim.{trim_space-cons}
use node_configurator.Resource.CpuMask.{
  parse_cpu_mask_bits, words_bits, word_bits, parse_hex32, read_hex, hex_value, bits_from,
  sort_nats, nats_eq, cpu_masks_equal,
}

abbrev pub zero_word : Text
zero_word = codes "00000000"

pub zero_word_bits : (index : ℕ) → word_bits zero_word index ≡ []
unfolding word_bits parse_hex32 read_hex hex_value bits_from
zero_word_bits index = refl

pub trim_right-visible :
    (c : ℕ) (s : Text) → is_space c ≡ false → trim_right (c ∷ s) ≡ c ∷ trim_right s
unfolding trim_right
trim_right-visible c s h = rw h

trim_space-padded :
    (c : ℕ) (s : Text)
    → is_space c ≡ false
    → trim_space (zero_word ++ (codes "," ++ c ∷ s)) ≡ zero_word ++ b',' ∷ trim_space (c ∷ s)
unfolding trim_space trim_left trim_right is_space
trim_space-padded c s h = rw (trim_space-cons c s h) (rw (trim_right-visible c s h) refl)

pub nats_eq_refl : (l : List ℕ) → nats_eq l l ≡ true
unfolding nats_eq
nats_eq_refl [] = refl
nats_eq_refl (n ∷ l) = rw (==_refl n, nats_eq_refl l)

parse-padded :
    (c : ℕ) (s : Text)
    → is_space c ≡ false
    → parse_cpu_mask_bits (zero_word ++ (codes "," ++ c ∷ s)) ≡ parse_cpu_mask_bits (c ∷ s)
unfolding parse_cpu_mask_bits words_bits
parse-padded c s h =
    ap (λ x. sort_nats (words_bits (split b',' x))) (trim_space-padded c s h)
    ∙ ap (λ x. sort_nats (words_bits x))
        (split-append b',' zero_word (trim_space (c ∷ s)) (Lacks-of_all b',' zero_word refl))
    ∙ ap (λ x. sort_nats (x ++ words_bits (split b',' (trim_space (c ∷ s))))) (zero_word_bits _)

-- A mask that the kernel pads with a leading word of zeros compares as equal to the mask that was
-- written.
pub cpu_masks_equal-padded :
    (c : ℕ) (s : Text)
    → is_space c ≡ false
    → cpu_masks_equal (zero_word ++ (codes "," ++ c ∷ s)) (c ∷ s) ≡ true
unfolding cpu_masks_equal
cpu_masks_equal-padded c s h = rw (parse-padded c s h) (nats_eq_refl (parse_cpu_mask_bits (c ∷ s)))
