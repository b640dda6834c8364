-- ===== src/Resource/CpuMask/Padding.antt =====
-- Masks as the kernel shows them: with more leading words of zeros than were written, and a newline.
use node_configurator.Prelude.{ℕ, zero, suc, true, [], ◌∷◌, ◌++◌, ◌≡◌, refl, ap, ◌∙◌, sym, ℤ}
use node_configurator.Text.{Text, codes, split, trim_space, trim_left, trim_right, is_space}
use node_configurator.Text.Lines.{split-append, Lacks-of_all}
use node_configurator.Text.Trim.{NoSpace, NoSpace-append, trim_space-cons, trim_space-NoSpace}
use node_configurator.Resource.CpuMask.{
  cpumask_all, parse_cpu_mask_bits, words_bits, sort_nats, cpu_masks_equal,
}
use node_configurator.Resource.CpuMask.Laws.{
  zero_word, zero_word_bits, trim_right-visible, nats_eq_refl,
}
use node_configurator.Resource.CpuMask.RoundTrip.{cpumask_all-NoSpace}

-- A mask with leading words of zeros.
unfoldable pub widened : ℕ → Text → Text
widened zero mask = mask
widened (suc k) mask = zero_word ++ b',' ∷ widened k mask

words_bits-widened :
    (k : ℕ) (mask : Text) → words_bits (split b',' (widened k mask)) ≡ words_bits (split b',' mask)
unfolding widened words_bits
words_bits-widened zero mask = refl
words_bits-widened (suc k) mask =
    ap words_bits (split-append b',' zero_word (widened k mask) (Lacks-of_all b',' zero_word refl))
    ∙ ap (λ x. x ++ words_bits (split b',' (widened k mask))) (zero_word_bits _)
    ∙ words_bits-widened k mask

zero_word-NoSpace : NoSpace (zero_word ++ codes ",")
unfolding is_space
zero_word-NoSpace = (refl, (refl, (refl, (refl, (refl, (refl, (refl, (refl, (refl, tt)))))))))

widened-NoSpace : (k : ℕ) (mask : Text) → NoSpace mask → NoSpace (widened k mask)
unfolding widened
widened-NoSpace zero mask h = h
widened-NoSpace (suc k) mask h =
    NoSpace-append (zero_word ++ codes ",") (widened k mask) zero_word-NoSpace
      (widened-NoSpace k mask h)

trim_right-newline : (s : Text) → NoSpace s → trim_right (s ++ codes "\n") ≡ s
unfolding trim_right is_space
trim_right-newline [] h = refl
trim_right-newline (c ∷ s) h =
    trim_right-visible c (s ++ codes "\n") h.0 ∙ ap (◌∷◌ c) (trim_right-newline s h.1)

trim_space-newline : (s : Text) → NoSpace s → trim_space (s ++ codes "\n") ≡ s
unfolding trim_space trim_left trim_right is_space
trim_space-newline [] h = refl
trim_space-newline (c ∷ s) h =
    trim_space-cons c (s ++ codes "\n") h.0 ∙ ap (◌∷◌ c) (trim_right-newline s h.1)

-- What the kernel shows after the mask of all CPUs is written to it counts as that mask.
pub cpu_masks_equal-widened :
    (k : ℕ) (n : ℤ)
    → cpu_masks_equal (widened k (cpumask_all n) ++ codes "\n") (cpumask_all n) ≡ true
unfolding cpu_masks_equal parse_cpu_mask_bits
cpu_masks_equal-widened k n =
    let mask = cpumask_all n in
    let plain = cpumask_all-NoSpace n in
    let read : parse_cpu_mask_bits (widened k mask ++ codes "\n") ≡ parse_cpu_mask_bits mask =
      ap (λ s. sort_nats (words_bits (split b',' s)))
        (trim_space-newline (widened k mask) (widened-NoSpace k mask plain))
      ∙ ap sort_nats (words_bits-widened k mask)
      ∙ ap (λ s. sort_nats (words_bits (split b',' s))) (sym (trim_space-NoSpace mask plain)) in
    rw read (nats_eq_refl (parse_cpu_mask_bits mask))
