-- ===== src/Resource/CpuMask/RoundTrip.antt =====
-- The mask of all CPUs is read back as all CPUs.
use node_configurator.Prelude.{
  ℕ, zero, suc, ◌+◌, ◌-◌, ◌/◌, ◌%◌, ◌^◌, ◌<◌, Bool, true, false, not, ◌&&◌, ◌==◌, List, [], ◌∷◌,
  length, length-append, ◌≡◌, ◌≢◌, refl, ap, ◌∙◌, arith, All, All-append, All-weaken, ℤ,
}
use node_configurator.Text.{Text, codes, split, join, is_space}
use node_configurator.Text.Lines.{Lacks, Lacks-append, split-join}
use node_configurator.Text.Trim.{NoSpace}
use node_configurator.Resource.IrqAffinity.{cpu_count}
use node_configurator.Resource.IrqAffinity.Laws.{cpu_count_positive}
use node_configurator.Resource.CpuMask.{
  cpumask_all, mask_words, hex, hex_char, min, parse_cpu_mask_bits, words_bits, sort_nats,
}
use node_configurator.Text.Trim.{NoSpace-append, trim_space-NoSpace}
use node_configurator.Resource.CpuMask.Bits.{
  upward, passes, passes_lem, words_bits-above, sort_nats-mask_words,
}

abbrev is_plain : ℕ → Bool
is_plain d = not (is_space (hex_char d)) && not (hex_char d == b',')

plain_table : passes is_plain 16 ≡ true
unfolding passes hex_char is_space
plain_table = refl

-- Neither white space nor a comma.
abbrev IsPlain : Text → Type 0
IsPlain w = NoSpace w × Lacks b',' w

hex-IsPlain : (width n : ℕ) → IsPlain (hex width n)
unfolding hex
hex-IsPlain zero n = (tt, tt)
hex-IsPlain (suc width) n =
    let p = hex-IsPlain width (n / 16) in
    let t = passes_lem is_plain 16 (n % 16) plain_table (omega arith) in
    (
      NoSpace-append _ _ p.0 (ground (arith, t), tt),
      Lacks-append b',' _ _ p.1 (ground (arith, t), tt),
    )

mask_words-IsPlain : (n rem : ℕ) → All IsPlain (mask_words n rem)
unfolding mask_words
mask_words-IsPlain zero rem = tt
mask_words-IsPlain (suc n) rem =
    All-append IsPlain _ _ (mask_words-IsPlain n _) (hex-IsPlain 8 _, tt)

comma_visible : is_space b',' ≡ false
unfolding is_space
comma_visible = refl

join-NoSpace : (words : List Text) → All IsPlain words → NoSpace (join (codes ",") words)
unfolding join
join-NoSpace [] h = tt
join-NoSpace (w ∷ []) h = h.0.0
join-NoSpace (w ∷ v ∷ words) h =
    NoSpace-append w _ h.0.0 (comma_visible, join-NoSpace (v ∷ words) h.1)

mask_words-ne-nil : (n rem : ℕ) → 0 < n → mask_words n rem ≢ []
unfolding mask_words
mask_words-ne-nil zero rem h e = absurd (omega (arith, h))
mask_words-ne-nil (suc n) rem h e = absurd (
    omega (
      arith,
      ap length e,
      length-append (mask_words n (rem - min rem 32)) (hex 8 (2 ^ min rem 32 - 1) ∷ []),
    ))

pub cpumask_all-NoSpace : (n : ℤ) → NoSpace (cpumask_all n)
unfolding cpumask_all
cpumask_all-NoSpace n = join-NoSpace _ (mask_words-IsPlain ((cpu_count n + 31) / 32) (cpu_count n))

-- The mask of all CPUs that is written is read back as the numbers of all CPUs in order, however many
-- there are: the words have the right order, and the first one has the bits that are left.
pub parse_cpu_mask_bits-cpumask_all :
    (n : ℤ) → parse_cpu_mask_bits (cpumask_all n) ≡ upward 0 (cpu_count n)
unfolding parse_cpu_mask_bits cpumask_all
parse_cpu_mask_bits-cpumask_all n =
    let c = cpu_count n in
    let words = mask_words ((c + 31) / 32) c in
    let plain = mask_words-IsPlain ((c + 31) / 32) c in
    ap (λ s. sort_nats (words_bits (split b',' s)))
      (trim_space-NoSpace (join (codes ",") words) (join-NoSpace words plain))
    ∙ ap (λ ws. sort_nats (words_bits ws))
        (split-join b',' words
          (mask_words-ne-nil ((c + 31) / 32) c (omega (arith, cpu_count_positive n)))
          (All-weaken IsPlain (Lacks b',') (λ w p. p.1) words plain))
    ∙ ap sort_nats (words_bits-above words)
    ∙ sort_nats-mask_words ((c + 31) / 32) c 0 (omega arith)
