-- ===== src/Resource/CpuMask/Bits.antt =====
-- The bits of masks, of words with the lowest bits set, and of the words of the mask of all CPUs.
use node_configurator.Prelude.{
  ℕ, zero, suc, ◌+◌, ◌-◌, ◌*◌, ◌/◌, ◌%◌, ◌^◌, ◌≤◌, ◌<◌, Bool, true, false, ltb, ◌==◌, ==→eq, ltb→lt,
  if◌then◌else◌, List, [], ◌∷◌, ◌++◌, length, length-append, ◌≡◌, refl, ap, ◌∙◌, sym, arith, some,
  none, inl, inr, Bool-cases, Option-cases, All, All-append, All-weaken,
}
use mathlib.Core.List.{append-nil, append_assoc}
use node_configurator.Text.{Text}
use node_configurator.Resource.CpuMask.{
  mask_words, hex, min, words_bits, word_bits, parse_hex32, bits_from, sort_nats, insert_nat,
}

-- `count` numbers from `start` on.
unfoldable pub upward : ℕ → ℕ → List ℕ
upward start zero = []
upward start (suc count) = start ∷ upward (start + 1) count

upward-append : (start a b : ℕ) → upward start a ++ upward (start + a) b ≡ upward start (a + b)
unfolding upward
upward-append start zero b = ap (λ x. upward x b) e ∙ ap (upward start) f
  where
    e : start + 0 ≡ start
    e = omega arith

    f : b ≡ 0 + b
    f = omega arith
upward-append start (suc a) b =
    ap (λ x. start ∷ (upward (start + 1) a ++ upward x b)) e
    ∙ ap (◌∷◌ start) (upward-append (start + 1) a b)
    ∙ ap (upward start) f
  where
    e : start + suc a ≡ start + 1 + a
    e = omega arith

    f : suc (a + b) ≡ suc a + b
    f = omega arith

pow_positive : (m : ℕ) → 1 ≤ 2 ^ m
pow_positive zero = omega arith
pow_positive (suc m) = omega (arith, pow_positive m)

ones_odd : (m : ℕ) → (2 ^ suc m - 1) % 2 ≡ 1
ones_odd m = omega (arith, pow_positive m)

ones_half : (m : ℕ) → (2 ^ suc m - 1) / 2 ≡ 2 ^ m - 1
ones_half m = omega (arith, pow_positive m)

-- The bits of a word of `m` ones.
bits_from-ones : (count m next : ℕ) → m ≤ count → bits_from count (2 ^ m - 1) next ≡ upward next m
unfolding bits_from upward
bits_from-ones zero zero next h = refl
bits_from-ones zero (suc m) next h = absurd (omega arith)
bits_from-ones (suc count) zero next h = bits_from-ones count zero (next + 1) (omega arith)
bits_from-ones (suc count) (suc m) next h =
    rw (ones_odd m, ones_half m) (ap (◌∷◌ next) (bits_from-ones count m (next + 1) (omega arith)))

-- The test holds of the numbers below a bound.
unfoldable pub passes : (ℕ → Bool) → ℕ → Bool
passes test zero = true
passes test (suc bound) = let rest = passes test bound in if test bound then rest else false

pub passes_lem :
    (test : ℕ → Bool) (bound m : ℕ) → passes test bound ≡ true → m < bound → test m ≡ true
unfolding passes
passes_lem test zero m h below = absurd (omega (arith, below))
passes_lem test (suc bound) m h below = ground (arith, passes_lem test bound m)

abbrev reads_back : ℕ → Bool
reads_back m = elim (parse_hex32 (hex 8 (2 ^ m - 1))) [ some v ↦ v == 2 ^ m - 1 | none ↦ false ]

ones_table : passes reads_back 33 ≡ true
unfolding passes parse_hex32 hex
ones_table = refl

-- The bits of the words, where `k` words of lower CPUs follow them.
unfoldable pub words_bits_above : ℕ → List Text → List ℕ
words_bits_above k [] = []
words_bits_above k (word ∷ words) = word_bits word (length words + k) ++ words_bits_above k words

pub words_bits-above : (words : List Text) → words_bits words ≡ words_bits_above 0 words
unfolding words_bits words_bits_above
words_bits-above [] = refl
words_bits-above (word ∷ words) =
    let e : length words ≡ length words + 0 = omega arith in
    ap (λ x. word_bits word x ++ words_bits words) e
    ∙ ap (λ x. word_bits word (length words + 0) ++ x) (words_bits-above words)

words_bits_above-append :
    (k : ℕ) (words : List Text) (word : Text)
    → words_bits_above k (words ++ word ∷ []) ≡ words_bits_above (k + 1) words ++ word_bits word k
unfolding words_bits_above
words_bits_above-append k [] word =
    let e : 0 + k ≡ k = omega arith in append-nil (word_bits word (0 + k)) ∙ ap (word_bits word) e
words_bits_above-append k (v ∷ words) word =
    ap (λ x. word_bits v x ++ words_bits_above k (words ++ word ∷ [])) e
    ∙ ap (λ x. word_bits v (length words + (k + 1)) ++ x) (words_bits_above-append k words word)
    ∙ sym (append_assoc (word_bits v (length words + (k + 1))) _ _)
  where
    e : length (words ++ word ∷ []) + k ≡ length words + (k + 1)
    e = omega (arith, length-append words (word ∷ []))

bits_from-above : (count v next : ℕ) → All (λ x. next ≤ x) (bits_from count v next)
unfolding bits_from
bits_from-above zero v next = tt
bits_from-above (suc count) v next =
    let more =
      All-weaken (λ x. next + 1 ≤ x) (λ x. next ≤ x) (λ x h. omega (arith, h)) _
        (bits_from-above count (v / 2) (next + 1)) in
    elim (Bool-cases (v % 2 == 1)) [ inl e ↦ rw e (omega arith, more) | inr e ↦ rw e more ]

word_bits-above : (word : Text) (k : ℕ) → All (λ x. k * 32 ≤ x) (word_bits word k)
unfolding word_bits
word_bits-above word k = elim (Option-cases (parse_hex32 word)) [
  | inl e ↦ rw (word_bits, e) tt
  | inr (v, e) ↦ rw (word_bits, e) (bits_from-above 32 v (k * 32))
]

words_bits_above-above :
    (k : ℕ) (words : List Text) → All (λ x. k * 32 ≤ x) (words_bits_above k words)
unfolding words_bits_above
words_bits_above-above k [] = tt
words_bits_above-above k (word ∷ words) =
    All-append _ _ _
      (All-weaken (λ x. (length words + k) * 32 ≤ x) (λ x. k * 32 ≤ x) (λ x h. omega (arith, h)) _
        (word_bits-above word (length words + k)))
      (words_bits_above-above k words)

insert_nat-append :
    (x : ℕ) (low l : List ℕ)
    → All (λ y. y < x) low
    → insert_nat x (low ++ l) ≡ low ++ insert_nat x l
unfolding insert_nat
insert_nat-append x [] l h = refl
insert_nat-append x (y ∷ low) l h = ground (arith, h.0, insert_nat-append x low l h.1)

sort_nats-append :
    (c : ℕ) (high low : List ℕ)
    → All (λ x. c ≤ x) high
    → All (λ y. y < c) low
    → sort_nats low ≡ low
    → sort_nats (high ++ low) ≡ low ++ sort_nats high
unfolding sort_nats
sort_nats-append c [] low h k e = e ∙ sym (append-nil low)
sort_nats-append c (x ∷ high) low h k e =
    ap (insert_nat x) (sort_nats-append c high low h.1 k e)
    ∙ insert_nat-append x low (sort_nats high)
        (All-weaken (λ y. y < c) (λ y. y < x) (λ y q. omega (arith, q, h.0)) low k)

upward-below : (start count c : ℕ) → start + count ≤ c → All (λ y. y < c) (upward start count)
unfolding upward
upward-below start zero c h = tt
upward-below start (suc count) c h = (omega arith, upward-below (start + 1) count c (omega arith))

insert_nat-upward :
    (start count : ℕ)
    → insert_nat start (upward (start + 1) count) ≡ start ∷ upward (start + 1) count
unfolding insert_nat upward
insert_nat-upward start zero = refl
insert_nat-upward start (suc count) = ground arith

sort_nats-upward : (start count : ℕ) → sort_nats (upward start count) ≡ upward start count
unfolding sort_nats upward
sort_nats-upward start zero = refl
sort_nats-upward start (suc count) =
    ap (insert_nat start) (sort_nats-upward (start + 1) count) ∙ insert_nat-upward start count

word_bits-ones : (m k : ℕ) → m ≤ 32 → word_bits (hex 8 (2 ^ m - 1)) k ≡ upward (k * 32) m
unfolding word_bits
word_bits-ones m k h =
    let seen = passes_lem reads_back 33 m ones_table (omega arith) in
    elim (Option-cases (parse_hex32 (hex 8 (2 ^ m - 1)))) [
      | inl e ↦ absurd (cc (rw (reads_back, e) at seen))
      | inr (v, e) ↦
          rw (word_bits, e, ==→eq v (2 ^ m - 1) (rw (reads_back, e) at seen))
            (bits_from-ones 32 m (k * 32) h)
    ]

min_bounds : (a b : ℕ) → (min a b ≤ a) × (min a b ≤ b) × (a - min a b ≤ a - b)
unfolding min
min_bounds a b = ground arith

upward-min :
    (start rem : ℕ)
    → upward start (min rem 32) ++ upward (start + 32) (rem - min rem 32) ≡ upward start rem
unfolding min upward
upward-min start rem = elim (Bool-cases (ltb 32 rem)) [
  | inl e ↦
      let whole : 32 + (rem - 32) ≡ rem = omega (arith, ltb→lt 32 rem e) in
      rw (min, e) (upward-append start 32 (rem - 32) ∙ ap (upward start) whole)
  | inr e ↦
      let rest : rem - rem ≡ 0 = omega arith in
      rw (min, e)
        (ap (λ x. upward start rem ++ upward (start + 32) x) rest ∙ append-nil (upward start rem))
]

pub sort_nats-mask_words :
    (n rem k : ℕ)
    → rem ≤ n * 32
    → sort_nats (words_bits_above k (mask_words n rem)) ≡ upward (k * 32) rem
unfolding mask_words words_bits_above sort_nats upward
sort_nats-mask_words zero rem k h =
    let none_left : 0 ≡ rem = omega (arith, h) in ap (upward (k * 32)) none_left
sort_nats-mask_words (suc n) rem k h =
    let m = min rem 32 in
    let low = upward (k * 32) m in
    let above : (k + 1) * 32 ≡ k * 32 + 32 = omega arith in
    rw
      (
        words_bits_above-append k (mask_words n (rem - m)) (hex 8 (2 ^ m - 1)),
        word_bits-ones m k (min_bounds rem 32).1,
      )
      (sort_nats-append ((k + 1) * 32) (words_bits_above (k + 1) (mask_words n (rem - m))) low
          (words_bits_above-above (k + 1) (mask_words n (rem - m)))
          (upward-below (k * 32) m ((k + 1) * 32) (omega (arith, min_bounds rem 32)))
          (sort_nats-upward (k * 32) m)
        ∙ ap (λ x. low ++ x)
            (sort_nats-mask_words n (rem - m) (k + 1) (omega (arith, min_bounds rem 32)))
        ∙ ap (λ x. low ++ upward x (rem - m)) above
        ∙ upward-min (k * 32) rem)
