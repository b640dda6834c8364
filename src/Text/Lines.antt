-- ===== src/Text/Lines.antt =====
-- Splitting and joining undo one another.
use node_configurator.Prelude.{
  ℕ, true, false, not, all, List, [], ◌∷◌, ◌++◌, ◌≡◌, ◌≢◌, refl, ap, ◌∙◌, arith, ◌==◌, ==_refl,
  ==→eq, Bool-cases, inl, inr, All,
}
use node_configurator.Text.{Text, split, join, onto, ends_in}

-- No code point of the text is `d`.
abbrev pub Lacks : ℕ → Text → Type 0
Lacks d [] = Unit
Lacks d (c ∷ s) = ((c == d) ≡ false) × Lacks d s

pub split-ne-nil : (d : ℕ) (s : Text) → split d s ≢ []
unfolding split onto
split-ne-nil d [] = ground arith
split-ne-nil d (c ∷ s) = ground (arith, split-ne-nil d s)

join-onto : (sep : Text) (c : ℕ) (ws : List Text) → ws ≢ [] → join sep (onto c ws) ≡ c ∷ join sep ws
unfolding join onto
join-onto sep c [] h = absurd (h refl)
join-onto sep c (w ∷ []) h = refl
join-onto sep c (w ∷ v ∷ ws) h = refl

join-nil-cons : (d : ℕ) (ws : List Text) → ws ≢ [] → join (d ∷ []) ([] ∷ ws) ≡ d ∷ join (d ∷ []) ws
unfolding join
join-nil-cons d [] h = absurd (h refl)
join-nil-cons d (w ∷ ws) h = refl

pub join-split : (d : ℕ) (s : Text) → join (d ∷ []) (split d s) ≡ s
unfolding split
join-split d [] = unfold join in refl
join-split d (c ∷ s) = elim (Bool-cases (c == d)) [
  | inl e ↦ rw e (ground (arith, join-nil-cons d (split d s) (split-ne-nil d s), join-split d s))
  | inr e ↦ rw e (join-onto (d ∷ []) c (split d s) (split-ne-nil d s) ∙ ap (◌∷◌ c) (join-split d s))
]

pub split-append : (d : ℕ) (w s : Text) → Lacks d w → split d (w ++ d ∷ s) ≡ w ∷ split d s
unfolding split onto
split-append d [] s h = ground arith
split-append d (c ∷ w) s h = rw (h.0, split-append d w s h.1)

pub split_lacking : (d : ℕ) (w : Text) → Lacks d w → split d w ≡ w ∷ []
unfolding split onto
split_lacking d [] h = refl
split_lacking d (c ∷ w) h = rw (h.0, split_lacking d w h.1)

pub split-join :
    (d : ℕ) (ws : List Text) → ws ≢ [] → All (Lacks d) ws → split d (join (d ∷ []) ws) ≡ ws
unfolding join
split-join d [] h k = absurd (h refl)
split-join d (w ∷ []) h k = split_lacking d w k.0
split-join d (w ∷ v ∷ ws) h k =
    split-append d w _ k.0 ∙ ap (◌∷◌ w) (split-join d (v ∷ ws) (ground arith) k.1)

onto-Lacks :
    (d c : ℕ) (ws : List Text) → (c == d) ≡ false → All (Lacks d) ws → All (Lacks d) (onto c ws)
unfolding onto
onto-Lacks d c [] e k = ((e, tt), tt)
onto-Lacks d c (w ∷ ws) e k = ((e, k.0), k.1)

-- Every piece lacks the separator.
pub split-Lacks : (d : ℕ) (s : Text) → All (Lacks d) (split d s)
unfolding split
split-Lacks d [] = (tt, tt)
split-Lacks d (c ∷ s) = elim (Bool-cases (c == d)) [
  | inl e ↦ rw e (tt, split-Lacks d s)
  | inr e ↦ rw e (onto-Lacks d c (split d s) e (split-Lacks d s))
]

onto-append : (c : ℕ) (ws vs : List Text) → ws ≢ [] → onto c (ws ++ vs) ≡ onto c ws ++ vs
unfolding onto
onto-append c [] vs h = absurd (h refl)
onto-append c (w ∷ ws) vs h = refl

-- A separator splits the text around it.
pub split-append_at : (d : ℕ) (a b : Text) → split d (a ++ d ∷ b) ≡ split d a ++ split d b
unfolding split
split-append_at d [] b = rw (==_refl d)
split-append_at d (c ∷ a) b = elim (Bool-cases (c == d)) [
  | inl e ↦ rw e (ap (◌∷◌ []) (split-append_at d a b))
  | inr e ↦ rw (e, split-append_at d a b) (onto-append c (split d a) (split d b) (split-ne-nil d a))
]

pub Lacks-append : (d : ℕ) (a b : Text) → Lacks d a → Lacks d b → Lacks d (a ++ b)
Lacks-append d [] b h k = k
Lacks-append d (c ∷ a) b h k = (h.0, Lacks-append d a b h.1 k)

-- A decision for concrete texts.
pub Lacks-of_all : (d : ℕ) (a : Text) → all (λ c. not (c == d)) a ≡ true → Lacks d a
Lacks-of_all d [] h = tt
Lacks-of_all d (c ∷ a) h = (ground arith, Lacks-of_all d a (ground arith))

-- A text that ends in the separator is empty after it.
pub ends_in-append : (d : ℕ) (a : Text) → ends_in d a ≡ true → (b : Text) × (a ≡ b ++ d ∷ [])
unfolding ends_in
ends_in-append d [] h = absurd (cc h)
ends_in-append d (c ∷ []) h = ([], ap (λ x. x ∷ []) (==→eq c d h))
ends_in-append d (c ∷ e ∷ a) h = let (b, q) = ends_in-append d (e ∷ a) h in (c ∷ b, ap (◌∷◌ c) q)
