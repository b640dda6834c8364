-- ===== src/Resource/Fstab/Entries.antt =====
-- What appending an entry to /etc/fstab does to its mount points.
use node_configurator.Prelude.{
  ℕ, Bool, true, false, ◌||◌, List, [], ◌∷◌, ◌++◌, any, ◌≡◌, refl, sym, ap, ◌∙◌, arith, ◌==◌, ==→eq,
  Bool-cases, inl, inr,
}
use mathlib.Core.List.{append_assoc}
use node_configurator.Text.{
  Text, codes, text_eq, has_prefix, ends_in, split, fields, trim_space, is_space,
}
use node_configurator.Text.Lines.{
  Lacks, Lacks-append, Lacks-of_all, split-append_at, split-append, ends_in-append,
}
use node_configurator.Text.Trim.{
  NoSpace, IsWord, trim_space-cons, fields-trim_space, fields_word-append,
}
use node_configurator.Resource.Fstab.{
  is_ignored, is_entry_for, fstab_line_exists, fstab_entry, append_entry,
}

-- The parts of an entry that the line format can carry.
pub record IsEntry (device mount_point fs_type options : Text) : Type 0 where
  pub device_word : IsWord device
  pub not_comment : has_prefix device (codes "#") ≡ false
  pub mount_point_word : IsWord mount_point
  pub one_line_type : Lacks b'\n' fs_type
  pub one_line_options : Lacks b'\n' options

newline_space : is_space b'\n' ≡ true
unfolding is_space
newline_space = refl

word-Lacks : (w : Text) → NoSpace w → Lacks b'\n' w
word-Lacks [] h = tt
word-Lacks (c ∷ w) h = (
  elim (Bool-cases (c == b'\n')) [
    | inl e ↦ absurd (cc (ap is_space (==→eq c b'\n' e), newline_space, h.0))
    | inr e ↦ e
  ],
  word-Lacks w h.1,
)

-- The entry without its newline.
entry_text : Text → Text → Text → Text → Text
entry_text d m f o = d ++ 0x20 ∷ (m ++ 0x20 ∷ (f ++ 0x20 ∷ (o ++ codes " 0 0")))

fstab_entry_text : (d m f o : Text) → fstab_entry d m f o ≡ entry_text d m f o ++ b'\n' ∷ []
unfolding fstab_entry entry_text
fstab_entry_text d m f o = rw (
  append_assoc d _ (b'\n' ∷ []),
  append_assoc m _ (b'\n' ∷ []),
  append_assoc f _ (b'\n' ∷ []),
  append_assoc o _ (b'\n' ∷ []),
)

entry_text-Lacks : (d m f o : Text) → IsEntry d m f o → Lacks b'\n' (entry_text d m f o)
unfolding entry_text
entry_text-Lacks d m f o e = Lacks-append b'\n' d _ (word-Lacks d e.device_word.1) (
  refl,
  Lacks-append b'\n' m _ (word-Lacks m e.mount_point_word.1) (
    refl,
    Lacks-append b'\n' f _ e.one_line_type
        (refl, Lacks-append b'\n' o _ e.one_line_options (Lacks-of_all b'\n' (codes " 0 0") refl)),
  ),
)

-- A line that starts with a visible character other than `#` is an entry.
not_ignored :
    (c : ℕ) (s : Text)
    → is_space c ≡ false
    → has_prefix (c ∷ s) (codes "#") ≡ false
    → is_ignored (trim_space (c ∷ s)) ≡ false
unfolding is_ignored has_prefix
not_ignored c s h k = rw (trim_space-cons c s h) (ground arith)

prefix-append :
    (c : ℕ) (w s : Text)
    → has_prefix (c ∷ w) (codes "#") ≡ false
    → has_prefix (c ∷ (w ++ s)) (codes "#") ≡ false
unfolding has_prefix
prefix-append c w s h = ground arith

entry_not_ignored :
    (d m f o : Text) → IsEntry d m f o → is_ignored (trim_space (entry_text d m f o)) ≡ false
unfolding entry_text
entry_not_ignored [] m f o e = absurd (e.device_word.0 refl)
entry_not_ignored (c ∷ d) m f o e =
    not_ignored c _ e.device_word.1.0 (prefix-append c d _ e.not_comment)

fields-entry_text :
    (d m f o : Text)
    → IsEntry d m f o
    → fields (entry_text d m f o) ≡ d ∷ m ∷ fields (f ++ 0x20 ∷ (o ++ codes " 0 0"))
unfolding entry_text
fields-entry_text d m f o e =
    fields_word-append d _ e.device_word ∙ ap (◌∷◌ d) (fields_word-append m _ e.mount_point_word)

-- The line of an entry is one for its mount point and for no other.
is_entry_for-entry_text :
    (d m f o q : Text) → IsEntry d m f o → is_entry_for q (entry_text d m f o) ≡ text_eq m q
unfolding is_entry_for
is_entry_for-entry_text d m f o q e = rw (
  is_entry_for,
  entry_not_ignored d m f o e,
  fields-trim_space (entry_text d m f o),
  fields-entry_text d m f o e,
)

is_entry_for_empty : (q : Text) → is_entry_for q [] ≡ false
unfolding is_entry_for is_ignored trim_space
is_entry_for_empty q = refl

any-append : (p : Text → Bool) (xs ys : List Text) → any p (xs ++ ys) ≡ (any p xs || any p ys)
any-append p [] ys = refl
any-append p (x ∷ xs) ys = ground (arith, any-append p xs ys)

exists_entry :
    (d m f o q : Text) → IsEntry d m f o → fstab_line_exists (fstab_entry d m f o) q ≡ text_eq m q
unfolding fstab_line_exists split
exists_entry d m f o q e =
    ap (λ x. any (is_entry_for q) (split b'\n' x)) (fstab_entry_text d m f o)
    ∙ ap (any (is_entry_for q))
        (split-append b'\n' (entry_text d m f o) [] (entry_text-Lacks d m f o e))
    ∙ rw (is_entry_for-entry_text d m f o q e, is_entry_for_empty q) (ground arith)

exists-append_at :
    (a b q : Text)
    → fstab_line_exists (a ++ b'\n' ∷ b) q ≡ (fstab_line_exists a q || fstab_line_exists b q)
unfolding fstab_line_exists
exists-append_at a b q =
    ap (any (is_entry_for q)) (split-append_at b'\n' a b)
    ∙ any-append (is_entry_for q) (split b'\n' a) (split b'\n' b)

exists_empty : (q : Text) → fstab_line_exists [] q ≡ false
unfolding fstab_line_exists split
exists_empty q = rw (is_entry_for_empty q)

-- An entry after a text that is empty or ends in a newline.
exists_after_newline :
    (a b q : Text)
    → ends_in b'\n' a ≡ true
    → fstab_line_exists (a ++ b) q ≡ (fstab_line_exists a q || fstab_line_exists b q)
exists_after_newline a b q h =
    let (c, e) = ends_in-append b'\n' a h in
    ap (λ x. fstab_line_exists (x ++ b) q) e
    ∙ ap (λ x. fstab_line_exists x q) (append_assoc c (b'\n' ∷ []) b)
    ∙ exists-append_at c b q
    ∙ sym (
        ap (λ x. fstab_line_exists x q || fstab_line_exists b q) e
        ∙ rw (exists-append_at c [] q, exists_empty q) (ground arith))

-- With the entry appended, fstab has exactly the mount points that it had and the new one, whether
-- or not its last line ended in a newline.
pub fstab_line_exists-append_entry :
    (existing d m f o q : Text)
    → IsEntry d m f o
    → fstab_line_exists (append_entry existing (fstab_entry d m f o)) q
      ≡ (fstab_line_exists existing q || text_eq m q)
unfolding append_entry
fstab_line_exists-append_entry [] d m f o q e = exists_entry d m f o q e ∙ rw (exists_empty q)
fstab_line_exists-append_entry (c ∷ a) d m f o q e = elim (Bool-cases (ends_in b'\n' (c ∷ a))) [
  | inl h ↦
      rw (append_entry, h)
        (exists_after_newline (c ∷ a) _ q h
          ∙ ap (λ x. fstab_line_exists (c ∷ a) q || x) (exists_entry d m f o q e))
  | inr h ↦
      rw (append_entry, h)
        (exists-append_at (c ∷ a) _ q
          ∙ ap (λ x. fstab_line_exists (c ∷ a) q || x) (exists_entry d m f o q e))
]
