-- ===== src/Resource/Fstab/Laws.antt =====
-- What the edits of /etc/fstab do to its lines.
use node_configurator.Prelude.{
  true, false, List, [], ◌∷◌, ◌++◌, map, any, ◌≡◌, ◌≢◌, refl, Bool-cases, inl, inr, All,
}
use node_configurator.Text.{Text, codes, has_prefix, split, trim_space, is_space}
use node_configurator.Text.Lines.{
  Lacks, Lacks-append, Lacks-of_all, split-Lacks, split-join, split-ne-nil,
}
use node_configurator.Text.Trim.{trim_space-cons}
use node_configurator.Resource.Fstab.{
  is_ignored, is_swap_line, fstab_has_active_swap_lines, comment_line, comment_swap_lines,
}

hash_visible : is_space b'#' ≡ false
unfolding is_space
hash_visible = refl

-- A comment is ignored.
comment_ignored : (s : Text) → is_ignored (trim_space (b'#' ∷ s)) ≡ true
unfolding is_ignored has_prefix
comment_ignored s = rw (trim_space-cons b'#' s hash_visible)

comment_line_inactive : (line : Text) → is_swap_line (comment_line line) ≡ false
unfolding comment_line is_swap_line
comment_line_inactive line = elim (Bool-cases (is_swap_line line)) [
  | inl e ↦
      rw (comment_line, e)
        (rw (is_swap_line, comment_ignored (codes " disabled by node-configurator: " ++ line)))
  | inr e ↦ rw (comment_line, e) e
]

comment_line-Lacks : (line : Text) → Lacks b'\n' line → Lacks b'\n' (comment_line line)
unfolding comment_line
comment_line-Lacks line h = elim (Bool-cases (is_swap_line line)) [
  | inl e ↦
      rw (comment_line, e)
        (Lacks-append b'\n' (codes "# disabled by node-configurator: ") line
          (Lacks-of_all b'\n' (codes "# disabled by node-configurator: ") refl) h)
  | inr e ↦ rw (comment_line, e) h
]

map-Lacks : (ls : List Text) → All (Lacks b'\n') ls → All (Lacks b'\n') (map comment_line ls)
map-Lacks [] h = tt
map-Lacks (l ∷ ls) h = (comment_line-Lacks l h.0, map-Lacks ls h.1)

map-ne-nil : (ls : List Text) → ls ≢ [] → map comment_line ls ≢ []
map-ne-nil [] h e = h refl
map-ne-nil (l ∷ ls) h e = cc e

any-comment_line : (ls : List Text) → any is_swap_line (map comment_line ls) ≡ false
any-comment_line [] = refl
any-comment_line (l ∷ ls) = rw (comment_line_inactive l, any-comment_line ls)

-- Commenting out works line by line.
pub split-comment_swap_lines :
    (content : Text)
    → split b'\n' (comment_swap_lines content) ≡ map comment_line (split b'\n' content)
unfolding comment_swap_lines
split-comment_swap_lines content =
    let ls = split b'\n' content in
    split-join b'\n' (map comment_line ls) (map-ne-nil ls (split-ne-nil b'\n' content))
      (map-Lacks ls (split-Lacks b'\n' content))

-- The content that is written has no active swap entry.
pub comment_swap_lines_inactive :
    (content : Text) → fstab_has_active_swap_lines (comment_swap_lines content) ≡ false
unfolding fstab_has_active_swap_lines
comment_swap_lines_inactive content =
    rw (split-comment_swap_lines content) (any-comment_line (split b'\n' content))
