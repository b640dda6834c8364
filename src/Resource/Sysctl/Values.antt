-- ===== src/Resource/Sysctl/Values.antt =====
-- How a sysctl value compares with what the kernel echoes, and how the drop-in file is rendered.
use node_configurator.Prelude.{List, [], ◌∷◌, ◌++◌, ◌≡◌, ◌↔◌, refl, sym, ap, ◌∙◌}
use node_configurator.Text.{Text, codes, join, fields}
use node_configurator.Text.Trim.{fields-join, fields-IsWord}
use node_configurator.Text.Sort.{sort, sort_of_permᴰ}
use node_configurator.Text.Dict.{Dict, keys, NodupKeys, lookup_of_permᴰ, keys_of_permᴰ}
use node_configurator.Resource.Sysctl.{
  setting, sorted_keys, normalize_sysctl_value, setting_lines, render_sysctl_file,
}
use mathlib.Core.List.{Perm, Permᴰ}
use mathlib.Core.Logic.{∥∥₁_elim}

-- Two values compare as equal exactly if they have the same fields, whatever white space stands
-- between and around these.
pub normalize_sysctl_value_iff :
    (a b : Text) → (normalize_sysctl_value a ≡ normalize_sysctl_value b) ↔ (fields a ≡ fields b)
unfolding normalize_sysctl_value
normalize_sysctl_value_iff a b = (
  λ h.
      sym (fields-join (fields a) (fields-IsWord a))
      ∙ ap fields h
      ∙ fields-join (fields b) (fields-IsWord b),
  λ h. ap (join (codes " ")) h,
)

setting_of_permᴰ :
    {m n : Dict Text} (k : Text) → Permᴰ m n → NodupKeys m → setting m k ≡ setting n k
unfolding setting
setting_of_permᴰ k p h = rw (lookup_of_permᴰ k p h, setting)

setting_lines_of_permᴰ :
    {m n : Dict Text} (ks : List Text)
    → Permᴰ m n
    → NodupKeys m
    → setting_lines m ks ≡ setting_lines n ks
unfolding setting_lines
setting_lines_of_permᴰ [] p h = refl
setting_lines_of_permᴰ (k ∷ ks) p h = rw (setting_of_permᴰ k p h, setting_lines_of_permᴰ ks p h)

text_set : IsSet Text
text_set = hlevel

-- The drop-in file does not depend on the order in which the runtime iterates over the settings.
pub render_sysctl_file_of_perm :
    (m n : Dict Text) → NodupKeys m → Perm m n → render_sysctl_file m ≡ render_sysctl_file n
unfolding render_sysctl_file sorted_keys
render_sysctl_file_of_perm m n h p = ∥∥₁_elim p (text_set _ _) λ q.
    ap (◌++◌ (codes "# Managed by node-configurator. Local edits will be overwritten.\n")) (
      setting_lines_of_permᴰ (sort (keys m)) q h
      ∙ ap (setting_lines n) (sort_of_permᴰ (keys_of_permᴰ q)))
