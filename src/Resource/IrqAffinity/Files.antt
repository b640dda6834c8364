-- ===== src/Resource/IrqAffinity/Files.antt =====
-- Each interrupt has a file of its own.
use node_configurator.Prelude.{
  List, ◌≢◌, [], ◌∷◌, ◌++◌, ◌≡◌, refl, sym, ap, ◌∙◌, arith, inl, inr, ℤ,
}
use mathlib.Core.List.{append_assoc}
use node_configurator.Text.{Text, codes}
use node_configurator.Text.Lines.{Lacks-of_all}
use node_configurator.Text.Number.{show_int}
use node_configurator.Text.Number.Digits.{show_int-Lacks, show_int-ne-nil}
use node_configurator.System.{FilePath, Os}
use node_configurator.Sysutil.Paths.{path, clean, dir, base}
use node_configurator.Sysutil.Paths.Laws.{
  IsPlain, path-append, elements_plain, clean_plain, nonempty, dir-append, base-append,
}
use node_configurator.Sysutil.Procsys.Laws.{IsPlain-of_Lacks}
use node_configurator.Resource.IrqAffinity.{IrqAffinityResource, affinity_path}

abbrev list_file : Text
list_file = codes "smp_affinity_list"

list_file-IsPlain : IsPlain list_file
list_file-IsPlain = record {
  not_empty = λ q. cc q;
  not_dot = λ q. cc q;
  not_parent = λ q. cc q;
  no_slash = Lacks-of_all b'/' list_file refl;
}

show_int-IsPlain : (n : ℤ) → IsPlain (show_int n)
show_int-IsPlain n =
    elim (IsPlain-of_Lacks (show_int n) (show_int-Lacks b'.' n (omega arith) refl)
      (show_int-Lacks b'/' n (omega arith) refl)) [
        | inl e ↦ absurd (show_int-ne-nil n e)
        | inr p ↦ p
      ]

nonempty_cons : (e : Text) (es : List Text) → e ≢ [] → nonempty (e ∷ es) ≡ e ∷ nonempty es
nonempty_cons [] es h = absurd (h refl)
nonempty_cons (c ∷ e) es h = refl

module _ (os : Os) (r : IrqAffinityResource) where
  abbrev directory : FilePath
  directory = path r.env (codes "proc" ∷ codes "irq" ∷ [])

  affinity_path_lem :
      (n : ℤ) → affinity_path os r (show_int n) ≡ (directory ++ show_int n ∷ []) ++ list_file ∷ []
  unfolding affinity_path
  affinity_path_lem n =
      let p = show_int-IsPlain n in
      let es = show_int n ∷ list_file ∷ [] in
      path-append r.env (codes "proc" ∷ codes "irq" ∷ []) es
      ∙ ap (clean directory) (elements_plain es (p.no_slash, (list_file-IsPlain.no_slash, tt)))
      ∙ clean_plain directory es (inr p, (inr list_file-IsPlain, tt))
      ∙ ap (λ x. directory ++ x) (nonempty_cons (show_int n) (list_file ∷ []) p.not_empty)
      ∙ sym (append_assoc directory (show_int n ∷ []) (list_file ∷ []))

  -- Interrupts with the same file are the same.
  pub affinity_path-injective :
      (m n : ℤ)
      → affinity_path os r (show_int m) ≡ affinity_path os r (show_int n)
      → show_int m ≡ show_int n
  affinity_path-injective m n h =
      let e = sym (affinity_path_lem m) ∙ h ∙ affinity_path_lem n in
      sym (base-append directory (show_int m))
      ∙ ap base (
          sym (dir-append (directory ++ show_int m ∷ []) list_file)
          ∙ ap dir e
          ∙ dir-append (directory ++ show_int n ∷ []) list_file)
      ∙ base-append directory (show_int n)

  pub base-affinity_path : (n : ℤ) → base (affinity_path os r (show_int n)) ≡ list_file
  base-affinity_path n =
      ap base (affinity_path_lem n) ∙ base-append (directory ++ show_int n ∷ []) list_file
