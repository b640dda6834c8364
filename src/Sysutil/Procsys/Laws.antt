-- ===== src/Sysutil/Procsys/Laws.antt =====
-- Where a sysctl key is looked for.
use node_configurator.Prelude.{
  ℕ, false, List, [], ◌∷◌, ◌++◌, ◌==◌, ◌≡◌, refl, ◌∙◌, ap, arith, All, ◌⊎◌, inl, inr, Bool-cases,
}
use node_configurator.Text.{Text, codes, split, onto}
use node_configurator.Text.Lines.{Lacks, split-Lacks}
use node_configurator.System.{FilePath}
use node_configurator.Sysutil.Paths.{Env, path, clean}
use node_configurator.Sysutil.Paths.Laws.{
  IsPlain, nonempty, path-append, clean_plain, elements_plain,
}
use node_configurator.Sysutil.Procsys.{strip_parents, strip_slashes, sysctl_path}

strip_slashes-Lacks : (s : Text) → Lacks b'/' (strip_slashes s)
unfolding strip_slashes
strip_slashes-Lacks [] = tt
strip_slashes-Lacks (c ∷ s) = elim (Bool-cases (c == b'/')) [
  | inl e ↦ rw e (strip_slashes-Lacks s)
  | inr e ↦ rw e (e, strip_slashes-Lacks s)
]

onto-Lacks :
    (d c : ℕ) (ws : List Text) → (c == d) ≡ false → All (Lacks d) ws → All (Lacks d) (onto c ws)
unfolding onto
onto-Lacks d c [] e h = ((e, tt), tt)
onto-Lacks d c (w ∷ ws) e h = ((e, h.0), h.1)

-- The pieces of a text lack what the text lacks.
split-Lacks_other : (d e : ℕ) (s : Text) → Lacks d s → All (Lacks d) (split e s)
unfolding split
split-Lacks_other d e [] h = (tt, tt)
split-Lacks_other d e (c ∷ s) h = elim (Bool-cases (c == e)) [
  | inl k ↦ rw k (tt, split-Lacks_other d e s h.1)
  | inr k ↦ rw k (onto-Lacks d c (split e s) h.0 (split-Lacks_other d e s h.1))
]

-- A piece without dots and slashes is empty or the name of a file.
pub IsPlain-of_Lacks : (e : Text) → Lacks b'.' e → Lacks b'/' e → (e ≡ []) ⊎ IsPlain e
IsPlain-of_Lacks [] h k = inl refl
IsPlain-of_Lacks (c ∷ e) h k = inr (record {
  not_empty = ground arith;
  not_dot = λ q. ground arith;
  not_parent = λ q. ground arith;
  no_slash = k;
})

All-IsPlain :
    (es : List Text)
    → All (Lacks b'.') es
    → All (Lacks b'/') es
    → All (λ e. (e ≡ []) ⊎ IsPlain e) es
All-IsPlain [] h k = tt
All-IsPlain (e ∷ es) h k = (IsPlain-of_Lacks e h.0 k.0, All-IsPlain es h.1 k.1)

nonempty-IsPlain : (es : List Text) → All (λ e. (e ≡ []) ⊎ IsPlain e) es → All IsPlain (nonempty es)
nonempty-IsPlain [] h = tt
nonempty-IsPlain ([] ∷ es) h = nonempty-IsPlain es h.1
nonempty-IsPlain ((c ∷ e) ∷ es) (inl n, h) = absurd (cc n)
nonempty-IsPlain ((c ∷ e) ∷ es) (inr k, h) = (k, nonempty-IsPlain es h)

-- A path below the directory, through names of files and directories alone.
pub record IsBelow (d p : FilePath) : Type 0 where
  pub rest : FilePath
  pub splits : p ≡ d ++ rest
  pub plain : All IsPlain rest

-- Whatever the key, its file lies below /proc/sys under the root.
pub sysctl_path-IsBelow :
    (env : Env) (key : Text)
    → IsBelow (path env (codes "proc" ∷ codes "sys" ∷ [])) (sysctl_path env key)
unfolding sysctl_path
sysctl_path-IsBelow env key =
    let key' = strip_slashes (strip_parents key) in
    let es = split b'.' key' in
    let slashes = split-Lacks_other b'/' b'.' key' (strip_slashes-Lacks (strip_parents key)) in
    let plain = All-IsPlain es (split-Lacks b'.' key') slashes in
    record {
      rest = nonempty es;
      splits =
          path-append env (codes "proc" ∷ codes "sys" ∷ []) es
          ∙ ap (clean (path env (codes "proc" ∷ codes "sys" ∷ []))) (elements_plain es slashes)
          ∙ clean_plain (path env (codes "proc" ∷ codes "sys" ∷ [])) es plain;
      plain = nonempty-IsPlain es plain;
    }
