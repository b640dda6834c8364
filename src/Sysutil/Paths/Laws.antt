-- ===== src/Sysutil/Paths/Laws.antt =====
-- Plain elements are only appended: a path of such elements stays below its root.
use mathlib.Core.List.{append_assoc, append-nil}
use node_configurator.Prelude.{
  List, [], ◌∷◌, ◌++◌, if◌then◌else◌, ◌≡◌, ◌≢◌, refl, sym, ◌∙◌, ap, arith, All, ◌⊎◌, inl, inr,
}
use node_configurator.Text.{Text, codes, text_eq, is_nil, split}
use node_configurator.Text.Equality.{text_eq_iff}
use node_configurator.Text.Lines.{Lacks, split_lacking}
use node_configurator.System.{FilePath}
use node_configurator.Sysutil.Paths.{
  Env, dir, base, clean_element, clean, elements, filepath_join, path,
}

-- An element that names a file in the directory it is appended to.
pub record IsPlain (e : Text) : Type 0 where
  pub not_empty : e ≢ []
  pub not_dot : e ≢ codes "."
  pub not_parent : e ≢ codes ".."
  pub no_slash : Lacks b'/' e

-- The elements that cleaning keeps, when none is "." or "..".
abbrev pub nonempty : List Text → List Text
nonempty [] = []
nonempty (e ∷ es) = let rest = nonempty es in if is_nil e then rest else e ∷ rest

elements-append : (a b : List Text) → elements (a ++ b) ≡ elements a ++ elements b
unfolding elements
elements-append [] b = refl
elements-append (e ∷ a) b =
    rw (elements-append a b) (sym (append_assoc (split b'/' e) (elements a) (elements b)))

clean-append : (p : FilePath) (a b : List Text) → clean p (a ++ b) ≡ clean (clean p a) b
unfolding clean
clean-append p [] b = refl
clean-append p (e ∷ a) b = clean-append (clean_element p e) a b

join_append :
    (r a b : List Text)
    → clean [] (r ++ elements (a ++ b)) ≡ clean (clean [] (r ++ elements a)) (elements b)
join_append r a b = rw (elements-append a b) (
    ap (clean []) (sym (append_assoc r (elements a) (elements b)))
    ∙ clean-append [] (r ++ elements a) (elements b))

-- Further arguments of a join are cleaned onto the path of the first ones.
pub path-append :
    (env : Env) (a b : List Text) → path env (a ++ b) ≡ clean (path env a) (elements b)
unfolding path filepath_join
path-append env a b = join_append (split b'/' (if is_nil env.root then codes "/" else env.root)) a b

pub elements_plain : (es : List Text) → All (Lacks b'/') es → elements es ≡ es
unfolding elements
elements_plain [] h = refl
elements_plain (e ∷ es) h = rw (split_lacking b'/' e h.0, elements_plain es h.1)

clean_element_plain : (p : FilePath) (e : Text) → IsPlain e → clean_element p e ≡ p ++ e ∷ []
unfolding clean_element
clean_element_plain p e k = ground (
  arith,
  text_eq_iff e [],
  text_eq_iff e (codes "."),
  text_eq_iff e (codes ".."),
  k.not_empty,
  k.not_dot,
  k.not_parent,
)

clean_element_empty : (p : FilePath) → clean_element p [] ≡ p
unfolding clean_element text_eq
clean_element_empty p = refl

-- Elements with neither a dot element nor a slash are appended as they are.
pub clean_plain :
    (p : FilePath) (es : List Text)
    → All (λ e. (e ≡ []) ⊎ IsPlain e) es
    → clean p es ≡ p ++ nonempty es
unfolding clean
clean_plain p [] h = sym (append-nil p)
clean_plain p (e ∷ es) (inl n, h) = rw n (rw (clean_element_empty p) (clean_plain p es h))
clean_plain p ([] ∷ es) (inr k, h) = absurd (k.not_empty refl)
clean_plain p ((c ∷ e) ∷ es) (inr k, h) =
    rw (clean_element_plain p (c ∷ e) k)
      (clean_plain (p ++ (c ∷ e) ∷ []) es h ∙ append_assoc p ((c ∷ e) ∷ []) (nonempty es))

pub dir-append-base : (p : FilePath) → p ≢ [] → p ≡ dir p ++ base p ∷ []
unfolding dir base
dir-append-base [] h = absurd (h refl)
dir-append-base (e ∷ []) h = refl
dir-append-base (e ∷ f ∷ p) h = ap (◌∷◌ e) (dir-append-base (f ∷ p) (ground arith))

pub dir-append : (d : FilePath) (e : Text) → dir (d ++ e ∷ []) ≡ d
unfolding dir
dir-append [] e = refl
dir-append (f ∷ []) e = refl
dir-append (f ∷ g ∷ d) e = ap (◌∷◌ f) (dir-append (g ∷ d) e)

pub base-append : (d : FilePath) (e : Text) → base (d ++ e ∷ []) ≡ e
unfolding base
base-append [] e = refl
base-append (f ∷ []) e = refl
base-append (f ∷ g ∷ d) e = base-append (g ∷ d) e
