-- ===== src/Sysutil/Paths.antt =====
-- internal/sysutil/env.go, and the parts of `path/filepath` that the program uses. The root is an
-- absolute path, so a path is a list of elements, and cleaning is lexical.
pub mod Laws
use node_configurator.Prelude.{ℕ, Bool, ◌||◌, List, [], ◌∷◌, ◌++◌, if◌then◌else◌}
use node_configurator.Text.{Text, codes, text_eq, is_nil, split}
use node_configurator.System.{FilePath}

pub record Env : Type 0 where
  pub root : Text

-- `New`
unfoldable pub new : Env
new = record { root = codes "/" }

-- All but the last element: `filepath.Dir`.
unfoldable pub dir : FilePath → FilePath
dir [] = []
dir (e ∷ []) = []
dir (e ∷ f ∷ p) = e ∷ dir (f ∷ p)

-- The last element: `filepath.Base`.
unfoldable pub base : FilePath → Text
base [] = codes "/"
base (e ∷ []) = e
base (_ ∷ f ∷ p) = base (f ∷ p)

-- One round of `filepath.Clean` over a rooted path.
unfoldable pub clean_element : FilePath → Text → FilePath
unfolding dir text_eq
clean_element p e =
    if text_eq e [] || text_eq e (codes ".")
    then p
    else if text_eq e (codes "..")
    then dir p
    else p ++ e ∷ []

unfoldable pub clean : FilePath → List Text → FilePath
clean p [] = p
clean p (e ∷ es) = clean (clean_element p e) es

-- The elements of several path arguments, joined by slashes.
unfoldable pub elements : List Text → List Text
elements [] = []
elements (a ∷ as') = split b'/' a ++ elements as'

-- `filepath.Join`, of an absolute path and others
unfoldable pub filepath_join : List Text → FilePath
unfolding clean elements
filepath_join parts = clean [] (elements parts)

-- `Env.Path`
unfoldable pub path : Env → List Text → FilePath
path env elem = filepath_join ((if is_nil env.root then codes "/" else env.root) ∷ elem)

-- The text of a path.
unfoldable pub show_path : FilePath → Text
show_path [] = codes "/"
show_path (e ∷ []) = b'/' ∷ e
show_path (e ∷ f ∷ p) = b'/' ∷ (e ++ show_path (f ∷ p))

-- `path + suffix`, for a path that has a last element
unfoldable pub with_suffix : FilePath → Text → FilePath
with_suffix [] suffix = suffix ∷ []
with_suffix (e ∷ []) suffix = (e ++ suffix) ∷ []
with_suffix (e ∷ f ∷ p) suffix = e ∷ with_suffix (f ∷ p) suffix
