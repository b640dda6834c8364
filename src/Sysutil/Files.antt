-- ===== src/Sysutil/Files.antt =====
-- What the program relies on in a file system: which contents each call leaves. The laws say
-- nothing of permissions, links or directories, and nothing of when a call fails.
use node_configurator.Prelude.{ℕ, [], ◌∷◌, ◌++◌, Option, none, some, ◌≡◌, ◌≢◌}
use node_configurator.Text.{Text, codes}
use node_configurator.System.{FilePath, Fallible, value, failure, Outcome, done, fail, state_of, Os}

-- The content of a file that can be read.
abbrev pub content_of : Fallible Text → Option Text
content_of (value c) = some c
content_of (failure _) = none

abbrev pub content : (os : Os) → os.State → FilePath → Option Text
content os s p = content_of (os.read_file s p)

module _ (os : Os) where
  open os use {
    State, mkdir_all, create_temp, write_temp, chmod_temp, close_temp, rename, remove, write_file,
  }

  -- Every file reads the same before and after.
  abbrev pub SameFiles : State → State → Type 0
  SameFiles s t = (p : FilePath) → content os t p ≡ content os s p

  -- Every file but `q` reads the same before and after.
  abbrev pub SameFilesBut : FilePath → State → State → Type 0
  SameFilesBut q s t = (p : FilePath) → p ≢ q → content os t p ≡ content os s p

  -- A new, empty file whose name in `d` starts with `prefix`.
  pub record IsFresh (d : FilePath) (prefix : Text) (s t : State) (tmp : FilePath) : Type 0 where
    pub suffix : Text
    pub named : tmp ≡ d ++ (prefix ++ suffix) ∷ []
    pub was_absent : content os s tmp ≡ none
    pub others : SameFilesBut tmp s t

  abbrev pub Creates : FilePath → Text → State → Outcome State FilePath → Type 0
  Creates d prefix s (done tmp t) = IsFresh d prefix s t tmp
  Creates d prefix s (fail _ t) = SameFiles s t

  -- `os.Rename` is atomic: the target has the old file's content, or nothing has changed.
  abbrev pub Renames : FilePath → FilePath → State → Outcome State (Unit {0}) → Type 0
  Renames a b s (done _ t) =
      (content os t b ≡ content os s a)
      × (content os t a ≡ none)
      × ((p : FilePath) → p ≢ a → p ≢ b → content os t p ≡ content os s p)
  Renames a b s (fail _ t) = SameFiles s t

  abbrev pub WritesTemp : FilePath → Text → State → Outcome State (Unit {0}) → Type 0
  WritesTemp p c s (done _ t) = (content os t p ≡ some c) × SameFilesBut p s t
  WritesTemp p c s (fail _ t) = SameFilesBut p s t

  -- The laws of the calls that write by way of a temporary file.
  pub record HasFiles : Type 0 where
    pub mkdir_all-files : (d : FilePath) (s : State) → SameFiles s (state_of (mkdir_all d s))
    pub create_temp-files :
        (d : FilePath) (prefix : Text) (s : State)
        → Creates d prefix s (create_temp d (prefix ++ codes "*") s)
    pub write_temp-files :
        (p : FilePath) (c : Text) (s : State) → WritesTemp p c s (write_temp p c s)
    pub chmod_temp-files :
        (p : FilePath) (m : ℕ) (s : State) → SameFiles s (state_of (chmod_temp p m s))
    pub close_temp-files : (p : FilePath) (s : State) → SameFiles s (state_of (close_temp p s))
    pub rename-files : (a b : FilePath) (s : State) → a ≢ b → Renames a b s (rename a b s)
    pub remove-files : (p : FilePath) (s : State) → SameFilesBut p s (state_of (remove p s))
