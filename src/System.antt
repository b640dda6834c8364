-- ===== src/System.antt =====
-- The operating system beneath the program: files and commands are a parameter of the model. Also
-- the Go conventions for errors: `(T, error)` from a reader, and the same from a call that changes
-- the system, whose state is passed on.
pub mod Post
pub mod Loop
use node_configurator.Prelude.{ℕ, Bool, false, List, ◌∷◌, [], Option, ◌++◌}
use node_configurator.Text.{Text, codes}

-- A cleaned absolute path by its elements: `filepath.Join` and `filepath.Clean` leave no empty
-- element, no "." and no "..".
abbrev pub FilePath : Type 0
FilePath = List Text

-- An `error`: its message, and what `os.IsNotExist` says of it.
pub record Error : Type 0 where
  pub message : Text
  pub not_exist : Bool

-- `(T, error)` where the value counts only if there is no error.
pub data Fallible {ℓ} (A : Type ℓ) : Type ℓ where
  value : A → Fallible A
  failure : Error → Fallible A

-- The end of a call that may change the system: what it returns, and the state that it leaves.
pub data Outcome (S : Type 0) (A : Type 0) : Type 0 where
  done : A → S → Outcome S A
  fail : Error → S → Outcome S A

module _ {S : Type 0} where
  -- `if err != nil { return err }` between two calls.
  infixl 5 ◌>>=◌ ◌>>◌
  abbrev pub ◌>>=◌ : {A B : Type 0} → (S → Outcome S A) → (A → S → Outcome S B) → S → Outcome S B
  ◌>>=◌ m f s = elim (m s) [ done a t ↦ f a t | fail e t ↦ fail e t ]

  abbrev pub ◌>>◌ : {B : Type 0} → (S → Outcome S (Unit {0})) → (S → Outcome S B) → S → Outcome S B
  ◌>>◌ m k s = elim (m s) [ done _ t ↦ k t | fail e t ↦ fail e t ]

  abbrev pub state_of : {A : Type 0} → Outcome S A → S
  state_of (done a s) = s
  state_of (fail e s) = s

-- `fmt.Errorf("…: %w", err)`: a wrapped error is not a missing file to `os.IsNotExist`.
abbrev pub errorf : Text → Error → Error
errorf context e = record { message = context ++ (codes ": " ++ e.message); not_exist = false }

module _ {S : Type 0} where
  -- The error of a call, with its context put in front.
  abbrev pub or_errorf : {A : Type 0} → Text → (S → Outcome S A) → S → Outcome S A
  or_errorf context m s = elim (m s) [ done a t ↦ done a t | fail e t ↦ fail (errorf context e) t ]

  abbrev pub return : {A : Type 0} → A → S → Outcome S A
  return a s = done a s

-- What the program calls. Reads leave the state alone; a command may change it, whatever it is for.
pub record Os : Type 1 where
  pub State : Type 0
  -- `os.ReadFile`, and `os.Open` with the content then read
  pub read_file : State → FilePath → Fallible Text
  -- `os.Stat`, whose error alone is used
  pub stat : State → FilePath → Option Error
  -- `os.ReadDir`: the names, in alphabetical order
  pub read_dir : State → FilePath → Fallible (List Text)
  -- `filepath.Glob`: the paths that match, one pattern for each element
  pub glob : State → List Text → Fallible (List FilePath)
  -- `os.WriteFile` with permissions 0644
  pub write_file : FilePath → Text → State → Outcome State (Unit {0})
  -- `os.MkdirAll` with permissions 0755
  pub mkdir_all : FilePath → State → Outcome State (Unit {0})
  -- `os.CreateTemp(dir, pattern)`, for a pattern that ends in `*`
  pub create_temp : FilePath → Text → State → Outcome State FilePath
  -- `Write` on the open temporary file
  pub write_temp : FilePath → Text → State → Outcome State (Unit {0})
  -- `Chmod` on the open temporary file
  pub chmod_temp : FilePath → ℕ → State → Outcome State (Unit {0})
  -- `Close` of the open temporary file
  pub close_temp : FilePath → State → Outcome State (Unit {0})
  -- `os.Rename`
  pub rename : FilePath → FilePath → State → Outcome State (Unit {0})
  -- `os.Remove`
  pub remove : FilePath → State → Outcome State (Unit {0})
  -- `Runner.Run`: the output of a command
  pub run : Text → List Text → State → Outcome State Text

-- One call that changes files, whether it succeeds or fails.
pub data Call (os : Os) : os.State → os.State → Type 0 where
  write_file : (p : FilePath) (c : Text) (s : os.State) → Call os s (state_of (os.write_file p c s))
  mkdir_all : (d : FilePath) (s : os.State) → Call os s (state_of (os.mkdir_all d s))
  create_temp :
      (d : FilePath) (pattern : Text) (s : os.State)
      → Call os s (state_of (os.create_temp d pattern s))
  write_temp : (p : FilePath) (c : Text) (s : os.State) → Call os s (state_of (os.write_temp p c s))
  chmod_temp : (p : FilePath) (m : ℕ) (s : os.State) → Call os s (state_of (os.chmod_temp p m s))
  close_temp : (p : FilePath) (s : os.State) → Call os s (state_of (os.close_temp p s))
  rename : (a b : FilePath) (s : os.State) → Call os s (state_of (os.rename a b s))
  remove : (p : FilePath) (s : os.State) → Call os s (state_of (os.remove p s))
