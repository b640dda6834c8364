-- ===== src/Sysutil/Atomic.antt =====
-- internal/sysutil/atomic.go: whole files, written by way of a temporary file and a rename.
pub mod Temp
pub mod Laws
pub mod Backup
pub mod Invariant
use node_configurator.Prelude.{
  ℕ, Bool, true, false, List, [], ◌∷◌, ◌++◌, if◌then◌else◌, Option, none, some,
}
use node_configurator.Text.{Text, codes, text_eq}
use node_configurator.System.{
  FilePath, Error, Fallible, value, failure, Outcome, done, fail, ◌>>=◌, ◌>>◌, state_of, or_errorf,
  errorf, return, Os,
}
use node_configurator.Sysutil.Paths.{dir, base, show_path, with_suffix}

-- `"." + filepath.Base(path) + ".tmp-*"`, without the star
abbrev pub temp_prefix : FilePath → Text
temp_prefix path = b'.' ∷ (base path ++ codes ".tmp-")

module _ (os : Os) where
  open os use {
    State, read_file, stat, mkdir_all, create_temp, write_temp, chmod_temp, close_temp, rename,
    remove, write_file,
  }

  -- `ReadFileString`
  abbrev pub read_file_string : State → FilePath → Fallible Text
  read_file_string s path = read_file s path

  -- `defer func() { _ = os.Remove(tmpPath) }()` around what follows it.
  unfoldable pub then_remove :
      {A : Type 0} → FilePath → (State → Outcome State A) → State → Outcome State A
  then_remove tmp m s = elim (m s) [
    | done a t ↦ done a (state_of (remove tmp t))
    | fail e t ↦ fail e (state_of (remove tmp t))
  ]

  -- A step on the open temporary file, which is closed if the step fails.
  unfoldable pub or_close :
      FilePath → (State → Outcome State (Unit {0})) → State → Outcome State (Unit {0})
  or_close tmp m s = elim (m s) [
    | done u t ↦ done u t
    | fail e t ↦ fail e (state_of (close_temp tmp t))
  ]

  -- From the write to the temporary file up to the rename.
  unfoldable pub fill_and_rename : FilePath → Text → ℕ → FilePath → State → Outcome State Bool
  unfolding or_close
  fill_and_rename path content mode tmp = do
    or_errorf (codes "writing temp file for " ++ show_path path)
        (or_close tmp (write_temp tmp content))
    or_errorf (codes "chmod temp file for " ++ show_path path) (or_close tmp (chmod_temp tmp mode))
    or_errorf (codes "closing temp file for " ++ show_path path) (close_temp tmp)
    or_errorf (codes "renaming temp file into " ++ show_path path) (rename tmp path)
    return true

  unfoldable pub replace_file : FilePath → Text → ℕ → State → Outcome State Bool
  unfolding fill_and_rename then_remove
  replace_file path content mode = do
    or_errorf (codes "creating parent dir for " ++ show_path path) (mkdir_all (dir path))
    tmp ←
        or_errorf (codes "creating temp file for " ++ show_path path)
          (create_temp (dir path) (temp_prefix path ++ codes "*"))
    then_remove tmp (fill_and_rename path content mode tmp)

  -- `WriteFileIfChanged`
  unfoldable pub write_file_if_changed : FilePath → Text → ℕ → State → Outcome State Bool
  unfolding replace_file
  write_file_if_changed path content mode s = elim (read_file s path) [
    | value existing ↦
        if text_eq existing content then done false s else replace_file path content mode s
    | failure e ↦
        if e.not_exist
        then replace_file path content mode s
        else fail (errorf (codes "reading " ++ show_path path) e) s
  ]

  -- `BackupFile`
  unfoldable pub backup_file : FilePath → State → Outcome State (Unit {0})
  backup_file path s = elim (read_file s path) [
    | failure e ↦
        if e.not_exist
        then done tt s
        else fail (errorf (codes "reading " ++ (show_path path ++ codes " for backup")) e) s
    | value content ↦ elim (stat s (with_suffix path (codes ".node-configurator.orig"))) [
      | none ↦ done tt s
      | some _ ↦ write_file (with_suffix path (codes ".node-configurator.orig")) content s
    ]
  ]
