-- ===== src/Sysutil/Procsys.antt =====
-- internal/sysutil/procsys.go: sysctl keys as files below /proc/sys.
pub mod Laws
use node_configurator.Prelude.{
  ℕ, Bool, true, false, ◌&&◌, List, [], ◌∷◌, ◌++◌, ◌==◌, if◌then◌else◌, Option, none, some,
}
use node_configurator.Text.{Text, codes, split, trim_space}
use node_configurator.System.{
  FilePath, Error, Fallible, value, failure, Outcome, done, fail, errorf, Os,
}
use node_configurator.Sysutil.Paths.{Env, path}

-- `strings.ReplaceAll(key, "..", "")`
unfoldable pub strip_parents : Text → Text
strip_parents [] = []
strip_parents (c ∷ []) = c ∷ []
strip_parents (c ∷ d ∷ s) = elim (c == b'.' && d == b'.') [
  | true ↦ strip_parents s
  | false ↦ c ∷ strip_parents (d ∷ s)
]

-- `strings.ReplaceAll(key, "/", "")`
unfoldable pub strip_slashes : Text → Text
strip_slashes [] = []
strip_slashes (c ∷ s) = let rest = strip_slashes s in if c == b'/' then rest else c ∷ rest

-- `SysctlPath`
unfoldable pub sysctl_path : Env → Text → FilePath
unfolding strip_parents strip_slashes split
sysctl_path env key =
    path env (codes "proc" ∷ codes "sys" ∷ split b'.' (strip_slashes (strip_parents key)))

module _ (os : Os) (env : Env) where
  open os use {State, read_file, stat, write_file}

  -- `ReadSysctl`
  unfoldable pub read_sysctl : State → Text → Fallible Text
  read_sysctl s key = elim (read_file s (sysctl_path env key)) [
    | value content ↦ value (trim_space content)
    | failure e ↦ failure e
  ]

  -- `SysctlExists`
  unfoldable pub sysctl_exists : State → Text → Bool
  sysctl_exists s key = elim (stat s (sysctl_path env key)) [ none ↦ true | some _ ↦ false ]

  -- `WriteSysctl`
  unfoldable pub write_sysctl : Text → Text → State → Outcome State (Unit {0})
  write_sysctl key text s = elim (stat s (sysctl_path env key)) [
    | some e ↦ fail (errorf (codes "sysctl " ++ (key ++ codes " not available on this kernel")) e) s
    | none ↦ write_file (sysctl_path env key) text s
  ]
