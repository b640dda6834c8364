-- ===== src/Resource/KernelModule.antt =====
-- internal/resource/kmod.go
pub mod Laws
pub mod Settles
use node_configurator.Prelude.{
  ℕ, Bool, true, false, not, ◌&&◌, List, [], ◌∷◌, ◌++◌, if◌then◌else◌, Option, none, some,
}
use node_configurator.Text.{Text, codes, is_nil, text_eq, join, fields, contains}
use node_configurator.Text.Sort.{sort}
use node_configurator.Text.Scan.{Scanned, scan_lines}
use node_configurator.System.{
  FilePath, Error, Fallible, value, failure, Outcome, done, fail, ◌>>=◌, ◌>>◌, or_errorf, errorf,
  return, Os,
}
use node_configurator.System.Loop.{for_each}
use node_configurator.Sysutil.Paths.{Env, path, show_path}
use node_configurator.Sysutil.Distro.{scan_error}
use node_configurator.Sysutil.Atomic.{write_file_if_changed}
use node_configurator.Resource.{
  unchanged, would_change, skipped, Result, Checked, Resource, result_of, checked, check_failed,
  join_details,
}

pub record KernelModuleResource : Type 0 where
  pub env : Env
  pub modules : List Text
  -- `none` for the empty string, which disables persistence
  pub persist_file : Option FilePath

-- `KernelModuleResource.Name`
abbrev pub kernel_modules_name : Text
kernel_modules_name = codes "kernel-modules"

-- `wantModules`
unfoldable pub want_modules : List Text → List Text
want_modules modules = sort modules

-- The first field of each line that has one.
unfoldable pub first_fields : List Text → List Text
first_fields [] = []
first_fields (line ∷ lines) =
    let rest = first_fields lines in elim (fields line) [ [] ↦ rest | f ∷ _ ↦ f ∷ rest ]

module_lines : List Text → Text
module_lines [] = []
module_lines (m ∷ ms) = m ++ b'\n' ∷ module_lines ms

-- `renderModulesFile`
unfoldable pub render_modules_file : List Text → Text
unfolding module_lines
render_modules_file ms =
    codes "# Managed by node-configurator. Local edits will be overwritten.\n" ++ module_lines ms

-- The modules that are not in the map of loaded ones.
unfoldable pub missing_modules : List Text → List Text → List Text
missing_modules loaded [] = []
missing_modules loaded (m ∷ ms) =
    let rest = missing_modules loaded ms in if contains loaded m then rest else m ∷ rest

module _ (os : Os) (r : KernelModuleResource) where
  open os use {State, read_file, run}

  -- `loadedModules`
  unfoldable pub loaded_modules : State → Fallible (List Text)
  loaded_modules s = elim (read_file s (path r.env (codes "proc" ∷ codes "modules" ∷ []))) [
    | failure e ↦ failure (errorf (codes "reading /proc/modules") e)
    | value content ↦
        let scanned = scan_lines content in
        elim (scan_error scanned.too_long) [
          | some e ↦ failure e
          | none ↦ value (first_fields scanned.lines)
        ]
  ]

  -- `persistNeeded`, for a persist file
  unfoldable pub is_stale : Option FilePath → State → Bool
  is_stale none s = false
  is_stale (some file) s = elim (read_file s file) [
    | failure _ ↦ true
    | value existing ↦ not (text_eq existing (render_modules_file (want_modules r.modules)))
  ]

  -- The rest of `Check` once the modules that are missing are known.
  unfoldable pub report_missing : List Text → Bool → Result
  report_missing missing persist_drift =
      if is_nil missing && not persist_drift
      then result_of kernel_modules_name unchanged []
      else let detail =
          if is_nil missing then [] else codes "not loaded: " ++ join (codes ", ") missing in
        result_of kernel_modules_name would_change (
          if persist_drift
          then join_details (detail ∷ codes "drop-in file out of date" ∷ [])
          else detail)

  -- `Check`
  unfoldable pub check : State → Checked State
  check s =
      if is_nil r.modules
      then checked (result_of kernel_modules_name skipped (codes "no modules configured")) s
      else elim (loaded_modules s) [
        | failure e ↦ check_failed kernel_modules_name e s
        | value loaded ↦
            checked
              (report_missing (missing_modules loaded (want_modules r.modules))
                (is_stale r.persist_file s))
              s
      ]

  -- One round of the loop of `Apply`.
  unfoldable pub load_module : List Text → Text → State → Outcome State (Unit {0})
  load_module loaded m s =
      if contains loaded m
      then done tt s
      else (or_errorf (codes "modprobe " ++ m) (run (codes "modprobe") (m ∷ [])) >>= λ _. return tt)
          s

  -- The loop of `Apply`, which the first error ends.
  unfoldable pub load_modules : List Text → List Text → State → Outcome State (Unit {0})
  unfolding for_each
  load_modules loaded = for_each (load_module loaded)

  -- The end of `Apply`, for a persist file.
  unfoldable pub persist_to : Option FilePath → State → Outcome State (Unit {0})
  persist_to none = return tt
  persist_to (some file) =
      or_errorf (codes "persisting modules-load.d drop-in " ++ show_path file)
        (write_file_if_changed os file (render_modules_file (want_modules r.modules)) 0o644)
      >>= λ _. return tt

  -- `Apply`
  unfoldable pub apply : State → Outcome State (Unit {0})
  apply s = elim (loaded_modules s) [
    | failure e ↦ fail e s
    | value loaded ↦ (load_modules loaded (want_modules r.modules) >> persist_to r.persist_file) s
  ]

  abbrev pub kernel_module_resource : Resource State
  kernel_module_resource = record { name = kernel_modules_name; check = check; apply = apply }
