-- ===== src/Resource/CpuGovernor.antt =====
-- internal/resource/cpugovernor.go
pub mod Settles
use node_configurator.Prelude.{ℕ, suc, ◌==◌, List, [], ◌∷◌, ◌++◌, if◌then◌else◌, length}
use node_configurator.Text.{Text, codes, is_nil, text_eq, trim_space}
use node_configurator.Text.Number.{itoa}
use node_configurator.Text.Quote.{quote}
use node_configurator.System.{
  FilePath, Fallible, value, failure, Outcome, done, fail, ◌>>◌, or_errorf, return, Os,
}
use node_configurator.System.Loop.{for_each}
use node_configurator.Sysutil.Paths.{Env, path, show_path}
use node_configurator.Resource.{
  unchanged, would_change, skipped, Checked, Resource, result_of, checked, check_failed,
}

-- `CPUGovernorResource.Name`
abbrev pub cpu_governor_name : Text
cpu_governor_name = codes "cpu-governor"

module _ (os : Os) (env : Env) (governor : Text) where
  open os use {State, read_file, glob, write_file}

  -- `governorPaths`
  unfoldable pub governor_paths : State → Fallible (List FilePath)
  governor_paths s = glob s (
      path env (
        codes "sys"
        ∷ codes "devices"
        ∷ codes "system"
        ∷ codes "cpu"
        ∷ codes "cpu[0-9]*"
        ∷ codes "cpufreq"
        ∷ codes "scaling_governor"
        ∷ []))

  -- How many of the files that can be read name another governor.
  unfoldable pub count_drift : State → List FilePath → ℕ
  count_drift s [] = 0
  count_drift s (p ∷ ps) =
      let rest = count_drift s ps in
      elim (read_file s p) [
        | failure _ ↦ rest
        | value cur ↦ if text_eq (trim_space cur) governor then rest else suc rest
      ]

  -- The end of `Check`, for the paths that are found.
  unfoldable pub check_paths : State → List FilePath → Checked State
  check_paths s paths =
      if is_nil paths
      then checked
          (result_of cpu_governor_name skipped
            (codes "no adjustable cpufreq governor on this host"))
          s
      else if count_drift s paths == 0
      then checked (result_of cpu_governor_name unchanged []) s
      else checked
          (result_of cpu_governor_name would_change (
            itoa (count_drift s paths)
            ++ (codes " of "
                ++ (itoa (length paths)
                    ++ (codes " CPUs not on " ++ (quote governor ++ codes " governor"))))))
          s

  -- `Check`
  unfoldable pub check : State → Checked State
  check s =
      if is_nil governor
      then checked (result_of cpu_governor_name skipped (codes "disabled")) s
      else elim (governor_paths s) [
        | failure e ↦ check_failed cpu_governor_name e s
        | value paths ↦ check_paths s paths
      ]

  unfoldable pub write_governor : FilePath → State → Outcome State (Unit {0})
  write_governor p =
      or_errorf (codes "setting governor via " ++ show_path p) (write_file p governor)

  -- One round of the loop of `Apply`.
  unfoldable pub set_governor : FilePath → State → Outcome State (Unit {0})
  set_governor p s = elim (read_file s p) [
    | failure _ ↦ write_governor p s
    | value cur ↦ if text_eq (trim_space cur) governor then done tt s else write_governor p s
  ]

  -- The loop of `Apply`, which the first error ends.
  unfoldable pub set_governors : List FilePath → State → Outcome State (Unit {0})
  unfolding for_each
  set_governors = for_each set_governor

  -- `Apply`
  unfoldable pub apply : State → Outcome State (Unit {0})
  apply s =
      if is_nil governor
      then done tt s
      else elim (governor_paths s) [ failure e ↦ fail e s | value paths ↦ set_governors paths s ]

  abbrev pub cpu_governor_resource : Resource State
  cpu_governor_resource = record { name = cpu_governor_name; check = check; apply = apply }
