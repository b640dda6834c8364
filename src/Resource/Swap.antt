-- ===== src/Resource/Swap.antt =====
-- internal/resource/swap.go
pub mod Laws
pub mod Off
pub mod Disabled
use node_configurator.Prelude.{
  ℕ, Bool, true, false, not, ◌&&◌, List, [], ◌∷◌, ◌++◌, if◌then◌else◌, Option, none, some,
}
use node_configurator.Text.{Text, codes, is_nil, join}
use node_configurator.Text.Scan.{Scanned, scan_lines}
use node_configurator.System.{
  FilePath, Error, Fallible, value, failure, Outcome, done, fail, ◌>>=◌, ◌>>◌, or_errorf, errorf,
  return, Os,
}
use node_configurator.System.Loop.{for_each}
use node_configurator.Sysutil.Paths.{Env, path}
use node_configurator.Sysutil.Distro.{scan_error}
use node_configurator.Sysutil.Atomic.{write_file_if_changed, backup_file}
use node_configurator.Resource.{
  unchanged, would_change, Result, Checked, Resource, result_of, checked, check_failed,
  join_details,
}
use node_configurator.Resource.KernelModule.{first_fields}
use node_configurator.Resource.Fstab.{fstab_path, fstab_has_active_swap_lines, comment_swap_lines}

-- `SwapResource.Name`
abbrev pub swap_name : Text
swap_name = codes "swap"

-- The lines after the header.
unfoldable pub without_header : List Text → List Text
without_header [] = []
without_header (header ∷ lines) = lines

-- The result of `Check`, from the devices, the state of fstab, and the units.
unfoldable pub report_swap : List Text → Bool → List Text → Result
report_swap active fstab_drift units =
    if is_nil active && (not fstab_drift && is_nil units)
    then result_of swap_name unchanged []
    else let detail =
        if is_nil active then [] else codes "active swap: " ++ join (codes ", ") active in
      let with_fstab =
        if fstab_drift
        then join_details (detail ∷ codes "/etc/fstab has active swap entries" ∷ [])
        else detail in
      result_of swap_name would_change (
        if is_nil units
        then with_fstab
        else join_details
            (with_fstab ∷ (codes "active swap units: " ++ join (codes ", ") units) ∷ []))

module _ (os : Os) (env : Env) where
  open os use {State, read_file, run}

  -- `activeSwapDevices`
  unfoldable pub active_swap_devices : State → Fallible (List Text)
  active_swap_devices s = elim (read_file s (path env (codes "proc" ∷ codes "swaps" ∷ []))) [
    | failure e ↦ failure (errorf (codes "reading /proc/swaps") e)
    | value content ↦
        let scanned = scan_lines content in
        elim (scan_error scanned.too_long) [
          | some e ↦ failure e
          | none ↦ value (first_fields (without_header scanned.lines))
        ]
  ]

  -- The units, and the state that the command leaves.
  abbrev units_of : Outcome State Text → List Text × State
  units_of (done out t) = (first_fields (scan_lines out).lines, t)
  units_of (fail e t) = ([], t)

  -- `activeSwapUnits`
  unfoldable pub active_swap_units : State → List Text × State
  active_swap_units s = units_of (
      run (codes "systemctl")
        (codes "list-units" ∷ codes "--type=swap" ∷ codes "--no-legend" ∷ codes "--plain" ∷ []) s)

  -- The content of fstab, or the empty text if it cannot be read.
  unfoldable pub fstab_content : State → Text
  fstab_content s = elim (read_file s (fstab_path env)) [ value content ↦ content | failure _ ↦ [] ]

  -- `Check`
  unfoldable pub check : State → Checked State
  check s = elim (active_swap_devices s) [
    | failure e ↦ check_failed swap_name e s
    | value active ↦
        let (units, t) = active_swap_units s in
        checked (report_swap active (fstab_has_active_swap_lines (fstab_content s)) units) t
  ]

  -- The end of `commentFstabSwapLines`.
  unfoldable pub rewrite_fstab : Text → State → Outcome State (Unit {0})
  rewrite_fstab content = do
    or_errorf (codes "backing up /etc/fstab") (backup_file os (fstab_path env))
    or_errorf (codes "writing /etc/fstab")
          (write_file_if_changed os (fstab_path env) (comment_swap_lines content) 0o644)
        >>= λ _. return tt

  -- `commentFstabSwapLines`
  unfoldable pub comment_fstab_swap_lines : State → Outcome State (Unit {0})
  comment_fstab_swap_lines s = elim (read_file s (fstab_path env)) [
    | failure e ↦ if e.not_exist then done tt s else fail (errorf (codes "reading /etc/fstab") e) s
    | value content ↦
        if not (fstab_has_active_swap_lines content) then done tt s else rewrite_fstab content s
  ]

  -- One round of the loop at the end of `Apply`.
  unfoldable pub mask_unit : Text → State → Outcome State (Unit {0})
  mask_unit unit =
      or_errorf (codes "systemctl mask " ++ unit)
        (run (codes "systemctl") (codes "mask" ∷ unit ∷ []))
      >>= λ _. return tt

  -- The loop at the end of `Apply`, which the first error ends.
  unfoldable pub mask_units : List Text → State → Outcome State (Unit {0})
  unfolding for_each
  mask_units = for_each mask_unit

  unfoldable pub mask_active_units : State → Outcome State (Unit {0})
  mask_active_units s = let (units, t) = active_swap_units s in mask_units units t

  unfoldable pub swap_off : List Text → State → Outcome State (Unit {0})
  swap_off active s =
      if is_nil active
      then done tt s
      else (or_errorf (codes "swapoff -a") (run (codes "swapoff") (codes "-a" ∷ [])) >>= λ _.
            return tt)
          s

  -- `Apply`
  unfoldable pub apply : State → Outcome State (Unit {0})
  apply s = elim (active_swap_devices s) [
    | failure e ↦ fail e s
    | value active ↦ (swap_off active >> (comment_fstab_swap_lines >> mask_active_units)) s
  ]

  abbrev pub swap_resource : Resource State
  swap_resource = record { name = swap_name; check = check; apply = apply }
