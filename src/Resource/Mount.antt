-- ===== src/Resource/Mount.antt =====
-- internal/resource/mount.go
pub mod Laws
pub mod Settles
use node_configurator.Prelude.{
  ℕ, Bool, true, false, not, ◌&&◌, ◌||◌, List, [], ◌∷◌, ◌++◌, if◌then◌else◌, Option, none, some,
}
use node_configurator.Text.{Text, codes, is_nil, text_eq, fields}
use node_configurator.Text.Scan.{Scanned, scan_lines}
use node_configurator.System.{
  FilePath, Error, Fallible, value, failure, Outcome, done, fail, ◌>>=◌, ◌>>◌, or_errorf, errorf,
  return, Os,
}
use node_configurator.Sysutil.Paths.{Env, path, filepath_join}
use node_configurator.Sysutil.Distro.{scan_error}
use node_configurator.Sysutil.Atomic.{write_file_if_changed, backup_file}
use node_configurator.Resource.{
  unchanged, would_change, Result, Checked, Resource, result_of, checked, check_failed,
  join_details,
}
use node_configurator.Resource.Fstab.{fstab_path, fstab_line_exists, fstab_entry, append_entry}

pub record MountResource : Type 0 where
  pub env : Env
  pub resource_name : Text
  pub device : Text
  pub mount_point : Text
  pub fs_type : Text
  pub options : Text
  pub fstab_persist : Bool

-- A line of /proc/mounts for the mount point and the type.
unfoldable pub is_mount_line : Text → Text → Text → Bool
is_mount_line mount_point fs_type line = elim (fields line) [
  | device ∷ more ↦ elim more [
    | point ∷ others ↦ elim others [
      | kind ∷ _ ↦ text_eq point mount_point && text_eq kind fs_type
      | [] ↦ false
    ]
    | [] ↦ false
  ]
  | [] ↦ false
]

-- Some line of the loop of `isMounted` ends it.
unfoldable pub any_mount_line : Text → Text → List Text → Bool
any_mount_line mount_point fs_type [] = false
any_mount_line mount_point fs_type (line ∷ lines) =
    is_mount_line mount_point fs_type line || any_mount_line mount_point fs_type lines

module _ (os : Os) (r : MountResource) where
  open os use {State, read_file, run, mkdir_all}

  -- `isMounted`
  unfoldable pub is_mounted : State → Fallible Bool
  is_mounted s = elim (read_file s (path r.env (codes "proc" ∷ codes "mounts" ∷ []))) [
    | failure e ↦ failure (errorf (codes "reading /proc/mounts") e)
    | value content ↦
        let scanned = scan_lines content in
        if any_mount_line r.mount_point r.fs_type scanned.lines
        then value true
        else elim (scan_error scanned.too_long) [ some e ↦ failure e | none ↦ value false ]
  ]

  -- `existing, _ := ReadFileString(…)`
  unfoldable pub fstab_content : State → Text
  fstab_content s = elim (read_file s (fstab_path r.env)) [
    | value content ↦ content
    | failure _ ↦ []
  ]

  -- The result of `Check`, from what is mounted and what fstab holds.
  unfoldable pub report_mount : Bool → Bool → Result
  report_mount mounted fstab_drift =
      if mounted && not fstab_drift
      then result_of r.resource_name unchanged []
      else let detail =
          if mounted then [] else r.fs_type ++ (codes " not mounted at " ++ r.mount_point) in
        result_of r.resource_name would_change (
          if fstab_drift
          then join_details (detail ∷ codes "missing /etc/fstab entry" ∷ [])
          else detail)

  -- `Check`
  unfoldable pub check : State → Checked State
  check s = elim (is_mounted s) [
    | failure e ↦ check_failed r.resource_name e s
    | value mounted ↦
        checked
          (report_mount mounted
            (r.fstab_persist && not (fstab_line_exists (fstab_content s) r.mount_point)))
          s
  ]

  -- The arguments of `mount`.
  unfoldable pub mount_args : List Text
  mount_args =
      let args = codes "-t" ∷ r.fs_type ∷ r.device ∷ r.mount_point ∷ [] in
      if is_nil r.options then args else codes "-o" ∷ r.options ∷ args

  -- What `Apply` does where nothing is mounted. The mount point is not below the root directory of
  -- `Env`, other than the files that are read.
  unfoldable pub mount_now : State → Outcome State (Unit {0})
  mount_now = do
    or_errorf (codes "creating mount point " ++ r.mount_point)
        (mkdir_all (filepath_join (r.mount_point ∷ [])))
    or_errorf (codes "mounting " ++ (r.fs_type ++ (codes " at " ++ r.mount_point)))
          (run (codes "mount") mount_args)
        >>= λ _. return tt

  -- The end of `persistFstab`.
  unfoldable pub add_to_fstab : Text → State → Outcome State (Unit {0})
  add_to_fstab existing = do
    or_errorf (codes "backing up /etc/fstab") (backup_file os (fstab_path r.env))
    or_errorf (codes "writing /etc/fstab") (
          write_file_if_changed os (fstab_path r.env)
            (append_entry existing (fstab_entry r.device r.mount_point r.fs_type r.options)) 0o644)
        >>= λ _. return tt

  unfoldable pub add_if_missing : Text → State → Outcome State (Unit {0})
  add_if_missing existing s =
      if fstab_line_exists existing r.mount_point then done tt s else add_to_fstab existing s

  -- `persistFstab`
  unfoldable pub persist_fstab : State → Outcome State (Unit {0})
  persist_fstab s = elim (read_file s (fstab_path r.env)) [
    | failure e ↦
        if e.not_exist then add_if_missing [] s else fail (errorf (codes "reading /etc/fstab") e) s
    | value existing ↦ add_if_missing existing s
  ]

  unfoldable pub mount_if_missing : Bool → State → Outcome State (Unit {0})
  mount_if_missing mounted s = if mounted then done tt s else mount_now s

  unfoldable pub persist_if_wanted : Bool → State → Outcome State (Unit {0})
  persist_if_wanted wanted s = if wanted then persist_fstab s else done tt s

  -- `Apply`
  unfoldable pub apply : State → Outcome State (Unit {0})
  apply s = elim (is_mounted s) [
    | failure e ↦ fail e s
    | value mounted ↦ (mount_if_missing mounted >> persist_if_wanted r.fstab_persist) s
  ]

  abbrev pub mount_resource : Resource State
  mount_resource = record { name = r.resource_name; check = check; apply = apply }
