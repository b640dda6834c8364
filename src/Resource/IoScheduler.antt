-- ===== src/Resource/IoScheduler.antt =====
-- internal/resource/ioscheduler.go
pub mod Active
pub mod Settles
use node_configurator.Prelude.{
  Bool, false, not, ◌&&◌, ◌||◌, ◌==◌, List, [], ◌∷◌, ◌++◌, if◌then◌else◌, Option, none, some,
}
use node_configurator.Text.{
  Text, codes, is_nil, text_eq, has_prefix, ends_in, fields, trim_space, trim, join, contains,
}
use node_configurator.Text.Number.{is_digit}
use node_configurator.System.{
  FilePath, Fallible, value, failure, Outcome, done, fail, ◌>>◌, or_errorf, errorf, return, Os,
}
use node_configurator.System.Loop.{for_each}
use node_configurator.Sysutil.Paths.{Env, path}
use node_configurator.Resource.{
  unchanged, would_change, skipped, Checked, Resource, result_of, checked, check_failed,
}

-- `IOSchedulerResource.Name`
abbrev pub io_scheduler_name : Text
io_scheduler_name = codes "io-scheduler"

-- What follows the digits at the start of a text, if there is one.
unfoldable pub after_digits : Text → Option Text
after_digits [] = none
after_digits (c ∷ s) =
    let more = after_digits s in
    if is_digit c then elim more [ some rest ↦ some rest | none ↦ some s ] else none

-- What follows a prefix.
unfoldable pub after_prefix : Text → Text → Option Text
after_prefix [] s = some s
after_prefix (_ ∷ _) [] = none
after_prefix (d ∷ p) (c ∷ s) = if c == d then after_prefix p s else none

abbrev and_then : Option Text → (Text → Option Text) → Option Text
and_then none f = none
and_then (some s) f = f s

-- A match of `^nvme\d+n\d+$`. No digit is an `n`, so that each class takes all the digits.
unfoldable pub is_nvme_whole_disk : Text → Bool
is_nvme_whole_disk name =
    elim (and_then
      (and_then (and_then (after_prefix (codes "nvme") name) after_digits)
        (after_prefix (codes "n")))
      after_digits) [ some rest ↦ is_nil rest | none ↦ false ]

unfoldable pub nvme_names : List Text → List Text
nvme_names [] = []
nvme_names (name ∷ names) =
    let rest = nvme_names names in if is_nvme_whole_disk name then name ∷ rest else rest

-- The active scheduler and the ones that a device offers.
pub record Offer : Type 0 where
  pub current : Text
  pub available : List Text

abbrev is_bracketed : Text → Bool
is_bracketed field = has_prefix field (codes "[") && ends_in b']' field

-- One round of the loop of `readScheduler`.
unfoldable pub scheduler_field : Text → Offer → Offer
scheduler_field field o =
    let name = trim (b'[' ∷ b']' ∷ []) field in
    if is_bracketed field
    then record { current = name; available = o.available ++ name ∷ [] }
    else record o { available = o.available ++ field ∷ [] }

unfoldable pub scheduler_fields : List Text → Offer → Offer
scheduler_fields [] o = o
scheduler_fields (field ∷ more) o = scheduler_fields more (scheduler_field field o)

unfoldable pub parse_scheduler : Text → Offer
parse_scheduler raw =
    scheduler_fields (fields (trim_space raw)) (record { current = []; available = [] })

module _ (os : Os) (env : Env) (scheduler : Text) where
  open os use {State, read_file, read_dir, write_file}

  -- `schedulerPath`
  unfoldable pub scheduler_path : Text → FilePath
  scheduler_path dev =
      path env (codes "sys" ∷ codes "block" ∷ dev ∷ codes "queue" ∷ codes "scheduler" ∷ [])

  -- `readScheduler`
  unfoldable pub read_scheduler : State → Text → Fallible Offer
  read_scheduler s dev = elim (read_file s (scheduler_path dev)) [
    | failure e ↦ failure e
    | value raw ↦ value (parse_scheduler raw)
  ]

  -- `nvmeDevices`
  unfoldable pub nvme_devices : State → Fallible (List Text)
  nvme_devices s = elim (read_dir s (path env (codes "sys" ∷ codes "block" ∷ []))) [
    | failure e ↦ if e.not_exist then value [] else failure (errorf (codes "reading /sys/block") e)
    | value names ↦ value (nvme_names names)
  ]

  -- The current scheduler of a device that is to be changed: the guards of both loops.
  unfoldable pub drifts : State → Text → Option Text
  drifts s dev = elim (read_scheduler s dev) [
    | failure _ ↦ none
    | value o ↦
        if text_eq o.current scheduler || not (contains o.available scheduler)
        then none
        else some o.current
  ]

  -- The loop of `Check`.
  unfoldable pub drift_of : State → List Text → List Text
  drift_of s [] = []
  drift_of s (dev ∷ devs) =
      let rest = drift_of s devs in
      elim (drifts s dev) [
        | none ↦ rest
        | some cur ↦ (dev ++ (codes ": " ++ (cur ++ (codes " -> " ++ scheduler)))) ∷ rest
      ]

  -- The end of `Check`, for the devices that are found.
  unfoldable pub check_devices : State → List Text → Checked State
  check_devices s devices =
      if is_nil devices
      then checked (result_of io_scheduler_name skipped (codes "no NVMe block devices found")) s
      else if is_nil (drift_of s devices)
      then checked (result_of io_scheduler_name unchanged []) s
      else checked
          (result_of io_scheduler_name would_change (join (codes ", ") (drift_of s devices))) s

  -- `Check`
  unfoldable pub check : State → Checked State
  check s =
      if is_nil scheduler
      then checked (result_of io_scheduler_name skipped (codes "disabled")) s
      else elim (nvme_devices s) [
        | failure e ↦ check_failed io_scheduler_name e s
        | value devices ↦ check_devices s devices
      ]

  -- One round of the loop of `Apply`.
  unfoldable pub set_scheduler : Text → State → Outcome State (Unit {0})
  set_scheduler dev s = elim (drifts s dev) [
    | none ↦ done tt s
    | some _ ↦
        or_errorf (codes "setting scheduler for " ++ dev)
          (write_file (scheduler_path dev) scheduler) s
  ]

  -- The loop of `Apply`, which the first error ends.
  unfoldable pub set_schedulers : List Text → State → Outcome State (Unit {0})
  unfolding for_each
  set_schedulers = for_each set_scheduler

  -- `Apply`
  unfoldable pub apply : State → Outcome State (Unit {0})
  apply s =
      if is_nil scheduler
      then done tt s
      else elim (nvme_devices s) [ failure e ↦ fail e s | value devices ↦ set_schedulers devices s ]

  abbrev pub io_scheduler_resource : Resource State
  io_scheduler_resource = record { name = io_scheduler_name; check = check; apply = apply }
