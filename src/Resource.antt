-- ===== src/Resource.antt =====
-- internal/resource/resource.go: statuses, results, and the interface that the engine runs.
pub mod Sysctl
pub mod DropInFile
pub mod Limits
pub mod KernelModule
pub mod CgroupV2
pub mod Fstab
pub mod Swap
pub mod Mount
pub mod CpuGovernor
pub mod IoScheduler
pub mod IrqAffinity
pub mod CpuMask
pub mod RingParams
pub mod Nic
use node_configurator.Prelude.{
  ℕ, zero, suc, ◌-◌, Bool, true, false, ◌||◌, List, [], ◌∷◌, ◌++◌, if◌then◌else◌, Option, none,
  some, length,
}
use node_configurator.Text.{Text, codes, is_nil, join}
use node_configurator.System.{Error, Outcome}

pub data Status : Type 0 where
  unchanged would_change changed failed skipped reboot_required : Status

-- The text of a status.
unfoldable pub show_status : Status → Text
show_status unchanged = codes "unchanged"
show_status would_change = codes "would_change"
show_status changed = codes "changed"
show_status failed = codes "failed"
show_status skipped = codes "skipped"
show_status reboot_required = codes "reboot_required"

-- `Status.Changed`
unfoldable pub is_changed : Status → Bool
is_changed changed = true
is_changed would_change = true
is_changed _ = false

-- `res.Status == resource.StatusFailed`
unfoldable pub is_failed : Status → Bool
is_failed failed = true
is_failed _ = false

-- `res.Status == resource.StatusWouldChange`
unfoldable pub is_would_change : Status → Bool
is_would_change would_change = true
is_would_change _ = false

pub record Result : Type 0 where
  pub name : Text
  pub status : Status
  pub detail : Text

spaces : ℕ → Text
spaces zero = []
spaces (suc n) = 0x20 ∷ spaces n

-- The verb `%-<width>s`.
pad : ℕ → Text → Text
unfolding spaces
pad width s = s ++ spaces (width - length s)

-- `Result.String`
unfoldable pub show_result : Result → Text
unfolding pad show_status
show_result r =
    if is_nil r.detail
    then pad 28 r.name ++ 0x20 ∷ show_status r.status
    else pad 28 r.name ++ 0x20 ∷ (pad 16 (show_status r.status) ++ 0x20 ∷ r.detail)

-- What `Check` returns, `(Result, error)`, and the state that it leaves.
pub record Checked (S : Type 0) : Type 0 where
  pub result : Result
  pub error : Option Error
  pub state : S

-- The interface `Resource`.
pub record Resource (S : Type 0) : Type 0 where
  pub name : Text
  pub check : S → Checked S
  pub apply : S → Outcome S (Unit {0})

-- The fragments that are not empty.
keep_nonempty : List Text → List Text
keep_nonempty [] = []
keep_nonempty (f ∷ fs) = let rest = keep_nonempty fs in if is_nil f then rest else f ∷ rest

-- `joinDetails`
unfoldable pub join_details : List Text → Text
unfolding keep_nonempty join
join_details fragments = join (codes "; ") (keep_nonempty fragments)

-- A result with no error and no detail, or with a detail.
abbrev pub result_of : Text → Status → Text → Result
result_of name status detail = record { name = name; status = status; detail = detail }

abbrev pub checked : {S : Type 0} → Result → S → Checked S
checked r s = record { result = r; error = none; state = s }

-- `return Result{…, Status: StatusFailed, Detail: err.Error()}, err`
abbrev pub check_failed : {S : Type 0} → Text → Error → S → Checked S
check_failed name e s = record {
  result = result_of name failed e.message;
  error = some e;
  state = s;
}
