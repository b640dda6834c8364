-- ===== src/Profile.antt =====
-- internal/profile/types.go: the desired state of a host.
pub mod Base
pub mod Scaling
pub mod Cilium
pub mod Merge
use node_configurator.Prelude.{ℕ, Bool, List, ℤ}
use node_configurator.Text.{Text}
use node_configurator.Text.Dict.{Dict}

-- Zero for `no_file` disables the limits, and zero for `nproc` stands for no limit.
pub record LimitsSpec : Type 0 where
  pub no_file : ℕ
  pub nproc : ℕ

pub record MountSpec : Type 0 where
  pub name : Text
  pub device : Text
  pub path : Text
  pub fs_type : Text
  pub options : Text
  pub fstab_persist : Bool

pub record HugePagesSpec : Type 0 where
  pub enabled : Bool
  pub count_2m : ℤ

pub record NicSpec : Type 0 where
  pub ring_buffer_max : Bool
  pub rps : Bool
  pub xps : Bool

pub record IoSchedulerSpec : Type 0 where
  pub enabled : Bool
  pub scheduler : Text

-- `IRQSpec` and `SwapSpec` have one flag each, which stands for them here.
pub record Profile : Type 0 where
  pub sysctls : Dict Text
  pub modules : List Text
  pub limits : LimitsSpec
  pub mounts : List MountSpec
  pub huge_pages : HugePagesSpec
  pub irq_enabled : Bool
  pub nic : NicSpec
  pub cpu_governor : Text
  pub io_scheduler : IoSchedulerSpec
  pub swap_disable : Bool
