-- ===== src/Profile/Merge.antt =====
-- internal/profile/merge.go: the operator's overrides, and the whole profile.
pub mod Laws
pub mod Scaled
pub mod Choices
use node_configurator.Prelude.{
  ℕ, Bool, true, not, List, [], ◌∷◌, ltb, if◌then◌else◌, Option, none, some, ℤ, pos, ltb_ℤ,
}
use node_configurator.Text.{Text, codes, is_nil}
use node_configurator.Text.Dict.{Dict, put, copy}
use node_configurator.Text.Number.{show_int}
use node_configurator.Float.{Float64}
use node_configurator.Facts.{Facts}
use node_configurator.Profile.{Profile, LimitsSpec, HugePagesSpec, NicSpec, IoSchedulerSpec}
use node_configurator.Profile.Base.{new_base_profile}
use node_configurator.Profile.Scaling.{apply_scaling}
use node_configurator.Profile.Cilium.{CiliumOptions, apply_cilium_prereqs}

-- `none` stands for a nil pointer.
pub record Overrides : Type 0 where
  pub sysctl_overrides : Dict Text
  pub no_file_limit : ℕ
  pub cpu_governor : Option Text
  pub huge_pages_2m : ℤ
  pub cilium : CiliumOptions
  pub irq_affinity : Option Bool
  pub ring_buffer_max : Option Bool
  pub rps : Option Bool
  pub xps : Option Bool
  pub io_scheduler : Option Text

-- `if o != nil { x = *o }`
abbrev pub or_keep {ℓ} : {A : Type ℓ} → Option A → A → A
or_keep none x = x
or_keep (some y) _ = y

unfoldable pub override_scheduler : Option Text → IoSchedulerSpec → IoSchedulerSpec
override_scheduler none spec = spec
override_scheduler (some scheduler) spec = record {
  enabled = not (is_nil scheduler);
  scheduler = scheduler;
}

-- The sysctls after `applyOverrides`.
unfoldable pub override_sysctls : Overrides → Dict Text → Dict Text
override_sysctls ov m =
    let copied = copy m ov.sysctl_overrides in
    if ltb_ℤ (pos 0) ov.huge_pages_2m
    then put (codes "vm.nr_hugepages") (show_int ov.huge_pages_2m) copied
    else copied

-- `applyOverrides`
unfoldable pub apply_overrides : Overrides → Profile → Profile
unfolding override_scheduler override_sysctls
apply_overrides ov p = record p {
  sysctls = override_sysctls ov p.sysctls;
  limits = record p.limits {
    no_file = if ltb 0 ov.no_file_limit then ov.no_file_limit else p.limits.no_file;
  };
  cpu_governor = or_keep ov.cpu_governor p.cpu_governor;
  huge_pages =
      if ltb_ℤ (pos 0) ov.huge_pages_2m
      then record { enabled = true; count_2m = ov.huge_pages_2m }
      else p.huge_pages;
  irq_enabled = or_keep ov.irq_affinity p.irq_enabled;
  nic = record {
    ring_buffer_max = or_keep ov.ring_buffer_max p.nic.ring_buffer_max;
    rps = or_keep ov.rps p.nic.rps;
    xps = or_keep ov.xps p.nic.xps;
  };
  io_scheduler = override_scheduler ov.io_scheduler p.io_scheduler;
}

-- `Build`
unfoldable pub build : (Float64 → ℤ) → Facts → Overrides → Profile
build out_of_range f ov =
    apply_overrides ov
      (apply_cilium_prereqs ov.cilium (apply_scaling out_of_range f (new_base_profile f)))
