-- ===== src/Engine/Build/Laws.antt =====
-- What holds of the checks of every resource that `Build` makes, and of the runs over them.
use node_configurator.Prelude.{List, [], ◌∷◌, map, ◌≡◌, arith, All, All-weaken}
use node_configurator.Text.{Text}
use node_configurator.System.{Os}
use node_configurator.Sysutil.Paths.{Env}
use node_configurator.Sysutil.Netdev.{primary_interface}
use node_configurator.Facts.{Facts}
use node_configurator.Profile.{Profile, MountSpec}
use node_configurator.Resource.{Resource, Result}
use node_configurator.Resource.Sysctl.{SysctlResource, diff_live, sysctl_resource}
use node_configurator.Resource.KernelModule.{
  KernelModuleResource, loaded_modules, report_missing, kernel_module_resource,
}
use node_configurator.Resource.Swap.{active_swap_devices, report_swap, swap_resource}
use node_configurator.Resource.CgroupV2.{cgroup_v2_resource}
use node_configurator.Resource.Mount.{MountResource, is_mounted, report_mount, mount_resource}
use node_configurator.Resource.DropInFile.{DropInFileResource, drop_in_file_resource}
use node_configurator.Resource.IrqAffinity.{
  IrqAffinityResource, ena_irqs, check_irqs, irq_affinity_resource,
}
use node_configurator.Resource.Nic.{NicResource, nic_resource}
use node_configurator.Resource.CpuGovernor.{governor_paths, check_paths, cpu_governor_resource}
use node_configurator.Resource.IoScheduler.{nvme_devices, check_devices, io_scheduler_resource}
use node_configurator.Engine.Run.{Mode, apply_mode, run}
use node_configurator.Engine.Run.Laws.{IsNamed, FailsWithError, IsFinal, run-names, run-apply_mode}
use node_configurator.Engine.Filter.{Options}
use node_configurator.Engine.Build.{mount_of, build_resources}
use node_configurator.Engine.Build.Every.{Every, build_resources-All}

-- The check reports under the resource's name, and a failure with every error.
pub record IsSound {S : Type 0} (r : Resource S) : Type 0 where
  pub named : IsNamed r
  pub fails : FailsWithError r

module _ (os : Os) where
  open os use {State}

  sysctl-IsSound : (r : SysctlResource) → IsSound (sysctl_resource os r)
  unfolding node_configurator.Resource.Sysctl.check
  sysctl-IsSound r = record { named = λ s. ground arith; fails = λ s x e. ground arith }

  kernel_module-IsSound : (r : KernelModuleResource) → IsSound (kernel_module_resource os r)
  unfolding node_configurator.Resource.KernelModule.check report_missing
  kernel_module-IsSound r = record { named = λ s. ground arith; fails = λ s x e. ground arith }

  swap-IsSound : (env : Env) → IsSound (swap_resource os env)
  unfolding node_configurator.Resource.Swap.check report_swap
  swap-IsSound env = record { named = λ s. ground arith; fails = λ s x e. ground arith }

  cgroup_v2-IsSound : (env : Env) → IsSound (cgroup_v2_resource os env)
  unfolding node_configurator.Resource.CgroupV2.check
  cgroup_v2-IsSound env = record { named = λ s. ground arith; fails = λ s x e. ground arith }

  mount-IsSound : (r : MountResource) → IsSound (mount_resource os r)
  unfolding node_configurator.Resource.Mount.check report_mount
  mount-IsSound r = record { named = λ s. ground arith; fails = λ s x e. ground arith }

  drop_in_file-IsSound : (r : DropInFileResource) → IsSound (drop_in_file_resource os r)
  unfolding node_configurator.Resource.DropInFile.check
  drop_in_file-IsSound r = record { named = λ s. ground arith; fails = λ s x e. ground arith }

  irq_affinity-IsSound : (r : IrqAffinityResource) → IsSound (irq_affinity_resource os r)
  unfolding node_configurator.Resource.IrqAffinity.check check_irqs
  irq_affinity-IsSound r = record { named = λ s. ground arith; fails = λ s x e. ground arith }

  nic-IsSound : (r : NicResource) → IsSound (nic_resource os r)
  unfolding node_configurator.Resource.Nic.check
  nic-IsSound r = record { named = λ s. ground arith; fails = λ s x e. ground arith }

  cpu_governor-IsSound : (env : Env) (g : Text) → IsSound (cpu_governor_resource os env g)
  unfolding node_configurator.Resource.CpuGovernor.check check_paths
  cpu_governor-IsSound env g = record { named = λ s. ground arith; fails = λ s x e. ground arith }

  io_scheduler-IsSound : (env : Env) (g : Text) → IsSound (io_scheduler_resource os env g)
  unfolding node_configurator.Resource.IoScheduler.check check_devices
  io_scheduler-IsSound env g = record { named = λ s. ground arith; fails = λ s x e. ground arith }

  module _ (env : Env) where
    Every-IsSound : (iface : Text) (f : Facts) (p : Profile) → Every os env IsSound iface f p
    Every-IsSound iface f p = record {
      sysctl = sysctl-IsSound _;
      modules = kernel_module-IsSound _;
      swap = swap-IsSound env;
      cgroup = cgroup_v2-IsSound env;
      mounts = all_mounts p.mounts;
      drop_in = drop_in_file-IsSound;
      irq = λ e. irq_affinity-IsSound _;
      nic = λ e. nic-IsSound _;
      governor = λ e. cpu_governor-IsSound env _;
      scheduler = λ e. io_scheduler-IsSound env _;
    }
      where
        all_mounts :
            (ms : List MountSpec) → All (λ m. IsSound (mount_resource os (mount_of env m))) ms
        all_mounts [] = tt
        all_mounts (m ∷ ms) = (mount-IsSound (mount_of env m), all_mounts ms)

    build-AllSound :
        (s : State) (f : Facts) (p : Profile) (disabled : List Text) (opts : Options)
        → All IsSound (build_resources os env s f p disabled opts)
    build-AllSound s f p disabled opts =
        build_resources-All os env IsSound s f p disabled opts
          (Every-IsSound (primary_interface os env s) f p)

    -- What a run over the resources of any profile reports: a result under the name of each resource
    -- that is left by the filters, in order.
    pub build_resources-names :
        (mode : Mode) (s t : State) (f : Facts) (p : Profile) (disabled : List Text)
        (opts : Options)
        → let rs = build_resources os env s f p disabled opts in
          map (λ (x : Result). x.name) (run mode rs t).0 ≡ map (λ (r : Resource State). r.name) rs
    build_resources-names mode s t f p disabled opts =
        let rs = build_resources os env s f p disabled opts in
        run-names mode rs t
          (All-weaken IsSound IsNamed (λ r h. h.named) rs (build-AllSound s f p disabled opts))

    -- After a run in apply mode over the resources of any profile, no result says that a change is
    -- pending, whatever the system does.
    pub build_resources-AllFinal :
        (s t : State) (f : Facts) (p : Profile) (disabled : List Text) (opts : Options)
        → All IsFinal (run apply_mode (build_resources os env s f p disabled opts) t).0
    build_resources-AllFinal s t f p disabled opts =
        let rs = build_resources os env s f p disabled opts in
        run-apply_mode rs t (
          All-weaken IsSound FailsWithError (λ r h. h.fails) rs
            (build-AllSound s f p disabled opts))
