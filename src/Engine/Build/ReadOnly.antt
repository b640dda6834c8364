-- ===== src/Engine/Build/ReadOnly.antt =====
-- The checks of the resources of `Build` (internal/engine/engine.go) and the system they look at.
use node_configurator.Prelude.{List, [], ◌∷◌, map, ◌≡◌, sym, ap, ◌∙◌, arith, All, inl, inr}
use node_configurator.Text.{Text, codes}
use node_configurator.System.{Os, state_of}
use node_configurator.System.Post.{Outcome-cases}
use node_configurator.Sysutil.Paths.{Env}
use node_configurator.Sysutil.Netdev.{primary_interface}
use node_configurator.Facts.{Facts}
use node_configurator.Profile.{Profile, MountSpec}
use node_configurator.Resource.{Resource, Result}
use node_configurator.Resource.Sysctl.{SysctlResource, sysctl_resource}
use node_configurator.Resource.KernelModule.{
  KernelModuleResource, report_missing, kernel_module_resource,
}
use node_configurator.Resource.Swap.{active_swap_units, swap_resource}
use node_configurator.Resource.CgroupV2.{cgroup_v2_resource}
use node_configurator.Resource.Mount.{MountResource, report_mount, mount_resource}
use node_configurator.Resource.DropInFile.{DropInFileResource, drop_in_file_resource}
use node_configurator.Resource.IrqAffinity.{IrqAffinityResource, check_irqs, irq_affinity_resource}
use node_configurator.Resource.Nic.{NicResource, query_rings, nic_resource}
use node_configurator.Resource.Nic.Rings.{check_rings-state}
use node_configurator.Resource.CpuGovernor.{check_paths, cpu_governor_resource}
use node_configurator.Resource.IoScheduler.{check_devices, io_scheduler_resource}
use node_configurator.Engine.Run.{check_mode, run}
use node_configurator.Engine.Run.Laws.{IsReadOnly, run-check_mode}
use node_configurator.Engine.Filter.{Options}
use node_configurator.Engine.Build.{mount_of, build_resources}
use node_configurator.Engine.Build.Every.{Every, build_resources-All}

-- The two commands that a `Check` runs only ask: `systemctl list-units` and `ethtool -g` change nothing,
-- whether they succeed or fail.
pub record HasQueries (os : Os) : Type 0 where
  pub list_units :
      (s : os.State)
      → state_of (
          os.run
            (codes "systemctl")
            (codes "list-units" ∷ codes "--type=swap" ∷ codes "--no-legend" ∷ codes "--plain" ∷ [])
            s)
        ≡ s
  pub show_rings :
      (iface : Text) (s : os.State)
      → state_of (os.run (codes "ethtool") (codes "-g" ∷ iface ∷ []) s) ≡ s

module _ (os : Os) where
  open os use {State}

  sysctl-IsReadOnly : (r : SysctlResource) → IsReadOnly (sysctl_resource os r)
  unfolding node_configurator.Resource.Sysctl.check
  sysctl-IsReadOnly r s = ground arith

  kernel_module-IsReadOnly : (r : KernelModuleResource) → IsReadOnly (kernel_module_resource os r)
  unfolding node_configurator.Resource.KernelModule.check report_missing
  kernel_module-IsReadOnly r s = ground arith

  cgroup_v2-IsReadOnly : (env : Env) → IsReadOnly (cgroup_v2_resource os env)
  unfolding node_configurator.Resource.CgroupV2.check
  cgroup_v2-IsReadOnly env s = ground arith

  mount-IsReadOnly : (r : MountResource) → IsReadOnly (mount_resource os r)
  unfolding node_configurator.Resource.Mount.check report_mount
  mount-IsReadOnly r s = ground arith

  drop_in_file-IsReadOnly : (r : DropInFileResource) → IsReadOnly (drop_in_file_resource os r)
  unfolding node_configurator.Resource.DropInFile.check
  drop_in_file-IsReadOnly r s = ground arith

  irq_affinity-IsReadOnly : (r : IrqAffinityResource) → IsReadOnly (irq_affinity_resource os r)
  unfolding node_configurator.Resource.IrqAffinity.check check_irqs
  irq_affinity-IsReadOnly r s = ground arith

  cpu_governor-IsReadOnly : (env : Env) (g : Text) → IsReadOnly (cpu_governor_resource os env g)
  unfolding node_configurator.Resource.CpuGovernor.check check_paths
  cpu_governor-IsReadOnly env g s = ground arith

  io_scheduler-IsReadOnly : (env : Env) (g : Text) → IsReadOnly (io_scheduler_resource os env g)
  unfolding node_configurator.Resource.IoScheduler.check check_devices
  io_scheduler-IsReadOnly env g s = ground arith

  module _ (queries : HasQueries os) (env : Env) where
    active_swap_units-state : (s : State) → (active_swap_units os env s).1 ≡ s
    unfolding active_swap_units
    active_swap_units-state s =
        elim (Outcome-cases (
          os.run (codes "systemctl")
            (codes "list-units" ∷ codes "--type=swap" ∷ codes "--no-legend" ∷ codes "--plain" ∷ [])
            s)) [
              | inl (out, t, e) ↦
                  rw (active_swap_units, e) (sym (ap state_of e) ∙ queries.list_units s)
              | inr (x, t, e) ↦
                  rw (active_swap_units, e) (sym (ap state_of e) ∙ queries.list_units s)
            ]

    swap-IsReadOnly : IsReadOnly (swap_resource os env)
    unfolding node_configurator.Resource.Swap.check
    swap-IsReadOnly s = ground (arith, active_swap_units-state s)

    query_rings-state : (r : NicResource) (s : State) → (query_rings os r s).1 ≡ s
    unfolding query_rings
    query_rings-state r s =
        elim (Outcome-cases (os.run (codes "ethtool") (codes "-g" ∷ r.interface_name ∷ []) s)) [
          | inl (out, t, e) ↦
              rw (query_rings, e) (sym (ap state_of e) ∙ queries.show_rings r.interface_name s)
          | inr (x, t, e) ↦
              rw (query_rings, e) (sym (ap state_of e) ∙ queries.show_rings r.interface_name s)
        ]

    nic-IsReadOnly : (r : NicResource) → IsReadOnly (nic_resource os r)
    unfolding node_configurator.Resource.Nic.check
    nic-IsReadOnly r s = ground (arith, check_rings-state os r (query_rings-state r) s)

    mounts-IsReadOnly :
        (ms : List MountSpec) → All (λ m. IsReadOnly (mount_resource os (mount_of env m))) ms
    mounts-IsReadOnly [] = tt
    mounts-IsReadOnly (m ∷ ms) = (mount-IsReadOnly (mount_of env m), mounts-IsReadOnly ms)

    Every-IsReadOnly : (iface : Text) (f : Facts) (p : Profile) → Every os env IsReadOnly iface f p
    Every-IsReadOnly iface f p = record {
      sysctl = sysctl-IsReadOnly _;
      modules = kernel_module-IsReadOnly _;
      swap = swap-IsReadOnly;
      cgroup = cgroup_v2-IsReadOnly env;
      mounts = mounts-IsReadOnly p.mounts;
      drop_in = drop_in_file-IsReadOnly;
      irq = λ e. irq_affinity-IsReadOnly _;
      nic = λ e. nic-IsReadOnly _;
      governor = λ e. cpu_governor-IsReadOnly env _;
      scheduler = λ e. io_scheduler-IsReadOnly env _;
    }

    -- A run in check mode over the resources of any profile is a dry run: it leaves the system exactly
    -- as it was, and reports, for each resource in order, what its `Check` finds in that system, where
    -- `systemctl list-units` and `ethtool -g` change nothing.
    pub build_resources-check_mode :
        (s t : State) (f : Facts) (p : Profile) (disabled : List Text) (opts : Options)
        → let rs = build_resources os env s f p disabled opts in
          run check_mode rs t ≡ (map (λ (r : Resource State). (r.check t).result) rs, t)
    build_resources-check_mode s t f p disabled opts = run-check_mode _ t (
        build_resources-All os env IsReadOnly s f p disabled opts
          (Every-IsReadOnly (primary_interface os env s) f p))
