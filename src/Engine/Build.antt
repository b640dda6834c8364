-- ===== src/Engine/Build.antt =====
-- `Build` of internal/engine/engine.go: the resources of a profile, in order.
pub mod Every
pub mod Laws
pub mod ReadOnly
use node_configurator.Prelude.{ℕ, Bool, not, ◌||◌, ltb, List, [], ◌∷◌, ◌++◌, if◌then◌else◌, some}
use node_configurator.Text.{Text, codes, is_nil}
use node_configurator.System.{Os}
use node_configurator.Sysutil.Paths.{Env, path}
use node_configurator.Sysutil.Netdev.{primary_interface}
use node_configurator.Facts.{Facts}
use node_configurator.Profile.{Profile, MountSpec}
use node_configurator.Resource.{Resource}
use node_configurator.Resource.Sysctl.{SysctlResource, sysctl_resource}
use node_configurator.Resource.KernelModule.{KernelModuleResource, kernel_module_resource}
use node_configurator.Resource.Swap.{swap_resource}
use node_configurator.Resource.CgroupV2.{cgroup_v2_resource}
use node_configurator.Resource.Mount.{MountResource, mount_resource}
use node_configurator.Resource.DropInFile.{DropInFileResource, drop_in_file_resource}
use node_configurator.Resource.Limits.{render_limits_conf, render_systemd_limit_drop_in}
use node_configurator.Resource.IrqAffinity.{IrqAffinityResource, irq_affinity_resource}
use node_configurator.Resource.Nic.{NicResource, nic_resource}
use node_configurator.Resource.CpuGovernor.{cpu_governor_resource}
use node_configurator.Resource.IoScheduler.{io_scheduler_resource}
use node_configurator.Engine.Filter.{Options, filter_resources}

abbrev pub sysctl_persist_file : Text
sysctl_persist_file = codes "etc/sysctl.d/99-node-configurator.conf"

abbrev pub modules_persist_file : Text
modules_persist_file = codes "etc/modules-load.d/99-node-configurator.conf"

abbrev pub limits_persist_file : Text
limits_persist_file = codes "etc/security/limits.d/99-node-configurator.conf"

abbrev pub systemd_limit_services : List Text
systemd_limit_services = codes "containerd" ∷ codes "kubelet" ∷ codes "cilium" ∷ []

-- What an `if` around an `append` adds.
abbrev pub when {ℓ} : {A : Type ℓ} → Bool → List A → List A
when b l = if b then l else []

-- The resources that `Build` fills in from the profile and the facts.
module _ (env : Env) where
  abbrev pub sysctl_of : Profile → SysctlResource
  sysctl_of p = record {
    env = env;
    settings = p.sysctls;
    persist_file = some (path env (sysctl_persist_file ∷ []));
  }

  abbrev pub modules_of : Profile → KernelModuleResource
  modules_of p = record {
    env = env;
    modules = p.modules;
    persist_file = some (path env (modules_persist_file ∷ []));
  }

  abbrev pub mount_of : MountSpec → MountResource
  mount_of m = record {
    env = env;
    resource_name = m.name;
    device = m.device;
    mount_point = m.path;
    fs_type = m.fs_type;
    options = m.options;
    fstab_persist = m.fstab_persist;
  }

  abbrev pub irq_of : Text → Facts → IrqAffinityResource
  irq_of iface f = record { env = env; interface_name = iface; num_cpus = f.vcpus }

  abbrev pub nic_of : Text → Facts → Profile → NicResource
  nic_of iface f p = record {
    env = env;
    interface_name = iface;
    num_cpus = f.vcpus;
    ring_buffer_max = p.nic.ring_buffer_max;
    rps = p.nic.rps;
    xps = p.nic.xps;
  }

module _ (os : Os) (env : Env) where
  open os use {State}

  -- The loop over the mounts.
  unfoldable pub mount_resources : List MountSpec → List (Resource State)
  mount_resources [] = []
  mount_resources (m ∷ ms) = mount_resource os (mount_of env m) ∷ mount_resources ms

  -- The loop over the services.
  unfoldable pub service_limits : ℕ → List Text → List (Resource State)
  service_limits no_file [] = []
  service_limits no_file (svc ∷ svcs) =
      drop_in_file_resource os (record {
        resource_name = codes "systemd-limits-" ++ svc;
        path = path env (
            codes "etc"
            ∷ codes "systemd"
            ∷ codes "system"
            ∷ (svc ++ codes ".service.d")
            ∷ codes "99-node-configurator.conf"
            ∷ []);
        content = render_systemd_limit_drop_in no_file;
        mode = 0;
      })
      ∷ service_limits no_file svcs

  unfoldable pub limits_resources : Profile → List (Resource State)
  limits_resources p =
      drop_in_file_resource os (record {
        resource_name = codes "limits-conf";
        path = path env (limits_persist_file ∷ []);
        content = render_limits_conf p.limits.no_file p.limits.nproc;
        mode = 0;
      })
      ∷ service_limits p.limits.no_file systemd_limit_services

  -- The resources that every profile has.
  unfoldable pub fixed_resources : Profile → List (Resource State)
  fixed_resources p =
      sysctl_resource os (sysctl_of env p)
      ∷ kernel_module_resource os (modules_of env p)
      ∷ swap_resource os env
      ∷ cgroup_v2_resource os env
      ∷ []

  -- The resources of the network interface.
  unfoldable pub network_resources : Text → Facts → Profile → List (Resource State)
  network_resources iface f p =
      when p.irq_enabled (irq_affinity_resource os (irq_of env iface f) ∷ [])
      ++ when (p.nic.ring_buffer_max || (p.nic.rps || p.nic.xps))
          (nic_resource os (nic_of env iface f p) ∷ [])

  unfoldable pub device_resources : Profile → List (Resource State)
  device_resources p =
      when (not (is_nil p.cpu_governor)) (cpu_governor_resource os env p.cpu_governor ∷ [])
      ++ when p.io_scheduler.enabled (io_scheduler_resource os env p.io_scheduler.scheduler ∷ [])

  -- All resources, before the filters.
  unfoldable pub all_resources : Text → Facts → Profile → List (Resource State)
  all_resources iface f p =
      fixed_resources p
      ++ (mount_resources p.mounts
          ++ (when (ltb 0 p.limits.no_file) (limits_resources p)
              ++ (network_resources iface f p ++ device_resources p)))

  -- `Build`, in the state in which it looks for the interface
  unfoldable pub build_resources :
      State → Facts → Profile → List Text → Options → List (Resource State)
  build_resources s f p disabled opts =
      filter_resources (all_resources (primary_interface os env s) f p) disabled opts
