-- ===== src/Engine/Build/Every.antt =====
-- What holds of every resource that `Build` makes follows from what holds of each kind.
use node_configurator.Prelude.{
  ℕ, Bool, true, false, not, ◌||◌, ltb, List, [], ◌∷◌, ◌++◌, ◌≡◌, refl, All, All-append, Bool-cases,
  inl, inr,
}
use node_configurator.Text.{Text, is_nil}
use node_configurator.System.{Os}
use node_configurator.Sysutil.Paths.{Env}
use node_configurator.Sysutil.Netdev.{primary_interface}
use node_configurator.Facts.{Facts}
use node_configurator.Profile.{Profile, MountSpec}
use node_configurator.Resource.{Resource}
use node_configurator.Resource.Sysctl.{sysctl_resource}
use node_configurator.Resource.KernelModule.{kernel_module_resource}
use node_configurator.Resource.Swap.{swap_resource}
use node_configurator.Resource.CgroupV2.{cgroup_v2_resource}
use node_configurator.Resource.Mount.{mount_resource}
use node_configurator.Resource.DropInFile.{DropInFileResource, drop_in_file_resource}
use node_configurator.Resource.IrqAffinity.{irq_affinity_resource}
use node_configurator.Resource.Nic.{nic_resource}
use node_configurator.Resource.CpuGovernor.{cpu_governor_resource}
use node_configurator.Resource.IoScheduler.{io_scheduler_resource}
use node_configurator.Engine.Filter.{Options, is_kept, filter_resources}
use node_configurator.Engine.Build.{
  when, sysctl_of, modules_of, mount_of, irq_of, nic_of, mount_resources, service_limits,
  limits_resources, fixed_resources, network_resources, device_resources, all_resources,
  build_resources,
}

module _ (os : Os) (env : Env) (P : Resource os.State → Type 0) where
  open os use {State}

  -- `P` holds of each resource that the profile asks for.
  pub record Every (iface : Text) (f : Facts) (p : Profile) : Type 0 where
    pub sysctl : P (sysctl_resource os (sysctl_of env p))
    pub modules : P (kernel_module_resource os (modules_of env p))
    pub swap : P (swap_resource os env)
    pub cgroup : P (cgroup_v2_resource os env)
    pub mounts : All (λ m. P (mount_resource os (mount_of env m))) p.mounts
    pub drop_in : (r : DropInFileResource) → P (drop_in_file_resource os r)
    pub irq : p.irq_enabled ≡ true → P (irq_affinity_resource os (irq_of env iface f))
    pub nic :
        (p.nic.ring_buffer_max || (p.nic.rps || p.nic.xps)) ≡ true
        → P (nic_resource os (nic_of env iface f p))
    pub governor :
        not (is_nil p.cpu_governor) ≡ true → P (cpu_governor_resource os env p.cpu_governor)
    pub scheduler :
        p.io_scheduler.enabled ≡ true → P (io_scheduler_resource os env p.io_scheduler.scheduler)

  when-All : (b : Bool) (rs : List (Resource State)) → (b ≡ true → All P rs) → All P (when b rs)
  when-All true rs h = h refl
  when-All false rs h = tt

  mount_resources-All :
      (ms : List MountSpec)
      → All (λ m. P (mount_resource os (mount_of env m))) ms
      → All P (mount_resources os env ms)
  unfolding mount_resources
  mount_resources-All [] h = tt
  mount_resources-All (m ∷ ms) h = (h.0, mount_resources-All ms h.1)

  service_limits-All :
      (n : ℕ) (svcs : List Text)
      → ((r : DropInFileResource) → P (drop_in_file_resource os r))
      → All P (service_limits os env n svcs)
  unfolding service_limits
  service_limits-All n [] h = tt
  service_limits-All n (svc ∷ svcs) h = (h _, service_limits-All n svcs h)

  module _ (iface : Text) (f : Facts) (p : Profile) (every : Every iface f p) where
    fixed_resources-All : All P (fixed_resources os env p)
    unfolding fixed_resources
    fixed_resources-All = (every.sysctl, (every.modules, (every.swap, (every.cgroup, tt))))

    limits_resources-All : All P (limits_resources os env p)
    unfolding limits_resources
    limits_resources-All = (every.drop_in _, service_limits-All _ _ every.drop_in)

    network_resources-All : All P (network_resources os env iface f p)
    unfolding network_resources
    network_resources-All =
        let irq = irq_affinity_resource os (irq_of env iface f) ∷ [] in
        let nic = nic_resource os (nic_of env iface f p) ∷ [] in
        let tuned = p.nic.ring_buffer_max || (p.nic.rps || p.nic.xps) in
        All-append P (when p.irq_enabled irq) (when tuned nic)
          (when-All p.irq_enabled irq (λ e. (every.irq e, tt)))
          (when-All tuned nic (λ e. (every.nic e, tt)))

    device_resources-All : All P (device_resources os env p)
    unfolding device_resources
    device_resources-All =
        let governor = cpu_governor_resource os env p.cpu_governor ∷ [] in
        let scheduler = io_scheduler_resource os env p.io_scheduler.scheduler ∷ [] in
        All-append P (when (not (is_nil p.cpu_governor)) governor)
          (when p.io_scheduler.enabled scheduler)
          (when-All (not (is_nil p.cpu_governor)) governor (λ e. (every.governor e, tt)))
          (when-All p.io_scheduler.enabled scheduler (λ e. (every.scheduler e, tt)))

    all_resources-All : All P (all_resources os env iface f p)
    unfolding all_resources
    all_resources-All =
        let limits = limits_resources os env p in
        let limits_on = ltb 0 p.limits.no_file in
        let network = network_resources os env iface f p in
        let devices = device_resources os env p in
        All-append P (fixed_resources os env p) _ fixed_resources-All (
          All-append P (mount_resources os env p.mounts) _
            (mount_resources-All p.mounts every.mounts)
            (All-append P (when limits_on limits) (network ++ devices)
              (when-All limits_on limits (λ e. limits_resources-All))
              (All-append P network devices network_resources-All device_resources-All)))

  filter_resources-All :
      (rs : List (Resource State)) (disabled : List Text) (opts : Options)
      → All P rs
      → All P (filter_resources rs disabled opts)
  unfolding filter_resources
  filter_resources-All [] disabled opts h = tt
  filter_resources-All (r ∷ rs) disabled opts h = elim (Bool-cases (is_kept disabled opts r.name)) [
    | inl e ↦ rw (filter_resources, e) (h.0, filter_resources-All rs disabled opts h.1)
    | inr e ↦ rw (filter_resources, e) (filter_resources-All rs disabled opts h.1)
  ]

  pub build_resources-All :
      (s : State) (f : Facts) (p : Profile) (disabled : List Text) (opts : Options)
      → Every (primary_interface os env s) f p
      → All P (build_resources os env s f p disabled opts)
  unfolding build_resources
  build_resources-All s f p disabled opts h =
      filter_resources-All _ disabled opts (all_resources-All (primary_interface os env s) f p h)
