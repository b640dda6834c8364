-- ===== src/Facts/Gather/Origin.antt =====
-- Where the facts that `Gather` returns come from.
use node_configurator.Prelude.{true, false, [], ◌∷◌, ◌++◌, Option, none, some, ◌≡◌, ◌≢◌, ◌⊎◌}
use node_configurator.Text.{codes}
use node_configurator.System.{Error, value, failure, Outcome, done, fail, Os}
use node_configurator.Sysutil.Distro.{detect_distro, kernel_version}
use node_configurator.Facts.{Facts, family_from_instance_type}
use node_configurator.Facts.Host.{Host}
use node_configurator.Facts.Local.{local_fallback}
use node_configurator.Facts.Cache.{load_cache, save_cache}
use node_configurator.Facts.Instance.{gather_identity, gather_instance_type_info}
use node_configurator.Facts.Gather.{Gatherer, env_of, cache_path_of, text_of}

-- The instance is the one of the identity document.
pub record IsInstance (identity f : Facts) : Type 0 where
  pub instance_id : f.instance_id ≡ identity.instance_id
  pub instance_type : f.instance_type ≡ identity.instance_type
  pub family : f.family ≡ family_from_instance_type identity.instance_type
  pub region : f.region ≡ identity.region
  pub availability_zone : f.availability_zone ≡ identity.availability_zone
  pub arch : f.arch ≡ identity.arch

-- What the EC2 API says of the type.
pub record HasSizes (info f : Facts) : Type 0 where
  pub vcpus : f.vcpus ≡ info.vcpus
  pub mem_mib : f.mem_mib ≡ info.mem_mib
  pub network : f.network_bandwidth_gbps ≡ info.network_bandwidth_gbps
  pub ena : f.ena_support ≡ info.ena_support
  pub max_enis : f.max_enis ≡ info.max_enis
  pub addresses : f.ipv4_addresses_per_eni ≡ info.ipv4_addresses_per_eni
  pub instance_store : f.nvme_instance_store ≡ info.nvme_instance_store
  pub bare_metal : f.bare_metal ≡ info.bare_metal
  pub hypervisor : f.hypervisor ≡ info.hypervisor

-- What the running kernel says of the machine.
pub record HasLocalSizes (local f : Facts) : Type 0 where
  pub vcpus : f.vcpus ≡ local.vcpus
  pub mem_mib : f.mem_mib ≡ local.mem_mib
  pub network : f.network_bandwidth_gbps ≡ local.network_bandwidth_gbps
  pub instance_store : f.nvme_instance_store ≡ local.nvme_instance_store

module _ (os : Os) (host : Host os.State) (g : Gatherer) where
  open os use {State}

  -- What is said of the host is what the host says now.
  pub record IsCurrent (s : State) (f : Facts) : Type 0 where
    pub distro : f.distro ≡ (detect_distro os (env_of g.env) s).0
    pub kernel : f.kernel_version ≡ text_of (kernel_version os (env_of g.env) s)

  -- What the cache has for an instance.
  abbrev pub stored_for : Facts → State → Option Facts
  stored_for identity s =
      load_cache os (env_of g.env) host (cache_path_of g.cache_path) identity.instance_id
        g.cache_ttl s

  -- The cache is not to be used, or has nothing for the instance.
  abbrev pub Misses : Facts → State → Type 0
  Misses identity s = (g.refresh ≡ true) ⊎ (stored_for identity s ≡ none)

  -- The facts without the warnings that `Gather` adds were written to the cache from `s` to `t`, or
  -- that failed and is one more warning.
  pub data IsSaved (identity f : Facts) (s t : State) : Type 0 where
    saved :
        f.warnings ≡ identity.warnings
        → save_cache os (env_of g.env) host (cache_path_of g.cache_path) f s ≡ done tt t
        → IsSaved identity f s t
    unsaved :
        (e : Error)
        → f.warnings ≡ identity.warnings ++ (codes "caching facts: " ++ e.message) ∷ []
        → save_cache os
            (env_of g.env)
            host
            (cache_path_of g.cache_path)
            (record f { warnings = identity.warnings })
            s
          ≡ fail e t
        → IsSaved identity f s t

  -- The three origins of facts, from `s` to `t`.
  pub data HasOrigin (s : State) (f : Facts) (t : State) : Type 0 where
    -- the cache, which is not bypassed and has the instance; all but the host is as it was stored
    from_cache :
        (identity stored : Facts)
        → gather_identity host s ≡ value identity
        → g.refresh ≡ false
        → stored_for identity s ≡ some stored
        → f ≡ record stored { distro = f.distro; kernel_version = f.kernel_version }
        → t ≡ s
        → HasOrigin s f t
    -- the identity document and the EC2 API, whose answer is cached
    from_api :
        (identity info : Facts)
        → gather_identity host s ≡ value identity
        → Misses identity s
        → gather_instance_type_info host identity.region identity.instance_type s ≡ value info
        → IsInstance identity f
        → HasSizes info f
        → f.source ≡ codes "ec2-api"
        → IsSaved identity f s t
        → HasOrigin s f t
    -- the identity document and the kernel, as the EC2 API fails
    without_answer :
        (identity : Facts) (e : Error)
        → gather_identity host s ≡ value identity
        → Misses identity s
        → gather_instance_type_info host identity.region identity.instance_type s ≡ failure e
        → IsInstance identity f
        → HasLocalSizes (local_fallback os (env_of g.env) host s) f
        → f.source ≡ codes "local-fallback"
        → f.warnings ≢ []
        → t ≡ s
        → HasOrigin s f t
    -- the kernel alone, as there is no instance metadata
    without_metadata :
        (e : Error)
        → gather_identity host s ≡ failure e
        → f.arch ≡ (local_fallback os (env_of g.env) host s).arch
        → HasLocalSizes (local_fallback os (env_of g.env) host s) f
        → f.source ≡ codes "local-fallback"
        → f.warnings ≢ []
        → t ≡ s
        → HasOrigin s f t

  -- What `Gather` returns, with its origin.
  abbrev pub IsAnswer : State → Outcome State Facts → Type 0
  IsAnswer s o = (f : Facts) × (t : State) × (o ≡ done f t) × IsCurrent s f × HasOrigin s f t
