-- ===== src/Facts/Gather.antt =====
-- `Gather` of internal/facts/facts.go: from the instance metadata and the EC2 API, from the cache, or
-- from the running kernel.
pub mod Origin
pub mod Answers
pub mod Laws
pub mod Cached
use node_configurator.Prelude.{Bool, not, List, [], ◌∷◌, ◌++◌, if◌then◌else◌, Option, none, some, ℤ}
use node_configurator.Text.{Text, codes, is_nil}
use node_configurator.System.{Error, Fallible, value, failure, Outcome, done, fail, Os}
use node_configurator.Sysutil.Paths.{Env, new}
use node_configurator.Sysutil.Distro.{Distro, detect_distro, kernel_version}
use node_configurator.Facts.{Facts, family_from_instance_type}
use node_configurator.Facts.Host.{Host}
use node_configurator.Facts.Local.{local_fallback}
use node_configurator.Facts.Cache.{default_cache_path, load_cache, save_cache}
use node_configurator.Facts.Instance.{gather_identity, gather_instance_type_info}

pub record Gatherer : Type 0 where
  pub env : Option Env
  pub cache_path : Text
  pub cache_ttl : ℤ
  pub refresh : Bool

-- `Gatherer.env`
abbrev pub env_of : Option Env → Env
env_of (some env) = env
env_of none = new

-- `Gatherer.cachePath`
abbrev pub cache_path_of : Text → Text
cache_path_of [] = default_cache_path
cache_path_of (c ∷ s) = c ∷ s

-- The text of a value whose error is dropped.
abbrev pub text_of : Fallible Text → Text
text_of (value t) = t
text_of (failure _) = []

abbrev pub with_family : Facts → Facts
with_family f = record f { family = family_from_instance_type f.instance_type }

-- One more warning.
abbrev pub warn : Text → Facts → Facts
warn w f = record f { warnings = f.warnings ++ w ∷ [] }

module _ (os : Os) (host : Host os.State) (g : Gatherer) where
  open os use {State}

  abbrev env : Env
  env = env_of g.env

  -- The facts of the host, which are read in every run.
  unfoldable pub with_host : State → Facts → Facts
  with_host s f = record f {
    distro = (detect_distro os env s).0;
    kernel_version = text_of (kernel_version os env s);
  }

  -- Without the instance metadata.
  unfoldable pub without_identity : Error → State → Facts
  without_identity e s =
      warn (codes "IMDS unavailable, using local-only facts: " ++ e.message)
        (with_host s (local_fallback os env host s))

  -- Without the EC2 API.
  unfoldable pub without_api : Error → Facts → State → Facts
  without_api e identity s =
      let local = local_fallback os env host s in
      warn
        (codes "EC2 DescribeInstanceTypes unavailable, family-specific tuning is approximate "
          ++ codes "(check ec2:DescribeInstanceTypes IAM permission): "
          ++ e.message)
        (with_host s (record identity {
          vcpus = local.vcpus;
          mem_mib = local.mem_mib;
          network_bandwidth_gbps = local.network_bandwidth_gbps;
          nvme_instance_store = local.nvme_instance_store;
          source = codes "local-fallback";
        }))

  -- With what the EC2 API says of the type.
  unfoldable pub enriched : Facts → Facts → State → Facts
  enriched identity enrichment s = with_host s (record identity {
    vcpus = enrichment.vcpus;
    mem_mib = enrichment.mem_mib;
    network_bandwidth_gbps = enrichment.network_bandwidth_gbps;
    ena_support = enrichment.ena_support;
    max_enis = enrichment.max_enis;
    ipv4_addresses_per_eni = enrichment.ipv4_addresses_per_eni;
    nvme_instance_store = enrichment.nvme_instance_store;
    bare_metal = enrichment.bare_metal;
    hypervisor = enrichment.hypervisor;
    source = codes "ec2-api";
  })

  -- The end of `Gather`: the facts are cached, and it is a warning where that fails.
  unfoldable pub cache_facts : Facts → State → Outcome State Facts
  cache_facts f s = elim (save_cache os env host (cache_path_of g.cache_path) f s) [
    | done _ t ↦ done f t
    | fail e t ↦ done (warn (codes "caching facts: " ++ e.message) f) t
  ]

  unfoldable pub query_api : Facts → State → Outcome State Facts
  query_api identity s =
      elim (gather_instance_type_info host identity.region identity.instance_type s) [
        | failure e ↦ done (without_api e identity s) s
        | value enrichment ↦ cache_facts (enriched identity enrichment s) s
      ]

  -- The cached facts, if the cache is to be used.
  unfoldable pub cached_facts : Facts → State → Option Facts
  cached_facts identity s =
      if g.refresh
      then none
      else load_cache os env host (cache_path_of g.cache_path) identity.instance_id g.cache_ttl s

  unfoldable pub identified : Facts → State → Outcome State Facts
  identified identity s = elim (cached_facts identity s) [
    | some cached ↦ done (with_host s cached) s
    | none ↦ query_api identity s
  ]

  -- `Gather`
  unfoldable pub gather : State → Outcome State Facts
  gather s = elim (gather_identity host s) [
    | failure e ↦ done (without_identity e s) s
    | value identity ↦ identified (with_family identity) s
  ]
