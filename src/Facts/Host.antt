-- ===== src/Facts/Host.antt =====
-- What the facts are gathered from, beside files: the machine, the clock, the instance metadata
-- service, the EC2 API, and the JSON of the cache. The AWS SDK is not part of the repository; its
-- answers are here as far as the program reads them, and a pointer that may be nil is an option.
use node_configurator.Prelude.{List, Option, Bool, ℤ}
use node_configurator.Text.{Text}
use node_configurator.Float.{Float64}
use node_configurator.System.{Error, Fallible}
use node_configurator.Facts.{Facts}

-- `imds.InstanceIdentityDocument`
pub record IdentityDocument : Type 0 where
  pub instance_id : Text
  pub instance_type : Text
  pub region : Text
  pub availability_zone : Text
  pub architecture : Text

-- `types.VCpuInfo`
pub record VcpuInfo : Type 0 where
  pub default_vcpus : Option ℤ

-- `types.MemoryInfo`
pub record MemoryInfo : Type 0 where
  pub size_in_mib : Option ℤ

-- `types.InstanceStorageInfo`
pub record InstanceStorageInfo : Type 0 where
  pub nvme_support : Text

-- `types.NetworkCardInfo`
pub record NetworkCardInfo : Type 0 where
  pub baseline_bandwidth_in_gbps : Option Float64

-- `types.NetworkInfo`
pub record NetworkInfo : Type 0 where
  pub ena_support : Text
  pub maximum_network_interfaces : Option ℤ
  pub ipv4_addresses_per_interface : Option ℤ
  pub network_cards : List NetworkCardInfo
  pub network_performance : Option Text

-- `types.InstanceTypeInfo`
pub record InstanceTypeInfo : Type 0 where
  pub vcpu_info : Option VcpuInfo
  pub memory_info : Option MemoryInfo
  pub bare_metal : Option Bool
  pub hypervisor : Text
  pub instance_storage_info : Option InstanceStorageInfo
  pub network_info : Option NetworkInfo

-- `cacheEnvelope`. A time counts nanoseconds.
pub record CacheEnvelope : Type 0 where
  pub facts : Facts
  pub cached_at : ℤ

pub record Host (S : Type 0) : Type 0 where
  -- `runtime.NumCPU`
  pub num_cpu : ℤ
  -- `runtime.GOARCH`
  pub goarch : Text
  -- `time.Now`
  pub now : S → ℤ
  -- `GetInstanceIdentityDocument`
  pub get_identity : S → Fallible IdentityDocument
  -- `config.LoadDefaultConfig` for a region
  pub load_default_config : Text → S → Option Error
  -- `DescribeInstanceTypes` for one type in a region
  pub describe_instance_types : Text → Text → S → Fallible (List InstanceTypeInfo)
  -- `json.MarshalIndent` and `json.Unmarshal`
  pub marshal : CacheEnvelope → Fallible Text
  pub unmarshal : Text → Fallible CacheEnvelope
