-- ===== src/Facts/Instance.antt =====
-- internal/facts/ec2meta.go and internal/facts/imds.go: facts from the answers of the AWS SDK.
use node_configurator.Prelude.{
  ℕ, Bool, true, false, ◌||◌, ◌==◌, List, [], ◌∷◌, ◌++◌, if◌then◌else◌, Option, none, some, ℤ,
}
use node_configurator.Text.{Text, codes, is_nil, text_eq}
use node_configurator.Text.Number.{is_digit}
use node_configurator.Float.{Float64}
use node_configurator.Float.Decimal.{float_zero, parse_float}
use node_configurator.System.{Fallible, value, failure, errorf}
use node_configurator.Facts.{Facts, empty_facts}
use node_configurator.Facts.Host.{
  IdentityDocument, VcpuInfo, MemoryInfo, InstanceStorageInfo, NetworkCardInfo, NetworkInfo,
  InstanceTypeInfo, Host,
}

-- The class `[\d.]`.
unfoldable pub is_number_code : ℕ → Bool
is_number_code c = is_digit c || c == b'.'

-- The longest prefix in the class.
unfoldable pub number_prefix : Text → Text
number_prefix [] = []
number_prefix (c ∷ s) = let rest = number_prefix s in if is_number_code c then c ∷ rest else []

-- `networkPerformanceNumberRe.FindString`: the first match of `[\d.]+`
unfoldable pub first_number : Text → Text
first_number [] = []
first_number (c ∷ s) =
    let rest = first_number s in if is_number_code c then number_prefix (c ∷ s) else rest

-- `parseNetworkPerformanceGbps`
unfoldable pub parse_network_performance_gbps : Text → Float64
parse_network_performance_gbps s =
    if is_nil (first_number s)
    then float_zero
    else elim (parse_float (first_number s)) [ some v ↦ v | none ↦ float_zero ]

abbrev performance_bandwidth : Option Text → Float64
performance_bandwidth none = float_zero
performance_bandwidth (some s) = parse_network_performance_gbps s

-- The bandwidth of the first card, where it is known.
unfoldable pub card_bandwidth : List NetworkCardInfo → Option Float64
card_bandwidth [] = none
card_bandwidth (card ∷ _) = card.baseline_bandwidth_in_gbps

-- `bandwidthFromNetworkInfo`
unfoldable pub bandwidth_from_network_info : NetworkInfo → Float64
bandwidth_from_network_info ni = elim (card_bandwidth ni.network_cards) [
  | some bandwidth ↦ bandwidth
  | none ↦ performance_bandwidth ni.network_performance
]

-- A field is set only from a pointer that is not nil.
abbrev pub or_old {ℓ} : {A : Type ℓ} → Option A → A → A
or_old none old = old
or_old (some new) old = new

abbrev vcpus_of : Option VcpuInfo → Option ℤ
vcpus_of none = none
vcpus_of (some info) = info.default_vcpus

abbrev memory_of : Option MemoryInfo → Option ℤ
memory_of none = none
memory_of (some info) = info.size_in_mib

-- `Supported` or `Required`, the values by which the SDK spells both kinds of support
unfoldable pub is_supported : Text → Bool
is_supported s = text_eq s (codes "supported") || text_eq s (codes "required")

abbrev nvme_of : Option InstanceStorageInfo → Bool → Bool
nvme_of none old = old
nvme_of (some info) old = if is_supported info.nvme_support then true else old

-- The part of `applyInstanceTypeInfo` for the network.
unfoldable pub apply_network_info : Option NetworkInfo → Facts → Facts
apply_network_info none f = f
apply_network_info (some ni) f = record f {
  ena_support = if is_supported ni.ena_support then true else f.ena_support;
  max_enis = or_old ni.maximum_network_interfaces f.max_enis;
  ipv4_addresses_per_eni = or_old ni.ipv4_addresses_per_interface f.ipv4_addresses_per_eni;
  network_bandwidth_gbps = bandwidth_from_network_info ni;
}

-- `applyInstanceTypeInfo`
unfoldable pub apply_instance_type_info : Facts → InstanceTypeInfo → Facts
apply_instance_type_info f info = apply_network_info info.network_info (record f {
  vcpus = or_old (vcpus_of info.vcpu_info) f.vcpus;
  mem_mib = or_old (memory_of info.memory_info) f.mem_mib;
  bare_metal = or_old info.bare_metal f.bare_metal;
  hypervisor = info.hypervisor;
  nvme_instance_store = nvme_of info.instance_storage_info f.nvme_instance_store;
})

abbrev describe_context : Text → Text
describe_context instance_type = codes "EC2 DescribeInstanceTypes(" ++ (instance_type ++ codes ")")

-- The end of `fetchInstanceTypeInfo`: the first of the types that are returned.
unfoldable pub first_type : Text → List InstanceTypeInfo → Fallible InstanceTypeInfo
first_type instance_type [] = failure (record {
  message = describe_context instance_type ++ codes ": no results returned";
  not_exist = false;
})
first_type instance_type (info ∷ _) = value info

-- What the identity document says.
abbrev pub identity_facts : IdentityDocument → Facts
identity_facts doc = record empty_facts {
  instance_id = doc.instance_id;
  instance_type = doc.instance_type;
  region = doc.region;
  availability_zone = doc.availability_zone;
  arch = doc.architecture;
}

module _ {S : Type 0} (host : Host S) where
  -- `fetchInstanceTypeInfo`
  unfoldable pub fetch_instance_type_info : Text → Text → S → Fallible InstanceTypeInfo
  fetch_instance_type_info region instance_type s =
      elim (host.describe_instance_types region instance_type s) [
        | failure e ↦ failure (errorf (describe_context instance_type) e)
        | value types ↦ first_type instance_type types
      ]

  -- `gatherInstanceTypeInfo`
  unfoldable pub gather_instance_type_info : Text → Text → S → Fallible Facts
  gather_instance_type_info region instance_type s =
      let fetched = fetch_instance_type_info region instance_type s in
      elim (host.load_default_config region s) [
        | some e ↦ failure (errorf (codes "loading AWS config") e)
        | none ↦ elim fetched [
          | failure e ↦ failure e
          | value info ↦ value (apply_instance_type_info empty_facts info)
        ]
      ]

  -- `fetchIdentityDocument`
  unfoldable pub fetch_identity_document : S → Fallible IdentityDocument
  fetch_identity_document s = elim (host.get_identity s) [
    | failure e ↦ failure (errorf (codes "IMDS GetInstanceIdentityDocument") e)
    | value doc ↦ value doc
  ]

  -- `gatherIdentity`
  unfoldable pub gather_identity : S → Fallible Facts
  gather_identity s = elim (fetch_identity_document s) [
    | failure e ↦ failure e
    | value doc ↦ value (identity_facts doc)
  ]
