-- ===== src/Facts.antt =====
-- internal/facts/facts.go: what the program knows of the host.
pub mod Host
pub mod Local
pub mod Cache
pub mod Instance
pub mod Gather
use node_configurator.Prelude.{
  Bool, false, List, [], none, some, if◌then◌else◌, ℤ, pos, ltb_ℤ, mul64,
}
use node_configurator.Text.{Text, cut}
use node_configurator.Float.{Float64}
use node_configurator.Float.Decimal.{float_zero}
use node_configurator.Sysutil.Distro.{Distro}

pub record Facts : Type 0 where
  pub instance_id : Text
  pub instance_type : Text
  pub family : Text
  pub region : Text
  pub availability_zone : Text
  pub arch : Text
  pub vcpus : ℤ
  pub mem_mib : ℤ
  pub network_bandwidth_gbps : Float64
  pub ena_support : Bool
  pub max_enis : ℤ
  pub ipv4_addresses_per_eni : ℤ
  pub nvme_instance_store : Bool
  pub bare_metal : Bool
  pub hypervisor : Text
  pub distro : Distro
  pub kernel_version : Text
  pub source : Text
  pub warnings : List Text

-- The zero value.
abbrev pub empty_facts : Facts
empty_facts = record {
  instance_id = [];
  instance_type = [];
  family = [];
  region = [];
  availability_zone = [];
  arch = [];
  vcpus = pos 0;
  mem_mib = pos 0;
  network_bandwidth_gbps = float_zero;
  ena_support = false;
  max_enis = pos 0;
  ipv4_addresses_per_eni = pos 0;
  nvme_instance_store = false;
  bare_metal = false;
  hypervisor = [];
  distro = record { id = []; version_id = [] };
  kernel_version = [];
  source = [];
  warnings = [];
}

-- `if n <= 0 { n = 1 }`
unfoldable pub at_least_one : ℤ → ℤ
at_least_one n = if ltb_ℤ (pos 0) n then n else pos 1

-- `MaxNeighborEntries`
unfoldable pub max_neighbor_entries : Facts → ℤ
unfolding at_least_one
max_neighbor_entries f = mul64 (at_least_one f.max_enis) (at_least_one f.ipv4_addresses_per_eni)

-- `familyFromInstanceType`
unfoldable pub family_from_instance_type : Text → Text
family_from_instance_type t = elim (cut b'.' t) [ some (family, _) ↦ family | none ↦ t ]
