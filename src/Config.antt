-- ===== src/Config.antt =====
-- internal/config/config.go: the operator's file.
use node_configurator.Prelude.{ℕ, Bool, false, List, [], ◌++◌, if◌then◌else◌, Option, none, ℤ, pos}
use node_configurator.Text.{Text, codes, is_nil}
use node_configurator.Text.Dict.{Dict}
use node_configurator.Text.Quote.{quote}
use node_configurator.System.{FilePath, Fallible, value, failure, errorf, Os}
use node_configurator.Profile.Merge.{Overrides}

pub record LimitsConfig : Type 0 where
  pub no_file : ℕ
  pub nproc : ℕ

pub record HugePagesConfig : Type 0 where
  pub enabled : Bool
  pub count_2m : ℤ

pub record CiliumConfig : Type 0 where
  pub tunnel_mode : Text
  pub legacy_iptables : Bool

pub record NetworkConfig : Type 0 where
  pub irq_affinity : Option Bool
  pub ring_buffer_max : Option Bool
  pub rps : Option Bool
  pub xps : Option Bool

-- The types with a single field stand for that field. A duration counts nanoseconds.
pub record Config : Type 0 where
  pub dry_run : Bool
  pub log_format : Text
  pub disable : List Text
  pub sysctl_overrides : Dict Text
  pub limits : LimitsConfig
  pub huge_pages : HugePagesConfig
  pub cilium : CiliumConfig
  pub network : NetworkConfig
  pub io_scheduler : Option Text
  pub governor : Option Text
  pub cache_ttl : ℤ

-- The zero value.
abbrev pub empty_config : Config
empty_config = record {
  dry_run = false;
  log_format = [];
  disable = [];
  sysctl_overrides = [];
  limits = record { no_file = 0; nproc = 0 };
  huge_pages = record { enabled = false; count_2m = pos 0 };
  cilium = record { tunnel_mode = []; legacy_iptables = false };
  network = record { irq_affinity = none; ring_buffer_max = none; rps = none; xps = none };
  io_scheduler = none;
  governor = none;
  cache_ttl = pos 0;
}

-- `UnmarshalYAML`, from what `value.Decode` returns. `parse_duration` is `time.ParseDuration`.
unfoldable pub unmarshal_duration : (Text → Fallible ℤ) → Fallible Text → Fallible ℤ
unmarshal_duration parse_duration (failure e) = failure e
unmarshal_duration parse_duration (value s) =
    if is_nil s then value (pos 0) else elim (parse_duration s) [
      | value n ↦ value n
      | failure e ↦ failure (errorf (codes "invalid duration " ++ quote s) e)
    ]

module _ (os : Os) (unmarshal : Text → Config → Fallible Config)
    (file_named : Text → FilePath) where
  open os use {State, read_file}

  -- `Load`, without the configuration that it returns beside an error, which no caller reads.
  -- `unmarshal` is `yaml.Unmarshal` into a given configuration, and `file_named` is the file that a
  -- name of the command line stands for.
  unfoldable pub load : Text → State → Fallible Config
  load path s = elim (read_file s (file_named path)) [
    | failure e ↦
        if e.not_exist
        then value empty_config
        else failure (errorf (codes "reading config " ++ path) e)
    | value content ↦ elim (unmarshal content empty_config) [
      | value cfg ↦ value cfg
      | failure e ↦ failure (errorf (codes "parsing config " ++ path) e)
    ]
  ]

-- `ToProfileOverrides`
unfoldable pub to_profile_overrides : Config → Overrides
to_profile_overrides c = record {
  sysctl_overrides = c.sysctl_overrides;
  no_file_limit = c.limits.no_file;
  cpu_governor = c.governor;
  huge_pages_2m = if c.huge_pages.enabled then c.huge_pages.count_2m else pos 0;
  cilium = record {
    tunnel_mode = c.cilium.tunnel_mode;
    legacy_iptables = c.cilium.legacy_iptables;
  };
  irq_affinity = c.network.irq_affinity;
  ring_buffer_max = c.network.ring_buffer_max;
  rps = c.network.rps;
  xps = c.network.xps;
  io_scheduler = c.io_scheduler;
}
