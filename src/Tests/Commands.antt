-- ===== src/Tests/Commands.antt =====
-- Tests of the command line.
use node_configurator.Prelude.{true, List, [], ◌∷◌, ◌++◌, some, ◌≡◌, refl, pos}
use node_configurator.Text.{
  Text, codes, text_eq, join, trim_space, trim_left, trim_right, is_space, contains, cut, split,
}
use node_configurator.System.{value, failure, done, FilePath}
use node_configurator.Facts.{Facts}
use node_configurator.Facts.Host.{Host}
use node_configurator.Config.{Config, empty_config, load}
use node_configurator.Engine.Run.{apply_mode, check_mode}
use node_configurator.Command.{split_csv}
use node_configurator.Command.Flags.{
  CommonFlags, default_flags, parse_common_flags, parse_flags, action,
}
use node_configurator.Command.Arguments.{arguments_of, parse_flags-arguments_of}
use node_configurator.Command.Laws.{IsCsvName, split_csv-join, run_engine_dry_run}
use node_configurator.Command.World.{World, Console, Formats}
use node_configurator.Command.Main.{gather_all_and_build, run_engine}
use node_configurator.Command.Exits.{RunsClean, run_engine_zero}
use node_configurator.Tests.Memory.{Store, set, read, path_eq}
use node_configurator.Tests.Toy.{toy, start, broken}
use node_configurator.Tests.Profiles.{indefinite}

swap_IsCsvName : IsCsvName (codes "swap")
unfolding trim_space trim_left trim_right is_space
swap_IsCsvName = record {
  not_empty = refl;
  trimmed = refl;
  no_comma = (refl, (refl, (refl, (refl, tt))));
}

split_csv-join_example :
    split_csv (join (codes ",") (codes "swap" ∷ codes "swap" ∷ []))
    ≡ codes "swap" ∷ codes "swap" ∷ []
split_csv-join_example =
    split_csv-join (codes "swap" ∷ codes "swap" ∷ []) (swap_IsCsvName, (swap_IsCsvName, tt))

abbrev config_file : FilePath
config_file = codes "etc" ∷ codes "config.yaml" ∷ []

abbrev dry_config : Config
dry_config = record empty_config { dry_run = true }

abbrev silent : Console Store
silent = record { stdout = λ text s. done tt s; stderr = λ text s. s }

abbrev formats : Formats
formats = record {
  unmarshal_config = λ text cfg. value dry_config;
  facts_json = λ f. failure broken;
  profile_json = λ p. failure broken;
  report_json = λ f results. failure broken;
}

-- A host without instance metadata.
abbrev host : Host Store
host = record {
  num_cpu = pos 8;
  goarch = codes "arm64";
  now = λ s. pos 1000;
  get_identity = λ s. failure broken;
  load_default_config = λ region s. some broken;
  describe_instance_types = λ region type s. failure broken;
  marshal = λ e. failure broken;
  unmarshal = λ s. failure broken;
}

abbrev world : World
world = record {
  os = toy;
  host = host;
  console = silent;
  formats = formats;
  out_of_range = indefinite;
  file_named = λ name. config_file;
  version = codes "dev";
}

abbrev configured : Store
configured = set config_file (some (codes "dryRun: true")) start

abbrev arguments : List Text
arguments = codes "-only" ∷ codes "cgroup-v2" ∷ []

abbrev only_cgroup : CommonFlags
only_cgroup = record default_flags { only = codes "cgroup-v2" }

parsed : parse_common_flags arguments ≡ some only_cgroup
unfolding parse_common_flags parse_flags action cut text_eq
parsed = refl

loaded :
    load toy formats.unmarshal_config (λ name. config_file) only_cgroup.config_path configured
    ≡ value dry_config
unfolding load read set path_eq text_eq
loaded = refl

run_engine_dry_run_example :
    run_engine world arguments apply_mode configured
    ≡ run_engine world arguments check_mode configured
run_engine_dry_run_example =
    run_engine_dry_run world arguments only_cgroup dry_config configured parsed loaded refl

parse_flags-arguments_of_example :
    parse_flags (arguments_of only_cgroup ++ codes "-only" ∷ codes "swap" ∷ []) default_flags
    ≡ parse_flags (codes "-only" ∷ codes "swap" ∷ []) only_cgroup
parse_flags-arguments_of_example =
    parse_flags-arguments_of only_cgroup default_flags (codes "-only" ∷ codes "swap" ∷ [])

exits : (run_engine world arguments apply_mode configured).0 ≡ 0
unfolding run_engine parse_common_flags parse_flags action cut text_eq
    node_configurator.Command.Main.run_flags gather_all_and_build load read set path_eq
    node_configurator.Facts.Gather.gather node_configurator.Facts.Instance.gather_identity
    node_configurator.Facts.Instance.fetch_identity_document node_configurator.Command.Main.run_with
    node_configurator.Command.resolve_log_format node_configurator.Command.Main.run_resources
    node_configurator.Command.Main.report_results node_configurator.Engine.Report.exit_code
    node_configurator.Engine.Run.run node_configurator.Command.engine_resources
    node_configurator.Engine.Build.build_resources node_configurator.Engine.Filter.filter_resources
    node_configurator.Engine.Build.all_resources node_configurator.Engine.Build.fixed_resources
    contains split_csv node_configurator.Command.nonempty_parts split trim_space is_space
    node_configurator.Engine.Build.mount_resources node_configurator.Profile.Merge.build
    node_configurator.Profile.Merge.apply_overrides
    node_configurator.Profile.Cilium.apply_cilium_prereqs
    node_configurator.Config.to_profile_overrides node_configurator.Profile.Scaling.apply_scaling
    node_configurator.Profile.Base.new_base_profile node_configurator.Engine.Build.limits_resources
    node_configurator.Engine.Build.service_limits node_configurator.Engine.Build.network_resources
    node_configurator.Facts.Gather.without_identity node_configurator.Facts.Gather.with_host
    node_configurator.Facts.Local.local_fallback node_configurator.Engine.Build.device_resources
    node_configurator.Resource.is_failed node_configurator.Engine.Run.run_one
    node_configurator.Resource.CgroupV2.check node_configurator.Sysutil.Distro.cgroup_v2_unified
    node_configurator.Tests.Memory.stat node_configurator.Command.Main.print_warnings
    node_configurator.Sysutil.Paths.path node_configurator.Sysutil.Paths.filepath_join
    node_configurator.Sysutil.Paths.new node_configurator.Sysutil.Paths.clean_element
    node_configurator.Command.effective_mode node_configurator.Resource.is_changed
exits = refl

run_engine_zero_example :
    (cf : CommonFlags) × (f : Facts) × (cfg : Config) × (u : Store) × (parse_common_flags arguments
      ≡ some cf)
    × (gather_all_and_build world cf configured ≡ done (f, cfg) u)
    × RunsClean world cf apply_mode f cfg u (run_engine world arguments apply_mode configured).1
run_engine_zero_example = run_engine_zero world arguments apply_mode configured exits
