-- ===== src/Tests/Profiles.antt =====
-- Tests of the profile and of /etc/fstab.
use node_configurator.Prelude.{
  true, false, ◌&&◌, ◌||◌, [], ◌∷◌, none, some, ◌≡◌, refl, if◌then◌else◌, ℤ, pos, negsuc, All,
}
use mathlib.Core.Option.{or_else}
use node_configurator.Text.{Text, codes, text_eq, is_space, contains, has_prefix}
use node_configurator.Text.Dict.{NodupKeys, lookup, keys}
use node_configurator.Text.Number.{show_int}
use node_configurator.System.Post.{Post, Anything}
use node_configurator.Float.{Float64}
use node_configurator.Facts.{Facts}
use node_configurator.Profile.Merge.{Overrides, build}
use node_configurator.Profile.Merge.Laws.{lookup-build, reserves, nr_hugepages, without_sysctls}
use node_configurator.Profile.Merge.Scaled.{
  bounds, thresholds, IsBounded, build-IsBounded, HasThresholds, build-HasThresholds,
}
use node_configurator.Profile.Merge.Choices.{
  IsNetfilterFree, build-IsNetfilterFree, IsConsistent, build-IsConsistent,
}
use node_configurator.Sysutil.Paths.{new}
use node_configurator.Resource.Fstab.{fstab_entry, fstab_line_exists, append_entry}
use node_configurator.Resource.Fstab.Entries.{IsEntry, fstab_line_exists-append_entry}
use node_configurator.Resource.Swap.{comment_fstab_swap_lines}
use node_configurator.Resource.Swap.Laws.{IsSwapFree, comment_fstab_swap_lines_lem}
use node_configurator.Resource.DropInFile.{DropInFileResource, drop_in_file_resource}
use node_configurator.Resource.DropInFile.Laws.{drop_in_file-Converges}
use node_configurator.Engine.Run.Converge.{Converges}
use node_configurator.Tests.Toy.{toy, toy-HasFiles, start}

-- What an x86-64 processor gives for a value that does not fit.
abbrev pub indefinite : Float64 → ℤ
indefinite x = negsuc 9223372036854775807

abbrev pub facts : Facts
facts = record {
  instance_id = codes "i-1";
  instance_type = codes "m6i.2xlarge";
  family = codes "m6i";
  region = codes "eu-west-1";
  availability_zone = codes "eu-west-1a";
  arch = codes "x86_64";
  vcpus = pos 8;
  mem_mib = pos 32768;
  network_bandwidth_gbps = record { negative = false; mantissa = 25; up = 0; down = 1 };
  ena_support = true;
  max_enis = pos 4;
  ipv4_addresses_per_eni = pos 15;
  nvme_instance_store = false;
  bare_metal = false;
  hypervisor = codes "nitro";
  distro = record { id = codes "ubuntu"; version_id = codes "22.04" };
  kernel_version = codes "6.5";
  source = codes "ec2-api";
  warnings = [];
}

abbrev pub overrides : Overrides
overrides = record {
  sysctl_overrides = (codes "vm.swappiness", codes "5") ∷ [];
  no_file_limit = 0;
  cpu_governor = none;
  huge_pages_2m = pos 64;
  cilium = record { tunnel_mode = codes "vxlan"; legacy_iptables = false };
  irq_affinity = none;
  ring_buffer_max = none;
  rps = some false;
  xps = none;
  io_scheduler = none;
}

overrides_distinct : NodupKeys overrides.sysctl_overrides
unfolding contains keys
overrides_distinct = (refl, tt)

abbrev swappiness : Text
swappiness = codes "vm.swappiness"

lookup-build_example : lookup swappiness (build indefinite facts overrides).sysctls ≡ (
    if reserves overrides && text_eq nr_hugepages swappiness
    then some (show_int overrides.huge_pages_2m)
    else or_else
        (lookup swappiness overrides.sysctl_overrides)
        (lookup swappiness (build indefinite facts (without_sysctls overrides)).sysctls))
lookup-build_example = lookup-build indefinite facts overrides overrides_distinct swappiness

overrides_free : All (λ b. lookup b.key overrides.sysctl_overrides ≡ none) bounds
unfolding lookup text_eq
overrides_free = (
  refl,
  (
    refl,
    (refl, (refl, (refl, (refl, (refl, (refl, (refl, (refl, (refl, (refl, (refl, tt))))))))))),
  ),
)

thresholds_free : All (λ b. lookup b.key overrides.sysctl_overrides ≡ none) thresholds
unfolding lookup text_eq
thresholds_free = (refl, (refl, (refl, tt)))

build-IsBounded_example : All (IsBounded (build indefinite facts overrides).sysctls) bounds
build-IsBounded_example =
    build-IsBounded indefinite facts overrides overrides_distinct overrides_free

build-HasThresholds_example : HasThresholds (build indefinite facts overrides).sysctls
build-HasThresholds_example =
    build-HasThresholds indefinite facts overrides overrides_distinct thresholds_free

build-IsNetfilterFree_example : IsNetfilterFree overrides (build indefinite facts overrides)
build-IsNetfilterFree_example =
    build-IsNetfilterFree indefinite facts overrides overrides_distinct refl

build-IsConsistent_example : IsConsistent overrides (build indefinite facts overrides)
build-IsConsistent_example = build-IsConsistent indefinite facts overrides

comment_fstab_swap_lines_lem_example :
    Post (λ _. IsSwapFree toy new toy-HasFiles) Anything (comment_fstab_swap_lines toy new start)
comment_fstab_swap_lines_lem_example = comment_fstab_swap_lines_lem toy new toy-HasFiles start

pub bpffs_IsEntry : IsEntry (codes "bpffs") (codes "/sys/fs/bpf") (codes "bpf") (codes "rw,nosuid")
unfolding is_space has_prefix
bpffs_IsEntry = record {
  device_word = (λ e. cc e, (refl, (refl, (refl, (refl, (refl, tt))))));
  not_comment = refl;
  mount_point_word = (
    λ e. cc e,
    (refl, (refl, (refl, (refl, (refl, (refl, (refl, (refl, (refl, (refl, (refl, tt))))))))))),
  );
  one_line_type = (refl, (refl, (refl, tt)));
  one_line_options = (refl, (refl, (refl, (refl, (refl, (refl, (refl, (refl, (refl, tt)))))))));
}

fstab_line_exists-append_entry_example :
    fstab_line_exists
      (append_entry
        (codes "a b c d 0 0")
        (fstab_entry (codes "bpffs") (codes "/sys/fs/bpf") (codes "bpf") (codes "rw,nosuid")))
      (codes "/sys/fs/bpf")
    ≡ (fstab_line_exists (codes "a b c d 0 0") (codes "/sys/fs/bpf")
        || text_eq (codes "/sys/fs/bpf") (codes "/sys/fs/bpf"))
fstab_line_exists-append_entry_example =
    fstab_line_exists-append_entry (codes "a b c d 0 0") (codes "bpffs") (codes "/sys/fs/bpf")
      (codes "bpf") (codes "rw,nosuid") (codes "/sys/fs/bpf") bpffs_IsEntry

abbrev limits_file : DropInFileResource
limits_file = record {
  resource_name = codes "limits-conf";
  path = codes "etc" ∷ codes "limits" ∷ [];
  content = codes "* soft nofile 1\n";
  mode = 0;
}

drop_in_file-Converges_example : Converges (drop_in_file_resource toy limits_file)
drop_in_file-Converges_example = drop_in_file-Converges toy limits_file toy-HasFiles
