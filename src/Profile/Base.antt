-- ===== src/Profile/Base.antt =====
-- internal/profile/base.go
use node_configurator.Prelude.{true, false, [], ◌∷◌, pos, ltb_ℤ}
use node_configurator.Text.{Text, codes}
use node_configurator.Text.Dict.{Dict}
use node_configurator.Facts.{Facts}
use node_configurator.Profile.{Profile}

-- `baseSysctls`
abbrev pub base_sysctls : Dict Text
base_sysctls =
    (codes "vm.max_map_count", codes "262144")
    ∷ (codes "vm.swappiness", codes "0")
    ∷ (codes "fs.inotify.max_user_watches", codes "1048576")
    ∷ (codes "fs.inotify.max_user_instances", codes "8192")
    ∷ (codes "fs.nr_open", codes "1048576")
    ∷ (codes "net.ipv4.ip_forward", codes "1")
    ∷ (codes "net.core.bpf_jit_enable", codes "1")
    ∷ (codes "net.core.bpf_jit_harden", codes "0")
    ∷ (codes "kernel.unprivileged_bpf_disabled", codes "1")
    ∷ (codes "kernel.panic", codes "10")
    ∷ (codes "kernel.panic_on_oops", codes "1")
    ∷ []

-- `newBaseProfile`
unfoldable pub new_base_profile : Facts → Profile
new_base_profile f = record {
  sysctls = base_sysctls;
  modules = [];
  limits = record { no_file = 1048576; nproc = 0 };
  mounts = [];
  huge_pages = record { enabled = false; count_2m = pos 0 };
  irq_enabled = ltb_ℤ (pos 1) f.vcpus;
  nic = record { ring_buffer_max = true; rps = true; xps = true };
  cpu_governor = codes "performance";
  io_scheduler = record { enabled = true; scheduler = codes "none" };
  swap_disable = true;
}
