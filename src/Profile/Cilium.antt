-- ===== src/Profile/Cilium.antt =====
-- internal/profile/cilium.go: what Cilium needs of the host.
use node_configurator.Prelude.{Bool, true, List, [], ◌∷◌, ◌++◌, if◌then◌else◌}
use node_configurator.Text.{Text, codes, text_eq}
use node_configurator.Text.Dict.{put}
use node_configurator.Profile.{Profile, MountSpec}

pub record CiliumOptions : Type 0 where
  pub tunnel_mode : Text
  pub legacy_iptables : Bool

abbrev pub bpffs_path : Text
bpffs_path = codes "/sys/fs/bpf"

abbrev pub bpffs_mount : MountSpec
bpffs_mount = record {
  name = codes "bpffs-mount";
  device = codes "bpffs";
  path = bpffs_path;
  fs_type = codes "bpf";
  options = codes "rw,nosuid,nodev,noexec,relatime";
  fstab_persist = true;
}

-- The modules of the `switch` on the tunnel mode.
unfoldable pub tunnel_modules : Text → List Text
tunnel_modules mode =
    if text_eq mode (codes "vxlan")
    then codes "vxlan" ∷ []
    else if text_eq mode (codes "geneve")
    then codes "geneve" ∷ []
    else []

-- The assignments under `LegacyIPTables`.
unfoldable pub add_netfilter : Profile → Profile
add_netfilter p = record p {
  modules =
      p.modules
      ++ codes "br_netfilter"
        ∷ codes "nf_conntrack"
        ∷ codes "iptable_nat"
        ∷ codes "iptable_filter"
        ∷ [];
  sysctls =
      put (codes "net.bridge.bridge-nf-call-ip6tables") (codes "1")
        (put (codes "net.bridge.bridge-nf-call-iptables") (codes "1") p.sysctls);
}

-- `applyCiliumPrereqs`
unfoldable pub apply_cilium_prereqs : CiliumOptions → Profile → Profile
unfolding tunnel_modules add_netfilter
apply_cilium_prereqs opts p =
    let q = record p {
      mounts = p.mounts ++ bpffs_mount ∷ [];
      modules = p.modules ++ tunnel_modules opts.tunnel_mode;
    } in
    if opts.legacy_iptables then add_netfilter q else q
