-- ===== src/Tests/Mounts.antt =====
-- Tests of the mount resource, on a system that can mount the file system of BPF.
use node_configurator.Prelude.{true, false, List, [], ◌∷◌, some, ◌≡◌, refl, ap, if◌then◌else◌}
use mathlib.Core.Path.{subst}
use node_configurator.Text.{Text, codes, text_eq, split, is_space, fields}
use node_configurator.Text.Scan.{scan_lines, scan_pieces, is_too_long, drop_cr}
use node_configurator.System.{FilePath, Error, value, failure, Outcome, done, fail, Os, state_of}
use node_configurator.Sysutil.Paths.{
  new, path, filepath_join, elements, clean, clean_element, with_suffix,
}
use node_configurator.Sysutil.Files.{HasFiles}
use node_configurator.Resource.Fstab.{fstab_path}
use node_configurator.Resource.Mount.{
  MountResource, mount_resource, is_mounted, is_mount_line, any_mount_line,
}
use node_configurator.Resource.Mount.Laws.{HasMounts, backup_path}
use node_configurator.Resource.Mount.Settles.{mount-Converges}
use node_configurator.Engine.Run.Converge.{Converges}
use node_configurator.Tests.Memory.{
  Store, set, read, overwrite_others, memory-HasFiles, path_eq, path_eq-false,
}
use node_configurator.Tests.Kernel.{is_kernel, system}
use node_configurator.Tests.Profiles.{bpffs_IsEntry}

abbrev unknown : Error
unknown = record { message = codes "not here"; not_exist = false }

abbrev kernel_mounts : FilePath
kernel_mounts = codes "proc" ∷ codes "mounts" ∷ []

-- A successful `mount` lists the file system.
abbrev mount_command : Text → List Text → Store → Outcome Store Text
mount_command name args s =
    if text_eq name (codes "mount")
    then done [] (set kernel_mounts (some (codes "bpffs /sys/fs/bpf bpf rw,nosuid 0 0\n")) s)
    else fail unknown s

abbrev host : Os
host = system (λ s p. failure unknown) (λ s p. failure unknown) mount_command

host-HasFiles : HasFiles host
host-HasFiles =
    memory-HasFiles is_kernel (λ s p. failure unknown) (λ s p. failure unknown) mount_command

abbrev bpffs : MountResource
bpffs = record {
  env = new;
  resource_name = codes "bpffs-mount";
  device = codes "bpffs";
  mount_point = codes "/sys/fs/bpf";
  fs_type = codes "bpf";
  options = codes "rw,nosuid";
  fstab_persist = true;
}

mounted :
    (s : Store) → is_mounted host bpffs (state_of (mount_command (codes "mount") [] s)) ≡ value true
unfolding is_mounted read set path_eq path new filepath_join elements clean clean_element split
    text_eq scan_lines scan_pieces is_too_long drop_cr any_mount_line is_mount_line fields is_space
mounted s = refl

host-HasMounts : HasMounts host bpffs
unfolding text_eq path new filepath_join elements clean clean_element split path_eq with_suffix
    fstab_path
host-HasMounts = record {
  mount_shows = λ s t out e.
      subst (λ (u : Store). is_mounted host bpffs u ≡ value true) (ap state_of e) (mounted s);
  backup_others = λ c s.
      overwrite_others is_kernel (λ s p. failure unknown) (λ s p. failure unknown) mount_command
        (backup_path bpffs) c s;
  mounts-ne-fstab = path_eq-false _ _ refl;
  mounts-ne-backup = path_eq-false _ _ refl;
}

mount-Converges_example : Converges (mount_resource host bpffs)
mount-Converges_example = mount-Converges host bpffs host-HasFiles host-HasMounts bpffs_IsEntry
