-- ===== src/Resource/Mount/Laws.antt =====
-- The mount converges: after a successful `Apply` the file system is mounted and in /etc/fstab.
use node_configurator.Prelude.{
  true, [], ◌∷◌, some, ◌≡◌, ◌≢◌, sym, ap, ◌∙◌, arith, Bool-cases, inl, inr,
}
use mathlib.Core.Option.{some-injective}
use node_configurator.Text.{Text, codes}
use node_configurator.Text.Scan.{scan_lines}
use node_configurator.System.{FilePath, value, done, Os, state_of}
use node_configurator.System.Post.{Fallible-cases}
use node_configurator.Sysutil.Paths.{path}
use node_configurator.Sysutil.Atomic.Backup.{backup_of}
use node_configurator.Sysutil.Files.{content, content_of, HasFiles, SameFilesBut}
use node_configurator.Resource.Fstab.{fstab_path}
use node_configurator.Resource.Fstab.Entries.{IsEntry}
use node_configurator.Resource.Mount.{MountResource, any_mount_line, is_mounted, mount_args}

abbrev pub mounts_path : MountResource → FilePath
mounts_path r = path r.env (codes "proc" ∷ codes "mounts" ∷ [])

abbrev pub backup_path : MountResource → FilePath
backup_path r = backup_of (fstab_path r.env)

-- What the resource relies on in `mount`, and in the kernel's list of mounts being a file of its own.
pub record HasMounts (os : Os) (r : MountResource) : Type 0 where
  pub mount_shows :
      (s t : os.State) (out : Text)
      → os.run (codes "mount") (mount_args os r) s ≡ done out t
      → is_mounted os r t ≡ value true
  pub backup_others :
      (c : Text) (s : os.State)
      → SameFilesBut os (backup_path r) s (state_of (os.write_file (backup_path r) c s))
  pub mounts-ne-fstab : mounts_path r ≢ fstab_path r.env
  pub mounts-ne-backup : mounts_path r ≢ backup_path r

module _ (os : Os) (r : MountResource) (files : HasFiles os) (mounts : HasMounts os r)
    (entry : IsEntry r.device r.mount_point r.fs_type r.options) where
  open os use {State, read_file, stat, write_file, mkdir_all, run}

  -- The kernel lists the mount.
  pub record IsMounted (s : State) : Type 0 where
    pub listing : Text
    pub is : content os s (mounts_path r) ≡ some listing
    pub listed : any_mount_line r.mount_point r.fs_type (scan_lines listing).lines ≡ true

  pub IsMounted-of : (s : State) → is_mounted os r s ≡ value true → IsMounted s
  unfolding is_mounted
  IsMounted-of s h = elim (Fallible-cases (read_file s (mounts_path r))) [
    | inr (x, e) ↦ absurd (cc (rw (e, is_mounted) at h))
    | inl (c, e) ↦ elim (Bool-cases (any_mount_line r.mount_point r.fs_type (scan_lines c).lines)) [
      | inl k ↦ record { listing = c; is = ap content_of e; listed = k }
      | inr k ↦ absurd (ground (arith, rw (e, is_mounted, k) at h))
    ]
  ]

  pub is_mounted_of : (s : State) → IsMounted s → is_mounted os r s ≡ value true
  unfolding is_mounted
  is_mounted_of s m = elim (Fallible-cases (read_file s (mounts_path r))) [
    | inr (x, e) ↦ absurd (cc (ap content_of e, m.is))
    | inl (c, e) ↦
        rw (is_mounted, e, some-injective c m.listing (sym (ap content_of e) ∙ m.is), m.listed)
  ]

  pub IsMounted-of_same :
      (s t : State)
      → content os t (mounts_path r) ≡ content os s (mounts_path r)
      → IsMounted s
      → IsMounted t
  IsMounted-of_same s t h m = record { listing = m.listing; is = h ∙ m.is; listed = m.listed }
