-- ===== src/Resource/Mount/Settles.antt =====
-- `Apply` of the mount resource settles it.
use node_configurator.Prelude.{
  Bool, true, false, not, ◌&&◌, [], ◌∷◌, ◌++◌, some, ◌≡◌, refl, sym, ap, ◌∙◌, arith, Bool-cases,
  inl, inr,
}
use mathlib.Core.Option.{some-injective}
use node_configurator.Text.{Text, codes}
use node_configurator.Text.Equality.{text_eq_refl}
use node_configurator.System.{value, Outcome, done, fail, Os}
use node_configurator.System.Post.{
  Post, Post-weaken, Triple, then_with, then_next, in_context, returned, Fallible-cases, Anything,
  any_call,
}
use node_configurator.Sysutil.Paths.{filepath_join}
use node_configurator.Sysutil.Files.{content, content_of, HasFiles}
use node_configurator.Sysutil.Atomic.{write_file_if_changed, backup_file}
use node_configurator.Sysutil.Atomic.Backup.{backup_file-keeps}
use node_configurator.Sysutil.Atomic.Temp.{Written, Untouched}
use node_configurator.Sysutil.Atomic.Laws.{write_file_if_changed_lem}
use node_configurator.Resource.{
  unchanged, is_failed, is_changed, is_would_change, checked, result_of,
}
use node_configurator.Resource.Fstab.{fstab_path, fstab_line_exists, fstab_entry, append_entry}
use node_configurator.Resource.Fstab.Entries.{IsEntry, fstab_line_exists-append_entry}
use node_configurator.Resource.Mount.{
  MountResource, is_mounted, fstab_content, mount_args, mount_now, add_to_fstab, add_if_missing,
  persist_fstab, mount_if_missing, persist_if_wanted, report_mount, check, apply, mount_resource,
}
use node_configurator.Resource.Mount.Laws.{
  mounts_path, HasMounts, IsMounted, IsMounted-of, is_mounted_of, IsMounted-of_same,
}
use node_configurator.Engine.Run.Converge.{IsSettled, Converges}

module _ (os : Os) (r : MountResource) (files : HasFiles os) (mounts : HasMounts os r)
    (entry : IsEntry r.device r.mount_point r.fs_type r.options) where
  open os use {State, read_file, stat, write_file, mkdir_all, run}

  abbrev Mounted : State → Type 0
  Mounted s = IsMounted os r files mounts entry s

  -- fstab has the mount point.
  abbrev Listed : State → Type 0
  Listed s = fstab_line_exists (fstab_content os r s) r.mount_point ≡ true

  content_fstab :
      (s : State) (c : Text) → content os s (fstab_path r.env) ≡ some c → fstab_content os r s ≡ c
  unfolding fstab_content
  content_fstab s c h = elim (Fallible-cases (read_file s (fstab_path r.env))) [
    | inl (x, e) ↦ rw (fstab_content, e) (some-injective x c (sym (ap content_of e) ∙ h))
    | inr (x, e) ↦ absurd (cc (ap content_of e, h))
  ]

  backup_lem : Triple Mounted (backup_file os (fstab_path r.env)) (λ _. Mounted) Anything
  backup_lem = backup_file-keeps os Mounted (fstab_path r.env) (λ c s.
      IsMounted-of_same os r files mounts entry s _
        (mounts.backup_others c s (mounts_path r) mounts.mounts-ne-backup))

  abbrev Both : State → Type 0
  Both s = Mounted s × Listed s

  write_step :
      (c : Text) (s : State)
      → fstab_line_exists c r.mount_point ≡ true
      → Mounted s
      → Post (λ _. Both) Anything (write_file_if_changed os (fstab_path r.env) c 0o644 s)
  write_step c s h m =
      Post-weaken (λ _. Written os files (fstab_path r.env) c s) (λ _. Both)
        (Untouched os files (fstab_path r.env) c s) Anything
        (write_file_if_changed os (fstab_path r.env) c 0o644 s)
        (write_file_if_changed_lem os files (fstab_path r.env) c s 0o644)
        (λ b t w. (
          IsMounted-of_same os r files mounts entry s t
              (w.1 (mounts_path r) m.listing mounts.mounts-ne-fstab m.is ∙ sym m.is) m,
          ap (λ x. fstab_line_exists x r.mount_point) (content_fstab t c w.0) ∙ h,
        ))
        (λ t w. tt)

  listed_after :
      (existing : Text)
      → fstab_line_exists
          (append_entry existing (fstab_entry r.device r.mount_point r.fs_type r.options))
          r.mount_point
        ≡ true
  listed_after existing =
      fstab_line_exists-append_entry existing r.device r.mount_point r.fs_type r.options
        r.mount_point entry
      ∙ rw (text_eq_refl r.mount_point) (ground arith)

  add_to_fstab_lem :
      (existing : Text) → Triple Mounted (add_to_fstab os r existing) (λ _. Both) Anything
  unfolding add_to_fstab
  add_to_fstab_lem existing = then_next (in_context (codes "backing up /etc/fstab") backup_lem) (
      then_with
        (in_context (codes "writing /etc/fstab")
          (record { run = λ s m. write_step _ s (listed_after existing) m }))
        (λ b. returned tt))

  add_if_missing_lem :
      (existing : Text) (s : State)
      → fstab_content os r s ≡ existing
      → Mounted s
      → Post (λ _. Both) Anything (add_if_missing os r existing s)
  unfolding add_if_missing
  add_if_missing_lem existing s h m = elim (Bool-cases (fstab_line_exists existing r.mount_point)) [
    | inl k ↦ rw (add_if_missing, k) (m, ap (λ x. fstab_line_exists x r.mount_point) h ∙ k)
    | inr k ↦ rw (add_if_missing, k) ((add_to_fstab_lem existing).run s m)
  ]

  persist_fstab_lem : Triple Mounted (persist_fstab os r) (λ _. Both) Anything
  unfolding persist_fstab
  persist_fstab_lem = record {
    run = λ s m. elim (Fallible-cases (read_file s (fstab_path r.env))) [
      | inl (c, e) ↦
          rw (persist_fstab, e) (add_if_missing_lem c s (content_fstab s c (ap content_of e)) m)
      | inr (x, e) ↦ elim (Bool-cases x.not_exist) [
        | inl k ↦
            rw (persist_fstab, e, k)
              (add_if_missing_lem [] s (unfold fstab_content in rw (fstab_content, e)) m)
        | inr k ↦ rw (persist_fstab, e, k) tt
      ]
    ];
  }

  mount_shown :
      (u : State) (o : Outcome State Text)
      → run (codes "mount") (mount_args os r) u ≡ o
      → Post (λ _. Mounted) Anything o
  mount_shown u (done out t) e =
      IsMounted-of os r files mounts entry t (mounts.mount_shows u t out e)
  mount_shown u (fail x t) e = tt

  mount_lem : Triple Anything (run (codes "mount") (mount_args os r)) (λ _. Mounted) Anything
  mount_lem = record { run = λ u h. mount_shown u (run (codes "mount") (mount_args os r) u) refl }

  mount_now_lem : Triple Anything (mount_now os r) (λ _. Mounted) Anything
  unfolding mount_now
  mount_now_lem =
      then_next
        (in_context (codes "creating mount point " ++ r.mount_point)
          (any_call (mkdir_all (filepath_join (r.mount_point ∷ [])))))
        (then_with
          (in_context (codes "mounting " ++ (r.fs_type ++ (codes " at " ++ r.mount_point)))
            mount_lem)
          (λ out. returned tt))

  mount_if_missing_lem :
      (s : State) (b : Bool)
      → is_mounted os r s ≡ value b
      → Post (λ _. Mounted) Anything (mount_if_missing os r b s)
  unfolding mount_if_missing
  mount_if_missing_lem s true e = IsMounted-of os r files mounts entry s e
  mount_if_missing_lem s false e = mount_now_lem.run s tt

  -- fstab has the mount point if that is wanted.
  abbrev Persisted : Bool → State → Type 0
  Persisted wanted s =
      (wanted && not (fstab_line_exists (fstab_content os r s) r.mount_point)) ≡ false

  Listed-Persisted : (t : State) → Listed t → Persisted true t
  Listed-Persisted t h = ground (arith, h)

  abbrev Done : Bool → State → Type 0
  Done wanted s = Mounted s × Persisted wanted s

  persist_if_wanted_lem :
      (wanted : Bool) → Triple Mounted (persist_if_wanted os r wanted) (λ _. Done wanted) Anything
  unfolding persist_if_wanted
  persist_if_wanted_lem false = record { run = λ s m. (m, refl) }
  persist_if_wanted_lem true = record {
    run = λ s m.
        Post-weaken (λ _. Both) (λ _. Done true) Anything Anything (persist_fstab os r s)
          (persist_fstab_lem.run s m) (λ u t h. (h.0, Listed-Persisted t h.1)) (λ t h. tt);
  }

  after :
      (o : Outcome State (Unit {0}))
      → Post (λ _. Mounted) Anything o
      → Post
          (λ _. Done r.fstab_persist)
          Anything
          (elim o [ done _ t ↦ persist_if_wanted os r r.fstab_persist t | fail e t ↦ fail e t ])
  after (done u t) m = (persist_if_wanted_lem r.fstab_persist).run t m
  after (fail e t) m = tt

  apply_lem : (s : State) → Post (λ _. Done r.fstab_persist) Anything (apply os r s)
  unfolding apply
  apply_lem s = elim (Fallible-cases (is_mounted os r s)) [
    | inr (x, e) ↦ rw (apply, e) tt
    | inl (b, e) ↦ rw (apply, e) (after (mount_if_missing os r b s) (mount_if_missing_lem s b e))
  ]

  settled :
      (s : State)
      → Done r.fstab_persist s
      → check os r s ≡ checked (result_of r.resource_name unchanged []) s
  unfolding check report_mount
  settled s d = rw (check, is_mounted_of os r files mounts entry s d.0, d.1)

  Done-IsSettled : (s : State) → Done r.fstab_persist s → IsSettled (mount_resource os r) s
  Done-IsSettled s d =
      let c = settled s d in
      record {
        no_error = rw c;
        no_failure = rw c (unfold is_failed in refl);
        no_change = rw c (unfold is_changed in refl);
      }

  -- After a successful `Apply` of a mount, `Check` reports it as unchanged: the file system is mounted,
  -- and /etc/fstab has its entry if that is wanted, where the kernel lists what `mount` mounts, device
  -- and mount point are words, and the entry is one line that is no comment.
  pub mount-Converges : Converges (mount_resource os r)
  unfolding check report_mount is_failed is_changed is_would_change
  mount-Converges = record {
    read_only = λ s. ground arith;
    fails_with_error = λ s x e. ground arith;
    no_error_no_failure = λ s e. ground arith;
    only_drift = λ s e w. ground arith;
    settles = λ s t w a. Done-IsSettled t (rw a at (apply_lem s));
  }
