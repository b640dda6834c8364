-- ===== src/Resource/Swap/Off.antt =====
-- The first two steps of `Apply` of swap.go: `swapoff`, and the entries of /etc/fstab.
use node_configurator.Prelude.{
  false, List, [], ◌∷◌, Option, none, some, ◌≡◌, ◌≢◌, refl, sym, ap, ◌∙◌, Bool-cases, inl, inr,
}
use mathlib.Core.Option.{some-injective}
use node_configurator.Text.{Text, codes}
use node_configurator.System.{
  FilePath, value, Outcome, done, fail, ◌>>=◌, or_errorf, return, Os, state_of,
}
use node_configurator.System.Post.{
  Post, Post-weaken, Triple, then_with, then_next, in_context, returned, Fallible-cases, Anything,
}
use node_configurator.Sysutil.Paths.{Env, path}
use node_configurator.Sysutil.Files.{content, content_of, HasFiles, SameFilesBut}
use node_configurator.Sysutil.Atomic.{write_file_if_changed, backup_file}
use node_configurator.Sysutil.Atomic.Backup.{backup_of, backup_file-keeps}
use node_configurator.Sysutil.Atomic.Temp.{Written, Untouched}
use node_configurator.Sysutil.Atomic.Laws.{write_file_if_changed_lem}
use node_configurator.Resource.Fstab.{fstab_path, fstab_has_active_swap_lines, comment_swap_lines}
use node_configurator.Resource.Fstab.Laws.{comment_swap_lines_inactive}
use node_configurator.Resource.Swap.{
  active_swap_devices, active_swap_units, fstab_content, rewrite_fstab, comment_fstab_swap_lines,
  swap_off,
}
use node_configurator.Resource.Swap.Laws.{IsSwapFree, content_fstab, missing-IsSwapFree}

abbrev pub swaps_path : Env → FilePath
swaps_path env = path env (codes "proc" ∷ codes "swaps" ∷ [])

-- What a run of `Check` and the loop over the units see: the content of the kernel's list and of fstab,
-- and the units that systemd lists.
abbrev pub View : Type 0
View = Option Text × (Option Text × List Text)

abbrev pub view : (os : Os) → Env → os.State → View
view os env s =
    (content os s (swaps_path env), (content os s (fstab_path env), (active_swap_units os env s).0))

-- What the resource relies on. `swapoff -a` that succeeds leaves no swap in use. The listing of units
-- changes nothing. `systemctl mask` that succeeds masks its unit and unmasks none; it does not stop the
-- unit, so that the units that are listed stay the same, and so do the kernel's list and fstab. The
-- kernel's list is a file of its own.
pub record HasSwaps (os : Os) (env : Env) (IsMasked : os.State → Text → Type 0) : Type 0 where
  pub turns_off :
      (s t : os.State) (out : Text)
      → os.run (codes "swapoff") (codes "-a" ∷ []) s ≡ done out t
      → active_swap_devices os env t ≡ value []
  pub only_lists : (s : os.State) → (active_swap_units os env s).1 ≡ s
  pub masks :
      (unit : Text) (s t : os.State) (out : Text)
      → os.run (codes "systemctl") (codes "mask" ∷ unit ∷ []) s ≡ done out t
      → IsMasked t unit
  pub keeps_masked :
      (unit other : Text) (s t : os.State) (out : Text)
      → os.run (codes "systemctl") (codes "mask" ∷ unit ∷ []) s ≡ done out t
      → IsMasked s other
      → IsMasked t other
  pub same_view :
      (unit : Text) (s t : os.State) (out : Text)
      → os.run (codes "systemctl") (codes "mask" ∷ unit ∷ []) s ≡ done out t
      → view os env t ≡ view os env s
  pub backup_others :
      (c : Text) (s : os.State)
      → SameFilesBut os
          (backup_of (fstab_path env))
          s
          (state_of (os.write_file (backup_of (fstab_path env)) c s))
  pub swaps-ne-fstab : swaps_path env ≢ fstab_path env
  pub swaps-ne-backup : swaps_path env ≢ backup_of (fstab_path env)

-- A file that cannot be read counts as empty.
abbrev pub text_of : Option Text → Text
text_of (some c) = c
text_of none = []

module _ (os : Os) (env : Env) (files : HasFiles os) where
  open os use {State, read_file}

  -- No swap is in use.
  pub record IsOff (s : State) : Type 0 where
    pub off : active_swap_devices os env s ≡ value []

  -- The list of devices depends on its file alone.
  pub IsOff-kept :
      (s t : State)
      → ((c : Text)
          → content os s (swaps_path env) ≡ some c
          → content os t (swaps_path env) ≡ some c)
      → IsOff s
      → IsOff t
  unfolding active_swap_devices
  IsOff-kept s t k h = elim (Fallible-cases (read_file s (swaps_path env))) [
    | inr (x, e) ↦ absurd (cc (rw (e, active_swap_devices) at h.off))
    | inl (c, e) ↦ elim (Fallible-cases (read_file t (swaps_path env))) [
      | inr (y, d) ↦ absurd (cc (ap content_of d, k c (ap content_of e)))
      | inl (b, d) ↦
          let same : b ≡ c = some-injective b c (sym (ap content_of d) ∙ k c (ap content_of e)) in
          record {
            off =
                rw (active_swap_devices, d ∙ ap value same) (rw (e, active_swap_devices) at h.off);
          }
    ]
  ]

  pub fstab_content-content :
      (s : State) → fstab_content os env s ≡ text_of (content os s (fstab_path env))
  unfolding fstab_content
  fstab_content-content s = elim (Fallible-cases (read_file s (fstab_path env))) [
    | inl (c, e) ↦ rw (fstab_content, e)
    | inr (x, e) ↦ rw (fstab_content, e)
  ]

  -- No swap is in use, and /etc/fstab has no entry that would turn one on.
  abbrev pub Free : State → Type 0
  Free s = IsOff s × IsSwapFree os env files s

  module _ (IsMasked : State → Text → Type 0) (swaps : HasSwaps os env IsMasked) where
    open os use {run}

    swapoff_lem :
        (s : State) (o : Outcome State Text)
        → run (codes "swapoff") (codes "-a" ∷ []) s ≡ o
        → Post (λ _. IsOff) Anything o
    swapoff_lem s (done out t) e = record { off = swaps.turns_off s t out e }
    swapoff_lem s (fail x t) e = tt

    swapoff_call :
        Triple Anything
          (or_errorf (codes "swapoff -a") (run (codes "swapoff") (codes "-a" ∷ [])) >>= λ _.
            return tt)
          (λ _. IsOff)
          Anything
    swapoff_call =
        then_with
          (in_context (codes "swapoff -a") (record {
            run = λ u k. swapoff_lem u (run (codes "swapoff") (codes "-a" ∷ []) u) refl;
          }))
          (λ out. returned tt)

    pub swap_off_lem :
        (active : List Text) (s : State)
        → active_swap_devices os env s ≡ value active
        → Post (λ _. IsOff) Anything (swap_off os env active s)
    unfolding swap_off
    swap_off_lem [] s h = record { off = h }
    swap_off_lem (d ∷ ds) s h = swapoff_call.run s tt

    write_step :
        (c : Text) (s : State)
        → fstab_has_active_swap_lines c ≡ false
        → IsOff s
        → Post (λ _. Free) Anything (write_file_if_changed os (fstab_path env) c 0o644 s)
    write_step c s h off =
        Post-weaken (λ _. Written os files (fstab_path env) c s) (λ _. Free)
          (Untouched os files (fstab_path env) c s) Anything
          (write_file_if_changed os (fstab_path env) c 0o644 s)
          (write_file_if_changed_lem os files (fstab_path env) c s 0o644)
          (λ b t w. (
            IsOff-kept s t (λ x k. w.1 (swaps_path env) x swaps.swaps-ne-fstab k) off,
            rw (content_fstab os env files t c w.0) h,
          ))
          (λ t w. tt)

    backup_lem : Triple IsOff (backup_file os (fstab_path env)) (λ _. IsOff) Anything
    backup_lem = backup_file-keeps os IsOff (fstab_path env) (λ c s.
        IsOff-kept s _ (λ x k. swaps.backup_others c s (swaps_path env) swaps.swaps-ne-backup ∙ k))

    rewrite_fstab-Free : (c : Text) → Triple IsOff (rewrite_fstab os env c) (λ _. Free) Anything
    unfolding rewrite_fstab
    rewrite_fstab-Free c = then_next (in_context (codes "backing up /etc/fstab") backup_lem) (
        then_with
          (in_context (codes "writing /etc/fstab") (record {
            run = λ s h. write_step (comment_swap_lines c) s (comment_swap_lines_inactive c) h;
          }))
          (λ b. returned tt))

    pub comment_fstab-Free : Triple IsOff (comment_fstab_swap_lines os env) (λ _. Free) Anything
    unfolding comment_fstab_swap_lines
    comment_fstab-Free = record {
      run = λ s h. elim (Fallible-cases (read_file s (fstab_path env))) [
        | inr (x, e) ↦ elim (Bool-cases x.not_exist) [
          | inl m ↦ rw (comment_fstab_swap_lines, e, m) (h, missing-IsSwapFree os env files s x e)
          | inr m ↦ rw (comment_fstab_swap_lines, e, m) tt
        ]
        | inl (c, e) ↦ elim (Bool-cases (fstab_has_active_swap_lines c)) [
          | inl a ↦ rw (comment_fstab_swap_lines, e, a) ((rewrite_fstab-Free c).run s h)
          | inr a ↦
              rw (comment_fstab_swap_lines, e, a)
                (h, rw (content_fstab os env files s c (ap content_of e)) a)
        ]
      ];
    }
