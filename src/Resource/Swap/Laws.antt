-- ===== src/Resource/Swap/Laws.antt =====
-- What `commentFstabSwapLines` leaves in /etc/fstab.
use node_configurator.Prelude.{false, some, ◌≡◌, sym, ap, ◌∙◌, Bool-cases, inl, inr}
use mathlib.Core.Option.{some-injective}
use node_configurator.Text.{Text, codes, split, trim_space}
use node_configurator.System.{Error, failure, Os}
use node_configurator.System.Post.{
  Post, Post-weaken, Triple, then_with, then_next, in_context, returned, Fallible-cases, Anything,
  any_call,
}
use node_configurator.Sysutil.Paths.{Env}
use node_configurator.Sysutil.Files.{content, content_of, HasFiles}
use node_configurator.Sysutil.Atomic.{write_file_if_changed, backup_file}
use node_configurator.Sysutil.Atomic.Temp.{Written, Untouched}
use node_configurator.Sysutil.Atomic.Laws.{write_file_if_changed_lem}
use node_configurator.Resource.Fstab.{
  fstab_path, fstab_has_active_swap_lines, comment_swap_lines, is_swap_line,
}
use node_configurator.Resource.Fstab.Laws.{comment_swap_lines_inactive}
use node_configurator.Resource.Swap.{fstab_content, rewrite_fstab, comment_fstab_swap_lines}

module _ (os : Os) (env : Env) (files : HasFiles os) where
  open os use {State, read_file}

  -- No entry of fstab would turn on swap at the next boot.
  abbrev pub IsSwapFree : State → Type 0
  IsSwapFree s = fstab_has_active_swap_lines (fstab_content os env s) ≡ false

  pub content_fstab :
      (s : State) (c : Text) → content os s (fstab_path env) ≡ some c → fstab_content os env s ≡ c
  unfolding fstab_content
  content_fstab s c h = elim (Fallible-cases (read_file s (fstab_path env))) [
    | inl (x, e) ↦ rw (fstab_content, e) (some-injective x c (sym (ap content_of e) ∙ h))
    | inr (x, e) ↦ absurd (cc (ap content_of e, h))
  ]

  write_step :
      (c : Text) (s : State)
      → fstab_has_active_swap_lines c ≡ false
      → Post (λ _. IsSwapFree) Anything (write_file_if_changed os (fstab_path env) c 0o644 s)
  write_step c s h =
      Post-weaken (λ _. Written os files (fstab_path env) c s) (λ _. IsSwapFree)
        (Untouched os files (fstab_path env) c s) Anything
        (write_file_if_changed os (fstab_path env) c 0o644 s)
        (write_file_if_changed_lem os files (fstab_path env) c s 0o644)
        (λ b t w. rw (content_fstab t c w.0) h) (λ t w. tt)

  rewrite_fstab_lem :
      (c : Text) → Triple Anything (rewrite_fstab os env c) (λ _. IsSwapFree) Anything
  unfolding rewrite_fstab
  rewrite_fstab_lem c =
      then_next
        (in_context (codes "backing up /etc/fstab") (any_call (backup_file os (fstab_path env))))
        (then_with
          (in_context (codes "writing /etc/fstab") (record {
            run = λ s h. write_step (comment_swap_lines c) s (comment_swap_lines_inactive c);
          }))
          (λ b. returned tt))

  pub missing-IsSwapFree :
      (s : State) (x : Error) → read_file s (fstab_path env) ≡ failure x → IsSwapFree s
  unfolding fstab_content fstab_has_active_swap_lines split is_swap_line trim_space
  missing-IsSwapFree s x e = rw (fstab_content, e)

  -- If `commentFstabSwapLines` succeeds, then no line of /etc/fstab is an active swap entry, whatever
  -- the file held before, also if there is no such file.
  pub comment_fstab_swap_lines_lem :
      (s : State) → Post (λ _. IsSwapFree) Anything (comment_fstab_swap_lines os env s)
  unfolding comment_fstab_swap_lines
  comment_fstab_swap_lines_lem s = elim (Fallible-cases (read_file s (fstab_path env))) [
    | inr (x, e) ↦ elim (Bool-cases x.not_exist) [
      | inl m ↦ rw (comment_fstab_swap_lines, e, m) (missing-IsSwapFree s x e)
      | inr m ↦ rw (comment_fstab_swap_lines, e, m) tt
    ]
    | inl (c, e) ↦ elim (Bool-cases (fstab_has_active_swap_lines c)) [
      | inl a ↦ rw (comment_fstab_swap_lines, e, a) ((rewrite_fstab_lem c).run s tt)
      | inr a ↦ rw (comment_fstab_swap_lines, e, a) (rw (content_fstab s c (ap content_of e)) a)
    ]
  ]
