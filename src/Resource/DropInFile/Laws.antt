-- ===== src/Resource/DropInFile/Laws.antt =====
-- The drop-in file converges.
use node_configurator.Prelude.{
  [], ◌++◌, ◌==◌, if◌then◌else◌, some, ◌≡◌, refl, sym, ap, ◌∙◌, arith, inl, inr,
}
use mathlib.Core.Option.{some-injective}
use node_configurator.Text.{codes}
use node_configurator.Text.Equality.{text_eq_refl}
use node_configurator.System.{Os}
use node_configurator.System.Post.{
  Post-weaken, Triple, then_with, in_context, returned, Fallible-cases, Anything,
}
use node_configurator.Sysutil.Paths.{show_path}
use node_configurator.Sysutil.Files.{content, content_of, HasFiles}
use node_configurator.Sysutil.Atomic.{write_file_if_changed}
use node_configurator.Sysutil.Atomic.Temp.{Written, Untouched}
use node_configurator.Sysutil.Atomic.Laws.{write_file_if_changed_lem}
use node_configurator.Resource.{
  unchanged, is_failed, is_changed, is_would_change, checked, result_of,
}
use node_configurator.Resource.DropInFile.{DropInFileResource, check, apply, drop_in_file_resource}
use node_configurator.Engine.Run.Converge.{IsSettled, Converges}

module _ (os : Os) (r : DropInFileResource) (files : HasFiles os) where
  open os use {State, read_file}

  -- The file has the content that is wanted.
  UpToDate : State → Type 0
  UpToDate s = content os s r.path ≡ some r.content

  UpToDate-check :
      (s : State) → UpToDate s → check os r s ≡ checked (result_of r.resource_name unchanged []) s
  unfolding UpToDate check
  UpToDate-check s h = elim (Fallible-cases (read_file s r.path)) [
    | inl (c, e) ↦
        rw
          (check, e, some-injective c r.content (sym (ap content_of e) ∙ h), text_eq_refl r.content)
    | inr (x, e) ↦ absurd (cc (ap content_of e, h))
  ]

  apply_lem : Triple Anything (apply os r) (λ _. UpToDate) Anything
  unfolding apply UpToDate
  apply_lem =
      let mode = if r.mode == 0 then 0o644 else r.mode in
      then_with
        (in_context (codes "writing " ++ show_path r.path) (record {
          run = λ s h.
              Post-weaken (λ _. Written os files r.path r.content s) (λ _. UpToDate)
                (Untouched os files r.path r.content s) Anything
                (write_file_if_changed os r.path r.content mode s)
                (write_file_if_changed_lem os files r.path r.content s mode) (λ b t w. w.0)
                (λ t w. tt);
        }))
        (λ b. returned tt)

  UpToDate-IsSettled : (s : State) → UpToDate s → IsSettled (drop_in_file_resource os r) s
  UpToDate-IsSettled s h =
      let c = UpToDate-check s h in
      record {
        no_error = rw c;
        no_failure = rw c (unfold is_failed in refl);
        no_change = rw c (unfold is_changed in refl);
      }

  -- After a successful `Apply` of a drop-in file, `Check` reports it as unchanged, whatever was there
  -- before.
  pub drop_in_file-Converges : Converges (drop_in_file_resource os r)
  unfolding check is_failed is_changed is_would_change
  drop_in_file-Converges = record {
    read_only = λ s. ground arith;
    fails_with_error = λ s x e. ground arith;
    no_error_no_failure = λ s e. ground arith;
    only_drift = λ s e w. ground arith;
    settles = λ s t w a. UpToDate-IsSettled t (rw a at (apply_lem.run s tt));
  }
