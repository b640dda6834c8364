-- ===== src/Resource/Sysctl/Settles.antt =====
-- The sysctl resource converges: after a successful `Apply`, `Check` finds nothing to do.
use node_configurator.Prelude.{
  false, List, [], ◌∷◌, ◌++◌, Option, none, some, ◌≡◌, ◌≢◌, inl, inr, refl, sym, ap, ◌∙◌, arith,
  All,
}
use node_configurator.Text.{Text, codes}
use node_configurator.Text.Equality.{text_eq_refl}
use node_configurator.System.{FilePath, value, Os}
use mathlib.Core.Option.{some-injective}
use node_configurator.System.Post.{
  Post, Triple, then_with, then_next, in_context, returned, Fallible-cases, Anything, Post-both,
  Post-weaken, Post-any,
}
use node_configurator.Sysutil.Paths.{show_path}
use node_configurator.Sysutil.Files.{content, content_of, HasFiles}
use node_configurator.Sysutil.Atomic.{write_file_if_changed}
use node_configurator.Sysutil.Atomic.Temp.{Written, Untouched}
use node_configurator.Sysutil.Atomic.Laws.{write_file_if_changed_lem}
use node_configurator.Sysutil.Atomic.Invariant.{write_file_if_changed-Kept}
use node_configurator.Sysutil.Procsys.{sysctl_exists}
use node_configurator.Resource.{
  unchanged, result_of, checked, is_failed, is_changed, is_would_change,
}
use node_configurator.Resource.Sysctl.{
  SysctlResource, sorted_keys, render_sysctl_file, record_finding, diff_keys, diff_live, is_stale,
  persist_needed, check, persist_to, apply, sysctl_resource, sysctl_name, skipped_detail, Diff,
}
use node_configurator.Resource.Sysctl.Laws.{
  HasSysctls, Agreed, exists-Call, inspect-Agreed, Agreed_of_kept, file_of,
}
use node_configurator.Resource.Sysctl.Keys.{AllApart, apply_keys-Agreed}
use node_configurator.Engine.Run.Laws.{IsNamed}
use node_configurator.Engine.Run.Converge.{IsSettled, Converges}

module _ (os : Os) (r : SysctlResource) (files : HasFiles os) (kernel : HasSysctls os r.env) where
  open os use {State, read_file, stat, write_file}

  AllAgreed : State → Type 0
  AllAgreed s = All (Agreed os r files kernel s) (sorted_keys r.settings)

  -- The drop-in file is none of the files of the keys.
  abbrev IsApartFrom : Option FilePath → Type 0
  IsApartFrom none = Unit
  IsApartFrom (some f) = All (λ key. file_of os r files kernel key ≢ f) (sorted_keys r.settings)

  abbrev pub IsApart : Type 0
  IsApart = IsApartFrom r.persist_file

  All-kept :
      (s t : State) (f : FilePath) (ks : List Text)
      → ((key : Text) → sysctl_exists os r.env t key ≡ sysctl_exists os r.env s key)
      → ((p : FilePath) (x : Text) → p ≢ f → content os s p ≡ some x → content os t p ≡ some x)
      → All (λ key. file_of os r files kernel key ≢ f) ks
      → All (Agreed os r files kernel s) ks
      → All (Agreed os r files kernel t) ks
  All-kept s t f [] e c n h = tt
  All-kept s t f (k ∷ ks) e c n h = (
    Agreed_of_kept os r files kernel s t k (e k) (λ x q. c _ x n.0 q) h.0,
    All-kept s t f ks e c n.1 h.1,
  )

  fresh_of_content :
      (t : State) (f : FilePath)
      → content os t f ≡ some (render_sysctl_file r.settings)
      → is_stale os r (some f) t ≡ false
  unfolding is_stale
  fresh_of_content t f h = elim (Fallible-cases (read_file t f)) [
    | inl (c, q) ↦ rw (q, is_stale, some-injective c _ (sym (ap content_of q) ∙ h), text_eq_refl)
    | inr (x, q) ↦ absurd (cc (ap content_of q, h))
  ]

  -- Which sysctls exist does not change.
  abbrev SameKeys : State → State → Type 0
  SameKeys s t = (key : Text) → sysctl_exists os r.env t key ≡ sysctl_exists os r.env s key

  write_file_if_changed-SameKeys :
      (f : FilePath) (c : Text) (s : State)
      → Post (λ _. SameKeys s) (SameKeys s) (write_file_if_changed os f c 0o644 s)
  write_file_if_changed-SameKeys f c s =
      (write_file_if_changed-Kept os (SameKeys s)
          (λ u v k i key. exists-Call os r files kernel key k ∙ i key) f c 0o644).run
        s (λ key. refl)

  abbrev Done : Option FilePath → State → Type 0
  Done o t = AllAgreed t × (is_stale os r o t ≡ false)

  persist_file_lem :
      (s : State) (f : FilePath)
      → IsApartFrom (some f)
      → AllAgreed s
      → Post
          (λ _. Done (some f))
          Anything
          (write_file_if_changed os f (render_sysctl_file r.settings) 0o644 s)
  unfolding AllAgreed
  persist_file_lem s f apart h =
      let c = render_sysctl_file r.settings in
      let o = write_file_if_changed os f c 0o644 s in
      Post-weaken (λ _ t. SameKeys s t × Written os files f c s t) (λ _. Done (some f)) Anything
        Anything o
        (Post-both (λ _. SameKeys s) (λ _. Written os files f c s) o
          (Post-any (λ _. SameKeys s) (SameKeys s) o (write_file_if_changed-SameKeys f c s))
          (Post-any (λ _. Written os files f c s) (Untouched os files f c s) o
            (write_file_if_changed_lem os files f c s 0o644)))
        (λ b t k.
          (All-kept s t f (sorted_keys r.settings) k.0 k.1.1 apart h, fresh_of_content t f k.1.0))
        (λ t k. tt)

  persist_to_lem :
      (o : Option FilePath)
      → IsApartFrom o
      → Triple AllAgreed (persist_to os r o) (λ _. Done o) Anything
  unfolding persist_to
  persist_to_lem none apart = record { run = λ s h. (h, unfold is_stale in refl) }
  persist_to_lem (some f) apart =
      then_with
        (in_context (codes "persisting sysctl drop-in " ++ show_path f)
          (record { run = λ s h. persist_file_lem s f apart h }))
        (λ b. returned tt)

  apply_lem :
      IsApart
      → AllApart os r files kernel (sorted_keys r.settings)
      → Triple Anything (apply os r) (λ _. Done r.persist_file) Anything
  unfolding apply AllAgreed
  apply_lem apart distinct =
      then_next (apply_keys-Agreed os r files kernel (sorted_keys r.settings) distinct)
        (persist_to_lem r.persist_file apart)

  diff_keys-Agreed :
      (s : State) (ks : List Text)
      → All (Agreed os r files kernel s) ks
      → (d : Diff) × (diff_keys os r s ks ≡ value d) × (d.drift ≡ [])
  unfolding diff_keys record_finding
  diff_keys-Agreed s [] h = (record { drift = []; skipped = [] }, refl, refl)
  diff_keys-Agreed s (k ∷ ks) h =
      let (d, e, n) = diff_keys-Agreed s ks h.1 in
      elim (inspect-Agreed os r files kernel s k h.0) [
        | inl a ↦ (record d { skipped = k ∷ d.skipped }, rw (a, e), n)
        | inr a ↦ (d, rw (a, e), n)
      ]

  check_unchanged :
      (s : State) (d : Diff)
      → diff_live os r s ≡ value d
      → d.drift ≡ []
      → persist_needed os r s ≡ false
      → check os r s ≡ checked (result_of sysctl_name unchanged (skipped_detail os r d.skipped)) s
  unfolding check
  check_unchanged s d e n h = rw (e, check, n, h) refl

  Done-IsSettled : (s : State) → Done r.persist_file s → IsSettled (sysctl_resource os r) s
  unfolding diff_live AllAgreed
  Done-IsSettled s h =
      let (d, e, n) = diff_keys-Agreed s (sorted_keys r.settings) h.0 in
      let c = check_unchanged s d e n h.1 in
      record {
        no_error = rw c;
        no_failure = rw c (unfold is_failed in refl);
        no_change = rw c (unfold is_changed in refl);
      }

  check_read_only : (s : State) → (check os r s).state ≡ s
  unfolding check
  check_read_only s = ground arith

  pub sysctl-IsNamed : IsNamed (sysctl_resource os r)
  unfolding check
  sysctl-IsNamed s = elim (Fallible-cases (diff_live os r s)) [
    | inl (d, f) ↦ ground (arith, f)
    | inr (y, f) ↦ ground (arith, f)
  ]

  -- After a successful `Apply`, `Check` reports the sysctls as unchanged: every key is missing in
  -- this kernel or has its value, and the drop-in file is up to date. No two keys name one sysctl, the
  -- drop-in file is none of them, and the kernel reads back the fields that it accepts.
  pub sysctl-Converges :
      IsApart
      → AllApart os r files kernel (sorted_keys r.settings)
      → Converges (sysctl_resource os r)
  unfolding check is_failed is_changed is_would_change
  sysctl-Converges apart distinct = record {
    read_only = check_read_only;
    fails_with_error = λ s x e. elim (Fallible-cases (diff_live os r s)) [
      | inl (d, f) ↦ ground (arith, f)
      | inr (y, f) ↦ ground (arith, f)
    ];
    no_error_no_failure = λ s e. elim (Fallible-cases (diff_live os r s)) [
      | inl (d, f) ↦ ground (arith, f)
      | inr (y, f) ↦ ground (arith, f)
    ];
    only_drift = λ s e w. elim (Fallible-cases (diff_live os r s)) [
      | inl (d, f) ↦ ground (arith, f)
      | inr (y, f) ↦ ground (arith, f)
    ];
    settles = λ s t w a. Done-IsSettled t (rw a at ((apply_lem apart distinct).run s tt));
  }
