-- ===== src/Resource/KernelModule/Settles.antt =====
-- `Apply` of the kernel module resource settles it.
use node_configurator.Prelude.{
  true, false, ◌||◌, List, [], ◌∷◌, ◌++◌, Option, none, some, ◌≡◌, ◌≢◌, refl, sym, ap, ◌∙◌, arith,
  Bool-cases, inl, inr,
}
use mathlib.Core.Option.{some-injective}
use node_configurator.Text.{Text, codes, contains, is_nil}
use node_configurator.Text.Equality.{text_eq_refl}
use node_configurator.System.{FilePath, value, Os}
use node_configurator.System.Post.{
  Post, Post-weaken, Triple, then_with, then_next, in_context, returned, Fallible-cases, Anything,
}
use node_configurator.Sysutil.Paths.{show_path}
use node_configurator.Sysutil.Files.{content, content_of, HasFiles}
use node_configurator.Sysutil.Atomic.{write_file_if_changed}
use node_configurator.Sysutil.Atomic.Temp.{Written, Untouched}
use node_configurator.Sysutil.Atomic.Laws.{write_file_if_changed_lem}
use node_configurator.Resource.{
  unchanged, skipped, is_failed, is_changed, is_would_change, checked, result_of,
}
use node_configurator.Resource.KernelModule.{
  KernelModuleResource, kernel_modules_name, want_modules, render_modules_file, missing_modules,
  loaded_modules, is_stale, report_missing, load_modules, persist_to, check, apply,
  kernel_module_resource,
}
use node_configurator.Resource.KernelModule.Laws.{
  modules_path, Lists, HasModules, Lists-weaken, load_modules_lem,
}
use node_configurator.Engine.Run.Converge.{IsSettled, Converges}

missing_modules_none :
    (loaded ms : List Text)
    → ((n : Text) → contains ms n ≡ true → contains loaded n ≡ true)
    → missing_modules loaded ms ≡ []
unfolding missing_modules contains
missing_modules_none loaded [] h = refl
missing_modules_none loaded (m ∷ ms) h =
    rw (h m (rw (text_eq_refl m) refl), missing_modules_none loaded ms (λ n e. h n (ground arith)))

module _ (os : Os) (r : KernelModuleResource) (files : HasFiles os)
    (modules : HasModules os r) where
  open os use {State, read_file}

  -- The drop-in file is not the kernel's list of modules.
  abbrev IsApartFrom : Option FilePath → Type 0
  IsApartFrom none = Unit
  IsApartFrom (some f) = modules_path r ≢ f

  abbrev pub IsApart : Type 0
  IsApart = IsApartFrom r.persist_file

  abbrev AllLoaded : State → Type 0
  AllLoaded s = Lists os r (contains (want_modules r.modules)) s

  -- The list of modules depends on its file alone.
  loaded_modules_kept :
      (s t : State) (ls : List Text)
      → loaded_modules os r s ≡ value ls
      → ((c : Text)
          → content os s (modules_path r) ≡ some c
          → content os t (modules_path r) ≡ some c)
      → loaded_modules os r t ≡ value ls
  unfolding loaded_modules
  loaded_modules_kept s t ls h k = elim (Fallible-cases (read_file s (modules_path r))) [
    | inr (x, e) ↦ absurd (cc (rw (e, loaded_modules) at h))
    | inl (c, e) ↦ elim (Fallible-cases (read_file t (modules_path r))) [
      | inr (y, d) ↦ absurd (cc (ap content_of d, k c (ap content_of e)))
      | inl (b, d) ↦
          let same : b ≡ c = some-injective b c (sym (ap content_of d) ∙ k c (ap content_of e)) in
          rw (loaded_modules, d ∙ ap value same) (rw (e, loaded_modules) at h)
    ]
  ]

  fresh_of_content :
      (t : State) (f : FilePath)
      → content os t f ≡ some (render_modules_file (want_modules r.modules))
      → is_stale os r (some f) t ≡ false
  unfolding is_stale
  fresh_of_content t f h = elim (Fallible-cases (read_file t f)) [
    | inl (c, q) ↦ rw (q, is_stale, some-injective c _ (sym (ap content_of q) ∙ h), text_eq_refl)
    | inr (x, q) ↦ absurd (cc (ap content_of q, h))
  ]

  abbrev Done : Option FilePath → State → Type 0
  Done o t = AllLoaded t × (is_stale os r o t ≡ false)

  persist_file_lem :
      (s : State) (f : FilePath)
      → IsApartFrom (some f)
      → AllLoaded s
      → Post
          (λ _. Done (some f))
          Anything
          (write_file_if_changed os f (render_modules_file (want_modules r.modules)) 0o644 s)
  persist_file_lem s f apart l =
      let c = render_modules_file (want_modules r.modules) in
      Post-weaken (λ _. Written os files f c s) (λ _. Done (some f)) (Untouched os files f c s)
        Anything (write_file_if_changed os f c 0o644 s)
        (write_file_if_changed_lem os files f c s 0o644)
        (λ b t w. (
          record {
            loaded = l.loaded;
            is = loaded_modules_kept s t l.loaded l.is (λ x q. w.1 (modules_path r) x apart q);
            has = l.has;
          },
          fresh_of_content t f w.0,
        ))
        (λ t w. tt)

  persist_to_lem :
      (o : Option FilePath)
      → IsApartFrom o
      → Triple AllLoaded (persist_to os r o) (λ _. Done o) Anything
  unfolding persist_to
  persist_to_lem none apart = record { run = λ s l. (l, unfold is_stale in refl) }
  persist_to_lem (some f) apart =
      then_with
        (in_context (codes "persisting modules-load.d drop-in " ++ show_path f)
          (record { run = λ s l. persist_file_lem s f apart l }))
        (λ b. returned tt)

  load_lem :
      (loaded : List Text)
      → Triple
          (Lists os r (contains loaded))
          (load_modules os r loaded (want_modules r.modules))
          (λ _. AllLoaded)
          Anything
  load_lem loaded = record {
    run = λ s l.
        Post-weaken
          (λ _. Lists os r (λ n. contains loaded n || contains (want_modules r.modules) n))
          (λ _. AllLoaded) Anything Anything (load_modules os r loaded (want_modules r.modules) s)
          ((load_modules_lem os r files modules loaded (want_modules r.modules) (contains loaded)
              (λ n e. e)).run
            s l)
          (λ u t k. Lists-weaken os r files modules _ _ t (λ n e. ground arith) k) (λ t k. tt);
  }

  apply_lem : IsApart → (s : State) → Post (λ _. Done r.persist_file) Anything (apply os r s)
  unfolding apply
  apply_lem apart s = elim (Fallible-cases (loaded_modules os r s)) [
    | inr (x, e) ↦ rw (apply, e) tt
    | inl (ls, e) ↦
        rw (apply, e)
          ((then_next (load_lem ls) (persist_to_lem r.persist_file apart)).run s
            (record { loaded = ls; is = e; has = λ n k. k }))
  ]

  settled :
      (s : State)
      → Done r.persist_file s
      → is_nil r.modules ≡ false
      → check os r s ≡ checked (result_of kernel_modules_name unchanged []) s
  unfolding check report_missing
  settled s d n =
      rw (check, n, d.0.is, missing_modules_none d.0.loaded (want_modules r.modules) d.0.has, d.1)

  idle :
      (s : State)
      → is_nil r.modules ≡ true
      → check os r s
        ≡ checked (result_of kernel_modules_name skipped (codes "no modules configured")) s
  unfolding check
  idle s n = rw (check, n)

  Done-IsSettled : (s : State) → Done r.persist_file s → IsSettled (kernel_module_resource os r) s
  unfolding is_failed is_changed
  Done-IsSettled s d = elim (Bool-cases (is_nil r.modules)) [
    | inl n ↦ let c = idle s n in record { no_error = rw c; no_failure = rw c; no_change = rw c }
    | inr n ↦
        let c = settled s d n in record { no_error = rw c; no_failure = rw c; no_change = rw c }
  ]

  -- After a successful `Apply` of the kernel modules, `Check` reports nothing to do: every module is
  -- loaded, and the drop-in file is up to date, where the kernel lists what `modprobe` loads and the
  -- drop-in file is not that list.
  pub kernel_module-Converges : IsApart → Converges (kernel_module_resource os r)
  unfolding check report_missing is_failed is_changed is_would_change
  kernel_module-Converges apart = record {
    read_only = λ s. ground arith;
    fails_with_error = λ s x e. ground arith;
    no_error_no_failure = λ s e. ground arith;
    only_drift = λ s e w. ground arith;
    settles = λ s t w a. Done-IsSettled t (rw a at (apply_lem apart s));
  }
