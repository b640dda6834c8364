-- ===== src/Resource/CpuGovernor/Settles.antt =====
-- The CPU governor converges, on a kernel that keeps the governors it accepts.
use node_configurator.Prelude.{
  true, false, List, [], ◌∷◌, some, ◌≡◌, refl, sym, ap, ◌∙◌, arith, ◌⊎◌, inl, inr, All, Bool-cases,
}
use mathlib.Core.Option.{some-injective}
use node_configurator.Text.{Text, text_eq, trim_space, is_nil}
use node_configurator.Text.Equality.{text_eq_refl}
use node_configurator.System.{FilePath, value, done, Os}
use node_configurator.System.Post.{Post, Fallible-cases, Outcome-cases, Anything}
use node_configurator.System.Loop.Laws.{Keeps, Keeps-refl, for_each-IsRight}
use node_configurator.Sysutil.Paths.{Env}
use node_configurator.Sysutil.Files.{content, content_of}
use node_configurator.Resource.{is_failed, is_changed, is_would_change}
use node_configurator.Resource.CpuGovernor.{
  governor_paths, count_drift, check_paths, check, write_governor, set_governor, set_governors,
  apply, cpu_governor_resource,
}
use node_configurator.Engine.Run.Converge.{IsSettled, Converges}

-- What the resource relies on in the kernel. A write that succeeds is read back, up to blanks at its
-- ends; it changes no other file, and which CPUs have a governor stays the same.
pub record HasGovernors (os : Os) (env : Env) (governor : Text) : Type 0 where
  pub read_back :
      (p : FilePath) (s t : os.State)
      → os.write_file p governor s ≡ done tt t
      → (x : Text) × (os.read_file t p ≡ value x) × (trim_space x ≡ governor)
  pub others :
      (p q : FilePath) (s t : os.State)
      → os.write_file p governor s ≡ done tt t
      → (q ≡ p) ⊎ (content os t q ≡ content os s q)
  pub same_paths :
      (p : FilePath) (s t : os.State)
      → os.write_file p governor s ≡ done tt t
      → governor_paths os env governor t ≡ governor_paths os env governor s

module _ (os : Os) (env : Env) (governor : Text) (kernel : HasGovernors os env governor) where
  open os use {State, read_file, write_file}

  -- If the file can be read, it names the governor.
  OnGovernor : State → FilePath → Type 0
  OnGovernor s p = (x : Text) → content os s p ≡ some x → text_eq (trim_space x) governor ≡ true

  abbrev Kept : State → State → Type 0
  Kept = Keeps OnGovernor (governor_paths os env governor)

  written-OnGovernor :
      (p : FilePath) (s t : State) → write_file p governor s ≡ done tt t → OnGovernor t p
  unfolding OnGovernor
  written-OnGovernor p s t h x k =
      let (y, e, n) = kernel.read_back p s t h in
      rw (sym (some-injective y x (sym (ap content_of e) ∙ k)), n) (text_eq_refl governor)

  written-Kept : (p : FilePath) (s t : State) → write_file p governor s ≡ done tt t → Kept s t
  unfolding OnGovernor
  written-Kept p s t h = record {
    kept = λ q g. elim (kernel.others p q s t h) [
      | inl e ↦ rw e (written-OnGovernor p s t h)
      | inr e ↦ λ x k. g x (sym e ∙ k)
    ];
    same = kernel.same_paths p s t h;
  }

  write_governor_lem :
      (p : FilePath) (s : State)
      → Post (λ _ t. OnGovernor t p × Kept s t) Anything (write_governor os env governor p s)
  unfolding write_governor
  write_governor_lem p s = elim (Outcome-cases (write_file p governor s)) [
    | inl (a, t, e) ↦
        rw (Post, write_governor, e) (written-OnGovernor p s t e, written-Kept p s t e)
    | inr (x, t, e) ↦ rw (Post, write_governor, e) tt
  ]

  set_governor_lem :
      (p : FilePath) (s : State)
      → Post (λ _ t. OnGovernor t p × Kept s t) Anything (set_governor os env governor p s)
  unfolding set_governor OnGovernor
  set_governor_lem p s = elim (Fallible-cases (read_file s p)) [
    | inl (c, e) ↦ elim (Bool-cases (text_eq (trim_space c) governor)) [
      | inl b ↦
          rw (set_governor, e, b)
            (
              λ x k. rw (sym (some-injective c x (sym (ap content_of e) ∙ k))) b,
              Keeps-refl OnGovernor (governor_paths os env governor) s,
            )
      | inr b ↦ rw (set_governor, e, b) (write_governor_lem p s)
    ]
    | inr (x, e) ↦ rw (set_governor, e) (write_governor_lem p s)
  ]

  set_governors_lem :
      (ps : List FilePath) (s : State)
      → Post (λ _ t. All (OnGovernor t) ps × Kept s t) Anything (set_governors os env governor ps s)
  unfolding set_governors
  set_governors_lem =
      for_each-IsRight OnGovernor (governor_paths os env governor) (set_governor os env governor)
        set_governor_lem

  count_drift-All :
      (s : State) (ps : List FilePath)
      → All (OnGovernor s) ps
      → count_drift os env governor s ps ≡ 0
  unfolding count_drift OnGovernor
  count_drift-All s [] h = refl
  count_drift-All s (p ∷ ps) h = elim (Fallible-cases (read_file s p)) [
    | inl (c, e) ↦ rw (count_drift, e, h.0 c (ap content_of e)) (count_drift-All s ps h.1)
    | inr (x, e) ↦ rw (count_drift, e) (count_drift-All s ps h.1)
  ]

  IsSettled-of_paths :
      (t : State) (ps : List FilePath)
      → is_nil governor ≡ false
      → governor_paths os env governor t ≡ value ps
      → count_drift os env governor t ps ≡ 0
      → IsSettled (cpu_governor_resource os env governor) t
  unfolding check check_paths is_failed is_changed
  IsSettled-of_paths t ps n e d = record {
    no_error = rw (check, n, e, check_paths, d) (ground arith);
    no_failure = rw (check, n, e, check_paths, d) (ground arith);
    no_change = rw (check, n, e, check_paths, d) (ground arith);
  }

  apply-IsSettled :
      (s t : State)
      → is_nil governor ≡ false
      → apply os env governor s ≡ done tt t
      → IsSettled (cpu_governor_resource os env governor) t
  unfolding apply
  apply-IsSettled s t n a = elim (Fallible-cases (governor_paths os env governor s)) [
    | inl (ps, e) ↦
        let (on, k) = rw (rw (apply, n, e) at a) at (set_governors_lem ps s) in
        IsSettled-of_paths t ps n (k.same ∙ e) (count_drift-All t ps on)
    | inr (x, e) ↦ absurd (cc (rw (apply, n, e) at a))
  ]

  -- After a successful `Apply` of a CPU governor, `Check` finds no CPU on another governor, where the
  -- kernel reads back the governors that it accepts.
  pub cpu_governor-Converges : Converges (cpu_governor_resource os env governor)
  unfolding check check_paths is_failed is_changed is_would_change
  cpu_governor-Converges = record {
    read_only = λ s. ground arith;
    fails_with_error = λ s x e. ground arith;
    no_error_no_failure = λ s e. ground arith;
    only_drift = λ s e w. ground arith;
    settles = λ s t w a. elim (Bool-cases (is_nil governor)) [
      | inl n ↦ absurd (cc (rw (check, n) at w))
      | inr n ↦ apply-IsSettled s t n a
    ];
  }
