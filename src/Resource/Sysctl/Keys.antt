-- ===== src/Resource/Sysctl/Keys.antt =====
-- The loop of `Apply` settles every sysctl key, where no two keys name one file.
use node_configurator.Prelude.{
  true, List, [], ◌∷◌, ◌++◌, ◌≡◌, ◌≢◌, ◌⊎◌, inl, inr, sym, ◌∙◌, All, Bool-cases,
}
use node_configurator.Text.{Text, codes, text_eq}
use node_configurator.System.{FilePath, Outcome, done, fail, errorf, Os}
use node_configurator.System.Post.{
  Post, Triple, then_next, returned, Fallible-cases, Anything, Post-both, Post-weaken,
}
use node_configurator.System.Loop.{for_each}
use node_configurator.Sysutil.Files.{HasFiles}
use node_configurator.Sysutil.Procsys.{read_sysctl, sysctl_exists, write_sysctl}
use node_configurator.Resource.Sysctl.{
  SysctlResource, setting, normalize_sysctl_value, write_key, apply_key, apply_keys,
}
use node_configurator.Resource.Sysctl.Laws.{
  HasSysctls, Agreed, missing, equal, file_of, exists-Call, stat_of_exists, Call-of, Agreed_of_read,
}

module _ (os : Os) (r : SysctlResource) (files : HasFiles os) (kernel : HasSysctls os r.env) where
  open os use {State, read_file, stat, write_file}

  abbrev file_at : Text → FilePath
  file_at = file_of os r files kernel

  abbrev Agrees : State → Text → Type 0
  Agrees = Agreed os r files kernel

  -- A round has nothing to do, or it writes the key.
  apply_key-cases :
      (key : Text) (s : State)
      → (Agrees s key × (apply_key os r key s ≡ done tt s))
        ⊎ ((sysctl_exists os r.env s key ≡ true) × (apply_key os r key s ≡ write_key os r key s))
  unfolding apply_key
  apply_key-cases key s = elim (Bool-cases (sysctl_exists os r.env s key)) [
    | inr e ↦ inl (missing e, rw e)
    | inl e ↦ elim (Fallible-cases (read_sysctl os r.env s key)) [
      | inr (x, f) ↦ inr (e, rw (e, f, apply_key))
      | inl (cur, f) ↦
          elim (Bool-cases (
            text_eq (normalize_sysctl_value cur)
              (normalize_sysctl_value (setting r.settings key)))) [
                | inl k ↦
                    inl (Agreed_of_read os r files kernel s key cur e f k, rw (e, f, apply_key, k))
                | inr k ↦ inr (e, rw (e, f, apply_key, k))
              ]
    ]
  ]

  abbrev Wrote : Text → State → Unit {0} → State → Type 0
  Wrote key s _ t = write_file (file_at key) (setting r.settings key) s ≡ done tt t

  wrote :
      (key : Text) (s : State) (c : Text) (o : Outcome State (Unit {0}))
      → write_file (file_at key) (setting r.settings key) s ≡ o
      → Post
          (Wrote key s)
          Anything
          (elim o [ done a t ↦ done a t | fail e t ↦ fail (errorf c e) t ])
  wrote key s c (done u t) h = h
  wrote key s c (fail e t) h = tt

  write_sysctl_present :
      (s : State) (key v : Text)
      → sysctl_exists os r.env s key ≡ true
      → write_sysctl os r.env key v s ≡ write_file (file_at key) v s
  unfolding write_sysctl
  write_sysctl_present s key v e = rw (stat_of_exists os r files kernel s key e, write_sysctl)

  write_key_lem :
      (key : Text) (s : State)
      → sysctl_exists os r.env s key ≡ true
      → Post (Wrote key s) Anything (write_key os r key s)
  unfolding write_key
  write_key_lem key s e =
      wrote key s (codes "applying sysctl " ++ (key ++ b'=' ∷ setting r.settings key)) _
        (sym (write_sysctl_present s key (setting r.settings key) e))

  written-Agreed :
      (key : Text) (s t : State)
      → sysctl_exists os r.env s key ≡ true
      → Wrote key s tt t
      → Agrees t key
  written-Agreed key s t e w =
      let (c, h, k) = kernel.read_back key (setting r.settings key) s t w in
      equal c (exists-Call os r files kernel key (Call-of os r files kernel key s t w) ∙ e) h k

  written-keeps :
      (key j : Text) (s t : State)
      → file_at j ≢ file_at key
      → Wrote key s tt t
      → Agrees s j
      → Agrees t j
  written-keeps key j s t ne w (missing e) =
      missing (exists-Call os r files kernel j (Call-of os r files kernel key s t w) ∙ e)
  written-keeps key j s t ne w (equal c e h k) =
      equal c (exists-Call os r files kernel j (Call-of os r files kernel key s t w) ∙ e)
        (kernel.others key (setting r.settings key) s t w (file_at j) ne ∙ h) k

  -- One round of `Apply` settles its key.
  apply_key-Agreed :
      (key : Text) (s : State) → Post (λ _ t. Agrees t key) Anything (apply_key os r key s)
  apply_key-Agreed key s = elim (apply_key-cases key s) [
    | inl (a, e) ↦ rw e a
    | inr (x, e) ↦ rw e (
        Post-weaken (Wrote key s) (λ _ t. Agrees t key) Anything Anything (write_key os r key s)
          (write_key_lem key s x) (λ u t w. written-Agreed key s t x w) (λ t w. tt))
  ]

  -- It leaves the keys of other files settled.
  apply_key-keeps :
      (key j : Text) (s : State)
      → file_at j ≢ file_at key
      → Agrees s j
      → Post (λ _ t. Agrees t j) Anything (apply_key os r key s)
  apply_key-keeps key j s ne h = elim (apply_key-cases key s) [
    | inl (a, e) ↦ rw e h
    | inr (x, e) ↦ rw e (
        Post-weaken (Wrote key s) (λ _ t. Agrees t j) Anything Anything (write_key os r key s)
          (write_key_lem key s x) (λ u t w. written-keeps key j s t ne w h) (λ t w. tt))
  ]

  abbrev Apart : Text → List Text → Type 0
  Apart j ks = All (λ k. file_at j ≢ file_at k) ks

  apply_keys-keeps :
      (j : Text) (ks : List Text)
      → Apart j ks
      → Triple (λ s. Agrees s j) (apply_keys os r ks) (λ _ t. Agrees t j) Anything
  unfolding apply_keys for_each
  apply_keys-keeps j [] h = returned tt
  apply_keys-keeps j (k ∷ ks) h =
      then_next (record { run = λ s a. apply_key-keeps k j s h.0 a }) (apply_keys-keeps j ks h.1)

  -- No two of the keys name one file.
  abbrev pub AllApart : List Text → Type 0
  AllApart [] = Unit
  AllApart (k ∷ ks) = Apart k ks × AllApart ks

  pub apply_keys-Agreed :
      (ks : List Text)
      → AllApart ks
      → Triple Anything (apply_keys os r ks) (λ _ t. All (Agrees t) ks) Anything
  unfolding apply_keys for_each
  apply_keys-Agreed [] h = returned tt
  apply_keys-Agreed (k ∷ ks) h =
      then_next (record { run = λ s _. apply_key-Agreed k s })
        (record {
          run = λ s a.
              Post-both _ _ (apply_keys os r ks s) ((apply_keys-keeps k ks h.0).run s a)
                ((apply_keys-Agreed ks h.1).run s tt);
        })
