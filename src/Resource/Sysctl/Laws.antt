-- ===== src/Resource/Sysctl/Laws.antt =====
-- `Apply` of the sysctl resource settles it.
use node_configurator.Prelude.{
  true, false, List, [], none, some, ◌≡◌, ◌⊎◌, inl, inr, sym, ap, ◌∙◌, Option-cases,
}
use node_configurator.Text.{Text, text_eq, fields, trim_space}
use node_configurator.Text.Equality.{text_eq→eq, text_eq_iff}
use node_configurator.Text.Trim.{fields-trim_space}
use node_configurator.System.{FilePath, Fallible, value, failure, done, Os, Call, state_of}
use mathlib.Core.Path.{subst}
use mathlib.Core.Option.{some-injective}
use node_configurator.System.Post.{Fallible-cases}
use node_configurator.Sysutil.Paths.{Env}
use node_configurator.Sysutil.Files.{content, content_of, HasFiles, SameFilesBut}
use node_configurator.Sysutil.Procsys.{sysctl_path, read_sysctl, sysctl_exists}
use node_configurator.Resource.Sysctl.{
  SysctlResource, setting, normalize_sysctl_value, absent, agrees, inspect,
}
use node_configurator.Resource.Sysctl.Values.{normalize_sysctl_value_iff}

-- What the resource relies on in the kernel: the files below /proc/sys come and go by no call, a
-- successful write is read back with the same fields and touches no other file.
pub record HasSysctls (os : Os) (env : Env) : Type 0 where
  pub stat_kept :
      (key : Text) (s t : os.State)
      → Call os s t
      → os.stat t (sysctl_path env key) ≡ os.stat s (sysctl_path env key)
  pub read_back :
      (key v : Text) (s t : os.State)
      → os.write_file (sysctl_path env key) v s ≡ done tt t
      → (w : Text) × (content os t (sysctl_path env key) ≡ some w) × (fields w ≡ fields v)
  pub others :
      (key v : Text) (s t : os.State)
      → os.write_file (sysctl_path env key) v s ≡ done tt t
      → SameFilesBut os (sysctl_path env key) s t

fields_of : Fallible Text → List Text
fields_of (value c) = fields c
fields_of (failure _) = []

module _ (os : Os) (r : SysctlResource) (files : HasFiles os) (kernel : HasSysctls os r.env) where
  open os use {State, read_file, stat, write_file}

  abbrev pub file_of : Text → FilePath
  file_of = sysctl_path r.env

  -- The key is missing in this kernel, or its value has the fields that are wanted.
  pub data Agreed (s : State) (key : Text) : Type 0 where
    missing : sysctl_exists os r.env s key ≡ false → Agreed s key
    equal :
        (w : Text)
        → sysctl_exists os r.env s key ≡ true
        → content os s (file_of key) ≡ some w
        → fields w ≡ fields (setting r.settings key)
        → Agreed s key

  pub exists-Call :
      (key : Text) {s t : State}
      → Call os s t
      → sysctl_exists os r.env t key ≡ sysctl_exists os r.env s key
  unfolding sysctl_exists
  exists-Call key {s} {t} c = rw (kernel.stat_kept key s t c, sysctl_exists)

  -- What is read of a key, from the content of its file.
  read_sysctl-content :
      (s : State) (key w : Text)
      → content os s (file_of key) ≡ some w
      → read_sysctl os r.env s key ≡ value (trim_space w)
  unfolding read_sysctl
  read_sysctl-content s key w h = elim (Fallible-cases (read_file s (file_of key))) [
    | inl (c, e) ↦
        rw (e, read_sysctl)
          (ap (λ x. value (trim_space x)) (some-injective c w (sym (ap content_of e) ∙ h)))
    | inr (x, e) ↦ cc (ap content_of e, h)
  ]

  same :
      (cur key : Text)
      → fields cur ≡ fields (setting r.settings key)
      → text_eq (normalize_sysctl_value cur) (normalize_sysctl_value (setting r.settings key))
        ≡ true
  same cur key h = (text_eq_iff _ _).1 ((normalize_sysctl_value_iff cur _).1 h)

  pub inspect-Agreed :
      (s : State) (key : Text)
      → Agreed s key
      → (inspect os r s key ≡ absent) ⊎ (inspect os r s key ≡ agrees)
  unfolding inspect
  inspect-Agreed s key (missing e) = inl (rw e)
  inspect-Agreed s key (equal w e h k) = inr (
      rw (
        e,
        read_sysctl-content s key w h,
        inspect,
        same (trim_space w) key (fields-trim_space w ∙ k),
      ))

  pub stat_of_exists :
      (s : State) (key : Text) → sysctl_exists os r.env s key ≡ true → stat s (file_of key) ≡ none
  unfolding sysctl_exists
  stat_of_exists s key h = elim (Option-cases (stat s (file_of key))) [
    | inl e ↦ e
    | inr (x, e) ↦ absurd (cc (rw (e, sysctl_exists) at h))
  ]

  pub Call-of :
      (key : Text) (s t : State)
      → write_file (file_of key) (setting r.settings key) s ≡ done tt t
      → Call os s t
  Call-of key s t w =
      subst (Call os s) (ap state_of w) (Call.write_file (file_of key) (setting r.settings key) s)

  -- A key that is there and agrees, by what is read.
  pub Agreed_of_read :
      (s : State) (key cur : Text)
      → sysctl_exists os r.env s key ≡ true
      → read_sysctl os r.env s key ≡ value cur
      → text_eq (normalize_sysctl_value cur) (normalize_sysctl_value (setting r.settings key))
        ≡ true
      → Agreed s key
  unfolding read_sysctl fields_of
  Agreed_of_read s key cur e h k = elim (Fallible-cases (read_file s (file_of key))) [
    | inl (c, f) ↦
        let is : value (trim_space c) ≡ value cur = rw (f, read_sysctl) at h in
        equal c e (ap content_of f) (
          sym (fields-trim_space c)
          ∙ ap fields_of is
          ∙ (normalize_sysctl_value_iff cur _).0 (text_eq→eq _ _ k))
    | inr (x, f) ↦ absurd (cc (rw (f, read_sysctl) at h))
  ]

  pub Agreed_of_kept :
      (s t : State) (key : Text)
      → sysctl_exists os r.env t key ≡ sysctl_exists os r.env s key
      → ((x : Text) → content os s (file_of key) ≡ some x → content os t (file_of key) ≡ some x)
      → Agreed s key
      → Agreed t key
  Agreed_of_kept s t key e c (missing h) = missing (e ∙ h)
  Agreed_of_kept s t key e c (equal w h k q) = equal w (e ∙ h) (c w k) q
