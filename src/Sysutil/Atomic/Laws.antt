-- ===== src/Sysutil/Atomic/Laws.antt =====
-- `WriteFileIfChanged` is atomic, whichever of its calls fails.
use node_configurator.Prelude.{
  ℕ, Bool, false, [], ◌∷◌, ◌++◌, none, some, ◌≡◌, ◌≢◌, refl, sym, ◌∙◌, ap, arith, length,
  length-append, Bool-cases, inl, inr,
}
use node_configurator.Text.{Text, codes, text_eq}
use node_configurator.Text.Equality.{text_eq→eq, text_eq_refl}
use node_configurator.System.{FilePath, Outcome, done, fail, state_of, Os}
use mathlib.Core.Option.{some-injective}
use node_configurator.System.Post.{
  Post, Triple, then_with, then_next, in_context, Outcome-cases, Fallible-cases,
}
use node_configurator.Sysutil.Paths.{dir, base, show_path}
use node_configurator.Sysutil.Paths.Laws.{base-append}
use node_configurator.Sysutil.Files.{content_of, content, SameFiles, SameFilesBut, HasFiles}
use node_configurator.Sysutil.Atomic.Temp.{Written, Untouched, remove_step}
use node_configurator.Sysutil.Atomic.{
  then_remove, fill_and_rename, temp_prefix, replace_file, write_file_if_changed,
}

-- The temporary file is not the file itself: its name is longer.
temp-ne-path :
    (path : FilePath) (suffix : Text) → dir path ++ (temp_prefix path ++ suffix) ∷ [] ≢ path
temp-ne-path path suffix e =
    let names : temp_prefix path ++ suffix ≡ base path =
      sym (base-append (dir path) (temp_prefix path ++ suffix)) ∙ ap base e in
    absurd (
      omega (
        arith,
        ap length names,
        length-append (temp_prefix path) suffix,
        length-append (base path) (codes ".tmp-"),
      ))

module _ (os : Os) (laws : HasFiles os) (path : FilePath) (c : Text) (s : os.State) where
  open os use {
    State, read_file, create_temp, write_temp, chmod_temp, close_temp, rename, remove, mkdir_all,
  }

  abbrev New : State → Type 0
  New = Written os laws path c s

  abbrev Old : State → Type 0
  Old = Untouched os laws path c s

  -- `s` itself, as far as files go.
  Before : State → Type 0
  Before t = SameFiles os s t

  Opened : FilePath → State → Type 0
  Opened tmp t = (tmp ≢ path) × (content os s tmp ≡ none) × SameFilesBut os tmp s t

  Before-Untouched : (t : State) → Before t → Old t
  unfolding Before
  Before-Untouched t h = (h path, λ p x q k. h p ∙ k)

  mkdir_step : (t : State) → Before t → Post (λ _. Before) Old (mkdir_all (dir path) t)
  unfolding Before
  mkdir_step t h = made (mkdir_all (dir path) t) (λ p. laws.mkdir_all-files (dir path) t p ∙ h p)
    where
      made :
          (o : Outcome State (Unit {0}))
          → SameFiles os s (state_of o)
          → Post (λ _. SameFiles os s) Old o
      made (done u v) k = k
      made (fail e v) k = (k path, λ p x q l. k p ∙ l)

  create_step :
      (t : State)
      → Before t
      → Post Opened Old (create_temp (dir path) (temp_prefix path ++ codes "*") t)
  unfolding Before Opened
  create_step t h =
      elim (Outcome-cases (create_temp (dir path) (temp_prefix path ++ codes "*") t)) [
        | inl (tmp, v, e) ↦
            let f = rw e at (laws.create_temp-files (dir path) (temp_prefix path) t) in
            rw e (
              λ q. temp-ne-path path f.suffix (sym f.named ∙ q),
              sym (h tmp) ∙ f.was_absent,
              λ p q. f.others p q ∙ h p,
            )
        | inr (x, v, e) ↦
            let f = rw e at (laws.create_temp-files (dir path) (temp_prefix path) t) in
            rw e (f path ∙ h path, λ p y q k. f p ∙ h p ∙ k)
      ]

  Opened-step :
      (mode : ℕ) (tmp : FilePath)
      → Triple (Opened tmp) (then_remove os tmp (fill_and_rename os path c mode tmp)) (λ _. New) Old
  unfolding Opened
  Opened-step mode tmp = record {
    run = λ t o. (remove_step os laws path c s tmp o.0 o.1 mode).run t o.2;
  }

  replace_file_lem : (mode : ℕ) → Triple Before (replace_file os path c mode) (λ _. New) Old
  unfolding replace_file
  replace_file_lem mode =
      then_next
        (in_context (codes "creating parent dir for " ++ show_path path)
          (record { run = mkdir_step }))
        (then_with
          (in_context (codes "creating temp file for " ++ show_path path)
            (record { run = create_step }))
          (Opened-step mode))

  -- `WriteFileIfChanged` leaves the file with the new content if it returns no error, and with the
  -- old content if it returns one, whichever of its calls failed. Every other file that could be
  -- read before reads the same.
  pub write_file_if_changed_lem :
      (mode : ℕ) → Post (λ _. New) Old (write_file_if_changed os path c mode s)
  unfolding write_file_if_changed Before
  write_file_if_changed_lem mode =
      let replaced = (replace_file_lem mode).run s (λ p. refl) in
      elim (Fallible-cases (read_file s path)) [
        | inl (existing, e) ↦ elim (Bool-cases (text_eq existing c)) [
          | inl same ↦
              rw (e, write_file_if_changed, same)
                (ap content_of e ∙ ap some (text_eq→eq existing c same), λ p y q k. k)
          | inr differ ↦ rw (e, write_file_if_changed, differ) replaced
        ]
        | inr (x, e) ↦ elim (Bool-cases x.not_exist) [
          | inl missing ↦ rw (e, write_file_if_changed, missing) replaced
          | inr broken ↦ rw (e, write_file_if_changed, broken) (refl, λ p y q k. k)
        ]
      ]

  -- A file that holds the content already is not written.
  pub write_file_if_changed_same :
      (mode : ℕ)
      → content os s path ≡ some c
      → write_file_if_changed os path c mode s ≡ done false s
  unfolding write_file_if_changed
  write_file_if_changed_same mode h = elim (Fallible-cases (read_file s path)) [
    | inl (existing, e) ↦
        let same : existing ≡ c = some-injective existing c (sym (ap content_of e) ∙ h) in
        rw (e, write_file_if_changed, same, text_eq_refl c)
    | inr (x, e) ↦ cc (ap content_of e, h)
  ]

-- A second call with the same content changes nothing and says so, if the first one succeeded.
pub write_file_if_changed_twice :
    (os : Os) (laws : HasFiles os) (path : FilePath) (c : Text) (mode : ℕ) (s : os.State) {b : Bool}
    {t : os.State}
    → write_file_if_changed os path c mode s ≡ done b t
    → write_file_if_changed os path c mode t ≡ done false t
write_file_if_changed_twice os laws path c mode s {t = t} e =
    write_file_if_changed_same os laws path c t mode
      (rw e at (write_file_if_changed_lem os laws path c s mode)).0
