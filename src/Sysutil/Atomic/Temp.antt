-- ===== src/Sysutil/Atomic/Temp.antt =====
-- What the calls on the temporary file do, whichever of them fails.
use node_configurator.Prelude.{ℕ, Bool, true, ◌++◌, none, some, ◌≡◌, ◌≢◌, refl, sym, ◌∙◌, inl, inr}
use node_configurator.Text.{Text, codes}
use node_configurator.System.{FilePath, Outcome, done, fail, state_of, Os}
use node_configurator.System.Post.{Post, Triple, then_next, in_context, returned, Outcome-cases}
use node_configurator.Sysutil.Paths.{show_path}
use node_configurator.Sysutil.Files.{content, SameFiles, SameFilesBut, HasFiles}
use node_configurator.Sysutil.Atomic.{then_remove, or_close, fill_and_rename}

module _ (os : Os) (laws : HasFiles os) (path : FilePath) (c : Text) (s : os.State) where
  open os use {
    State, read_file, create_temp, write_temp, chmod_temp, close_temp, rename, remove, mkdir_all,
  }

  -- Files other than `path` that could be read in `s` read the same in `t`.
  abbrev pub KeepsOthers : State → Type 0
  KeepsOthers t =
      (p : FilePath) (x : Text) → p ≢ path → content os s p ≡ some x → content os t p ≡ some x

  -- The file holds the new content, and the others are kept.
  abbrev pub Written : State → Type 0
  Written t = (content os t path ≡ some c) × KeepsOthers t

  -- The file holds what it held, and the others are kept.
  abbrev pub Untouched : State → Type 0
  Untouched t = (content os t path ≡ content os s path) × KeepsOthers t

  module _ (tmp : FilePath) (ne : tmp ≢ path) (absent : content os s tmp ≡ none) where
    -- Only the temporary file differs from `s`.
    Aside : State → Type 0
    Aside t = SameFilesBut os tmp s t

    path_ne : path ≢ tmp
    path_ne e = ne (sym e)

    readable_ne : (p : FilePath) (x : Text) → content os s p ≡ some x → p ≢ tmp
    readable_ne p x k e = cc

    Holding : State → Type 0
    Holding t = (content os t tmp ≡ some c) × SameFilesBut os tmp s t

    kept_of_files : (t u : State) → SameFiles os t u → Holding t → Holding u
    unfolding Holding
    kept_of_files t u same h = (same tmp ∙ h.0, λ p q. same p ∙ h.1 p q)

    kept_step : (o : Outcome State (Unit {0})) → Holding (state_of o) → Post (λ _. Holding) Aside o
    unfolding Holding Aside
    kept_step (done u t) h = h
    kept_step (fail e t) h = h.1

    closed_after : (v : State) → Aside v → Aside (state_of (close_temp tmp v))
    unfolding Aside
    closed_after v h p q = laws.close_temp-files tmp v p ∙ h p q

    or_close_of_post :
        (o : Outcome State (Unit {0})) (m : State → Outcome State (Unit {0})) (t : State)
        → Post (λ _. Holding) Aside o
        → m t ≡ o
        → Post (λ _. Holding) Aside (or_close os tmp m t)
    unfolding or_close
    or_close_of_post (done u v) m t h e = rw (e, or_close) h
    or_close_of_post (fail x v) m t h e = rw (e, or_close) (closed_after v h)

    write_step :
        (t : State) → Aside t → Post (λ _. Holding) Aside (or_close os tmp (write_temp tmp c) t)
    unfolding Holding Aside
    write_step t a = elim (Outcome-cases (write_temp tmp c t)) [
      | inl (u, v, e) ↦
          let w = rw e at (laws.write_temp-files tmp c t) in
          or_close_of_post (done u v) (write_temp tmp c) t (w.0, λ p q. w.1 p q ∙ a p q) e
      | inr (x, v, e) ↦
          let w = rw e at (laws.write_temp-files tmp c t) in
          or_close_of_post (fail x v) (write_temp tmp c) t (λ p q. w p q ∙ a p q) e
    ]

    chmod_step :
        (mode : ℕ) (t : State)
        → Holding t
        → Post (λ _. Holding) Aside (or_close os tmp (chmod_temp tmp mode) t)
    unfolding Holding Aside
    chmod_step mode t h =
        or_close_of_post _ (chmod_temp tmp mode) t
          (kept_step _ (kept_of_files t _ (laws.chmod_temp-files tmp mode t) h)) refl

    close_step : (t : State) → Holding t → Post (λ _. Holding) Aside (close_temp tmp t)
    close_step t h = kept_step _ (kept_of_files t _ (laws.close_temp-files tmp t) h)

    rename_step : (t : State) → Holding t → Post (λ _. Written) Aside (rename tmp path t)
    unfolding Holding Aside
    rename_step t h = elim (Outcome-cases (rename tmp path t)) [
      | inl (u, v, e) ↦
          let r = rw e at (laws.rename-files tmp path t ne) in
          rw e (r.0 ∙ h.0, λ p x q k. let n = readable_ne p x k in r.2 p n q ∙ h.1 p n ∙ k)
      | inr (x, v, e) ↦
          let r = rw e at (laws.rename-files tmp path t ne) in rw e (λ p q. r p ∙ h.1 p q)
    ]

    fill_step : (mode : ℕ) → Triple Aside (fill_and_rename os path c mode tmp) (λ _. Written) Aside
    unfolding fill_and_rename
    fill_step mode =
        then_next
          (in_context (codes "writing temp file for " ++ show_path path)
            (record { run = write_step }))
          (then_next
            (in_context (codes "chmod temp file for " ++ show_path path)
              (record { run = chmod_step mode }))
            (then_next
              (in_context (codes "closing temp file for " ++ show_path path)
                (record { run = close_step }))
              (then_next
                (in_context (codes "renaming temp file into " ++ show_path path)
                  (record { run = rename_step }))
                (returned true))))

    removed :
        (o : Outcome State Bool)
        → Post (λ _. Written) Aside o
        → Post
            (λ _. Written)
            Untouched
            (elim o [
              | done a t ↦ done a (state_of (remove tmp t))
              | fail e t ↦ fail e (state_of (remove tmp t))
            ])
    unfolding Aside
    removed (done a t) h =
        let r = laws.remove-files tmp t in
        (r path path_ne ∙ h.0, λ p x q k. r p (readable_ne p x k) ∙ h.1 p x q k)
    removed (fail e t) h =
        let r = laws.remove-files tmp t in
        (r path path_ne ∙ h path path_ne, λ p x q k. let n = readable_ne p x k in r p n ∙ h p n ∙ k)

    -- The calls on the temporary file, and its removal, write the file or leave it as it is.
    pub remove_step :
        (mode : ℕ)
        → Triple
            (SameFilesBut os tmp s)
            (then_remove os tmp (fill_and_rename os path c mode tmp))
            (λ _. Written)
            Untouched
    unfolding then_remove Aside
    remove_step mode = record { run = λ t a. removed _ ((fill_step mode).run t a) }
