-- ===== src/Sysutil/Atomic/Invariant.antt =====
-- What every single call keeps, `WriteFileIfChanged` and `BackupFile` keep.
use node_configurator.Prelude.{ℕ, Bool, true, ◌++◌, inl, inr, Bool-cases}
use node_configurator.Text.{Text, codes, text_eq}
use node_configurator.System.{FilePath, Outcome, done, fail, state_of, Os, Call}
use node_configurator.System.Post.{
  Post, Triple, then_with, then_next, in_context, returned, Post_of_state, Fallible-cases,
}
use node_configurator.Sysutil.Paths.{dir, show_path}
use node_configurator.Sysutil.Atomic.{
  then_remove, or_close, fill_and_rename, temp_prefix, replace_file, write_file_if_changed,
}

module _ (os : Os) (I : os.State → Type 0) (keep : (s t : os.State) → Call os s t → I s → I t) where
  open os use {
    State, read_file, stat, create_temp, write_temp, chmod_temp, close_temp, rename, remove,
    mkdir_all, write_file,
  }

  abbrev Kept : {A : Type 0} → (State → Outcome State A) → Type 0
  Kept m = Triple I m (λ _. I) I

  of_Call :
      {A : Type 0} (m : State → Outcome State A)
      → ((s : State) → Call os s (state_of (m s)))
      → Kept m
  of_Call m c = record { run = λ s i. Post_of_state I (m s) (keep s _ (c s) i) }

  closed :
      (tmp : FilePath) (o : Outcome State (Unit {0}))
      → Post (λ _. I) I o
      → Post
          (λ _. I)
          I
          (elim o [ done u t ↦ done u t | fail e t ↦ fail e (state_of (close_temp tmp t)) ])
  closed tmp (done u t) i = i
  closed tmp (fail e t) i = keep _ _ (Call.close_temp tmp t) i

  or_close-Kept :
      (tmp : FilePath) (m : State → Outcome State (Unit {0})) → Kept m → Kept (or_close os tmp m)
  unfolding or_close
  or_close-Kept tmp m k = record { run = λ s i. closed tmp (m s) (k.run s i) }

  removed :
      (tmp : FilePath) (o : Outcome State Bool)
      → Post (λ _. I) I o
      → Post
          (λ _. I)
          I
          (elim o [
            | done a t ↦ done a (state_of (remove tmp t))
            | fail e t ↦ fail e (state_of (remove tmp t))
          ])
  removed tmp (done a t) i = keep _ _ (Call.remove tmp t) i
  removed tmp (fail e t) i = keep _ _ (Call.remove tmp t) i

  fill_and_rename-Kept :
      (path : FilePath) (c : Text) (mode : ℕ) (tmp : FilePath)
      → Kept (fill_and_rename os path c mode tmp)
  unfolding fill_and_rename
  fill_and_rename-Kept path c mode tmp =
      then_next
        (in_context (codes "writing temp file for " ++ show_path path) (
          or_close-Kept tmp (write_temp tmp c)
            (of_Call (write_temp tmp c) (Call.write_temp tmp c))))
        (then_next
          (in_context (codes "chmod temp file for " ++ show_path path) (
            or_close-Kept tmp (chmod_temp tmp mode)
              (of_Call (chmod_temp tmp mode) (Call.chmod_temp tmp mode))))
          (then_next
            (in_context (codes "closing temp file for " ++ show_path path)
              (of_Call (close_temp tmp) (Call.close_temp tmp)))
            (then_next
              (in_context (codes "renaming temp file into " ++ show_path path)
                (of_Call (rename tmp path) (Call.rename tmp path)))
              (returned true))))

  then_remove-Kept :
      (tmp : FilePath) (m : State → Outcome State Bool) → Kept m → Kept (then_remove os tmp m)
  unfolding then_remove
  then_remove-Kept tmp m k = record { run = λ s i. removed tmp (m s) (k.run s i) }

  replace_file-Kept : (path : FilePath) (c : Text) (mode : ℕ) → Kept (replace_file os path c mode)
  unfolding replace_file
  replace_file-Kept path c mode =
      then_next
        (in_context (codes "creating parent dir for " ++ show_path path)
          (of_Call (mkdir_all (dir path)) (Call.mkdir_all (dir path))))
        (then_with
          (in_context (codes "creating temp file for " ++ show_path path) (
            of_Call (create_temp (dir path) (temp_prefix path ++ codes "*"))
              (Call.create_temp (dir path) (temp_prefix path ++ codes "*"))))
          (λ tmp. then_remove-Kept tmp _ (fill_and_rename-Kept path c mode tmp)))

  pub write_file_if_changed-Kept :
      (path : FilePath) (c : Text) (mode : ℕ) → Kept (write_file_if_changed os path c mode)
  unfolding write_file_if_changed
  write_file_if_changed-Kept path c mode = record {
    run = λ s i. elim (Fallible-cases (read_file s path)) [
      | inl (existing, e) ↦ elim (Bool-cases (text_eq existing c)) [
        | inl same ↦ rw (e, write_file_if_changed, same) i
        | inr differ ↦
            rw (e, write_file_if_changed, differ) ((replace_file-Kept path c mode).run s i)
      ]
      | inr (x, e) ↦ elim (Bool-cases x.not_exist) [
        | inl missing ↦
            rw (e, write_file_if_changed, missing) ((replace_file-Kept path c mode).run s i)
        | inr broken ↦ rw (e, write_file_if_changed, broken) i
      ]
    ];
  }
