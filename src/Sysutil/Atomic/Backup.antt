-- ===== src/Sysutil/Atomic/Backup.antt =====
-- What `BackupFile` keeps: all that writing the copy keeps.
use node_configurator.Prelude.{Bool-cases, Option-cases, inl, inr}
use node_configurator.Text.{Text, codes}
use node_configurator.System.{FilePath, Outcome, done, fail, Os, state_of}
use node_configurator.System.Post.{Post, Triple, Fallible-cases, Anything, Post_of_state}
use node_configurator.Sysutil.Paths.{with_suffix}
use node_configurator.Sysutil.Atomic.{backup_file}

-- Where the copy of a file is kept.
abbrev pub backup_of : FilePath → FilePath
backup_of p = with_suffix p (codes ".node-configurator.orig")

module _ (os : Os) (P : os.State → Type 0) (path : FilePath) where
  open os use {State, read_file, stat, write_file}

  any_error : (o : Outcome State (Unit {0})) → Post (λ _. P) P o → Post (λ _. P) Anything o
  any_error (done u t) h = h
  any_error (fail x t) h = tt

  pub backup_file-keeps :
      ((c : Text) (s : State) → P s → P (state_of (write_file (backup_of path) c s)))
      → Triple P (backup_file os path) (λ _. P) Anything
  unfolding backup_file
  backup_file-keeps keeps = record {
    run = λ s m. elim (Fallible-cases (read_file s path)) [
      | inr (x, e) ↦ elim (Bool-cases x.not_exist) [
        | inl k ↦ rw (e, backup_file, k) m
        | inr k ↦ rw (e, backup_file, k) tt
      ]
      | inl (c, e) ↦ elim (Option-cases (stat s (backup_of path))) [
        | inl k ↦ rw (e, backup_file, k) m
        | inr (x, k) ↦
            rw (e, backup_file, k)
              (any_error (write_file (backup_of path) c s)
                (Post_of_state P (write_file (backup_of path) c s) (keeps c s m)))
      ]
    ];
  }
