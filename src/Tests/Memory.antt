-- ===== src/Tests/Memory.antt =====
-- A system in memory: the files with their contents. Files of the kernel are written in place and
-- do not come and go. A directory is not kept; a path that is no file cannot be read.
use node_configurator.Prelude.{
  Bool, true, false, ◌&&◌, ◌||◌, List, [], ◌∷◌, ◌++◌, Option, none, some, ◌≡◌, ◌≢◌, ◌↔◌, refl, sym,
  ap, ◌∙◌, arith, Bool-cases, Option-cases, inl, inr,
}
use node_configurator.Text.{Text, codes, text_eq}
use node_configurator.Text.Equality.{text_eq_iff}
use node_configurator.System.{
  FilePath, Error, Fallible, value, failure, Outcome, done, fail, Os, state_of,
}
use node_configurator.Sysutil.Files.{
  content_of, SameFiles, SameFilesBut, Creates, Renames, WritesTemp, HasFiles,
}

unfoldable pub path_eq : FilePath → FilePath → Bool
path_eq [] [] = true
path_eq (a ∷ p) (b ∷ q) = text_eq a b && path_eq p q
path_eq _ _ = false

pub path_eq_iff : (p q : FilePath) → (path_eq p q ≡ true) ↔ (p ≡ q)
unfolding path_eq
path_eq_iff [] [] = ground arith
path_eq_iff [] (b ∷ q) = ground arith
path_eq_iff (a ∷ p) [] = ground arith
path_eq_iff (a ∷ p) (b ∷ q) = ground (arith, text_eq_iff a b, path_eq_iff p q)

pub path_eq-false : (p q : FilePath) → path_eq p q ≡ false → p ≢ q
path_eq-false p q h e = cc (h, (path_eq_iff p q).1 e)

path_ne→false : (p q : FilePath) → p ≢ q → path_eq q p ≡ false
path_ne→false p q h = elim (Bool-cases (path_eq q p)) [
  | inl e ↦ absurd (h (sym ((path_eq_iff q p).0 e)))
  | inr e ↦ e
]

path_eq_refl : (p : FilePath) → path_eq p p ≡ true
path_eq_refl p = (path_eq_iff p p).1 refl

abbrev pub Store : Type 0
Store = FilePath → Option Text

abbrev missing : Error
missing = record { message = codes "no such file or directory"; not_exist = true }

abbrev denied : Error
denied = record { message = codes "permission denied"; not_exist = false }

unfoldable pub set : FilePath → Option Text → Store → Store
set p c s q = elim (path_eq p q) [ true ↦ c | false ↦ s q ]

pub set_same : (p : FilePath) (c : Option Text) (s : Store) → set p c s p ≡ c
unfolding set
set_same p c s = rw (set, path_eq_refl p)

pub set_other : (p q : FilePath) (c : Option Text) (s : Store) → q ≢ p → set p c s q ≡ s q
unfolding set
set_other p q c s h = rw (set, path_ne→false q p h)

unfoldable pub read : Store → FilePath → Fallible Text
read s p = elim (s p) [ some c ↦ value c | none ↦ failure missing ]

unfoldable pub stat : Store → FilePath → Option Error
stat s p = elim (s p) [ some c ↦ none | none ↦ some missing ]

-- Writes where a file is already.
unfoldable pub overwrite : FilePath → Text → Store → Outcome Store (Unit {0})
overwrite p c s = elim (s p) [ some _ ↦ done tt (set p (some c) s) | none ↦ fail denied s ]

pub content_read : (s : Store) (p : FilePath) → content_of (read s p) ≡ s p
unfolding read
content_read s p = elim (Option-cases (s p)) [ inl e ↦ rw (e, read) | inr (c, e) ↦ rw (e, read) ]

-- `kernel` says which files are the kernel's, `listing` what a directory holds, `matching` what a
-- pattern finds, and `command` what a command does.
module _ (kernel : FilePath → Bool) (listing : Store → FilePath → Fallible (List Text))
    (matching : Store → List Text → Fallible (List FilePath))
    (command : Text → List Text → Store → Outcome Store Text) where
  unfoldable pub create : FilePath → Text → Store → Outcome Store FilePath
  create d prefix s =
      let tmp = d ++ (prefix ++ codes "0") ∷ [] in
      elim (kernel tmp) [
        | true ↦ fail denied s
        | false ↦ elim (s tmp) [ none ↦ done tmp (set tmp (some []) s) | some _ ↦ fail denied s ]
      ]

  unfoldable pub drop_star : Text → Text
  drop_star [] = []
  drop_star (c ∷ []) = []
  drop_star (c ∷ d ∷ s) = c ∷ drop_star (d ∷ s)

  drop_star-append : (s : Text) → drop_star (s ++ codes "*") ≡ s
  unfolding drop_star
  drop_star-append [] = refl
  drop_star-append (c ∷ []) = refl
  drop_star-append (c ∷ d ∷ s) = ap (◌∷◌ c) (drop_star-append (d ∷ s))

  unfoldable pub move : FilePath → FilePath → Store → Outcome Store (Unit {0})
  move a b s = elim (kernel a || kernel b) [
    | true ↦ fail denied s
    | false ↦ elim (s a) [
      | none ↦ fail missing s
      | some c ↦ done tt (set b (some c) (set a none s))
    ]
  ]

  unfoldable pub delete : FilePath → Store → Outcome Store (Unit {0})
  delete p s = elim (kernel p) [ true ↦ fail denied s | false ↦ done tt (set p none s) ]

  abbrev pub memory : Os
  memory = record {
    State = Store;
    read_file = read;
    stat = stat;
    read_dir = listing;
    glob = matching;
    write_file = overwrite;
    mkdir_all = λ d s. done tt s;
    create_temp = λ d pattern s. create d (drop_star pattern) s;
    write_temp = overwrite;
    chmod_temp = λ p m s. done tt s;
    close_temp = λ p s. done tt s;
    rename = move;
    remove = delete;
    run = command;
  }

  abbrev Same : Store → Store → Type 0
  Same s t = SameFiles memory s t

  abbrev SameBut : FilePath → Store → Store → Type 0
  SameBut p s t = SameFilesBut memory p s t

  SameBut-set : (p : FilePath) (c : Option Text) (s : Store) → SameBut p s (set p c s)
  SameBut-set p c s q h = content_read _ q ∙ set_other p q c s h ∙ sym (content_read s q)

  create_lem :
      (d : FilePath) (prefix : Text) (s : Store) → Creates memory d prefix s (create d prefix s)
  unfolding create
  create_lem d prefix s =
      let tmp = d ++ (prefix ++ codes "0") ∷ [] in
      elim (Bool-cases (kernel tmp)) [
        | inl e ↦ rw (create, e) (λ p. refl)
        | inr e ↦ elim (Option-cases (s tmp)) [
          | inl f ↦
              rw (create, e, f)
                (record {
                  suffix = codes "0";
                  named = refl;
                  was_absent = content_read s tmp ∙ f;
                  others = SameBut-set tmp (some []) s;
                })
          | inr (c, f) ↦ rw (create, e, f) (λ p. refl)
        ]
      ]

  memory-Creates :
      (d : FilePath) (prefix : Text) (s : Store)
      → Creates memory d prefix s (create d (drop_star (prefix ++ codes "*")) s)
  memory-Creates d prefix s = rw (drop_star-append prefix) (create_lem d prefix s)

  overwrite_lem : (p : FilePath) (c : Text) (s : Store) → WritesTemp memory p c s (overwrite p c s)
  unfolding overwrite
  overwrite_lem p c s = elim (Option-cases (s p)) [
    | inl e ↦ rw (overwrite, e) (λ q h. refl)
    | inr (x, e) ↦
        rw (overwrite, e) (content_read _ p ∙ set_same p (some c) s, SameBut-set p (some c) s)
  ]

  pub overwrite_others :
      (p : FilePath) (c : Text) (s : Store) → SameBut p s (state_of (overwrite p c s))
  unfolding overwrite
  overwrite_others p c s = elim (Option-cases (s p)) [
    | inl e ↦ rw (overwrite, e) (λ q h. refl)
    | inr (x, e) ↦ rw (overwrite, e) (SameBut-set p (some c) s)
  ]

  move_lem : (a b : FilePath) (s : Store) → a ≢ b → Renames memory a b s (move a b s)
  unfolding move
  move_lem a b s ne = elim (Bool-cases (kernel a || kernel b)) [
    | inl k ↦ rw (move, k) (λ p. refl)
    | inr k ↦ elim (Option-cases (s a)) [
      | inl e ↦ rw (move, k, e) (λ p. refl)
      | inr (c, e) ↦
          rw (move, k, e)
            (
              content_read _ b ∙ set_same b (some c) (set a none s) ∙ sym (content_read s a ∙ e),
              content_read _ a ∙ set_other b a (some c) (set a none s) ne ∙ set_same a none s,
              λ p pa pb.
                  content_read _ p
                  ∙ set_other b p (some c) (set a none s) pb
                  ∙ set_other a p none s pa
                  ∙ sym (content_read s p),
            )
    ]
  ]

  delete_lem : (p : FilePath) (s : Store) → SameBut p s (state_of (delete p s))
  unfolding delete
  delete_lem p s = elim (Bool-cases (kernel p)) [
    | inl k ↦ rw (delete, k) (λ q h. refl)
    | inr k ↦ rw (delete, k) (SameBut-set p none s)
  ]

  pub memory-HasFiles : HasFiles memory
  memory-HasFiles = record {
    mkdir_all-files = λ d s p. refl;
    create_temp-files = memory-Creates;
    write_temp-files = overwrite_lem;
    chmod_temp-files = λ p m s q. refl;
    close_temp-files = λ p s q. refl;
    rename-files = move_lem;
    remove-files = delete_lem;
  }
