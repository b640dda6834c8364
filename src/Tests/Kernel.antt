-- ===== src/Tests/Kernel.antt =====
-- The system in memory has the sysctls that the resource relies on, for the root directory.
use node_configurator.Prelude.{
  Bool, true, false, ◌&&◌, ◌||◌, List, [], ◌∷◌, ◌++◌, Option, none, some, ◌≡◌, refl, sym, ap, ◌∙◌,
  arith, Bool-cases, Option-cases, inl, inr,
}
use node_configurator.Text.{Text, codes, text_eq, split, is_nil}
use node_configurator.System.{FilePath, Fallible, Outcome, done, Os, Call, state_of}
use node_configurator.Sysutil.Paths.{path, new, filepath_join, elements, clean, clean_element}
use node_configurator.Sysutil.Procsys.{sysctl_path}
use node_configurator.Sysutil.Procsys.Laws.{sysctl_path-IsBelow}
use node_configurator.Resource.Sysctl.Laws.{HasSysctls}
use node_configurator.Tests.Memory.{
  Store, set, set_same, set_other, stat, overwrite, create, move, delete, memory, content_read,
  path_eq, path_eq_iff,
}

-- Files below /proc/sys.
unfoldable pub is_kernel : FilePath → Bool
is_kernel (a ∷ b ∷ p) = text_eq a (codes "proc") && text_eq b (codes "sys")
is_kernel _ = false

is_kernel-append :
    (p : FilePath) → is_kernel (path new (codes "proc" ∷ codes "sys" ∷ []) ++ p) ≡ true
unfolding is_kernel path new filepath_join elements clean clean_element split is_nil
is_kernel-append p = refl

is_kernel-sysctl_path : (key : Text) → is_kernel (sysctl_path new key) ≡ true
is_kernel-sysctl_path key =
    let b = sysctl_path-IsBelow new key in ap is_kernel b.splits ∙ is_kernel-append b.rest

stat_same : (s t : Store) (p : FilePath) → t p ≡ s p → stat t p ≡ stat s p
unfolding stat
stat_same s t p h = rw (stat, h)

-- Setting a path that is no kernel file keeps the kernel's files.
stat_set :
    (p q : FilePath) (c : Option Text) (s : Store)
    → is_kernel p ≡ false
    → is_kernel q ≡ true
    → stat (set p c s) q ≡ stat s q
stat_set p q c s h k =
    stat_same s (set p c s) q (set_other p q c s (λ e. cc (ap is_kernel e, h, k)))

stat_some : (s : Store) (p : FilePath) (c : Text) → s p ≡ some c → stat s p ≡ none
unfolding stat
stat_some s p c h = rw (stat, h)

stat_overwrite :
    (p q : FilePath) (c : Text) (s : Store) → stat (state_of (overwrite p c s)) q ≡ stat s q
unfolding overwrite
stat_overwrite p q c s = elim (Option-cases (s p)) [
  | inl e ↦ rw (overwrite, e)
  | inr (x, e) ↦
      rw (overwrite, e)
        (elim (Bool-cases (path_eq q p)) [
          | inl k ↦
              let same = (path_eq_iff q p).0 k in
              rw same (stat_some _ p c (set_same p (some c) s) ∙ sym (stat_some s p x e))
          | inr k ↦ stat_same s _ q (set_other p q (some c) s (λ f. cc ((path_eq_iff q p).1 f, k)))
        ])
]

module _ (listing : Store → FilePath → Fallible (List Text))
    (matching : Store → List Text → Fallible (List FilePath))
    (command : Text → List Text → Store → Outcome Store Text) where
  abbrev pub system : Os
  system = memory is_kernel listing matching command

  stat_create :
      (d q : FilePath) (prefix : Text) (s : Store)
      → is_kernel q ≡ true
      → stat (state_of (create is_kernel listing matching command d prefix s)) q ≡ stat s q
  unfolding create
  stat_create d q prefix s k =
      let tmp = d ++ (prefix ++ codes "0") ∷ [] in
      elim (Bool-cases (is_kernel tmp)) [
        | inl e ↦ rw (create, e)
        | inr e ↦ elim (Option-cases (s tmp)) [
          | inl f ↦ rw (create, e, f) (stat_set tmp q (some []) s e k)
          | inr (c, f) ↦ rw (create, e, f)
        ]
      ]

  stat_move :
      (a b q : FilePath) (s : Store)
      → is_kernel q ≡ true
      → stat (state_of (move is_kernel listing matching command a b s)) q ≡ stat s q
  unfolding move
  stat_move a b q s k = elim (Bool-cases (is_kernel a || is_kernel b)) [
    | inl e ↦ rw (move, e)
    | inr e ↦ elim (Option-cases (s a)) [
      | inl f ↦ rw (move, e, f)
      | inr (c, f) ↦
          rw (move, e, f)
            (stat_set b q (some c) (set a none s) (ground arith) k
              ∙ stat_set a q none s (ground arith) k)
    ]
  ]

  stat_delete :
      (p q : FilePath) (s : Store)
      → is_kernel q ≡ true
      → stat (state_of (delete is_kernel listing matching command p s)) q ≡ stat s q
  unfolding delete
  stat_delete p q s k = elim (Bool-cases (is_kernel p)) [
    | inl e ↦ rw (delete, e)
    | inr e ↦ rw (delete, e) (stat_set p q none s e k)
  ]

  stat_Call :
      (q : FilePath) (s t : Store) → is_kernel q ≡ true → Call system s t → stat t q ≡ stat s q
  stat_Call q _ _ k (Call.write_file p c s) = stat_overwrite p q c s
  stat_Call q _ _ k (Call.mkdir_all d s) = refl
  stat_Call q _ _ k (Call.create_temp d pattern s) = stat_create d q _ s k
  stat_Call q _ _ k (Call.write_temp p c s) = stat_overwrite p q c s
  stat_Call q _ _ k (Call.chmod_temp p m s) = refl
  stat_Call q _ _ k (Call.close_temp p s) = refl
  stat_Call q _ _ k (Call.rename a b s) = stat_move a b q s k
  stat_Call q _ _ k (Call.remove p s) = stat_delete p q s k

  -- A write that succeeds sets the file.
  pub overwrite_done :
      (p : FilePath) (c : Text) (s t : Store) → overwrite p c s ≡ done tt t → t ≡ set p (some c) s
  unfolding overwrite
  overwrite_done p c s t h = elim (Option-cases (s p)) [
    | inl e ↦ absurd (cc (rw (overwrite, e) at h))
    | inr (x, e) ↦ sym (ap state_of (rw (overwrite, e) at h))
  ]

  pub system-HasSysctls : HasSysctls system new
  system-HasSysctls = record {
    stat_kept = λ key s t c. stat_Call (sysctl_path new key) s t (is_kernel-sysctl_path key) c;
    read_back = λ key v s t w. (
      v,
      rw (overwrite_done _ v s t w) (content_read _ _ ∙ set_same (sysctl_path new key) (some v) s),
      refl,
    );
    others = λ key v s t w p h. rw (overwrite_done _ v s t w) (
        content_read _ p ∙ set_other (sysctl_path new key) p (some v) s h ∙ sym (content_read s p));
  }
