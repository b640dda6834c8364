-- ===== src/Resource/Nic/Masks.antt =====
-- The queues of a NIC have the mask of all CPUs after `applyQueueMask`, on a kernel that keeps the
-- masks it accepts.
use node_configurator.Prelude.{
  ℕ, true, List, [], ◌∷◌, ◌++◌, Option, none, some, map, ◌≡◌, refl, sym, ap, ◌∙◌, ◌⊎◌, inl, inr,
  All, All-weaken, Bool-cases,
}
use mathlib.Core.Option.{some-injective}
use node_configurator.Text.{Text, codes}
use node_configurator.System.{FilePath, Error, Fallible, value, Outcome, done, fail, Os}
use node_configurator.System.Post.{Post, Fallible-cases, Outcome-cases, Anything}
use node_configurator.System.Loop.Laws.{Keeps, Keeps-refl, for_each-IsRight, for_each-map}
use node_configurator.Sysutil.Files.{content, content_of}
use node_configurator.Resource.CpuMask.{cpumask_all, cpu_masks_equal}
use node_configurator.Resource.CpuMask.Padding.{widened, cpu_masks_equal-widened}
use node_configurator.Resource.Nic.{
  NicResource, query_rings, queue_dirs, count_masks, queue_mask_drift, write_mask, set_mask,
  set_masks, apply_queue_mask, skip_missing,
}

module _ (os : Os) (r : NicResource) where
  open os use {State, read_file, write_file}

  abbrev mask : Text
  mask = cpumask_all r.num_cpus

  -- What a run of `Check` sees beside the masks: the rings and the queues.
  abbrev pub View : Type 0
  View = Option Text × (Text → Fallible (List FilePath))

  abbrev pub view : State → View
  view s = ((query_rings os r s).0, λ direction. queue_dirs os r direction s)

  -- What the resource relies on in the kernel. A mask that is accepted is shown with a newline, and with
  -- leading words of zeros where there may be more CPUs. The write changes no other file, and neither
  -- the rings nor the queues. A file that does not exist stays as it is, and cannot be read.
  pub record HasMasks : Type 0 where
    pub shows :
        (p : FilePath) (s t : State)
        → write_file p mask s ≡ done tt t
        → (k : ℕ) × (read_file t p ≡ value (widened k mask ++ codes "\n"))
    pub others :
        (p q : FilePath) (s t : State)
        → write_file p mask s ≡ done tt t
        → (q ≡ p) ⊎ (content os t q ≡ content os s q)
    pub same_view : (p : FilePath) (s t : State) → write_file p mask s ≡ done tt t → view t ≡ view s
    pub missing :
        (p : FilePath) (e : Error) (s t : State)
        → write_file p mask s ≡ fail e t
        → e.not_exist ≡ true
        → (t ≡ s) × (content os s p ≡ none)

  -- If the file can be read, it has the mask.
  pub IsSpread : State → FilePath → Type 0
  IsSpread s p = (x : Text) → content os s p ≡ some x → cpu_masks_equal x mask ≡ true

  abbrev pub Kept : State → State → Type 0
  Kept = Keeps IsSpread view

  module _ (kernel : HasMasks) where
    written-IsSpread : (p : FilePath) (s t : State) → write_file p mask s ≡ done tt t → IsSpread t p
    unfolding IsSpread
    written-IsSpread p s t h x k =
        let (n, e) = kernel.shows p s t h in
        rw (sym (some-injective _ x (sym (ap content_of e) ∙ k)))
          (cpu_masks_equal-widened n r.num_cpus)

    written-Kept : (p : FilePath) (s t : State) → write_file p mask s ≡ done tt t → Kept s t
    unfolding IsSpread
    written-Kept p s t h = record {
      kept = λ q g. elim (kernel.others p q s t h) [
        | inl e ↦ rw e (written-IsSpread p s t h)
        | inr e ↦ λ x k. g x (sym e ∙ k)
      ];
      same = kernel.same_view p s t h;
    }

    abbrev Spreads : FilePath → (State → Outcome State (Unit {0})) → Type 0
    Spreads p m = (s : State) → Post (λ _ t. IsSpread t p × Kept s t) Anything (m s)

    write_mask-Spreads : (p : FilePath) → Spreads p (write_mask os r p)
    unfolding write_mask IsSpread
    write_mask-Spreads p s = elim (Outcome-cases (write_file p mask s)) [
      | inl (u, t, e) ↦
          rw (Post, write_mask, skip_missing, e) (written-IsSpread p s t e, written-Kept p s t e)
      | inr (x, t, e) ↦ elim (Bool-cases x.not_exist) [
        | inl n ↦
            let (same, gone) = kernel.missing p x s t e n in
            rw (Post, write_mask, skip_missing, e, n, same)
              (λ y k. absurd (cc (sym gone ∙ k)), Keeps-refl IsSpread view s)
        | inr n ↦ rw (Post, write_mask, skip_missing, e, n) tt
      ]
    ]

    set_mask-Spreads : (p : FilePath) → Spreads p (set_mask os r p)
    unfolding set_mask IsSpread
    set_mask-Spreads p s = elim (Fallible-cases (read_file s p)) [
      | inl (c, e) ↦ elim (Bool-cases (cpu_masks_equal c mask)) [
        | inl b ↦
            rw (Post, set_mask, e, b)
              (
                λ x k. rw (sym (some-injective c x (sym (ap content_of e) ∙ k))) b,
                Keeps-refl IsSpread view s,
              )
        | inr b ↦ rw (set_mask, e, b) (write_mask-Spreads p s)
      ]
      | inr (x, e) ↦ rw (set_mask, e) (write_mask-Spreads p s)
    ]

    abbrev files : Text → List FilePath → List FilePath
    files attr dirs = map (λ (d : FilePath). d ++ attr ∷ []) dirs

    set_masks_lem :
        (attr : Text) (dirs : List FilePath) (s : State)
        → Post
            (λ _ t. All (IsSpread t) (files attr dirs) × Kept s t)
            Anything
            (set_masks os r attr dirs s)
    unfolding set_masks
    set_masks_lem attr dirs s =
        rw (for_each-map (set_mask os r) (λ d. d ++ attr ∷ []) dirs s)
          (for_each-IsRight IsSpread view (set_mask os r) set_mask-Spreads (files attr dirs) s)

    -- The files of all queues of a direction have the mask.
    pub record AreSpread (direction attr : Text) (s : State) : Type 0 where
      pub spread :
          (dirs : List FilePath)
          → queue_dirs os r direction s ≡ value dirs
          → All (IsSpread s) (files attr dirs)

    pub Kept-AreSpread :
        (direction attr : Text) (s t : State)
        → Kept s t
        → AreSpread direction attr s
        → AreSpread direction attr t
    Kept-AreSpread direction attr s t k h = record {
      spread = λ dirs e.
          All-weaken (IsSpread s) (IsSpread t) k.kept (files attr dirs)
            (h.spread dirs (sym (ap (λ (v : View). v.1 direction) k.same) ∙ e));
    }

    pub apply_queue_mask-AreSpread :
        (direction attr : Text) (s : State)
        → Post
            (λ _ t. AreSpread direction attr t × Kept s t)
            Anything
            (apply_queue_mask os r direction attr s)
    unfolding apply_queue_mask
    apply_queue_mask-AreSpread direction attr s =
        elim (Fallible-cases (queue_dirs os r direction s)) [
          | inl (dirs, e) ↦
              let all = set_masks_lem attr dirs s in
              elim (Outcome-cases (set_masks os r attr dirs s)) [
                | inl (u, t, w) ↦
                    let (on, k) = rw w at all in
                    rw (Post, apply_queue_mask, e, w)
                      (record { spread = λ ds q. at_queues direction attr s t dirs ds k e q on }, k)
                | inr (x, t, w) ↦ rw (Post, apply_queue_mask, e, w) tt
              ]
          | inr (x, e) ↦ rw (Post, apply_queue_mask, e) tt
        ]
      where
        at_queues :
            (direction attr : Text) (s t : State) (dirs ds : List FilePath)
            → Kept s t
            → queue_dirs os r direction s ≡ value dirs
            → queue_dirs os r direction t ≡ value ds
            → All (IsSpread t) (files attr dirs)
            → All (IsSpread t) (files attr ds)
        at_queues direction attr s t dirs ds k e q h =
            let same : dirs ≡ ds = cc (sym e ∙ sym (ap (λ (v : View). v.1 direction) k.same) ∙ q) in
            rw (sym same) h

    count_masks-All :
        (attr : Text) (s : State) (dirs : List FilePath)
        → All (IsSpread s) (files attr dirs)
        → count_masks os r attr s dirs ≡ 0
    unfolding count_masks IsSpread
    count_masks-All attr s [] h = refl
    count_masks-All attr s (d ∷ ds) h = elim (Fallible-cases (read_file s (d ++ attr ∷ []))) [
      | inl (c, e) ↦ rw (count_masks, e, h.0 c (ap content_of e)) (count_masks-All attr s ds h.1)
      | inr (x, e) ↦ rw (count_masks, e) (count_masks-All attr s ds h.1)
    ]

    -- `Check` counts no queue.
    pub queue_mask_drift-AreSpread :
        (direction attr : Text) (s : State)
        → AreSpread direction attr s
        → queue_mask_drift os r direction attr s ≡ 0
    unfolding queue_mask_drift
    queue_mask_drift-AreSpread direction attr s h =
        elim (Fallible-cases (queue_dirs os r direction s)) [
          | inl (dirs, e) ↦ rw (queue_mask_drift, e) (count_masks-All attr s dirs (h.spread dirs e))
          | inr (x, e) ↦ rw (queue_mask_drift, e)
        ]
