-- ===== src/Resource/IrqAffinity/Places.antt =====
-- The loop of `Apply` puts every queue interrupt on its CPU, on a kernel that keeps the affinities it
-- accepts.
use node_configurator.Prelude.{
  ℕ, true, List, [], ◌∷◌, some, map, ◌≡◌, ◌≢◌, refl, sym, ap, ◌∙◌, inl, inr, All, ℤ, Bool-cases,
  Option-cases,
}
use mathlib.Core.Option.{some-injective}
use node_configurator.Text.{Text, text_eq, trim_space}
use node_configurator.Text.Equality.{text_eq_refl, text_eq→eq, text_eq-false}
use node_configurator.Text.Dict.{Dict, lookup}
use node_configurator.Text.Number.{itoa, show_int}
use node_configurator.System.{FilePath, Outcome, value, done, Os}
use node_configurator.System.Post.{Post, Post-weaken, Fallible-cases, Outcome-cases, Anything}
use node_configurator.System.Loop.Laws.{Keeps, Keeps-refl, PutsRight, for_each-PutsRight}
use node_configurator.Sysutil.Files.{content, content_of}
use node_configurator.Resource.IrqAffinity.{
  IrqAffinityResource, affinity_path, ena_irqs, wanted, irq_drift, write_affinity, set_affinity,
  set_affinities,
}
use node_configurator.Resource.IrqAffinity.Files.{affinity_path-injective}

-- What the resource relies on in the kernel. A CPU that is accepted is read back, up to blanks at its
-- ends; the write changes no other file, and the interrupts of the interface stay the same.
pub record HasAffinities (os : Os) (r : IrqAffinityResource) : Type 0 where
  pub read_back :
      (n : ℤ) (cpu : ℕ) (s t : os.State)
      → os.write_file (affinity_path os r (show_int n)) (itoa cpu) s ≡ done tt t
      → (x : Text) × (os.read_file t (affinity_path os r (show_int n)) ≡ value x)
        × (trim_space x ≡ itoa cpu)
  pub others :
      (n : ℤ) (cpu : ℕ) (p : FilePath) (s t : os.State)
      → os.write_file (affinity_path os r (show_int n)) (itoa cpu) s ≡ done tt t
      → p ≢ affinity_path os r (show_int n)
      → content os t p ≡ content os s p
  pub same_irqs :
      (n : ℤ) (cpu : ℕ) (s t : os.State)
      → os.write_file (affinity_path os r (show_int n)) (itoa cpu) s ≡ done tt t
      → ena_irqs os r t ≡ ena_irqs os r s

wanted-itoa : (want : Dict ℕ) (irq : Text) → (cpu : ℕ) × (wanted want irq ≡ itoa cpu)
unfolding wanted
wanted-itoa want irq = elim (Option-cases (lookup irq want)) [
  | inl e ↦ (0, rw (wanted, e) refl)
  | inr (cpu, e) ↦ (cpu, rw (wanted, e) refl)
]

module _ (os : Os) (r : IrqAffinityResource) (kernel : HasAffinities os r) where
  open os use {State, read_file, write_file}

  module _ (want : Dict ℕ) where
    -- If the file of the interrupt can be read, it names the CPU that is wanted.
    OnCpu : State → Text → Type 0
    OnCpu s irq =
        (x : Text)
        → content os s (affinity_path os r irq) ≡ some x
        → text_eq (trim_space x) (wanted want irq) ≡ true

    -- A queue interrupt is on its CPU.
    pub IsPlaced : State → Text → Type 0
    IsPlaced s irq = (m : ℤ) → irq ≡ show_int m → OnCpu s irq

    abbrev pub Kept : State → State → Type 0
    Kept = Keeps IsPlaced (ena_irqs os r)

    written-OnCpu :
        (n : ℤ) (s t : State)
        → write_file (affinity_path os r (show_int n)) (wanted want (show_int n)) s ≡ done tt t
        → OnCpu t (show_int n)
    unfolding OnCpu
    written-OnCpu n s t h x k =
        let (cpu, w) = wanted-itoa want (show_int n) in
        let (y, e, q) = kernel.read_back n cpu s t (rw w at h) in
        rw (sym (some-injective y x (sym (ap content_of e) ∙ k)), q ∙ sym w)
          (text_eq_refl (wanted want (show_int n)))

    written-Kept :
        (n : ℤ) (s t : State)
        → write_file (affinity_path os r (show_int n)) (wanted want (show_int n)) s ≡ done tt t
        → Kept s t
    unfolding IsPlaced OnCpu
    written-Kept n s t h =
        let (cpu, w) = wanted-itoa want (show_int n) in
        record {
          kept = λ irq g m i. elim (Bool-cases (text_eq (show_int m) (show_int n))) [
            | inl e ↦ rw (i, text_eq→eq _ _ e) (written-OnCpu n s t h)
            | inr e ↦ rw i (λ x k. rw i at g m refl x (
                sym (
                  kernel.others n cpu (affinity_path os r (show_int m)) s t (rw w at h)
                    (λ q. text_eq-false _ _ e (affinity_path-injective os r m n q)))
                ∙ k))
          ];
          same = kernel.same_irqs n cpu s t (rw w at h);
        }

    -- The interrupt is placed, and the others stay where they are.
    abbrev Places : Text → (State → Outcome State (Unit {0})) → Type 0
    Places irq m = (s : State) → Post (λ _ t. OnCpu t irq × Kept s t) Anything (m s)

    write_affinity-Places :
        (n : ℤ) → Places (show_int n) (write_affinity os r (show_int n) (wanted want (show_int n)))
    unfolding write_affinity
    write_affinity-Places n s =
        elim (Outcome-cases
          (write_file (affinity_path os r (show_int n)) (wanted want (show_int n)) s)) [
            | inl (a, t, e) ↦
                rw (Post, write_affinity, e) (written-OnCpu n s t e, written-Kept n s t e)
            | inr (x, t, e) ↦ rw (Post, write_affinity, e) tt
          ]

    set_affinity-Places : (n : ℤ) → Places (show_int n) (set_affinity os r want (show_int n))
    unfolding set_affinity OnCpu
    set_affinity-Places n s =
        elim (Fallible-cases (read_file s (affinity_path os r (show_int n)))) [
          | inl (c, e) ↦ elim (Bool-cases (text_eq (trim_space c) (wanted want (show_int n)))) [
            | inl b ↦
                rw (Post, set_affinity, e, b)
                  (
                    λ x k. rw (sym (some-injective c x (sym (ap content_of e) ∙ k))) b,
                    Keeps-refl IsPlaced (ena_irqs os r) s,
                  )
            | inr b ↦ rw (set_affinity, e, b) (write_affinity-Places n s)
          ]
          | inr (x, e) ↦ rw (set_affinity, e) (write_affinity-Places n s)
        ]

    set_affinity-PutsRight :
        (n : ℤ) → PutsRight IsPlaced (ena_irqs os r) (set_affinity os r want) (show_int n)
    unfolding IsPlaced
    set_affinity-PutsRight n s =
        Post-weaken (λ _ t. OnCpu t (show_int n) × Kept s t) _ Anything Anything
          (set_affinity os r want (show_int n) s) (set_affinity-Places n s)
          (λ a t h. (λ m i. h.0, h.1)) (λ t h. tt)

    set_affinity-AllPutsRight :
        (ns : List ℤ)
        → All (PutsRight IsPlaced (ena_irqs os r) (set_affinity os r want)) (map show_int ns)
    set_affinity-AllPutsRight [] = tt
    set_affinity-AllPutsRight (n ∷ ns) = (set_affinity-PutsRight n, set_affinity-AllPutsRight ns)

    pub set_affinities_lem :
        (ns : List ℤ) (s : State)
        → Post
            (λ _ t. All (IsPlaced t) (map show_int ns) × Kept s t)
            Anything
            (set_affinities os r want (map show_int ns) s)
    unfolding set_affinities
    set_affinities_lem ns s =
        for_each-PutsRight IsPlaced (ena_irqs os r) (set_affinity os r want) (map show_int ns) s
          (set_affinity-AllPutsRight ns)

    pub irq_drift-All :
        (s : State) (ns : List ℤ)
        → All (IsPlaced s) (map show_int ns)
        → irq_drift os r s want (map show_int ns) ≡ []
    unfolding irq_drift IsPlaced OnCpu
    irq_drift-All s [] h = refl
    irq_drift-All s (n ∷ ns) h =
        elim (Fallible-cases (read_file s (affinity_path os r (show_int n)))) [
          | inl (c, e) ↦ rw (irq_drift, e, h.0 n refl c (ap content_of e)) (irq_drift-All s ns h.1)
          | inr (x, e) ↦ rw (irq_drift, e) (irq_drift-All s ns h.1)
        ]
