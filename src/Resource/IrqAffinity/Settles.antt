-- ===== src/Resource/IrqAffinity/Settles.antt =====
-- The IRQ affinity converges, on a kernel that keeps the affinities it accepts.
use node_configurator.Prelude.{
  ℕ, false, not, ◌||◌, List, [], ◌∷◌, ◌++◌, map, ◌≡◌, ap, ◌∙◌, arith, inl, inr, All, ℤ, pos, ltb_ℤ,
  Bool-cases, Option-cases,
}
use node_configurator.Text.{Text, codes, is_nil}
use node_configurator.Text.Dict.{Dict}
use node_configurator.Text.Number.{show_int}
use node_configurator.System.{value, done, Os}
use node_configurator.System.Post.{Fallible-cases}
use node_configurator.Text.Scan.{scan_lines}
use node_configurator.Sysutil.Distro.{scan_error}
use node_configurator.Sysutil.Paths.{path}
use node_configurator.Resource.{is_failed, is_changed, is_would_change}
use node_configurator.Resource.IrqAffinity.{
  IrqAffinityResource, ena_irqs, sort_ints, queue_irqs, desired_affinity, irq_drift, check_irqs,
  check, set_affinities, apply, irq_affinity_resource,
}
use node_configurator.Resource.IrqAffinity.Places.{
  HasAffinities, IsPlaced, Kept, set_affinities_lem, irq_drift-All,
}
use node_configurator.Engine.Run.Converge.{IsSettled, Converges}

module _ (os : Os) (r : IrqAffinityResource) (kernel : HasAffinities os r) where
  open os use {State, read_file, write_file}

  ena_irqs-map :
      (s : State) (irqs : List Text)
      → ena_irqs os r s ≡ value irqs
      → (ns : List ℤ) × (irqs ≡ map show_int ns)
  unfolding ena_irqs
  ena_irqs-map s irqs h =
      elim (Fallible-cases (read_file s (path r.env (codes "proc" ∷ codes "interrupts" ∷ [])))) [
        | inl (c, e) ↦ elim (Option-cases (scan_error (scan_lines c).too_long)) [
          | inl k ↦ (
            sort_ints (queue_irqs (r.interface_name ++ codes "-") (scan_lines c).lines),
            cc (rw (ena_irqs, e, k) at h),
          )
          | inr (x, k) ↦ absurd (cc (rw (ena_irqs, e, k) at h))
        ]
        | inr (x, e) ↦ absurd (cc (rw (ena_irqs, e) at h))
      ]

  set_affinities_done :
      (want : Dict ℕ) (irqs : List Text) (ns : List ℤ) (s t : State)
      → irqs ≡ map show_int ns
      → set_affinities os r want irqs s ≡ done tt t
      → All (IsPlaced os r kernel want t) (map show_int ns) × Kept os r kernel want s t
  set_affinities_done want irqs ns s t m h =
      rw (rw m at h) at (set_affinities_lem os r kernel want ns s)

  IsSettled-of_irqs :
      (t : State) (irqs : List Text)
      → (is_nil r.interface_name || not (ltb_ℤ (pos 1) r.num_cpus)) ≡ false
      → ena_irqs os r t ≡ value irqs
      → irq_drift os r t (desired_affinity r.num_cpus irqs) irqs ≡ []
      → IsSettled (irq_affinity_resource os r) t
  unfolding check check_irqs is_failed is_changed
  IsSettled-of_irqs t irqs n e d = record {
    no_error = rw (check, n, e, check_irqs, d) (ground arith);
    no_failure = rw (check, n, e, check_irqs, d) (ground arith);
    no_change = rw (check, n, e, check_irqs, d) (ground arith);
  }

  apply-IsSettled :
      (s t : State)
      → (is_nil r.interface_name || not (ltb_ℤ (pos 1) r.num_cpus)) ≡ false
      → apply os r s ≡ done tt t
      → IsSettled (irq_affinity_resource os r) t
  unfolding apply
  apply-IsSettled s t n a = elim (Fallible-cases (ena_irqs os r s)) [
    | inl (irqs, e) ↦
        let (ns, m) = ena_irqs-map s irqs e in
        let want = desired_affinity r.num_cpus irqs in
        let (on, k) = set_affinities_done want irqs ns s t m (rw (apply, e) at a) in
        IsSettled-of_irqs t irqs n (k.same ∙ e)
          (ap (irq_drift os r t want) m ∙ irq_drift-All os r kernel want t ns on)
    | inr (x, e) ↦ absurd (cc (rw (apply, e) at a))
  ]

  -- After a successful `Apply`, `Check` finds every queue interrupt on the CPU that it is assigned to,
  -- where the kernel reads back the CPUs that it accepts.
  pub irq_affinity-Converges : Converges (irq_affinity_resource os r)
  unfolding check check_irqs is_failed is_changed is_would_change
  irq_affinity-Converges = record {
    read_only = λ s. ground arith;
    fails_with_error = λ s x e. ground arith;
    no_error_no_failure = λ s e. ground arith;
    only_drift = λ s e w. ground arith;
    settles = λ s t w a.
        elim (Bool-cases (is_nil r.interface_name || not (ltb_ℤ (pos 1) r.num_cpus))) [
          | inl n ↦ absurd (cc (rw (check, n) at w))
          | inr n ↦ apply-IsSettled s t n a
        ];
  }
