-- ===== src/Tests/Interrupts.antt =====
-- A system that keeps the affinities of interrupts, and the resource that sets them.
use node_configurator.Prelude.{[], ◌∷◌, ◌≡◌, ◌≢◌, refl, sym, ap, ◌∙◌, some, ℤ, pos}
use node_configurator.Text.{Text, codes, split}
use node_configurator.Text.Number.{itoa, show_int}
use node_configurator.Text.Number.Digits.{itoa-NoSpace}
use node_configurator.Text.Trim.{trim_space-NoSpace}
use node_configurator.System.{FilePath, value, failure, done, fail}
use node_configurator.Sysutil.Paths.{new, path, base}
use node_configurator.Resource.CpuMask.{cpumask_all, parse_cpu_mask_bits}
use node_configurator.Resource.CpuMask.Bits.{upward}
use node_configurator.Resource.CpuMask.RoundTrip.{parse_cpu_mask_bits-cpumask_all}
use node_configurator.Resource.IrqAffinity.{
  IrqAffinityResource, affinity_path, ena_irqs, cpu_count, irq_affinity_resource,
}
use node_configurator.Resource.IrqAffinity.Files.{base-affinity_path}
use node_configurator.Resource.IrqAffinity.Places.{HasAffinities}
use node_configurator.Resource.IrqAffinity.Settles.{irq_affinity-Converges}
use node_configurator.Engine.Run.Converge.{Converges}
use node_configurator.Tests.Memory.{Store, read, set, set_same, set_other, content_read}
use node_configurator.Tests.Kernel.{overwrite_done}
use node_configurator.Tests.Toy.{toy, broken}

abbrev on_eth0 : IrqAffinityResource
on_eth0 = record { env = new; interface_name = codes "eth0"; num_cpus = pos 4 }

abbrev interrupts : FilePath
interrupts = path new (codes "proc" ∷ codes "interrupts" ∷ [])

written :
    (p : FilePath) (c : Text) (s t : Store)
    → toy.write_file p c s ≡ done tt t
    → t ≡ set p (some c) s
written = overwrite_done (λ s p. failure broken) (λ s p. failure broken) (λ c args s. fail broken s)

read-set : (p : FilePath) (c : Text) (s : Store) → read (set p (some c) s) p ≡ value c
unfolding read
read-set p c s = rw (read, set_same p (some c) s)

read-set_other :
    (p q : FilePath) (c : Text) (s : Store) → q ≢ p → read (set p (some c) s) q ≡ read s q
unfolding read
read-set_other p q c s h = rw (read, set_other p q (some c) s h)

base-interrupts : base interrupts ≡ codes "interrupts"
unfolding base path node_configurator.Sysutil.Paths.filepath_join split new
    node_configurator.Sysutil.Paths.clean_element
base-interrupts = refl

names_differ : codes "interrupts" ≢ codes "smp_affinity_list"
names_differ h = cc h

interrupts-ne : (n : ℤ) → interrupts ≢ affinity_path toy on_eth0 (show_int n)
interrupts-ne n h =
    names_differ (sym base-interrupts ∙ ap base h ∙ base-affinity_path toy on_eth0 n)

toy-HasAffinities : HasAffinities toy on_eth0
unfolding ena_irqs
toy-HasAffinities = record {
  read_back = λ n cpu s t h. (
    itoa cpu,
    rw (written _ _ s t h) (read-set _ (itoa cpu) s),
    trim_space-NoSpace (itoa cpu) (itoa-NoSpace cpu),
  );
  others = λ n cpu p s t h q.
      rw (written _ _ s t h)
        (content_read _ p ∙ set_other _ p (some (itoa cpu)) s q ∙ sym (content_read s p));
  same_irqs = λ n cpu s t h.
      rw (written _ _ s t h)
        (rw (ena_irqs, read-set_other _ interrupts (itoa cpu) s (interrupts-ne n)) refl);
}

irq_affinity-Converges_example : Converges (irq_affinity_resource toy on_eth0)
irq_affinity-Converges_example = irq_affinity-Converges toy on_eth0 toy-HasAffinities

parse_cpu_mask_bits-cpumask_all_example :
    parse_cpu_mask_bits (cpumask_all (pos 36)) ≡ upward 0 (cpu_count (pos 36))
parse_cpu_mask_bits-cpumask_all_example = parse_cpu_mask_bits-cpumask_all (pos 36)
