-- ===== src/Tests/Governors.antt =====
-- A system with two CPUs, and the resource that sets their governor.
use node_configurator.Prelude.{[], ◌∷◌, ◌≡◌, refl, sym, ◌∙◌, inl, inr, some, Bool-cases}
use node_configurator.Text.{Text, codes, trim_space, trim_left, trim_right, is_space}
use node_configurator.System.{FilePath, value, failure, done, fail, Os}
use node_configurator.Sysutil.Paths.{new}
use node_configurator.Resource.CpuGovernor.{governor_paths, cpu_governor_resource}
use node_configurator.Resource.CpuGovernor.Settles.{HasGovernors, cpu_governor-Converges}
use node_configurator.Engine.Run.Converge.{Converges}
use node_configurator.Tests.Memory.{
  Store, read, set, set_same, set_other, path_eq, path_eq_iff, path_eq-false, content_read,
}
use node_configurator.Tests.Kernel.{system, overwrite_done}
use node_configurator.Tests.Toy.{broken}

abbrev governor_file : Text → FilePath
governor_file cpu =
    codes "sys"
    ∷ codes "devices"
    ∷ codes "system"
    ∷ codes "cpu"
    ∷ cpu
    ∷ codes "cpufreq"
    ∷ codes "scaling_governor"
    ∷ []

abbrev two_cpus : Os
two_cpus =
    system (λ s p. failure broken)
      (λ s p. value (governor_file (codes "cpu0") ∷ governor_file (codes "cpu1") ∷ []))
      (λ c args s. fail broken s)

abbrev performance : Text
performance = codes "performance"

written :
    (p : FilePath) (s t : Store)
    → two_cpus.write_file p performance s ≡ done tt t
    → t ≡ set p (some performance) s
written p s t h =
    overwrite_done (λ s p. failure broken)
      (λ s p. value (governor_file (codes "cpu0") ∷ governor_file (codes "cpu1") ∷ []))
      (λ c args s. fail broken s) p performance s t h

performance_trimmed : trim_space performance ≡ performance
unfolding trim_space trim_left trim_right is_space
performance_trimmed = refl

read-set : (p : FilePath) (s : Store) → read (set p (some performance) s) p ≡ value performance
unfolding read
read-set p s = rw (read, set_same p (some performance) s)

two_cpus-HasGovernors : HasGovernors two_cpus new performance
unfolding governor_paths
two_cpus-HasGovernors = record {
  read_back = λ p s t w. (performance, rw (written p s t w) (read-set p s), performance_trimmed);
  others = λ p q s t w. elim (Bool-cases (path_eq q p)) [
    | inl e ↦ inl ((path_eq_iff q p).0 e)
    | inr e ↦ inr (
        rw (written p s t w) (
          content_read _ q
          ∙ set_other p q (some performance) s (path_eq-false q p e)
          ∙ sym (content_read s q)))
  ];
  same_paths = λ p s t w. refl;
}

cpu_governor-Converges_example : Converges (cpu_governor_resource two_cpus new performance)
cpu_governor-Converges_example =
    cpu_governor-Converges two_cpus new performance two_cpus-HasGovernors
