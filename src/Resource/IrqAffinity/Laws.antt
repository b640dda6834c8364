-- ===== src/Resource/IrqAffinity/Laws.antt =====
-- Which CPU each queue interrupt gets.
use node_configurator.Prelude.{
  ℕ, suc, ◌+◌, ◌%◌, ◌<◌, true, List, [], ◌∷◌, some, ◌≡◌, ◌∙◌, arith, ℤ, pos, negsuc, Bool-cases,
  inl, inr,
}
use node_configurator.Text.{Text, text_eq, contains}
use node_configurator.Text.Dict.{Dict, lookup, put, lookup-put}
use node_configurator.Resource.IrqAffinity.{cpu_count, assign, desired_affinity}

-- The interrupt has a CPU below `n`.
pub record HasCpu (n : ℕ) (want : Dict ℕ) (irq : Text) : Type 0 where
  pub cpu : ℕ
  pub is : lookup irq want ≡ some cpu
  pub below : cpu < n

mod_below : (i n : ℕ) → 0 < n → i % n < n
mod_below i n h = grind arith

put-HasCpu :
    (n i : ℕ) (want : Dict ℕ) (irq k : Text)
    → 0 < n
    → HasCpu n want k
    → HasCpu n (put irq (i % n) want) k
put-HasCpu n i want irq k h c = elim (Bool-cases (text_eq irq k)) [
  | inl e ↦ record {
    cpu = i % n;
    is = lookup-put irq k (i % n) want ∙ rw e;
    below = mod_below i n h;
  }
  | inr e ↦ record { cpu = c.cpu; is = lookup-put irq k (i % n) want ∙ rw e c.is; below = c.below }
]

put-HasCpu_self :
    (n i : ℕ) (want : Dict ℕ) (irq k : Text)
    → 0 < n
    → text_eq irq k ≡ true
    → HasCpu n (put irq (i % n) want) k
put-HasCpu_self n i want irq k h e = record {
  cpu = i % n;
  is = lookup-put irq k (i % n) want ∙ rw e;
  below = mod_below i n h;
}

assign-HasCpu :
    (n i : ℕ) (irqs : List Text) (want : Dict ℕ) (k : Text)
    → 0 < n
    → HasCpu n want k
    → HasCpu n (assign n i irqs want) k
unfolding assign
assign-HasCpu n i [] want k h c = c
assign-HasCpu n i (irq ∷ irqs) want k h c =
    assign-HasCpu n (i + 1) irqs (put irq (i % n) want) k h (put-HasCpu n i want irq k h c)

assign-contains :
    (n i : ℕ) (irqs : List Text) (want : Dict ℕ) (k : Text)
    → 0 < n
    → contains irqs k ≡ true
    → HasCpu n (assign n i irqs want) k
unfolding assign contains
assign-contains n i [] want k h c = absurd (cc c)
assign-contains n i (irq ∷ irqs) want k h c = elim (Bool-cases (text_eq irq k)) [
  | inl e ↦
      assign-HasCpu n (i + 1) irqs (put irq (i % n) want) k h (put-HasCpu_self n i want irq k h e)
  | inr e ↦ assign-contains n (i + 1) irqs (put irq (i % n) want) k h (rw e at c)
]

pub cpu_count_positive : (c : ℤ) → 0 < cpu_count c
unfolding cpu_count
cpu_count_positive (pos ℕ.zero) = omega arith
cpu_count_positive (pos (suc n)) = omega arith
cpu_count_positive (negsuc n) = omega arith

-- Every queue interrupt gets a CPU, and one that the host has: its number is below the number of
-- CPUs, or it is 0 where that number is not positive.
pub desired_affinity-HasCpu :
    (num_cpus : ℤ) (irqs : List Text) (k : Text)
    → contains irqs k ≡ true
    → HasCpu (cpu_count num_cpus) (desired_affinity num_cpus irqs) k
unfolding desired_affinity
desired_affinity-HasCpu c irqs k h =
    assign-contains (cpu_count c) 0 irqs [] k (cpu_count_positive c) h
