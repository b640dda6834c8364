-- ===== src/Resource/IrqAffinity.antt =====
-- internal/resource/irqaffinity.go
pub mod Laws
pub mod Files
pub mod Places
pub mod Settles
use node_configurator.Prelude.{
  ℕ, zero, suc, ◌+◌, ◌%◌, Bool, true, false, not, ◌&&◌, ◌||◌, List, [], ◌∷◌, ◌++◌, map,
  if◌then◌else◌, Option, none, some, ℤ, pos, negsuc, ltb_ℤ,
}
use node_configurator.Text.{Text, codes, is_nil, text_eq, fields, has_prefix, trim_space, join}
use node_configurator.Text.Dict.{Dict, lookup, put}
use node_configurator.Text.Number.{itoa, show_int, parse_int}
use node_configurator.Text.Scan.{Scanned, scan_lines}
use node_configurator.System.{
  FilePath, Error, Fallible, value, failure, Outcome, done, fail, ◌>>◌, or_errorf, errorf, return,
  Os,
}
use node_configurator.System.Loop.{for_each}
use node_configurator.Sysutil.Paths.{Env, path}
use node_configurator.Sysutil.Distro.{scan_error}
use node_configurator.Resource.{
  unchanged, would_change, skipped, Checked, Resource, result_of, checked, check_failed,
}

pub record IrqAffinityResource : Type 0 where
  pub env : Env
  pub interface_name : Text
  pub num_cpus : ℤ

-- `IRQAffinityResource.Name`
abbrev pub irq_affinity_name : Text
irq_affinity_name = codes "irq-affinity"

-- `strings.TrimSuffix(s, ":")`
unfoldable pub trim_colon : Text → Text
trim_colon [] = []
trim_colon (c ∷ s) =
    let rest = trim_colon s in if is_nil s && text_eq (c ∷ []) (codes ":") then [] else c ∷ rest

-- The last element of a list that has a first one.
unfoldable pub last_of : Text → List Text → Text
last_of f [] = f
last_of f (g ∷ fs) = last_of g fs

-- One round of the loop of `enaIRQs`: the number of a line that belongs to a queue.
unfoldable pub queue_irq : Text → List Text → Option ℤ
queue_irq prefix [] = none
queue_irq prefix (f ∷ fs) =
    if has_prefix (last_of f fs) prefix then parse_int (trim_colon f) else none

unfoldable pub queue_irqs : Text → List Text → List ℤ
queue_irqs prefix [] = []
queue_irqs prefix (line ∷ lines) =
    let rest = queue_irqs prefix lines in
    elim (queue_irq prefix (fields line)) [ some n ↦ n ∷ rest | none ↦ rest ]

unfoldable pub insert_int : ℤ → List ℤ → List ℤ
insert_int n [] = n ∷ []
insert_int n (m ∷ ms) = let rest = insert_int n ms in if ltb_ℤ m n then m ∷ rest else n ∷ m ∷ ms

-- `sort.Ints`
unfoldable pub sort_ints : List ℤ → List ℤ
sort_ints [] = []
sort_ints (n ∷ ns) = insert_int n (sort_ints ns)

-- `if n <= 0 { n = 1 }`
unfoldable pub cpu_count : ℤ → ℕ
cpu_count (pos zero) = 1
cpu_count (pos (suc n)) = suc n
cpu_count (negsuc n) = 1

-- The loop of `desiredAffinity`, from an index on.
unfoldable pub assign : ℕ → ℕ → List Text → Dict ℕ → Dict ℕ
assign n i [] want = want
assign n i (irq ∷ irqs) want = assign n (i + 1) irqs (put irq (i % n) want)

-- `desiredAffinity`
unfoldable pub desired_affinity : ℤ → List Text → Dict ℕ
desired_affinity num_cpus irqs = assign (cpu_count num_cpus) 0 irqs []

-- `strconv.Itoa(want[irq])`: a missing key reads as 0.
unfoldable pub wanted : Dict ℕ → Text → Text
wanted want irq = elim (lookup irq want) [ some cpu ↦ itoa cpu | none ↦ itoa 0 ]

module _ (os : Os) (r : IrqAffinityResource) where
  open os use {State, read_file, write_file}

  -- `affinityPath`
  unfoldable pub affinity_path : Text → FilePath
  affinity_path irq = path r.env (codes "proc" ∷ codes "irq" ∷ irq ∷ codes "smp_affinity_list" ∷ [])

  -- `enaIRQs`
  unfoldable pub ena_irqs : State → Fallible (List Text)
  ena_irqs s = elim (read_file s (path r.env (codes "proc" ∷ codes "interrupts" ∷ []))) [
    | failure e ↦ failure (errorf (codes "reading /proc/interrupts") e)
    | value content ↦
        let scanned = scan_lines content in
        elim (scan_error scanned.too_long) [
          | some e ↦ failure e
          | none ↦
              value (
                map show_int (sort_ints (queue_irqs (r.interface_name ++ codes "-") scanned.lines)))
        ]
  ]

  -- The loop of `Check`.
  unfoldable pub irq_drift : State → Dict ℕ → List Text → List Text
  irq_drift s want [] = []
  irq_drift s want (irq ∷ irqs) =
      let rest = irq_drift s want irqs in
      elim (read_file s (affinity_path irq)) [
        | failure _ ↦ rest
        | value cur ↦
            if text_eq (trim_space cur) (wanted want irq)
            then rest
            else (codes "irq "
                ++ (irq ++ (codes ": " ++ (trim_space cur ++ (codes " -> " ++ wanted want irq)))))
              ∷ rest
      ]

  -- The end of `Check`, for the interrupts that are found.
  unfoldable pub check_irqs : State → List Text → Checked State
  check_irqs s irqs =
      if is_nil irqs
      then checked
          (result_of irq_affinity_name skipped
            (codes "no queue IRQs found for " ++ r.interface_name))
          s
      else let drift = irq_drift s (desired_affinity r.num_cpus irqs) irqs in
        if is_nil drift
        then checked (result_of irq_affinity_name unchanged []) s
        else checked (result_of irq_affinity_name would_change (join (codes ", ") drift)) s

  -- `Check`
  unfoldable pub check : State → Checked State
  check s =
      if is_nil r.interface_name || not (ltb_ℤ (pos 1) r.num_cpus)
      then checked
          (result_of irq_affinity_name skipped
            (codes "no interface or only one vCPU, nothing to spread"))
          s
      else elim (ena_irqs s) [
        | failure e ↦ check_failed irq_affinity_name e s
        | value irqs ↦ check_irqs s irqs
      ]

  unfoldable pub write_affinity : Text → Text → State → Outcome State (Unit {0})
  write_affinity irq cpu =
      or_errorf (codes "setting affinity for irq " ++ irq) (write_file (affinity_path irq) cpu)

  -- One round of the loop of `Apply`.
  unfoldable pub set_affinity : Dict ℕ → Text → State → Outcome State (Unit {0})
  set_affinity want irq s = elim (read_file s (affinity_path irq)) [
    | failure _ ↦ write_affinity irq (wanted want irq) s
    | value cur ↦
        if text_eq (trim_space cur) (wanted want irq)
        then done tt s
        else write_affinity irq (wanted want irq) s
  ]

  -- The loop of `Apply`, which the first error ends.
  unfoldable pub set_affinities : Dict ℕ → List Text → State → Outcome State (Unit {0})
  unfolding for_each
  set_affinities want = for_each (set_affinity want)

  -- `Apply`
  unfoldable pub apply : State → Outcome State (Unit {0})
  apply s = elim (ena_irqs s) [
    | failure e ↦ fail e s
    | value irqs ↦ set_affinities (desired_affinity r.num_cpus irqs) irqs s
  ]

  abbrev pub irq_affinity_resource : Resource State
  irq_affinity_resource = record { name = irq_affinity_name; check = check; apply = apply }
