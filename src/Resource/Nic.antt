-- ===== src/Resource/Nic.antt =====
-- The NIC of internal/resource/nictuning.go; what it does with the text of masks and of `ethtool` has
-- its own modules.
pub mod Rings
pub mod Masks
pub mod Settles
use node_configurator.Prelude.{
  ℕ, suc, Bool, true, false, not, ◌&&◌, ◌||◌, ◌==◌, List, [], ◌∷◌, ◌++◌, if◌then◌else◌, Option,
  none, some, ℤ, pos, ltb_ℤ,
}
use node_configurator.Text.{Text, codes, is_nil, has_prefix, split, trim_space, join}
use node_configurator.Text.Number.{itoa, show_int, parse_int, is_digit}
use node_configurator.System.{
  FilePath, Fallible, value, failure, Outcome, done, fail, ◌>>=◌, ◌>>◌, or_errorf, errorf, return,
  Os,
}
use node_configurator.System.Loop.{for_each}
use node_configurator.Sysutil.Paths.{Env, path, show_path}
use node_configurator.Resource.{
  unchanged, would_change, skipped, Checked, Resource, result_of, checked,
}
use node_configurator.Resource.RingParams.{when, parse_ethtool_ring_params, ring_drift, ring_args}
use node_configurator.Resource.CpuMask.{cpumask_all, cpu_masks_equal}

pub record NicResource : Type 0 where
  pub env : Env
  pub interface_name : Text
  pub num_cpus : ℤ
  pub ring_buffer_max : Bool
  pub rps : Bool
  pub xps : Bool

-- `NICResource.Name`
abbrev pub nic_name : Text
nic_name = codes "nic-tuning"

module _ (os : Os) (r : NicResource) where
  open os use {State, read_file, write_file, glob, run}

  -- `ethtool -g`: its output if it succeeds, and the state that it leaves.
  abbrev output_of : Outcome State Text → Option Text × State
  output_of (done out t) = (some out, t)
  output_of (fail e t) = (none, t)

  unfoldable pub query_rings : State → Option Text × State
  query_rings s = output_of (run (codes "ethtool") (codes "-g" ∷ r.interface_name ∷ []) s)

  -- `queueDirs`
  unfoldable pub queue_dirs : Text → State → Fallible (List FilePath)
  queue_dirs direction s = glob s (
      path r.env (
        codes "sys"
        ∷ codes "class"
        ∷ codes "net"
        ∷ r.interface_name
        ∷ codes "queues"
        ∷ (direction ++ codes "-*")
        ∷ []))

  -- The loop of `queueMaskDrift`: how many paths it collects.
  unfoldable pub count_masks : Text → State → List FilePath → ℕ
  count_masks attr s [] = 0
  count_masks attr s (d ∷ ds) =
      let rest = count_masks attr s ds in
      elim (read_file s (d ++ attr ∷ [])) [
        | failure _ ↦ rest
        | value cur ↦ if cpu_masks_equal cur (cpumask_all r.num_cpus) then rest else suc rest
      ]

  -- The number of paths of `queueMaskDrift`, or 0 for an error, which `Check` passes over.
  unfoldable pub queue_mask_drift : Text → Text → State → ℕ
  queue_mask_drift direction attr s = elim (queue_dirs direction s) [
    | failure _ ↦ 0
    | value dirs ↦ count_masks attr s dirs
  ]

  abbrev masks_text : Text → ℕ → List Text
  masks_text attr n =
      if n == 0
      then []
      else (attr ++ (codes " out of date on " ++ (itoa n ++ codes " queue(s)"))) ∷ []

  -- What `Check` finds of the rings, and the state that the query leaves.
  unfoldable pub check_rings : State → List Text × State
  check_rings s =
      let (out, t) = query_rings s in
      if not r.ring_buffer_max then ([], s) else elim out [
        | none ↦ ([], t)
        | some text ↦
            let drift = ring_drift (parse_ethtool_ring_params text) in
            (when (not (is_nil drift)) (drift ∷ []), t)
      ]

  abbrev pub spreads : Bool
  spreads = ltb_ℤ (pos 1) r.num_cpus

  -- `Check`
  unfoldable pub check : State → Checked State
  check s =
      let (rings, t) = check_rings s in
      let drift =
        rings
        ++ (when (r.rps && spreads)
              (masks_text (codes "rps_cpus") (queue_mask_drift (codes "rx") (codes "rps_cpus") t))
            ++ when (r.xps && spreads) (
                masks_text (codes "xps_cpus")
                  (queue_mask_drift (codes "tx") (codes "xps_cpus") t))) in
      if is_nil r.interface_name
      then checked (result_of nic_name skipped (codes "no interface detected")) s
      else if is_nil drift
      then checked (result_of nic_name unchanged []) t
      else checked (result_of nic_name would_change (join (codes "; ") drift)) t

  -- `applyRingBufferMax`
  unfoldable pub apply_ring_buffer_max : State → Outcome State (Unit {0})
  apply_ring_buffer_max s =
      let (out, t) = query_rings s in
      elim out [
        | none ↦ done tt t
        | some text ↦
            let args = ring_args (parse_ethtool_ring_params text) in
            if is_nil args
            then done tt t
            else (or_errorf (codes "ethtool -G " ++ r.interface_name)
                    (run (codes "ethtool") (codes "-G" ∷ r.interface_name ∷ args))
                  >>= λ _. return tt)
                t
      ]

  -- A queue that lacks the attribute is passed over.
  abbrev pub skip_missing : FilePath → Outcome State (Unit {0}) → Outcome State (Unit {0})
  skip_missing p (done u t) = done u t
  skip_missing p (fail e t) =
      if e.not_exist then done tt t else fail (errorf (codes "writing " ++ show_path p) e) t

  unfoldable pub write_mask : FilePath → State → Outcome State (Unit {0})
  write_mask p s = skip_missing p (write_file p (cpumask_all r.num_cpus) s)

  -- One round of the loop of `applyQueueMask`.
  unfoldable pub set_mask : FilePath → State → Outcome State (Unit {0})
  set_mask p s = elim (read_file s p) [
    | failure _ ↦ write_mask p s
    | value cur ↦ if cpu_masks_equal cur (cpumask_all r.num_cpus) then done tt s else write_mask p s
  ]

  unfoldable pub set_masks : Text → List FilePath → State → Outcome State (Unit {0})
  unfolding for_each
  set_masks attr = for_each (λ d. set_mask (d ++ attr ∷ []))

  -- `applyQueueMask`
  unfoldable pub apply_queue_mask : Text → Text → State → Outcome State (Unit {0})
  apply_queue_mask direction attr s = elim (queue_dirs direction s) [
    | failure e ↦ fail e s
    | value dirs ↦ set_masks attr dirs s
  ]

  -- `if b { … }`
  abbrev pub only_if : Bool → (State → Outcome State (Unit {0})) → State → Outcome State (Unit {0})
  only_if b m s = elim b [ true ↦ m s | false ↦ done tt s ]

  -- `Apply`
  unfoldable pub apply : State → Outcome State (Unit {0})
  apply = only_if (not (is_nil r.interface_name)) (
      only_if r.ring_buffer_max apply_ring_buffer_max
      >> (only_if (r.rps && spreads) (apply_queue_mask (codes "rx") (codes "rps_cpus"))
          >> only_if (r.xps && spreads) (apply_queue_mask (codes "tx") (codes "xps_cpus"))))

  abbrev pub nic_resource : Resource State
  nic_resource = record { name = nic_name; check = check; apply = apply }
