-- ===== src/Tests/Swaps.antt =====
-- A system whose swap `swapoff` turns off, with a swap unit that stays listed and can be masked.
use node_configurator.Prelude.{
  false, List, [], ◌∷◌, map, if◌then◌else◌, none, some, ◌≡◌, refl, sym, ap, ◌∙◌, inl, inr,
  Bool-cases,
}
use node_configurator.Text.{Text, codes, text_eq, split}
use node_configurator.Text.Scan.{scan_lines, is_too_long}
use node_configurator.System.{FilePath, value, failure, Outcome, done, fail, Os, state_of}
use node_configurator.Sysutil.Paths.{new, path, filepath_join, clean_element, with_suffix}
use node_configurator.Sysutil.Files.{HasFiles, content}
use node_configurator.Sysutil.Atomic.Backup.{backup_of}
use node_configurator.Resource.Fstab.{
  fstab_path, fstab_has_active_swap_lines, is_swap_line, is_ignored,
}
use node_configurator.Resource.KernelModule.{first_fields}
use node_configurator.Resource.Swap.{
  without_header, active_swap_devices, active_swap_units, fstab_content, swap_off,
  comment_fstab_swap_lines, mask_active_units, mask_units, mask_unit, apply,
}
use node_configurator.Resource.Swap.Off.{swaps_path, HasSwaps}
use node_configurator.Resource.Swap.Disabled.{IsDisabled, apply-IsDisabled}
use node_configurator.Resource.{Resource}
use node_configurator.Profile.Merge.{build}
use node_configurator.Engine.Run.{check_mode, run}
use node_configurator.Engine.Filter.{Options}
use node_configurator.Engine.Build.{build_resources}
use node_configurator.Engine.Build.ReadOnly.{HasQueries, build_resources-check_mode}
use node_configurator.Tests.Profiles.{facts, overrides, indefinite}
use node_configurator.Tests.Memory.{
  Store, read, set, set_same, set_other, content_read, overwrite_others, path_eq, path_eq_iff,
  path_eq-false, memory-HasFiles,
}
use node_configurator.Tests.Kernel.{system, is_kernel}
use node_configurator.Tests.Toy.{broken}

abbrev swaps_file : FilePath
swaps_file = swaps_path new

abbrev header : Text
header = codes "Filename\tType\tSize\tUsed\tPriority\n"

-- A masked unit has a file of its own here.
abbrev mask_file : Text → FilePath
mask_file unit = codes "etc" ∷ codes "systemd" ∷ codes "system" ∷ unit ∷ []

abbrev systemctl : List Text → Store → Outcome Store Text
systemctl (verb ∷ unit ∷ []) s =
    if text_eq verb (codes "mask")
    then done [] (set (mask_file unit) (some []) s)
    else fail broken s
systemctl _ s = done (codes "dev-nvme0n1p2.swap loaded active active Swap\n") s

unfoldable command : Text → List Text → Store → Outcome Store Text
command name args s =
    if text_eq name (codes "swapoff")
    then done [] (set swaps_file (some header) s)
    else if text_eq name (codes "systemctl")
    then systemctl args s
    else fail broken s

abbrev swapping : Os
swapping = system (λ s p. failure broken) (λ s p. failure broken) command

swapping-HasFiles : HasFiles swapping
swapping-HasFiles =
    memory-HasFiles is_kernel (λ s p. failure broken) (λ s p. failure broken) command

-- The unit has its file.
abbrev Masked : Store → Text → Type 0
Masked s unit = s (mask_file unit) ≡ some []

shown_after : (s : Store) → read (set swaps_file (some header) s) swaps_file ≡ value header
unfolding read
shown_after s = rw (read, set_same swaps_file (some header) s)

off_after :
    (s : Store) → active_swap_devices swapping new (set swaps_file (some header) s) ≡ value []
unfolding active_swap_devices scan_lines first_fields without_header split is_too_long
off_after s = rw (active_swap_devices, shown_after s)

turned_off :
    (s t : Store) (out : Text)
    → swapping.run (codes "swapoff") (codes "-a" ∷ []) s ≡ done out t
    → t ≡ set swaps_file (some header) s
unfolding command text_eq
turned_off s t out h = sym (ap state_of h)

masked_by :
    (unit : Text) (s t : Store) (out : Text)
    → swapping.run (codes "systemctl") (codes "mask" ∷ unit ∷ []) s ≡ done out t
    → t ≡ set (mask_file unit) (some []) s
unfolding command text_eq
masked_by unit s t out h = sym (ap state_of h)

still_masked :
    (unit other : Text) (s : Store)
    → Masked s other
    → Masked (set (mask_file unit) (some []) s) other
still_masked unit other s h = elim (Bool-cases (path_eq (mask_file other) (mask_file unit))) [
  | inl e ↦
      rw ((path_eq_iff (mask_file other) (mask_file unit)).0 e)
        (set_same (mask_file unit) (some []) s)
  | inr e ↦ set_other (mask_file unit) (mask_file other) (some []) s (path_eq-false _ _ e) ∙ h
]

swaps_differ_mask : (unit : Text) → path_eq swaps_file (mask_file unit) ≡ false
unfolding path path_eq text_eq filepath_join split new clean_element
swaps_differ_mask unit = refl

fstab_differs_mask : (unit : Text) → path_eq (fstab_path new) (mask_file unit) ≡ false
unfolding path path_eq text_eq filepath_join split new clean_element fstab_path
fstab_differs_mask unit = refl

swaps_differ : path_eq swaps_file (fstab_path new) ≡ false
unfolding path path_eq text_eq filepath_join split new clean_element fstab_path
swaps_differ = refl

swaps_differ_backup : path_eq swaps_file (backup_of (fstab_path new)) ≡ false
unfolding path path_eq text_eq filepath_join split new clean_element with_suffix fstab_path
swaps_differ_backup = refl

content_kept :
    (p : FilePath) (unit : Text) (s : Store)
    → path_eq p (mask_file unit) ≡ false
    → content swapping (set (mask_file unit) (some []) s) p ≡ content swapping s p
content_kept p unit s h =
    content_read _ p
    ∙ set_other (mask_file unit) p (some []) s (path_eq-false p (mask_file unit) h)
    ∙ sym (content_read s p)

units_listed : List Text
units_listed =
    first_fields (scan_lines (codes "dev-nvme0n1p2.swap loaded active active Swap\n")).lines

listed : (s : Store) → active_swap_units swapping new s ≡ (units_listed, s)
unfolding active_swap_units command text_eq units_listed
listed s = refl

swapping-HasSwaps : HasSwaps swapping new Masked
swapping-HasSwaps = record {
  turns_off = λ s t out h. rw (turned_off s t out h) (off_after s);
  only_lists = λ s. rw (listed s);
  masks = λ unit s t out h. rw (masked_by unit s t out h) (set_same (mask_file unit) (some []) s);
  keeps_masked =
      λ unit other s t out h m. rw (masked_by unit s t out h) (still_masked unit other s m);
  same_view = λ unit s t out h. rw (
    masked_by unit s t out h,
    content_kept swaps_file unit s (swaps_differ_mask unit),
    content_kept (fstab_path new) unit s (fstab_differs_mask unit),
    listed s,
    listed (set (mask_file unit) (some []) s),
  );
  backup_others = λ c s.
      overwrite_others is_kernel (λ s p. failure broken) (λ s p. failure broken) command
        (backup_of (fstab_path new)) c s;
  swaps-ne-fstab = path_eq-false swaps_file _ swaps_differ;
  swaps-ne-backup = path_eq-false swaps_file _ swaps_differ_backup;
}

-- Swap is in use.
abbrev swapped : Store
swapped =
    set swaps_file
      (some (codes "Filename\tType\tSize\tUsed\tPriority\n/dev/sdb1\tpartition\t1\t0\t-2\n"))
      (λ p. none)

applied : Store
applied =
    set (mask_file (codes "dev-nvme0n1p2.swap")) (some []) (set swaps_file (some header) swapped)

applies : apply swapping new swapped ≡ done tt applied
unfolding apply applied active_swap_devices command read set path_eq path filepath_join split new
    clean_element scan_lines is_too_long swap_off first_fields without_header
    node_configurator.Text.fields node_configurator.Text.Scan.drop_cr
    node_configurator.Text.is_space comment_fstab_swap_lines fstab_has_active_swap_lines fstab_path
    is_ignored is_swap_line active_swap_units mask_active_units mask_unit mask_units
    node_configurator.System.Loop.for_each text_eq node_configurator.Text.trim_space fstab_content
applies = refl

apply-IsDisabled_example :
    IsDisabled swapping new swapping-HasFiles Masked swapping-HasSwaps applied
apply-IsDisabled_example =
    apply-IsDisabled swapping new swapping-HasFiles Masked swapping-HasSwaps swapped applied applies

lists :
    (s : Store)
    → state_of (
        swapping.run
          (codes "systemctl")
          (codes "list-units" ∷ codes "--type=swap" ∷ codes "--no-legend" ∷ codes "--plain" ∷ [])
          s)
      ≡ s
unfolding command text_eq
lists s = refl

shows :
    (iface : Text) (s : Store)
    → state_of (swapping.run (codes "ethtool") (codes "-g" ∷ iface ∷ []) s) ≡ s
unfolding command text_eq
shows iface s = refl

swapping-HasQueries : HasQueries swapping
swapping-HasQueries = record { list_units = lists; show_rings = shows }

abbrev every_kind : Options
every_kind = record { only = []; skip = [] }

build_resources-check_mode_example :
    let rs =
      build_resources swapping new swapped facts (build indefinite facts overrides) [] every_kind in
    run check_mode rs swapped ≡ (map (λ (r : Resource Store). (r.check swapped).result) rs, swapped)
build_resources-check_mode_example =
    build_resources-check_mode swapping swapping-HasQueries new swapped swapped facts
      (build indefinite facts overrides) [] every_kind
