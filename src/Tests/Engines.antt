-- ===== src/Tests/Engines.antt =====
-- Tests of the resources of whole profiles, of masks, interrupts and flags.
use node_configurator.Prelude.{
  true, false, List, [], ◌∷◌, map, any, none, some, ◌≡◌, refl, pos, All,
}
use node_configurator.Text.{Text, codes, contains, text_eq, join, is_space, split}
use node_configurator.Sysutil.Paths.{new, path, filepath_join, elements, clean, clean_element}
use node_configurator.Sysutil.Netdev.{has_device, pick_interface}
use node_configurator.Sysutil.Netdev.Laws.{is_hardware, pick_interface_hardware}
use node_configurator.Profile.Merge.{build}
use node_configurator.Resource.{Resource, Result}
use node_configurator.Resource.CpuMask.{
  cpu_masks_equal, cpumask_all, mask_words, hex, hex_char, min,
}
use node_configurator.Resource.CpuMask.Laws.{cpu_masks_equal-padded}
use node_configurator.Resource.IrqAffinity.{cpu_count, desired_affinity}
use node_configurator.Resource.IrqAffinity.Laws.{HasCpu, desired_affinity-HasCpu}
use node_configurator.Engine.Run.{apply_mode, run}
use node_configurator.Engine.Run.Laws.{IsFinal}
use node_configurator.Engine.Filter.{Options}
use node_configurator.Engine.Build.{build_resources}
use node_configurator.Engine.Build.Laws.{build_resources-names, build_resources-AllFinal}
use node_configurator.Tests.Memory.{Store, set, stat, path_eq}
use node_configurator.Tests.Toy.{toy, start}
use node_configurator.Tests.Profiles.{facts, overrides, indefinite}

abbrev no_filter : Options
no_filter = record { only = []; skip = [] }

build_resources-names_example :
    let rs = build_resources toy new start facts (build indefinite facts overrides) [] no_filter in
    map (λ (x : Result). x.name) (run apply_mode rs start).0
    ≡ map (λ (r : Resource Store). r.name) rs
build_resources-names_example =
    build_resources-names toy new apply_mode start start facts (build indefinite facts overrides) []
      no_filter

build_resources-AllFinal_example :
    All IsFinal
      (run apply_mode
        (build_resources toy new start facts (build indefinite facts overrides) [] no_filter)
        start).0
build_resources-AllFinal_example =
    build_resources-AllFinal toy new start start facts (build indefinite facts overrides) []
      no_filter

abbrev with_eth0 : Store
with_eth0 =
    set (codes "sys" ∷ codes "class" ∷ codes "net" ∷ codes "eth0" ∷ codes "device" ∷ []) (some [])
      (λ p. none)

abbrev interfaces : List Text
interfaces = codes "cilium_host" ∷ codes "eth0" ∷ codes "lo" ∷ []

eth0_hardware : any (is_hardware toy new with_eth0) interfaces ≡ true
unfolding has_device stat set path_eq path new filepath_join elements clean clean_element split
    text_eq
eth0_hardware = refl

pick_interface_hardware_example :
    (is_hardware toy new with_eth0 (pick_interface toy new with_eth0 [] interfaces) ≡ true)
    × (contains interfaces (pick_interface toy new with_eth0 [] interfaces) ≡ true)
pick_interface_hardware_example =
    pick_interface_hardware toy new with_eth0 [] interfaces eth0_hardware

f_visible : is_space b'f' ≡ false
unfolding is_space
f_visible = refl

cpu_masks_equal-padded_example : cpu_masks_equal (codes "00000000,f") (codes "f") ≡ true
cpu_masks_equal-padded_example = cpu_masks_equal-padded b'f' [] f_visible

cpumask_all_test : cpumask_all (pos 36) ≡ codes "0000000f,ffffffff"
unfolding cpumask_all mask_words hex hex_char min join cpu_count
cpumask_all_test = refl

contains_27 : contains (codes "26" ∷ codes "27" ∷ []) (codes "27") ≡ true
unfolding contains text_eq
contains_27 = refl

desired_affinity-HasCpu_example :
    HasCpu
      (cpu_count (pos 2))
      (desired_affinity (pos 2) (codes "26" ∷ codes "27" ∷ []))
      (codes "27")
desired_affinity-HasCpu_example =
    desired_affinity-HasCpu (pos 2) (codes "26" ∷ codes "27" ∷ []) (codes "27") contains_27
