-- ===== src/Tests/Toy.antt =====
-- A small system with two sysctls and the resource that tunes them.
use node_configurator.Prelude.{false, [], ◌∷◌, none, some, ◌≡◌, ◌≢◌, refl}
use node_configurator.Text.{Text, codes, split, is_nil}
use node_configurator.Text.Sort.{sort, insert_sorted, text_le}
use node_configurator.Text.Dict.{keys}
use node_configurator.System.{FilePath, Error, failure, fail, Os}
use node_configurator.Sysutil.Paths.{new, path, filepath_join, elements, clean, clean_element}
use node_configurator.Sysutil.Files.{HasFiles}
use node_configurator.Sysutil.Procsys.{sysctl_path, strip_parents, strip_slashes}
use node_configurator.Resource.{Resource}
use node_configurator.Resource.Sysctl.{SysctlResource, sorted_keys, sysctl_resource}
use node_configurator.Resource.Sysctl.Laws.{HasSysctls}
use node_configurator.Resource.Sysctl.Keys.{AllApart}
use node_configurator.Resource.Sysctl.Settles.{IsApart, sysctl-Converges, sysctl-IsNamed}
use node_configurator.Engine.Run.Laws.{IsNamed}
use node_configurator.Engine.Run.Converge.{Converges}
use node_configurator.Tests.Memory.{Store, set, memory-HasFiles, path_eq, path_eq-false}
use node_configurator.Tests.Kernel.{is_kernel, system, system-HasSysctls}

abbrev pub broken : Error
broken = record { message = codes "not here"; not_exist = false }

-- No directories to list, no patterns that match, and no commands.
abbrev pub toy : Os
toy = system (λ s p. failure broken) (λ s p. failure broken) (λ c args s. fail broken s)

pub toy-HasFiles : HasFiles toy
toy-HasFiles =
    memory-HasFiles is_kernel (λ s p. failure broken) (λ s p. failure broken)
      (λ c args s. fail broken s)

pub toy-HasSysctls : HasSysctls toy new
toy-HasSysctls =
    system-HasSysctls (λ s p. failure broken) (λ s p. failure broken) (λ c args s. fail broken s)

abbrev pub sysctls : SysctlResource
sysctls = record {
  env = new;
  settings =
      (codes "vm.swappiness", codes "10")
      ∷ (codes "net.ipv4.tcp_rmem", codes "4096 87380 16777216")
      ∷ (codes "vm.absent", codes "1")
      ∷ [];
  persist_file = some (codes "etc" ∷ codes "sysctl.d" ∷ codes "99-tuning.conf" ∷ []);
}

abbrev pub start : Store
start =
    set (codes "proc" ∷ codes "sys" ∷ codes "vm" ∷ codes "swappiness" ∷ []) (some (codes "60\n")) (
      set (codes "proc" ∷ codes "sys" ∷ codes "net" ∷ codes "ipv4" ∷ codes "tcp_rmem" ∷ [])
        (some (codes "4096\t87380\t16777216\n")) (λ p. none))

abbrev pub tuned : Resource Store
tuned = sysctl_resource toy sysctls

differ :
    (key : Text) (p : FilePath) → path_eq (sysctl_path new key) p ≡ false → sysctl_path new key ≢ p
differ key p h = path_eq-false _ p h

pub sysctls-IsApart : IsApart toy sysctls toy-HasFiles toy-HasSysctls
unfolding sorted_keys sort insert_sorted text_le keys sysctl_path path filepath_join elements clean
    clean_element strip_parents strip_slashes split is_nil new path_eq
sysctls-IsApart = (path_eq-false _ _ refl, (path_eq-false _ _ refl, (path_eq-false _ _ refl, tt)))

pub sysctls-AllApart :
    AllApart toy sysctls toy-HasFiles toy-HasSysctls (sorted_keys sysctls.settings)
unfolding sorted_keys sort insert_sorted text_le keys sysctl_path path filepath_join elements clean
    clean_element strip_parents strip_slashes split is_nil new path_eq
sysctls-AllApart = (
  (path_eq-false _ _ refl, (path_eq-false _ _ refl, tt)),
  ((path_eq-false _ _ refl, tt), (tt, tt)),
)

pub tuned-Converges : Converges tuned
tuned-Converges =
    sysctl-Converges toy sysctls toy-HasFiles toy-HasSysctls sysctls-IsApart sysctls-AllApart

pub tuned-IsNamed : IsNamed tuned
tuned-IsNamed = sysctl-IsNamed toy sysctls toy-HasFiles toy-HasSysctls
