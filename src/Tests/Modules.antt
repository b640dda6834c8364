-- ===== src/Tests/Modules.antt =====
-- Tests of the kernel module resource, on a system that can load one module.
use node_configurator.Prelude.{
  Bool, true, false, ◌&&◌, ◌||◌, List, [], ◌∷◌, Option, none, some, ◌≡◌, refl, sym, ap, ◌∙◌, arith,
  if◌then◌else◌, Bool-cases, inl, inr,
}
use mathlib.Core.Path.{subst}
use node_configurator.Text.{Text, codes, text_eq, split, is_space, fields, contains}
use node_configurator.Text.Equality.{text_eq→eq}
use node_configurator.Text.Scan.{scan_lines, scan_pieces, is_too_long, drop_cr}
use node_configurator.System.{
  FilePath, Error, Fallible, value, failure, Outcome, done, fail, Os, state_of,
}
use node_configurator.Sysutil.Paths.{new, path, filepath_join, elements, clean, clean_element}
use node_configurator.Sysutil.Files.{HasFiles}
use node_configurator.Resource.KernelModule.{
  KernelModuleResource, kernel_module_resource, loaded_modules, first_fields,
}
use node_configurator.Resource.KernelModule.Laws.{Lists, HasModules}
use node_configurator.Resource.KernelModule.Settles.{IsApart, kernel_module-Converges}
use node_configurator.Engine.Run.Converge.{Converges}
use node_configurator.Tests.Memory.{Store, set, read, memory-HasFiles, path_eq, path_eq-false}
use node_configurator.Tests.Kernel.{is_kernel, system}

abbrev unknown : Error
unknown = record { message = codes "not here"; not_exist = false }

abbrev modules_file : FilePath
modules_file = codes "proc" ∷ codes "modules" ∷ []

abbrev before : Text
before = codes "ext4 1\n"

abbrev after : Text
after = codes "vxlan 1\next4 1\n"

-- Loads the one module where only the other one is loaded.
abbrev load : Text → Option Text → Store → Outcome Store Text
load m none s = fail unknown s
load m (some c) s =
    if text_eq m (codes "vxlan") && text_eq c before
    then done [] (set modules_file (some after) s)
    else fail unknown s

abbrev modprobe_command : Text → List Text → Store → Outcome Store Text
modprobe_command name (m ∷ []) s = load m (s modules_file) s
modprobe_command name _ s = fail unknown s

abbrev host : Os
host = system (λ s p. failure unknown) (λ s p. failure unknown) modprobe_command

host-HasFiles : HasFiles host
host-HasFiles =
    memory-HasFiles is_kernel (λ s p. failure unknown) (λ s p. failure unknown) modprobe_command

abbrev vxlan : KernelModuleResource
vxlan = record {
  env = new;
  modules = codes "vxlan" ∷ [];
  persist_file = some (codes "etc" ∷ codes "modules-load.d" ∷ codes "x.conf" ∷ []);
}

loaded_after :
    (s : Store)
    → loaded_modules host vxlan (set modules_file (some after) s)
      ≡ value (codes "vxlan" ∷ codes "ext4" ∷ [])
unfolding loaded_modules first_fields read set path_eq path new filepath_join elements clean
    clean_element split text_eq scan_lines scan_pieces is_too_long drop_cr fields is_space
loaded_after s = refl

read_before : (s : Store) (p : FilePath) (c : Text) → s p ≡ some c → read s p ≡ value c
unfolding read
read_before s p c h = rw (read, h)

loaded_before :
    (s : Store) (ls : List Text)
    → s modules_file ≡ some before
    → loaded_modules host vxlan s ≡ value ls
    → value ls ≡ value (codes "ext4" ∷ [])
unfolding loaded_modules first_fields read set path_eq path new filepath_join elements clean
    clean_element split text_eq scan_lines scan_pieces is_too_long drop_cr fields is_space
loaded_before s ls h e = sym e ∙ rw (loaded_modules, read_before s modules_file before h) refl

list_of : Fallible (List Text) → List Text
list_of (value l) = l
list_of (failure e) = []

grown :
    (must : Text → Bool) (s : Store)
    → s modules_file ≡ some before
    → Lists host vxlan must s
    → Lists host vxlan (λ n. must n || text_eq (codes "vxlan") n) (set modules_file (some after) s)
unfolding list_of contains
grown must s h l = record {
  loaded = codes "vxlan" ∷ codes "ext4" ∷ [];
  is = loaded_after s;
  has = λ n e. listed n (ap list_of (loaded_before s l.loaded h l.is)) e;
}
  where
    listed :
        (n : Text)
        → l.loaded ≡ codes "ext4" ∷ []
        → (must n || text_eq (codes "vxlan") n) ≡ true
        → contains (codes "vxlan" ∷ codes "ext4" ∷ []) n ≡ true
    listed n q e = ground (arith, l.has n, ap (λ x. contains x n) q)

loads :
    (m : Text) (must : Text → Bool) (s t : Store) (out : Text) (o : Option Text)
    → s modules_file ≡ o
    → Lists host vxlan must s
    → load m o s ≡ done out t
    → Lists host vxlan (λ n. must n || text_eq m n) t
loads m must s t out none q l e = absurd (cc e)
loads m must s t out (some c) q l e = elim (Bool-cases (text_eq m (codes "vxlan"))) [
  | inr k ↦ absurd (cc (rw k at e))
  | inl k ↦ elim (Bool-cases (text_eq c before)) [
    | inr b ↦ absurd (cc (rw (k, b) at e))
    | inl b ↦
        subst (λ (u : Store). Lists host vxlan (λ n. must n || text_eq m n) u)
          (ap state_of (rw (k, b) at e))
          (subst
            (λ (x : Text).
              Lists host vxlan (λ n. must n || text_eq x n) (set modules_file (some after) s))
            (sym (text_eq→eq m (codes "vxlan") k))
            (grown must s (q ∙ ap some (text_eq→eq c before b)) l))
  ]
]

host-HasModules : HasModules host vxlan
host-HasModules = record {
  modprobe_lists = λ m must s t out l e. loads m must s t out (s modules_file) refl l e;
}

vxlan-IsApart : IsApart host vxlan host-HasFiles host-HasModules
unfolding path new filepath_join elements clean clean_element split text_eq path_eq
vxlan-IsApart = path_eq-false _ _ refl

kernel_module-Converges_example : Converges (kernel_module_resource host vxlan)
kernel_module-Converges_example =
    kernel_module-Converges host vxlan host-HasFiles host-HasModules vxlan-IsApart
