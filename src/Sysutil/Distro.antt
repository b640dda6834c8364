-- ===== src/Sysutil/Distro.antt =====
-- internal/sysutil/distro.go
use node_configurator.Prelude.{
  Bool, true, false, ◌&&◌, List, [], ◌∷◌, ◌++◌, if◌then◌else◌, Option, none, some, ℤ, pos,
}
use node_configurator.Text.{Text, codes, text_eq, has_prefix, fields, cut, trim}
use node_configurator.Text.Number.{parse_int}
use node_configurator.Text.Scan.{scan_lines}
use node_configurator.System.{Error, Fallible, value, failure, Os}
use node_configurator.Sysutil.Paths.{Env, path}
use node_configurator.Sysutil.Procsys.{read_sysctl}

pub record Distro : Type 0 where
  pub id : Text
  pub version_id : Text

-- `IsAmazonLinux2`
unfoldable pub is_amazon_linux2 : Distro → Bool
is_amazon_linux2 d = text_eq d.id (codes "amzn") && has_prefix d.version_id (codes "2")

-- `IsAmazonLinux2023`
unfoldable pub is_amazon_linux2023 : Distro → Bool
is_amazon_linux2023 d = text_eq d.id (codes "amzn") && has_prefix d.version_id (codes "2023")

-- `IsUbuntu`
unfoldable pub is_ubuntu : Distro → Bool
is_ubuntu d = text_eq d.id (codes "ubuntu")

-- One line of /etc/os-release.
unfoldable pub os_release_line : Text → Distro → Distro
os_release_line line d = elim (cut b'=' line) [
  | none ↦ d
  | some (key, v) ↦
      if text_eq key (codes "ID")
      then record d { id = trim (b'"' ∷ []) v }
      else if text_eq key (codes "VERSION_ID")
      then record d { version_id = trim (b'"' ∷ []) v }
      else d
]

-- The loop of `DetectDistro`.
unfoldable pub os_release_lines : List Text → Distro → Distro
unfolding os_release_line
os_release_lines [] d = d
os_release_lines (line ∷ lines) d = os_release_lines lines (os_release_line line d)

-- `scanner.Err()`
abbrev pub scan_error : Bool → Option Error
scan_error too_long =
    if too_long
    then some (record { message = codes "bufio.Scanner: token too long"; not_exist = false })
    else none

abbrev no_distro : Distro
no_distro = record { id = []; version_id = [] }

-- The loop of `ParseMemInfoTotalKiB`: the text that is parsed as the total.
unfoldable pub mem_total_field : List Text → Option Text
mem_total_field [] = none
mem_total_field (line ∷ lines) =
    let rest = mem_total_field lines in
    elim (fields line) [
      | [] ↦ rest
      | key ∷ more ↦ elim more [
        | [] ↦ rest
        | v ∷ _ ↦ if text_eq key (codes "MemTotal:") then some v else rest
      ]
    ]

module _ (os : Os) (env : Env) where
  open os use {State, read_file, stat}

  -- `DetectDistro`
  unfoldable pub detect_distro : State → Distro × Option Error
  detect_distro s = elim (read_file s (path env (codes "etc" ∷ codes "os-release" ∷ []))) [
    | failure e ↦ (no_distro, some e)
    | value content ↦
        let scanned = scan_lines content in
        (os_release_lines scanned.lines no_distro, scan_error scanned.too_long)
  ]

  -- `KernelVersion`
  unfoldable pub kernel_version : State → Fallible Text
  kernel_version s = read_sysctl os env s (codes "kernel.osrelease")

  -- `CgroupV2Unified`
  unfoldable pub cgroup_v2_unified : State → Bool
  cgroup_v2_unified s =
      elim (stat s
        (path env (codes "sys" ∷ codes "fs" ∷ codes "cgroup" ∷ codes "cgroup.controllers" ∷ []))) [
          | none ↦ true
          | some _ ↦ false
        ]

  abbrev not_a_number : Text → Error
  not_a_number v = record { message = codes "strconv.ParseInt: parsing " ++ v; not_exist = false }

  -- `ParseMemInfoTotalKiB`. The only caller drops the error.
  unfoldable pub parse_mem_info_total_kib : State → Fallible ℤ
  parse_mem_info_total_kib s = elim (read_file s (path env (codes "proc" ∷ codes "meminfo" ∷ []))) [
    | failure e ↦ failure e
    | value content ↦
        let scanned = scan_lines content in
        elim (mem_total_field scanned.lines) [
          | some v ↦ elim (parse_int v) [ some n ↦ value n | none ↦ failure (not_a_number v) ]
          | none ↦ elim (scan_error scanned.too_long) [ some e ↦ failure e | none ↦ value (pos 0) ]
        ]
  ]
