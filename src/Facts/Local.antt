-- ===== src/Facts/Local.antt =====
-- internal/facts/local.go: facts that the running kernel reports.
use node_configurator.Prelude.{
  ℕ, ◌+◌, Bool, true, false, ◌&&◌, ◌||◌, leb, ◌==◌, List, [], ◌∷◌, if◌then◌else◌, none, some, ℤ,
  pos, ltb_ℤ, quot,
}
use node_configurator.Text.{Text, codes, is_nil, text_eq, trim_space}
use node_configurator.Text.Number.{parse_int}
use node_configurator.Float.{Float64, of_int}
use node_configurator.Float.Decimal.{float_zero, divide}
use node_configurator.System.{Fallible, value, failure, Os}
use node_configurator.Sysutil.Paths.{Env, path}
use node_configurator.Sysutil.Netdev.{primary_interface}
use node_configurator.Sysutil.Distro.{parse_mem_info_total_kib}
use node_configurator.Facts.{Facts, empty_facts}
use node_configurator.Facts.Host.{Host}

-- `normalizeArch`
unfoldable pub normalize_arch : Text → Text
normalize_arch goarch = if text_eq goarch (codes "amd64") then codes "x86_64" else goarch

-- A letter in lower case; other code points stay. The long s, which folds to an s, is one of its
-- forms.
fold_case : ℕ → ℕ
fold_case c = if leb b'A' c && leb c b'Z' then c + 32 else if c == 0x17f then b's' else c

starts_folded : Text → Text → Bool
unfolding fold_case
starts_folded [] s = true
starts_folded (_ ∷ _) [] = false
starts_folded (d ∷ p) (c ∷ s) = fold_case c == d && starts_folded p s

contains_folded : Text → Text → Bool
unfolding starts_folded
contains_folded p [] = is_nil p
contains_folded p (c ∷ s) = starts_folded p (c ∷ s) || contains_folded p s

-- A match of `(?i)instance storage`.
unfoldable pub is_instance_store_model : Text → Bool
unfolding contains_folded
is_instance_store_model model = contains_folded (codes "instance storage") model

-- The link speed in Gbps, from the content of `speed`.
unfoldable pub link_speed : Fallible Text → Float64
link_speed (failure _) = float_zero
link_speed (value content) = elim (parse_int (trim_space content)) [
  | none ↦ float_zero
  | some mbps ↦ if ltb_ℤ (pos 0) mbps then divide (of_int mbps) 1000 else float_zero
]

module _ (os : Os) (env : Env) where
  open os use {State, read_file, read_dir}

  -- `primaryLinkSpeedGbps`
  unfoldable pub primary_link_speed_gbps : State → Float64
  primary_link_speed_gbps s =
      let iface = primary_interface os env s in
      if is_nil iface
      then float_zero
      else link_speed (
          read_file s
            (path env (codes "sys" ∷ codes "class" ∷ codes "net" ∷ iface ∷ codes "speed" ∷ [])))

  -- The loop of `detectNvmeInstanceStore`.
  unfoldable pub any_instance_store : State → List Text → Bool
  any_instance_store s [] = false
  any_instance_store s (c ∷ controllers) =
      let rest = any_instance_store s controllers in
      elim (read_file s
        (path env (codes "sys" ∷ codes "class" ∷ codes "nvme" ∷ c ∷ codes "model" ∷ []))) [
          | failure _ ↦ rest
          | value model ↦ if is_instance_store_model model then true else rest
        ]

  -- `detectNvmeInstanceStore`
  unfoldable pub detect_nvme_instance_store : State → Bool
  detect_nvme_instance_store s =
      elim (read_dir s (path env (codes "sys" ∷ codes "class" ∷ codes "nvme" ∷ []))) [
        | failure _ ↦ false
        | value controllers ↦ any_instance_store s controllers
      ]

  -- The total memory in MiB, or 0 where it cannot be read.
  unfoldable pub local_mem_mib : State → ℤ
  local_mem_mib s = elim (parse_mem_info_total_kib os env s) [
    | value kib ↦ quot kib 1024
    | failure _ ↦ pos 0
  ]

  -- `LocalFallback`
  unfoldable pub local_fallback : Host State → State → Facts
  local_fallback host s = record empty_facts {
    source = codes "local-fallback";
    vcpus = host.num_cpu;
    arch = normalize_arch host.goarch;
    mem_mib = local_mem_mib s;
    network_bandwidth_gbps = primary_link_speed_gbps s;
    nvme_instance_store = detect_nvme_instance_store s;
  }
