-- ===== src/Profile/Scaling.antt =====
-- internal/profile/scaling.go: sysctls that grow with the instance.
pub mod Bounds
use node_configurator.Prelude.{
  ℕ, Bool, List, [], ◌∷◌, ◌++◌, if◌then◌else◌, ℤ, pos, ltb_ℤ, mul64, int64, quot, max_ℤ,
}
use node_configurator.Text.{Text, codes}
use node_configurator.Text.Dict.{Dict, copy}
use node_configurator.Text.Number.{show_int}
use node_configurator.Float.{Float64, of_int, scale, halve, to_int64}
use node_configurator.Facts.{Facts, max_neighbor_entries}
use node_configurator.Profile.{Profile}

-- `clampInt`
unfoldable pub clamp_int : ℤ → ℤ → ℤ → ℤ
clamp_int v lo hi = if ltb_ℤ v lo then lo else if ltb_ℤ hi v then hi else v

-- The local variables of `applyScaling`.
abbrev pub mem_mib_of : Facts → ℤ
mem_mib_of f = if ltb_ℤ (pos 0) f.mem_mib then f.mem_mib else pos 1024

abbrev pub vcpus_of : Facts → ℤ
vcpus_of f = if ltb_ℤ (pos 0) f.vcpus then f.vcpus else pos 1

module _ (out_of_range : Float64 → ℤ) where
  unfoldable pub file_max : Facts → ℤ
  file_max f =
      clamp_int (to_int64 out_of_range (scale (halve (of_int (mem_mib_of f)) 10) 131072))
        (pos 1048576) (pos 12582912)

  unfoldable pub somaxconn : Facts → ℤ
  somaxconn f = clamp_int (mul64 (vcpus_of f) (pos 2048)) (pos 4096) (pos 65535)

  -- Also the value of kernel.pid_max.
  unfoldable pub threads_max : Facts → ℤ
  threads_max f = clamp_int (mul64 (vcpus_of f) (pos 4096)) (pos 131072) (pos 4194304)

  unfoldable pub backlog : Facts → ℤ
  backlog f =
      clamp_int (to_int64 out_of_range (scale f.network_bandwidth_gbps 2000)) (pos 4096)
        (pos 250000)

  -- Also the value of `wmemMax`.
  unfoldable pub rmem_max : Facts → ℤ
  rmem_max f =
      clamp_int
        (mul64 (mul64 (to_int64 out_of_range f.network_bandwidth_gbps) (pos 2)) (pos 1048576))
        (pos 4194304) (pos 134217728)

  unfoldable pub bpf_jit_limit : Facts → ℤ
  bpf_jit_limit f = clamp_int (mul64 (vcpus_of f) (pos 8388608)) (pos 268435456) (pos 1073741824)

  unfoldable pub thresh3 : Facts → ℤ
  thresh3 f = clamp_int (mul64 (max_neighbor_entries f) (pos 16)) (pos 1024) (pos 131072)

  unfoldable pub thresh2 : Facts → ℤ
  unfolding thresh3
  thresh2 f = max_ℤ (quot (thresh3 f) 2) (pos 512)

  unfoldable pub thresh1 : Facts → ℤ
  unfolding thresh3
  thresh1 f = max_ℤ (quot (thresh3 f) 8) (pos 128)

  -- The assignments of `applyScaling`, in order.
  unfoldable pub scaled_sysctls : Facts → Dict Text
  scaled_sysctls f =
      (codes "fs.file-max", show_int (file_max f))
      ∷ (codes "net.core.somaxconn", show_int (somaxconn f))
      ∷ (codes "kernel.threads-max", show_int (threads_max f))
      ∷ (codes "kernel.pid_max", show_int (threads_max f))
      ∷ (codes "net.core.netdev_max_backlog", show_int (backlog f))
      ∷ (codes "net.core.rmem_max", show_int (rmem_max f))
      ∷ (codes "net.core.wmem_max", show_int (rmem_max f))
      ∷ (codes "net.ipv4.tcp_rmem", codes "4096 131072 " ++ show_int (rmem_max f))
      ∷ (codes "net.ipv4.tcp_wmem", codes "4096 65536 " ++ show_int (rmem_max f))
      ∷ (codes "net.core.bpf_jit_limit", show_int (bpf_jit_limit f))
      ∷ (codes "net.ipv4.neigh.default.gc_thresh1", show_int (thresh1 f))
      ∷ (codes "net.ipv4.neigh.default.gc_thresh2", show_int (thresh2 f))
      ∷ (codes "net.ipv4.neigh.default.gc_thresh3", show_int (thresh3 f))
      ∷ []

  -- `applyScaling`
  unfoldable pub apply_scaling : Facts → Profile → Profile
  apply_scaling f p = record p { sysctls = copy p.sysctls (scaled_sysctls f) }
