-- ===== src/Profile/Merge/Scaled.antt =====
-- The computed sysctls of the profile that `Build` returns lie within fixed bounds.
use node_configurator.Prelude.{
  ℕ, ◌≤◌, ◌<◌, List, [], ◌∷◌, ◌++◌, none, some, ◌≡◌, refl, ◌∙◌, arith, ℤ, pos, All, All-apply,
  false,
}
use node_configurator.Text.{Text, codes, text_eq}
use node_configurator.Text.Dict.{Dict, lookup, NodupKeys}
use node_configurator.Text.Number.{itoa, show_int}
use node_configurator.Float.{Float64}
use node_configurator.Facts.{Facts}
use node_configurator.Profile.Scaling.{
  file_max, somaxconn, threads_max, backlog, rmem_max, bpf_jit_limit, thresh1, thresh2, thresh3,
  scaled_sysctls,
}
use node_configurator.Profile.Scaling.Bounds.{
  Between, clamp_int-Between, thresh-Thresholds, thresh1-Between, thresh2-Between, thresh3-Between,
}
use node_configurator.Profile.Merge.{Overrides, build}
use node_configurator.Profile.Merge.Laws.{lookup-build_scaled, nr_hugepages}

-- A sysctl whose value is a fixed text and the numeral of a number between two bounds.
pub record Bound : Type 0 where
  pub key : Text
  pub before : Text
  pub lo : ℕ
  pub hi : ℕ

abbrev bound : Text → Text → ℕ → ℕ → Bound
bound key before lo hi = record { key = key; before = before; lo = lo; hi = hi }

abbrev pub bounds : List Bound
bounds =
    bound (codes "fs.file-max") [] 1048576 12582912
    ∷ bound (codes "net.core.somaxconn") [] 4096 65535
    ∷ bound (codes "kernel.threads-max") [] 131072 4194304
    ∷ bound (codes "kernel.pid_max") [] 131072 4194304
    ∷ bound (codes "net.core.netdev_max_backlog") [] 4096 250000
    ∷ bound (codes "net.core.rmem_max") [] 4194304 134217728
    ∷ bound (codes "net.core.wmem_max") [] 4194304 134217728
    ∷ bound (codes "net.ipv4.tcp_rmem") (codes "4096 131072 ") 4194304 134217728
    ∷ bound (codes "net.ipv4.tcp_wmem") (codes "4096 65536 ") 4194304 134217728
    ∷ bound (codes "net.core.bpf_jit_limit") [] 268435456 1073741824
    ∷ bound (codes "net.ipv4.neigh.default.gc_thresh1") [] 128 16384
    ∷ bound (codes "net.ipv4.neigh.default.gc_thresh2") [] 512 65536
    ∷ bound (codes "net.ipv4.neigh.default.gc_thresh3") [] 1024 131072
    ∷ []

pub record IsBounded (m : Dict Text) (b : Bound) : Type 0 where
  pub number : ℕ
  pub is : lookup b.key m ≡ some (b.before ++ itoa number)
  pub at_least : b.lo ≤ number
  pub at_most : number ≤ b.hi

show-Between :
    (m : Dict Text) (k before : Text) (lo hi : ℕ) (v : ℤ)
    → Between lo hi v
    → lookup k m ≡ some (before ++ show_int v)
    → IsBounded m (bound k before lo hi)
unfolding show_int
show-Between m k before lo hi v b e = record {
  number = b.number;
  is = e ∙ rw b.is refl;
  at_least = b.at_least;
  at_most = b.at_most;
}

-- The three thresholds of the neighbour table in a profile.
pub record HasThresholds (m : Dict Text) : Type 0 where
  pub low : ℕ
  pub middle : ℕ
  pub high : ℕ
  pub low_is : lookup (codes "net.ipv4.neigh.default.gc_thresh1") m ≡ some (itoa low)
  pub middle_is : lookup (codes "net.ipv4.neigh.default.gc_thresh2") m ≡ some (itoa middle)
  pub high_is : lookup (codes "net.ipv4.neigh.default.gc_thresh3") m ≡ some (itoa high)
  pub low_lt : low < middle
  pub middle_lt : middle < high

abbrev pub thresholds : List Bound
thresholds =
    bound (codes "net.ipv4.neigh.default.gc_thresh1") [] 128 16384
    ∷ bound (codes "net.ipv4.neigh.default.gc_thresh2") [] 512 65536
    ∷ bound (codes "net.ipv4.neigh.default.gc_thresh3") [] 1024 131072
    ∷ []

module _ (out_of_range : Float64 → ℤ) (f : Facts) (ov : Overrides)
    (distinct : NodupKeys ov.sysctl_overrides) where
  -- The operator leaves the sysctls of the table alone.
  abbrev pub IsFree : List Bound → Type 0
  IsFree bs = All (λ (b : Bound). lookup b.key ov.sysctl_overrides ≡ none) bs

  scaled :
      (k before : Text) (lo hi : ℕ) (v : ℤ)
      → text_eq nr_hugepages k ≡ false
      → text_eq (codes "net.bridge.bridge-nf-call-ip6tables") k ≡ false
      → text_eq (codes "net.bridge.bridge-nf-call-iptables") k ≡ false
      → lookup k (scaled_sysctls out_of_range f) ≡ some (before ++ show_int v)
      → Between lo hi v
      → lookup k ov.sysctl_overrides ≡ none
      → IsBounded (build out_of_range f ov).sysctls (bound k before lo hi)
  scaled k before lo hi v h h6 h4 e b n =
      show-Between _ k before lo hi v b
        (lookup-build_scaled out_of_range f ov distinct k (before ++ show_int v) h h6 h4 n e)

  IsBounded-rows :
      All
        (λ (b : Bound).
          lookup b.key ov.sysctl_overrides ≡ none → IsBounded (build out_of_range f ov).sysctls b)
        bounds
  unfolding scaled_sysctls lookup text_eq file_max somaxconn threads_max backlog rmem_max
      bpf_jit_limit
  IsBounded-rows = (
    scaled _ _ _ _ (file_max out_of_range f) refl refl refl refl
        (clamp_int-Between _ _ _ (omega arith)),
    (
      scaled _ _ _ _ (somaxconn out_of_range f) refl refl refl refl
          (clamp_int-Between _ _ _ (omega arith)),
      (
        scaled _ _ _ _ (threads_max out_of_range f) refl refl refl refl
            (clamp_int-Between _ _ _ (omega arith)),
        (
          scaled _ _ _ _ (threads_max out_of_range f) refl refl refl refl
              (clamp_int-Between _ _ _ (omega arith)),
          (
            scaled _ _ _ _ (backlog out_of_range f) refl refl refl refl
                (clamp_int-Between _ _ _ (omega arith)),
            (
              scaled _ _ _ _ (rmem_max out_of_range f) refl refl refl refl
                  (clamp_int-Between _ _ _ (omega arith)),
              (
                scaled _ _ _ _ (rmem_max out_of_range f) refl refl refl refl
                    (clamp_int-Between _ _ _ (omega arith)),
                (
                  scaled _ _ _ _ (rmem_max out_of_range f) refl refl refl refl
                      (clamp_int-Between _ _ _ (omega arith)),
                  (
                    scaled _ _ _ _ (rmem_max out_of_range f) refl refl refl refl
                        (clamp_int-Between _ _ _ (omega arith)),
                    (
                      scaled _ _ _ _ (bpf_jit_limit out_of_range f) refl refl refl refl
                          (clamp_int-Between _ _ _ (omega arith)),
                      (
                        scaled _ _ _ _ (thresh1 out_of_range f) refl refl refl refl
                            (thresh1-Between out_of_range f),
                        (
                          scaled _ _ _ _ (thresh2 out_of_range f) refl refl refl refl
                              (thresh2-Between out_of_range f),
                          (
                            scaled _ _ _ _ (thresh3 out_of_range f) refl refl refl refl
                                (thresh3-Between out_of_range f),
                            tt,
                          ),
                        ),
                      ),
                    ),
                  ),
                ),
              ),
            ),
          ),
        ),
      ),
    ),
  )

  -- Whatever the facts of the instance are, also where the arithmetic of the program overflows, each
  -- sysctl that is scaled to the instance has a value within its bounds, if the operator sets none
  -- of them.
  pub build-IsBounded : IsFree bounds → All (IsBounded (build out_of_range f ov).sysctls) bounds
  build-IsBounded h =
      All-apply (λ (b : Bound). lookup b.key ov.sysctl_overrides ≡ none)
        (IsBounded (build out_of_range f ov).sysctls) bounds IsBounded-rows h

  threshold :
      (k : Text) (n : ℕ) (v : ℤ)
      → text_eq nr_hugepages k ≡ false
      → text_eq (codes "net.bridge.bridge-nf-call-ip6tables") k ≡ false
      → text_eq (codes "net.bridge.bridge-nf-call-iptables") k ≡ false
      → lookup k (scaled_sysctls out_of_range f) ≡ some (show_int v)
      → v ≡ pos n
      → lookup k ov.sysctl_overrides ≡ none
      → lookup k (build out_of_range f ov).sysctls ≡ some (itoa n)
  unfolding show_int
  threshold k n v h h6 h4 e b u =
      lookup-build_scaled out_of_range f ov distinct k (show_int v) h h6 h4 u e ∙ rw b refl

  -- Whatever the facts of the instance are, the thresholds of the neighbour table stand in strictly
  -- increasing order, as the kernel wants them, if the operator sets none of them.
  pub build-HasThresholds : IsFree thresholds → HasThresholds (build out_of_range f ov).sysctls
  unfolding scaled_sysctls lookup text_eq
  build-HasThresholds h =
      let t = thresh-Thresholds out_of_range f in
      record {
        low = t.low;
        middle = t.middle;
        high = t.high;
        low_is = threshold _ _ _ refl refl refl refl t.low_is h.0;
        middle_is = threshold _ _ _ refl refl refl refl t.middle_is h.1.0;
        high_is = threshold _ _ _ refl refl refl refl t.high_is h.1.1.0;
        low_lt = t.low_lt;
        middle_lt = t.middle_lt;
      }
