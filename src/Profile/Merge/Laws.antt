-- ===== src/Profile/Merge/Laws.antt =====
-- Which value a sysctl has in the profile that `Build` returns.
use node_configurator.Prelude.{
  Bool, true, false, ◌&&◌, [], if◌then◌else◌, none, some, ◌≡◌, refl, ◌∙◌, arith, ℤ, pos, ltb_ℤ,
  Bool-cases, inl, inr,
}
use mathlib.Core.Option.{or_else}
use node_configurator.Text.{Text, codes, text_eq}
use node_configurator.Text.Dict.{Dict, lookup, NodupKeys, copy, lookup-put, lookup-copy}
use node_configurator.Text.Number.{show_int}
use node_configurator.Float.{Float64}
use node_configurator.Facts.{Facts}
use node_configurator.Profile.{Profile}
use node_configurator.Profile.Base.{new_base_profile}
use node_configurator.Profile.Scaling.{scaled_sysctls, apply_scaling}
use node_configurator.Profile.Scaling.Bounds.{scaled_sysctls-NodupKeys}
use node_configurator.Profile.Cilium.{CiliumOptions, add_netfilter, apply_cilium_prereqs}
use node_configurator.Profile.Merge.{Overrides, override_sysctls, apply_overrides, build}

abbrev pub nr_hugepages : Text
nr_hugepages = codes "vm.nr_hugepages"

-- The overrides reserve huge pages.
abbrev pub reserves : Overrides → Bool
reserves ov = ltb_ℤ (pos 0) ov.huge_pages_2m

and_false : (b : Bool) → (b && false) ≡ false
and_false true = refl
and_false false = refl

-- The same options for Cilium, and no sysctls of the operator.
abbrev pub without_sysctls : Overrides → Overrides
without_sysctls ov = record ov { sysctl_overrides = []; huge_pages_2m = pos 0 }

pub lookup-override_sysctls :
    (k : Text) (ov : Overrides) (m : Dict Text)
    → NodupKeys ov.sysctl_overrides
    → lookup k (override_sysctls ov m) ≡ (
        if reserves ov && text_eq nr_hugepages k
        then some (show_int ov.huge_pages_2m)
        else or_else (lookup k ov.sysctl_overrides) (lookup k m))
unfolding override_sysctls
lookup-override_sysctls k ov m h = ground (
  arith,
  lookup-copy k m ov.sysctl_overrides h,
  lookup-put nr_hugepages k (show_int ov.huge_pages_2m) (copy m ov.sysctl_overrides),
)

lookup-apply_cilium_prereqs :
    (k : Text) (opts : CiliumOptions) (p : Profile)
    → text_eq (codes "net.bridge.bridge-nf-call-ip6tables") k ≡ false
    → text_eq (codes "net.bridge.bridge-nf-call-iptables") k ≡ false
    → lookup k (apply_cilium_prereqs opts p).sysctls ≡ lookup k p.sysctls
unfolding apply_cilium_prereqs add_netfilter
lookup-apply_cilium_prereqs k opts p h6 h4 = elim (Bool-cases opts.legacy_iptables) [
  | inl e ↦ rw (e, lookup-put, h6, lookup-put, h4)
  | inr e ↦ rw e
]

module _ (out_of_range : Float64 → ℤ) (f : Facts) (ov : Overrides)
    (distinct : NodupKeys ov.sysctl_overrides) where
  -- A sysctl of the profile is the operator's if the operator names it, and otherwise what is
  -- computed for the same facts and the same options for Cilium. The reservation of huge pages goes
  -- before both: where pages are reserved, their number stands in vm.nr_hugepages also if the
  -- operator's map of sysctls gives that key another value. The operator names no key twice.
  pub lookup-build :
      (k : Text)
      → lookup k (build out_of_range f ov).sysctls ≡ (
          if reserves ov && text_eq nr_hugepages k
          then some (show_int ov.huge_pages_2m)
          else or_else
              (lookup k ov.sysctl_overrides)
              (lookup k (build out_of_range f (without_sysctls ov)).sysctls))
  unfolding build apply_overrides override_sysctls copy
  lookup-build k = lookup-override_sysctls k ov _ distinct

  lookup-computed :
      (k v : Text)
      → text_eq (codes "net.bridge.bridge-nf-call-ip6tables") k ≡ false
      → text_eq (codes "net.bridge.bridge-nf-call-iptables") k ≡ false
      → lookup k (scaled_sysctls out_of_range f) ≡ some v
      → lookup k
          (apply_cilium_prereqs ov.cilium
            (apply_scaling out_of_range f (new_base_profile f))).sysctls
        ≡ some v
  unfolding apply_scaling or_else
  lookup-computed k v h6 h4 e =
      lookup-apply_cilium_prereqs k ov.cilium (apply_scaling out_of_range f (new_base_profile f)) h6
        h4
      ∙ lookup-copy k (new_base_profile f).sysctls (scaled_sysctls out_of_range f)
          (scaled_sysctls-NodupKeys out_of_range f)
      ∙ rw e refl

  -- A computed value that nothing overrides.
  pub lookup-build_scaled :
      (k v : Text)
      → text_eq nr_hugepages k ≡ false
      → text_eq (codes "net.bridge.bridge-nf-call-ip6tables") k ≡ false
      → text_eq (codes "net.bridge.bridge-nf-call-iptables") k ≡ false
      → lookup k ov.sysctl_overrides ≡ none
      → lookup k (scaled_sysctls out_of_range f) ≡ some v
      → lookup k (build out_of_range f ov).sysctls ≡ some v
  unfolding build apply_overrides or_else
  lookup-build_scaled k v h h6 h4 n e =
      lookup-override_sysctls k ov _ distinct
      ∙ rw (h, n, and_false (reserves ov)) (lookup-computed k v h6 h4 e)
