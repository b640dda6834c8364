-- ===== src/Profile/Merge/Choices.antt =====
-- What else holds of every profile that `Build` returns.
use node_configurator.Prelude.{
  ◌<◌, false, not, [], ◌∷◌, Option, none, some, ◌≡◌, refl, ◌∙◌, arith, ℤ, pos, ltb_ℤ, Bool-cases,
  inl, inr,
}
use mathlib.Core.Option.{or_else}
use node_configurator.Text.{Text, codes, text_eq, contains, is_nil}
use node_configurator.Text.Dict.{lookup, NodupKeys, lookup-copy}
use node_configurator.Float.{Float64}
use node_configurator.Facts.{Facts}
use node_configurator.Profile.{Profile}
use node_configurator.Profile.Base.{new_base_profile}
use node_configurator.Profile.Scaling.{apply_scaling, scaled_sysctls}
use node_configurator.Profile.Scaling.Bounds.{scaled_sysctls-NodupKeys}
use node_configurator.Profile.Cilium.{
  tunnel_modules, apply_cilium_prereqs, add_netfilter, bpffs_mount,
}
use node_configurator.Profile.Merge.{Overrides, build, apply_overrides, override_scheduler}
use node_configurator.Profile.Merge.Laws.{nr_hugepages, lookup-override_sysctls}

-- No module and no sysctl of netfilter that the operator has not asked for.
pub record IsNetfilterFree (ov : Overrides) (p : Profile) : Type 0 where
  pub no_br_netfilter : contains p.modules (codes "br_netfilter") ≡ false
  pub no_nf_conntrack : contains p.modules (codes "nf_conntrack") ≡ false
  pub no_iptable_nat : contains p.modules (codes "iptable_nat") ≡ false
  pub no_iptable_filter : contains p.modules (codes "iptable_filter") ≡ false
  pub iptables_is :
      lookup (codes "net.bridge.bridge-nf-call-iptables") p.sysctls
      ≡ lookup (codes "net.bridge.bridge-nf-call-iptables") ov.sysctl_overrides
  pub ip6tables_is :
      lookup (codes "net.bridge.bridge-nf-call-ip6tables") p.sysctls
      ≡ lookup (codes "net.bridge.bridge-nf-call-ip6tables") ov.sysctl_overrides

-- What the engine relies on in a profile.
pub record IsConsistent (ov : Overrides) (p : Profile) : Type 0 where
  pub limits_on : 0 < p.limits.no_file
  pub scheduler_named : p.io_scheduler.enabled ≡ not (is_nil p.io_scheduler.scheduler)
  pub bpffs : p.mounts ≡ bpffs_mount ∷ []
  pub huge_pages_on : p.huge_pages.enabled ≡ ltb_ℤ (pos 0) p.huge_pages.count_2m

-- The tunnel modes load no module of netfilter.
not_tunnel :
    (mode name : Text)
    → text_eq (codes "vxlan") name ≡ false
    → text_eq (codes "geneve") name ≡ false
    → contains (tunnel_modules mode) name ≡ false
unfolding tunnel_modules contains
not_tunnel mode name h k = elim (Bool-cases (text_eq mode (codes "vxlan"))) [
  | inl e ↦ rw (e, h)
  | inr e ↦ elim (Bool-cases (text_eq mode (codes "geneve"))) [
    | inl d ↦ rw (e, d, k)
    | inr d ↦ rw (e, d)
  ]
]

or_else-none : {A : Type 0} (o : Option A) → or_else o none ≡ o
unfolding or_else
or_else-none none = refl
or_else-none (some x) = refl

module _ (out_of_range : Float64 → ℤ) (f : Facts) (ov : Overrides) where
  without_netfilter :
      ov.cilium.legacy_iptables ≡ false
      → (build out_of_range f ov).modules ≡ tunnel_modules ov.cilium.tunnel_mode
  unfolding build apply_overrides apply_cilium_prereqs apply_scaling new_base_profile
  without_netfilter h = rw h

  unset :
      (k : Text)
      → NodupKeys ov.sysctl_overrides
      → ov.cilium.legacy_iptables ≡ false
      → text_eq nr_hugepages k ≡ false
      → lookup k (scaled_sysctls out_of_range f) ≡ none
      → lookup k (new_base_profile f).sysctls ≡ none
      → lookup k (build out_of_range f ov).sysctls ≡ lookup k ov.sysctl_overrides
  unfolding build apply_overrides apply_cilium_prereqs apply_scaling or_else
  unset k distinct off h e b =
      lookup-override_sysctls k ov _ distinct
      ∙ rw
          (
            off,
            h,
            lookup-copy k (new_base_profile f).sysctls (scaled_sysctls out_of_range f)
                (scaled_sysctls-NodupKeys out_of_range f),
            e,
            b,
            or_else-none,
          )
          (ground arith)

  -- Without `legacyIPTables` the profile loads none of the modules of netfilter, whatever the tunnel
  -- mode, and sets the two sysctls of its bridge only to what the operator writes.
  pub build-IsNetfilterFree :
      NodupKeys ov.sysctl_overrides
      → ov.cilium.legacy_iptables ≡ false
      → IsNetfilterFree ov (build out_of_range f ov)
  unfolding scaled_sysctls lookup text_eq new_base_profile
  build-IsNetfilterFree distinct off = record {
    no_br_netfilter = rw (without_netfilter off) (not_tunnel _ _ refl refl);
    no_nf_conntrack = rw (without_netfilter off) (not_tunnel _ _ refl refl);
    no_iptable_nat = rw (without_netfilter off) (not_tunnel _ _ refl refl);
    no_iptable_filter = rw (without_netfilter off) (not_tunnel _ _ refl refl);
    iptables_is = unset _ distinct off refl refl refl;
    ip6tables_is = unset _ distinct off refl refl refl;
  }

  -- Whatever the facts and the overrides are, the limits are never off, the scheduler is enabled
  -- exactly if it has a name, the file system of BPF is the one mount, and huge pages are enabled
  -- exactly if their number is positive.
  pub build-IsConsistent : IsConsistent ov (build out_of_range f ov)
  unfolding build apply_overrides apply_cilium_prereqs add_netfilter apply_scaling new_base_profile
      override_scheduler
  build-IsConsistent = record {
    limits_on = ground arith;
    scheduler_named = ground arith;
    bpffs = ground arith;
    huge_pages_on = ground arith;
  }
