-- ===== src/Engine/Filter/Laws.antt =====
-- Which resources the filters leave, and in which order.
use node_configurator.Prelude.{
  true, false, List, [], ◌∷◌, ◌≡◌, refl, arith, Bool-cases, inl, inr, ◌⊎◌,
}
use node_configurator.Text.{Text, contains, is_nil}
use node_configurator.Resource.{Resource}
use node_configurator.Engine.Filter.{Options, is_kept, filter_resources}

-- What the flags and the configuration ask for.
pub record IsWanted (disabled : List Text) (opts : Options) (name : Text) : Type 0 where
  pub not_disabled : contains disabled name ≡ false
  pub not_skipped : contains opts.skip name ≡ false
  pub selected : (opts.only ≡ []) ⊎ (contains opts.only name ≡ true)

nil-or-not : (l : List Text) → is_nil l ≡ true → l ≡ []
nil-or-not [] h = refl
nil-or-not (x ∷ l) h = ground arith

IsWanted-of_kept :
    (disabled : List Text) (opts : Options) (name : Text)
    → is_kept disabled opts name ≡ true
    → IsWanted disabled opts name
unfolding is_kept
IsWanted-of_kept disabled opts name h = record {
  not_disabled = ground arith;
  not_skipped = ground arith;
  selected = elim (Bool-cases (is_nil opts.only)) [
    | inl e ↦ inl (nil-or-not opts.only e)
    | inr e ↦ inr (ground arith)
  ];
}

kept_of_IsWanted :
    (disabled : List Text) (opts : Options) (name : Text)
    → IsWanted disabled opts name
    → is_kept disabled opts name ≡ true
unfolding is_kept
kept_of_IsWanted disabled opts name w = ground arith

-- `qs` is what is left of `rs`: all members that meet `P` and no others, in the same order.
pub data Selects {R : Type 0} (P : R → Type 0) : List R → List R → Type 0 where
  end : Selects P [] []
  keep : {r : R} {rs qs : List R} → P r → Selects P rs qs → Selects P (r ∷ rs) (r ∷ qs)
  drop : {r : R} {rs qs : List R} → ¬ P r → Selects P rs qs → Selects P (r ∷ rs) qs

-- The filters leave exactly the resources whose name is neither disabled nor skipped, and is listed
-- by `-only` if that lists any name, in the order that they were built in.
pub filter_resources-Selects :
    {S : Type 0} (rs : List (Resource S)) (disabled : List Text) (opts : Options)
    → Selects
        (λ (r : Resource S). IsWanted disabled opts r.name)
        rs
        (filter_resources rs disabled opts)
unfolding filter_resources
filter_resources-Selects [] disabled opts = end
filter_resources-Selects (r ∷ rs) disabled opts = elim (Bool-cases (is_kept disabled opts r.name)) [
  | inl e ↦
      rw (e, filter_resources)
        (keep (IsWanted-of_kept disabled opts r.name e) (filter_resources-Selects rs disabled opts))
  | inr e ↦
      rw (e, filter_resources)
        (drop (λ w. cc (e, kept_of_IsWanted disabled opts r.name w))
          (filter_resources-Selects rs disabled opts))
]
