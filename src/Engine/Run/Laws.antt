-- ===== src/Engine/Run/Laws.antt =====
-- What every run does, whichever resources it has.
use node_configurator.Prelude.{
  true, false, List, [], ◌∷◌, ◌++◌, map, none, some, ◌≡◌, refl, arith, All, Option-cases,
  Bool-cases, inl, inr,
}
use node_configurator.System.{Error, Outcome, done, fail}
use node_configurator.Resource.{failed, is_would_change, Result, Resource}
use node_configurator.Engine.Run.{Mode, apply_mode, check_mode, applied, run_one, run}

-- The result does not say that a change is pending.
abbrev pub IsFinal : Result → Type 0
IsFinal x = is_would_change x.status ≡ false

module _ {S : Type 0} where
  -- `Check` reports under the resource's own name.
  abbrev pub IsNamed : Resource S → Type 0
  IsNamed r = (s : S) → (r.check s).result.name ≡ r.name

  -- `Check` changes nothing.
  abbrev pub IsReadOnly : Resource S → Type 0
  IsReadOnly r = (s : S) → (r.check s).state ≡ s

  applied_name : (res : Result) (o : Outcome S (Unit {0})) → (applied res o).0.name ≡ res.name
  unfolding applied
  applied_name res (done u t) = refl
  applied_name res (fail e t) = refl

  run_one_name :
      (mode : Mode) (r : Resource S) (s : S) → IsNamed r → (run_one mode r s).0.name ≡ r.name
  unfolding run_one
  run_one_name mode r s h =
      ground (arith, h s, applied_name (r.check s).result (r.apply (r.check s).state))

  -- A run reports one result for each resource, in their order and under their names, whatever
  -- fails on the way.
  pub run-names :
      (mode : Mode) (rs : List (Resource S)) (s : S)
      → All IsNamed rs
      → map (λ (x : Result). x.name) (run mode rs s).0 ≡ map (λ (r : Resource S). r.name) rs
  unfolding run
  run-names mode [] s h = refl
  run-names mode (r ∷ rs) s h =
      cc (run_one_name mode r s h.0, run-names mode rs (run_one mode r s).1 h.1)

  run_one-check :
      (r : Resource S) (s : S) → run_one check_mode r s ≡ ((r.check s).result, (r.check s).state)
  unfolding run_one
  run_one-check r s = ground arith

  -- A run in check mode leaves the system as it is, and reports what each `Check` finds in it.
  pub run-check_mode :
      (rs : List (Resource S)) (s : S)
      → All IsReadOnly rs
      → run check_mode rs s ≡ (map (λ (r : Resource S). (r.check s).result) rs, s)
  unfolding run
  run-check_mode [] s h = refl
  run-check_mode (r ∷ rs) s h = rw (run_one-check r s, h.0 s, run-check_mode rs s h.1)

  -- The rest of a run starts where the first part ends, whatever failed there.
  pub run-append :
      (mode : Mode) (rs qs : List (Resource S)) (s : S)
      → let (first, t) = run mode rs s in
        let (second, u) = run mode qs t in run mode (rs ++ qs) s ≡ (first ++ second, u)
  unfolding run
  run-append mode [] qs s = refl
  run-append mode (r ∷ rs) qs s = rw (run-append mode rs qs (run_one mode r s).1)

  -- A `Check` with an error reports a failure. This is what every `Check` of the program does.
  abbrev pub FailsWithError : Resource S → Type 0
  FailsWithError r =
      (s : S) (e : Error) → (r.check s).error ≡ some e → (r.check s).result.status ≡ failed

  -- The three ways through a round.
  pub run_one_error :
      (mode : Mode) (r : Resource S) (s : S) {e : Error}
      → (r.check s).error ≡ some e
      → run_one mode r s ≡ ((r.check s).result, (r.check s).state)
  unfolding run_one
  run_one_error mode r s e = ground arith

  pub run_one_drift :
      (r : Resource S) (s : S)
      → (r.check s).error ≡ none
      → is_would_change (r.check s).result.status ≡ true
      → run_one apply_mode r s ≡ applied (r.check s).result (r.apply (r.check s).state)
  unfolding run_one
  run_one_drift r s e h = ground arith

  pub run_one_left :
      (r : Resource S) (s : S)
      → (r.check s).error ≡ none
      → is_would_change (r.check s).result.status ≡ false
      → run_one apply_mode r s ≡ ((r.check s).result, (r.check s).state)
  unfolding run_one
  run_one_left r s e h = ground arith

  applied-IsFinal : (res : Result) (o : Outcome S (Unit {0})) → IsFinal (applied res o).0
  unfolding applied is_would_change
  applied-IsFinal res (done u t) = refl
  applied-IsFinal res (fail e t) = refl

  run_one-apply : (r : Resource S) (s : S) → FailsWithError r → IsFinal (run_one apply_mode r s).0
  run_one-apply r s h = elim (Option-cases (r.check s).error) [
    | inl e ↦ elim (Bool-cases (is_would_change (r.check s).result.status)) [
      | inl k ↦
          rw (run_one_drift r s e k)
            (applied-IsFinal (r.check s).result (r.apply (r.check s).state))
      | inr k ↦ rw (run_one_left r s e k) k
    ]
    | inr (x, e) ↦
        rw (run_one_error apply_mode r s e) (rw (h s x e) (unfold is_would_change in refl))
  ]

  -- After a run in apply mode no result says that a change is pending.
  pub run-apply_mode :
      (rs : List (Resource S)) (s : S) → All FailsWithError rs → All IsFinal (run apply_mode rs s).0
  unfolding run
  run-apply_mode [] s h = tt
  run-apply_mode (r ∷ rs) s h = (run_one-apply r s h.0, run-apply_mode rs _ h.1)
