-- ===== src/Engine/Run/Converge.antt =====
-- When an apply run that reports no failure leaves nothing to do for the next one.
use node_configurator.Prelude.{
  true, false, List, [], ◌∷◌, map, none, ◌≡◌, refl, arith, All, Option-cases, Bool-cases, inl, inr,
  any, All-weaken,
}
use node_configurator.System.{Outcome, done, fail, state_of}
use node_configurator.Resource.{failed, is_changed, is_failed, is_would_change, Result, Resource}
use node_configurator.Engine.Run.{Mode, apply_mode, check_mode, applied, run_one, run}
use node_configurator.Engine.Run.Laws.{
  run_one_error, run_one_drift, run_one_left, IsReadOnly, FailsWithError, run-check_mode,
}
use node_configurator.Engine.Report.{exit_code}
use node_configurator.Engine.Report.Laws.{exit_code_lem}

not_failed : ¬ (is_failed failed ≡ false)
unfolding is_failed
not_failed h = cc h

abbrev NoneFailed : List Result → Type 0
NoneFailed xs = any (λ (x : Result). is_failed x.status) xs ≡ false

not_pending : (x : Result) → is_changed x.status ≡ false → is_would_change x.status ≡ false
unfolding is_changed is_would_change
not_pending x h = ground arith

exit_code_zero : (xs : List Result) → exit_code xs apply_mode ≡ 0 → NoneFailed xs
exit_code_zero xs h = elim (Bool-cases (any (λ (x : Result). is_failed x.status) xs)) [
  | inl e ↦ absurd (omega (arith, rw (exit_code_lem xs apply_mode, e) at h))
  | inr e ↦ e
]

exit_code_quiet :
    (xs : List Result) (mode : Mode)
    → NoneFailed xs
    → any (λ (x : Result). is_changed x.status) xs ≡ false
    → exit_code xs mode ≡ 0
exit_code_quiet xs mode h k = ground (arith, exit_code_lem xs mode)

module _ {S : Type 0} where
  -- `Check` finds nothing to do and nothing wrong.
  pub record IsSettled (r : Resource S) (s : S) : Type 0 where
    pub no_error : (r.check s).error ≡ none
    pub no_failure : is_failed (r.check s).result.status ≡ false
    pub no_change : is_changed (r.check s).result.status ≡ false

  -- What makes a resource converge: its check is read-only, reports a failure exactly with an error
  -- and no change as made, and finds nothing to do where `Apply` has just succeeded on its drift.
  pub record Converges (r : Resource S) : Type 0 where
    pub read_only : IsReadOnly r
    pub fails_with_error : FailsWithError r
    pub no_error_no_failure :
        (s : S) → (r.check s).error ≡ none → is_failed (r.check s).result.status ≡ false
    pub only_drift :
        (s : S)
        → (r.check s).error ≡ none
        → is_would_change (r.check s).result.status ≡ false
        → is_changed (r.check s).result.status ≡ false
    pub settles :
        (s t : S)
        → is_would_change (r.check s).result.status ≡ true
        → r.apply s ≡ done tt t
        → IsSettled r t

  -- Applying `r` leaves `q` settled.
  abbrev pub Keeps : Resource S → Resource S → Type 0
  Keeps q r = (s : S) → IsSettled q s → IsSettled q (state_of (r.apply s))

  -- No resource disturbs one that runs before it.
  abbrev pub AllKeep : List (Resource S) → Type 0
  AllKeep [] = Unit
  AllKeep (q ∷ rs) = All (Keeps q) rs × AllKeep rs

  applied_state : (x : Result) (o : Outcome S (Unit {0})) → (applied x o).1 ≡ state_of o
  unfolding applied
  applied_state x (done u t) = refl
  applied_state x (fail e t) = refl

  -- A round leaves the state that it finds, or the state that `Apply` leaves.
  run_one_state :
      (r : Resource S) (s : S) (P : S → Type 0)
      → IsReadOnly r
      → P s
      → P (state_of (r.apply s))
      → P (run_one apply_mode r s).1
  run_one_state r s P ro h k = elim (Option-cases (r.check s).error) [
    | inl e ↦ elim (Bool-cases (is_would_change (r.check s).result.status)) [
      | inl w ↦ rw (run_one_drift r s e w, ro s, applied_state (r.check s).result (r.apply s)) k
      | inr w ↦ rw (run_one_left r s e w, ro s) h
    ]
    | inr (x, e) ↦ rw (run_one_error apply_mode r s e, ro s) h
  ]

  IsSettled-of_applied :
      (r : Resource S) (s : S) (x : Result) (o : Outcome S (Unit {0}))
      → ((t : S) → o ≡ done tt t → IsSettled r t)
      → is_failed (applied x o).0.status ≡ false
      → IsSettled r (applied x o).1
  unfolding applied is_failed
  IsSettled-of_applied r s x (done tt t) f h = f t refl
  IsSettled-of_applied r s x (fail e t) f h = absurd (cc h)

  run_one-IsSettled :
      (r : Resource S) (s : S)
      → Converges r
      → is_failed (run_one apply_mode r s).0.status ≡ false
      → IsSettled r (run_one apply_mode r s).1
  run_one-IsSettled r s c h = elim (Option-cases (r.check s).error) [
    | inl e ↦ elim (Bool-cases (is_would_change (r.check s).result.status)) [
      | inl w ↦
          rw (run_one_drift r s e w, c.read_only s)
            (IsSettled-of_applied r s (r.check s).result (r.apply s) (λ t a. c.settles s t w a)
              (rw (run_one_drift r s e w, c.read_only s) at h))
      | inr w ↦
          rw (run_one_left r s e w, c.read_only s)
            (record {
              no_error = e;
              no_failure = c.no_error_no_failure s e;
              no_change = c.only_drift s e w;
            })
    ]
    | inr (x, e) ↦
        absurd (not_failed (rw (run_one_error apply_mode r s e, c.fails_with_error s x e) at h))
  ]

  run-Keeps :
      (q : Resource S) (rs : List (Resource S)) (s : S)
      → All Converges rs
      → All (Keeps q) rs
      → IsSettled q s
      → IsSettled q (run apply_mode rs s).1
  unfolding run
  run-Keeps q [] s c k h = h
  run-Keeps q (r ∷ rs) s c k h =
      run-Keeps q rs (run_one apply_mode r s).1 c.1 k.1
        (run_one_state r s (IsSettled q) c.0.read_only h (k.0 s h))

  run-AllSettled :
      (rs : List (Resource S)) (s : S)
      → All Converges rs
      → AllKeep rs
      → NoneFailed (run apply_mode rs s).0
      → All (λ r. IsSettled r (run apply_mode rs s).1) rs
  unfolding run
  run-AllSettled [] s c k h = tt
  run-AllSettled (r ∷ rs) s c k h = (
    run-Keeps r rs (run_one apply_mode r s).1 c.1 k.0 (run_one-IsSettled r s c.0 (ground arith)),
    run-AllSettled rs (run_one apply_mode r s).1 c.1 k.1 (ground arith),
  )

  -- Where all is settled, a run of either mode changes nothing.
  run_settled :
      (mode : Mode) (rs : List (Resource S)) (s : S)
      → All Converges rs
      → All (λ r. IsSettled r s) rs
      → run mode rs s ≡ (map (λ (r : Resource S). (r.check s).result) rs, s)
  unfolding run
  run_settled mode [] s c h = refl
  run_settled check_mode (r ∷ rs) s c h =
      run-check_mode (r ∷ rs) s (All-weaken Converges IsReadOnly (λ x k. k.read_only) (r ∷ rs) c)
  run_settled apply_mode (r ∷ rs) s c h = rw (
    run_one_left r s h.0.no_error (not_pending (r.check s).result h.0.no_change),
    c.0.read_only s,
    run_settled apply_mode rs s c.1 h.1,
  )

  quiet :
      (rs : List (Resource S)) (s : S)
      → All (λ r. IsSettled r s) rs
      → (any (λ (x : Result). is_failed x.status) (map (λ (r : Resource S). (r.check s).result) rs)
          ≡ false)
        × (any
              (λ (x : Result). is_changed x.status)
              (map (λ (r : Resource S). (r.check s).result) rs)
            ≡ false)
  quiet [] s h = (refl, refl)
  quiet (r ∷ rs) s h = let q = quiet rs s h.1 in (rw (h.0.no_failure) q.0, rw (h.0.no_change) q.1)

  -- After an apply run with exit code 0, over resources that converge and do not disturb one
  -- another, a second run of either mode leaves the system as it is and exits with 0.
  pub run_twice :
      (mode : Mode) (rs : List (Resource S)) (s : S)
      → All Converges rs
      → AllKeep rs
      → exit_code (run apply_mode rs s).0 apply_mode ≡ 0
      → let t = (run apply_mode rs s).1 in
        ((run mode rs t).1 ≡ t) × (exit_code (run mode rs t).0 mode ≡ 0)
  run_twice mode rs s c k h =
      let t = (run apply_mode rs s).1 in
      let all = run-AllSettled rs s c k (exit_code_zero (run apply_mode rs s).0 h) in
      let q = quiet rs t all in
      rw (run_settled mode rs t c all) (refl, exit_code_quiet _ mode q.0 q.1)
