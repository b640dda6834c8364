-- ===== src/System/Post.antt =====
-- Postconditions of calls: what holds of the result and the state if a call succeeds, and of the
-- state if it fails.
use node_configurator.Prelude.{◌≡◌, refl, ◌⊎◌, inl, inr}
use node_configurator.Text.{Text}
use node_configurator.System.{
  Error, Fallible, value, failure, Outcome, done, fail, ◌>>=◌, ◌>>◌, or_errorf, errorf, return,
  state_of,
}

pub Fallible-cases {ℓ} :
    {A : Type ℓ} (r : Fallible A) → ((a : A) × (r ≡ value a)) ⊎ ((e : Error) × (r ≡ failure e))
Fallible-cases (value a) = inl (a, refl)
Fallible-cases (failure e) = inr (e, refl)

module _ {S : Type 0} where
  pub Outcome-cases :
      {A : Type 0} (o : Outcome S A)
      → ((a : A) × (t : S) × (o ≡ done a t)) ⊎ ((e : Error) × (t : S) × (o ≡ fail e t))
  Outcome-cases (done a t) = inl (a, t, refl)
  Outcome-cases (fail e t) = inr (e, t, refl)

  pub done-injective :
      {A : Type 0} {a b : A} {s t : S}
      → ◌≡◌ {A = Outcome S A} (done a s) (done b t)
      → (a ≡ b) × (s ≡ t)
  done-injective h = (cc, cc)

  abbrev pub Post : {A : Type 0} → (A → S → Type 0) → (S → Type 0) → Outcome S A → Type 0
  Post Q E (done a t) = Q a t
  Post Q E (fail e t) = E t

  pub Post-weaken :
      {A : Type 0} (Q R : A → S → Type 0) (E F : S → Type 0) (o : Outcome S A)
      → Post Q E o
      → ((a : A) (t : S) → Q a t → R a t)
      → ((t : S) → E t → F t)
      → Post R F o
  Post-weaken Q R E F (done a t) h f g = f a t h
  Post-weaken Q R E F (fail e t) h f g = g t h

  pub Post_of_state :
      {A : Type 0} (P : S → Type 0) (o : Outcome S A) → P (state_of o) → Post (λ _. P) P o
  Post_of_state P (done a t) h = h
  Post_of_state P (fail e t) h = h

  -- From states that meet `P` the call succeeds with `Q`, or fails with `E`.
  pub record Triple {A : Type 0} (P : S → Type 0) (m : S → Outcome S A) (Q : A → S → Type 0)
      (E : S → Type 0) : Type 0 where
    pub run : (s : S) → P s → Post Q E (m s)

  bound :
      {A B : Type 0} (Q : A → S → Type 0) (R : B → S → Type 0) (E : S → Type 0)
      (f : A → S → Outcome S B) (o : Outcome S A)
      → Post Q E o
      → ((a : A) (t : S) → Q a t → Post R E (f a t))
      → Post R E (elim o [ done a t ↦ f a t | fail e t ↦ fail e t ])
  bound Q R E f (done a t) h k = k a t h
  bound Q R E f (fail e t) h k = h

  -- The rule for a call whose result the next one takes.
  pub then_with :
      {A B : Type 0} {P : S → Type 0} {Q : A → S → Type 0} {R : B → S → Type 0} {E : S → Type 0}
      {m : S → Outcome S A} {f : A → S → Outcome S B}
      → Triple P m Q E
      → ((a : A) → Triple (Q a) (f a) R E)
      → Triple P (m >>= f) R E
  then_with {Q} {R} {E} {m} {f} h k = record {
    run = λ s p. bound Q R E f (m s) (h.run s p) (λ a. (k a).run);
  }

  -- The rule for two calls in a row.
  pub then_next :
      {B : Type 0} {P Q : S → Type 0} {R : B → S → Type 0} {E : S → Type 0}
      {m : S → Outcome S (Unit {0})} {k : S → Outcome S B}
      → Triple P m (λ _. Q) E
      → Triple Q k R E
      → Triple P (m >> k) R E
  then_next {Q} {R} {E} {m} {k} h j = record {
    run = λ s p. bound (λ _. Q) R E (λ _. k) (m s) (h.run s p) (λ _. j.run);
  }

  wrapped :
      {A : Type 0} (Q : A → S → Type 0) (E : S → Type 0) (c : Text) (o : Outcome S A)
      → Post Q E o
      → Post Q E (elim o [ done a t ↦ done a t | fail e t ↦ fail (errorf c e) t ])
  wrapped Q E c (done a t) h = h
  wrapped Q E c (fail e t) h = h

  -- Context on an error changes no state.
  pub in_context :
      {A : Type 0} {P : S → Type 0} {Q : A → S → Type 0} {E : S → Type 0} {m : S → Outcome S A}
      (c : Text)
      → Triple P m Q E
      → Triple P (or_errorf c m) Q E
  in_context {Q} {E} {m} c h = record { run = λ s p. wrapped Q E c (m s) (h.run s p) }

  pub returned :
      {A : Type 0} {Q : S → Type 0} {E : S → Type 0} (a : A) → Triple Q (return a) (λ _. Q) E
  returned a = record { run = λ s p. p }

  -- Nothing is asked of a call that fails.
  abbrev pub Anything : S → Type 0
  Anything s = Unit

  pub Post-both :
      {A : Type 0} (Q R : A → S → Type 0) (o : Outcome S A)
      → Post Q Anything o
      → Post R Anything o
      → Post (λ a s. Q a s × R a s) Anything o
  Post-both Q R (done a t) h k = (h, k)
  Post-both Q R (fail e t) h k = tt

  pub Post-any :
      {A : Type 0} (Q : A → S → Type 0) (E : S → Type 0) (o : Outcome S A)
      → Post Q E o
      → Post Q Anything o
  Post-any Q E (done a t) h = h
  Post-any Q E (fail e t) h = tt

  Post-Anything : {A : Type 0} (o : Outcome S A) → Post (λ _. Anything) Anything o
  Post-Anything (done a t) = tt
  Post-Anything (fail e t) = tt

  -- Nothing is known of the call.
  pub any_call : {A : Type 0} (m : S → Outcome S A) → Triple Anything m (λ _. Anything) Anything
  any_call m = record { run = λ s h. Post-Anything (m s) }
