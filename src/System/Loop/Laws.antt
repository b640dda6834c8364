-- ===== src/System/Loop/Laws.antt =====
-- What a loop achieves whose steps each put one item right and leave the others as they are.
use node_configurator.Prelude.{List, [], ◌∷◌, map, ◌≡◌, refl, ◌∙◌, inl, inr, All}
use node_configurator.System.{Outcome, ◌>>◌}
use node_configurator.System.Post.{Post, Post-weaken, Outcome-cases, Anything}
use node_configurator.System.Loop.{for_each}

-- A loop over converted items.
pub for_each-map :
    {S X Y : Type 0} (step : Y → S → Outcome S (Unit {0})) (f : X → Y) (xs : List X) (s : S)
    → for_each (λ x. step (f x)) xs s ≡ for_each step (map f xs) s
unfolding for_each
for_each-map step f [] s = refl
for_each-map step f (x ∷ xs) s = elim (Outcome-cases (step (f x) s)) [
  | inl (u, t, e) ↦ rw (for_each, ◌>>◌, e) (for_each-map step f xs t)
  | inr (a, t, e) ↦ rw (for_each, ◌>>◌, e)
]

module _ {S X : Type 0} {V : Type 0} (IsRight : S → X → Type 0) (view : S → V) where
  -- What is right stays right, and the view is the same.
  pub record Keeps (s t : S) : Type 0 where
    pub kept : (x : X) → IsRight s x → IsRight t x
    pub same : view t ≡ view s

  pub Keeps-refl : (s : S) → Keeps s s
  Keeps-refl s = record { kept = λ x h. h; same = refl }

  Keeps-trans : {s t u : S} → Keeps s t → Keeps t u → Keeps s u
  Keeps-trans h k = record { kept = λ x g. k.kept x (h.kept x g); same = k.same ∙ h.same }

  -- The step puts the item right, or it fails.
  abbrev pub PutsRight : (X → S → Outcome S (Unit {0})) → X → Type 0
  PutsRight step x = (s : S) → Post (λ _ t. IsRight t x × Keeps s t) Anything (step x s)

  pub for_each-PutsRight :
      (step : X → S → Outcome S (Unit {0})) (xs : List X) (s : S)
      → All (PutsRight step) xs
      → Post (λ _ t. All (IsRight t) xs × Keeps s t) Anything (for_each step xs s)
  unfolding for_each
  for_each-PutsRight step [] s h = (tt, Keeps-refl s)
  for_each-PutsRight step (x ∷ xs) s h =
      let one = h.0 s in
      elim (Outcome-cases (step x s)) [
        | inl (a, t, e) ↦
            let (right, k) = rw e at one in
            rw (Post, for_each, e)
              (Post-weaken (λ _ u. All (IsRight u) xs × Keeps t u)
                (λ _ u. All (IsRight u) (x ∷ xs) × Keeps s u) Anything Anything (for_each step xs t)
                (for_each-PutsRight step xs t h.1)
                (λ b u g. ((g.1.kept x right, g.0), Keeps-trans k g.1)) (λ u g. tt))
        | inr (x, t, e) ↦ rw (Post, for_each, e) tt
      ]

  -- A loop whose steps put every item right puts all items right, if it succeeds.
  pub for_each-IsRight :
      (step : X → S → Outcome S (Unit {0}))
      → ((x : X) → PutsRight step x)
      → (xs : List X) (s : S)
      → Post (λ _ t. All (IsRight t) xs × Keeps s t) Anything (for_each step xs s)
  for_each-IsRight step h xs s = for_each-PutsRight step xs s (all h xs)
    where
      all : {P : X → Type 0} → ((x : X) → P x) → (xs : List X) → All P xs
      all g [] = tt
      all g (x ∷ xs) = (g x, all g xs)
