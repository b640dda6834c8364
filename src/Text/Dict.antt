-- ===== src/Text/Dict.antt =====
-- A Go `map` with string keys as an association list, whose order stands for the runtime's choice.
use node_configurator.Prelude.{
  false, ◌||◌, List, [], ◌∷◌, ◌≡◌, refl, ap, ◌∙◌, arith, if◌then◌else◌, Option, none, some,
}
use node_configurator.Text.{Text, text_eq, contains}
use node_configurator.Text.Equality.{text_eq_iff, text_eq_refl}
use mathlib.Core.List.{Permᴰ}
use mathlib.Core.Option.{or_else}

abbrev pub Dict {ℓ} : Type ℓ → Type ℓ
Dict V = List (Text × V)

module _ {ℓ} {V : Type ℓ} where
  -- `m[k]`
  unfoldable pub lookup : Text → Dict V → Option V
  lookup k [] = none
  lookup k ((j, v) ∷ m) = let rest = lookup k m in if text_eq j k then some v else rest

  -- `m[k] = v`
  unfoldable pub put : Text → V → Dict V → Dict V
  put k v [] = (k, v) ∷ []
  put k v ((j, w) ∷ m) = let rest = put k v m in if text_eq j k then (j, v) ∷ m else (j, w) ∷ rest

  -- The keys in the order of a `range` loop.
  unfoldable pub keys : Dict V → List Text
  keys [] = []
  keys ((k, _) ∷ m) = k ∷ keys m

  -- `maps.Copy(m, n)`
  unfoldable pub copy : Dict V → Dict V → Dict V
  copy m [] = m
  copy m ((k, v) ∷ n) = copy (put k v m) n

  -- No key is listed twice.
  abbrev pub NodupKeys : Dict V → Type 0
  NodupKeys [] = Unit
  NodupKeys ((k, _) ∷ m) = (contains (keys m) k ≡ false) × NodupKeys m

  pub lookup-put :
      (k j : Text) (v : V) (m : Dict V)
      → lookup j (put k v m) ≡ (if text_eq k j then some v else lookup j m)
  unfolding lookup put
  lookup-put k j v [] = refl
  lookup-put k j v ((i, w) ∷ m) =
      ground (arith, text_eq_iff k j, text_eq_iff i k, text_eq_iff i j, lookup-put k j v m)

  pub lookup-put_self : (k : Text) (v : V) (m : Dict V) → lookup k (put k v m) ≡ some v
  lookup-put_self k v m = rw (lookup-put, text_eq_refl k)

  contains-keys-put :
      (k j : Text) (v : V) (m : Dict V)
      → contains (keys (put k v m)) j ≡ (text_eq k j || contains (keys m) j)
  unfolding keys put contains
  contains-keys-put k j v [] = refl
  contains-keys-put k j v ((i, w) ∷ m) =
      ground (arith, text_eq_iff k j, text_eq_iff i k, text_eq_iff i j, contains-keys-put k j v m)

  put-NodupKeys : (k : Text) (v : V) (m : Dict V) → NodupKeys m → NodupKeys (put k v m)
  unfolding put contains keys
  put-NodupKeys k v [] h = ground arith
  put-NodupKeys k v ((j, w) ∷ m) h =
      ground (
        arith,
        put-NodupKeys k v m h.1,
        contains-keys-put k j v m,
        text_eq_iff j k,
        text_eq_iff k j,
      )

  pub copy-NodupKeys : (m n : Dict V) → NodupKeys m → NodupKeys (copy m n)
  unfolding copy
  copy-NodupKeys m [] h = h
  copy-NodupKeys m ((k, v) ∷ n) h = copy-NodupKeys (put k v m) n (put-NodupKeys k v m h)

  lookup_absent : (k : Text) (m : Dict V) → contains (keys m) k ≡ false → lookup k m ≡ none
  unfolding lookup keys contains
  lookup_absent k [] h = refl
  lookup_absent k ((j, v) ∷ m) h = ground (arith, lookup_absent k m)

  -- What is copied last wins; every other key keeps its value.
  pub lookup-copy :
      (k : Text) (m n : Dict V)
      → NodupKeys n
      → lookup k (copy m n) ≡ or_else (lookup k n) (lookup k m)
  unfolding copy lookup or_else
  lookup-copy k m [] h = refl
  lookup-copy k m ((j, v) ∷ n) h = ground (
    arith,
    lookup-copy k (put j v m) n h.1,
    lookup-put j k v m,
    text_eq_iff j k,
    lookup_absent k n,
  )

  contains-keys_of_permᴰ :
      {m n : Dict V} (k : Text) → Permᴰ m n → contains (keys m) k ≡ contains (keys n) k
  unfolding keys contains
  contains-keys_of_permᴰ k Permᴰ.nil = refl
  contains-keys_of_permᴰ k (Permᴰ.cons e p) = rw (e, contains-keys_of_permᴰ k p)
  contains-keys_of_permᴰ k (Permᴰ.swap e f) = rw (e, f) (ground arith)
  contains-keys_of_permᴰ k (Permᴰ.trans p q) =
      contains-keys_of_permᴰ k p ∙ contains-keys_of_permᴰ k q

  NodupKeys-of_permᴰ : {m n : Dict V} → Permᴰ m n → NodupKeys m → NodupKeys n
  unfolding keys contains
  NodupKeys-of_permᴰ Permᴰ.nil h = h
  NodupKeys-of_permᴰ (Permᴰ.cons {a} {b} e p) h =
      (rw (← e, ← contains-keys_of_permᴰ a.0 p) h.0, NodupKeys-of_permᴰ p h.1)
  NodupKeys-of_permᴰ (Permᴰ.swap {a} {b} e f) h =
      rw (← e, ← f) (ground (arith, text_eq_iff a.0 b.0, text_eq_iff b.0 a.0))
  NodupKeys-of_permᴰ (Permᴰ.trans p q) h = NodupKeys-of_permᴰ q (NodupKeys-of_permᴰ p h)

  -- The entries in another order give the same value at every key.
  pub lookup_of_permᴰ :
      {m n : Dict V} (k : Text) → Permᴰ m n → NodupKeys m → lookup k m ≡ lookup k n
  unfolding lookup keys contains
  lookup_of_permᴰ k Permᴰ.nil h = refl
  lookup_of_permᴰ k (Permᴰ.cons e p) h = rw (e, lookup_of_permᴰ k p h.1)
  lookup_of_permᴰ k (Permᴰ.swap {a} {b} e f) h =
      rw (← e, ← f)
        (ground
          (arith, text_eq_iff a.0 b.0, text_eq_iff b.0 a.0, text_eq_iff a.0 k, text_eq_iff b.0 k))
  lookup_of_permᴰ k (Permᴰ.trans p q) h =
      lookup_of_permᴰ k p h ∙ lookup_of_permᴰ k q (NodupKeys-of_permᴰ p h)

  pub keys_of_permᴰ : {m n : Dict V} → Permᴰ m n → Permᴰ (keys m) (keys n)
  unfolding keys
  keys_of_permᴰ Permᴰ.nil = Permᴰ.nil
  keys_of_permᴰ (Permᴰ.cons e p) = Permᴰ.cons (ap (λ (x : Text × V). x.0) e) (keys_of_permᴰ p)
  keys_of_permᴰ (Permᴰ.swap e f) =
      Permᴰ.swap (ap (λ (x : Text × V). x.0) e) (ap (λ (x : Text × V). x.0) f)
  keys_of_permᴰ (Permᴰ.trans p q) = Permᴰ.trans (keys_of_permᴰ p) (keys_of_permᴰ q)
