-- ===== src/Text/Sort.antt =====
-- `sort.Strings`. Texts are ordered by their code points, which is the order of their UTF-8 bytes.
use node_configurator.Prelude.{
  Bool, true, false, ◌&&◌, ◌||◌, List, [], ◌∷◌, ◌≡◌, refl, ◌∙◌, arith, ◌==◌, ltb, if◌then◌else◌,
}
use node_configurator.Text.{Text, text_eq, contains}
use mathlib.Core.List.{Perm, Permᴰ}
use mathlib.Core.Logic.{∥∥₁_elim}

unfoldable pub text_le : Text → Text → Bool
text_le [] b = true
text_le (c ∷ a) [] = false
text_le (c ∷ a) (d ∷ b) = ltb c d || (c == d && text_le a b)

unfoldable pub insert_sorted : Text → List Text → List Text
insert_sorted a [] = a ∷ []
insert_sorted a (b ∷ l) =
    let rest = insert_sorted a l in if text_le a b then a ∷ b ∷ l else b ∷ rest

unfoldable pub sort : List Text → List Text
unfolding insert_sorted
sort [] = []
sort (a ∷ l) = insert_sorted a (sort l)

text_le_total : (a b : Text) → text_le a b ≡ false → text_le b a ≡ true
unfolding text_le
text_le_total [] b h = ground arith
text_le_total (c ∷ a) [] h = refl
text_le_total (c ∷ a) (d ∷ b) h = ground (arith, text_le_total a b)

text_le_antisymm : (a b : Text) → text_le a b ≡ true → text_le b a ≡ true → a ≡ b
unfolding text_le
text_le_antisymm [] [] h k = refl
text_le_antisymm [] (d ∷ b) h k = ground arith
text_le_antisymm (c ∷ a) [] h k = ground arith
text_le_antisymm (c ∷ a) (d ∷ b) h k = ground (arith, text_le_antisymm a b)

text_le_trans : (a b c : Text) → text_le a b ≡ true → text_le b c ≡ true → text_le a c ≡ true
unfolding text_le
text_le_trans [] b c h k = refl
text_le_trans (x ∷ a) [] c h k = ground arith
text_le_trans (x ∷ a) (y ∷ b) [] h k = ground arith
text_le_trans (x ∷ a) (y ∷ b) (z ∷ c) h k = ground (arith, text_le_trans a b c)

insert_sorted_comm :
    (a b : Text) (l : List Text)
    → insert_sorted a (insert_sorted b l) ≡ insert_sorted b (insert_sorted a l)
unfolding insert_sorted
insert_sorted_comm a b [] = ground (arith, text_le_total a b, text_le_antisymm a b)
insert_sorted_comm a b (c ∷ l) = ground (
  arith,
  text_le_total a b,
  text_le_antisymm a b,
  insert_sorted_comm a b l,
  text_le_trans a b c,
  text_le_trans b a c,
  text_le_total a c,
  text_le_total b c,
)

texts_set : IsSet (List Text)
texts_set = hlevel

pub sort_of_permᴰ : {l m : List Text} → Permᴰ l m → sort l ≡ sort m
unfolding sort
sort_of_permᴰ Permᴰ.nil = refl
sort_of_permᴰ (Permᴰ.cons e p) = cc (sort_of_permᴰ p)
sort_of_permᴰ (Permᴰ.swap {a} {b} {l} e f) = rw (e, f) (insert_sorted_comm _ _ (sort l))
sort_of_permᴰ (Permᴰ.trans p q) = sort_of_permᴰ p ∙ sort_of_permᴰ q

-- The order in which the runtime lists the texts does not matter.
pub sort_of_perm : {l m : List Text} → Perm l m → sort l ≡ sort m
sort_of_perm p = ∥∥₁_elim p (texts_set _ _) sort_of_permᴰ

contains-insert_sorted :
    (a k : Text) (l : List Text) → contains (insert_sorted a l) k ≡ (text_eq a k || contains l k)
unfolding insert_sorted contains
contains-insert_sorted a k [] = refl
contains-insert_sorted a k (b ∷ l) = ground (arith, contains-insert_sorted a k l)

pub contains-sort : (l : List Text) (k : Text) → contains (sort l) k ≡ contains l k
unfolding sort contains
contains-sort [] k = refl
contains-sort (a ∷ l) k = ground (arith, contains-sort l k, contains-insert_sorted a k (sort l))
