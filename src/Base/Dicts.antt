-- ===== src/Base/Dicts.antt =====
-- Dictionaries with text keys as association lists, in the order in which the keys came in.
use Prim.Native.Nat.{Ordering}
use Prim.Native.String.{String, compare}
use mathlib.Core.Path.{◌≡◌, refl, ◌∙◌, ap}
use mathlib.Core.Bool.{Bool, true, false}
use mathlib.Core.Option.{Option, none, some}
use mathlib.Core.List.{List, [], ◌∷◌}
use native.Mathlib.Omega.{arith}
use text.Mathlib.Text.{◌==◌}
use text.Mathlib.TextEquality.{eq_iff}
use treasury_intent_controll.Base.Tests.{if◌then◌else◌}

-- Python's order on texts: by code points.
abbrev pub text_lt : String → String → Bool
text_lt s t = elim (compare s t) [ Ordering.lt ↦ true | _ ↦ false ]

pub text_lt_ne : (s t : String) → text_lt s t ≡ true → (s == t) ≡ false
text_lt_ne s t h = ground (arith)

module _ {ℓ} {V : Type ℓ} where
  unfoldable pub lookup : String → List (String × V) → Option V
  lookup name [] = none
  lookup name ((key, value) ∷ items) = if key == name then some value else lookup name items

  -- `sorted` on the items, by key: insertion sort.
  unfoldable pub insert_sorted : String → V → List (String × V) → List (String × V)
  insert_sorted k v [] = (k, v) ∷ []
  insert_sorted k v ((j, w) ∷ m) =
      if text_lt j k then (j, w) ∷ insert_sorted k v m else (k, v) ∷ (j, w) ∷ m

  unfoldable pub sort_items : List (String × V) → List (String × V)
  unfolding insert_sorted
  sort_items [] = []
  sort_items ((k, v) ∷ m) = insert_sorted k v (sort_items m)

  lookup-insert_sorted :
      (k j : String) (v : V) (m : List (String × V))
      → lookup j (insert_sorted k v m) ≡ (if k == j then some v else lookup j m)
  unfolding lookup insert_sorted
  lookup-insert_sorted k j v [] = refl
  lookup-insert_sorted k j v ((i, w) ∷ m) =
      ground
        (arith, eq_iff k j, eq_iff i j, eq_iff i k, text_lt_ne i k, lookup-insert_sorted k j v m)

  -- Sorting keeps what each key is bound to.
  pub lookup-sort_items :
      (k : String) (m : List (String × V)) → lookup k (sort_items m) ≡ lookup k m
  unfolding lookup sort_items
  lookup-sort_items k [] = refl
  lookup-sort_items k ((j, v) ∷ m) =
      lookup-insert_sorted j k v (sort_items m)
      ∙ ap (λ (o : Option V). if j == k then some v else o) (lookup-sort_items k m)
