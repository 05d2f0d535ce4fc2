-- ===== src/Base/Lists.antt =====
-- Lists of texts as sets and multisets, and positions in lists.
use Prim.Native.Nat.{ℕ, zero, suc}
use Prim.Native.String.{String}
use mathlib.Core.Bool.{Bool, false, ◌||◌}
use mathlib.Core.Option.{Option, none, some}
use mathlib.Core.List.{List, [], ◌∷◌}
use text.Mathlib.Text.{◌==◌}
use treasury_intent_controll.Base.Tests.{if◌then◌else◌}

-- How often a text stands in a list.
abbrev pub count : String → List String → ℕ
count k [] = 0
count k (x ∷ log) = if x == k then suc (count k log) else count k log

-- `name in names`.
abbrev pub contains : List String → String → Bool
contains [] name = false
contains (n ∷ names) name = n == name || contains names name

abbrev pub get_elem? {ℓ} : {A : Type ℓ} → List A → ℕ → Option A
get_elem? [] i = none
get_elem? (x ∷ l) zero = some x
get_elem? (x ∷ l) (suc i) = get_elem? l i
