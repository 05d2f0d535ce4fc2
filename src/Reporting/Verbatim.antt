-- ===== src/Reporting/Verbatim.antt =====
-- `value != value.strip()` (declarant/pydeclarant/reporting_adapter.py), over code points.
use treasury_intent_controll.Base.{
  ℕ, Bool, true, false, ◌&&◌, ◌||◌, String, List, [], ◌∷◌, ◌≡◌, refl, eqb, leb, codes,
  if◌then◌else◌,
}
use mathlib.Core.List.{reverse}

-- The characters that `str.strip` takes off.
unfoldable pub is_space : ℕ → Bool
is_space c =
    (leb 9 c && leb c 13)
    || (leb 28 c && leb c 32)
    || eqb c 133
    || eqb c 160
    || eqb c 5760
    || (leb 8192 c && leb c 8202)
    || eqb c 8232
    || eqb c 8233
    || eqb c 8239
    || eqb c 8287
    || eqb c 12288

unfoldable pub drop_spaces : List ℕ → List ℕ
unfolding is_space
drop_spaces [] = []
drop_spaces (c ∷ s) = if is_space c then drop_spaces s else c ∷ s

unfoldable pub strip : List ℕ → List ℕ
unfolding drop_spaces
strip s = reverse (drop_spaces (reverse (drop_spaces s)))

abbrev pub same_codes : List ℕ → List ℕ → Bool
same_codes [] [] = true
same_codes (a ∷ s) (b ∷ t) = eqb a b && same_codes s t
same_codes _ _ = false

unfoldable pub is_stripped : String → Bool
unfolding strip
is_stripped s = same_codes (strip (codes s)) (codes s)

strip_tests : (is_stripped "a b" ≡ true) × (is_stripped "a " ≡ false) × (is_stripped "" ≡ true)
unfolding is_stripped
strip_tests = (refl, refl, refl)
