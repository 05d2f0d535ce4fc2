-- ===== src/Loop/Numerals.antt =====
-- `"%d"` and `"%03d"` (treasury/randomized_loop.py): numbers in decimal.
use treasury_intent_controll.Base.{
  ℕ, zero, suc, ◌/◌, ◌%◌, String, ◌<>◌, List, [], ◌∷◌, ltb, if◌then◌else◌, ◌≡◌, refl,
}

abbrev digit : ℕ → String
digit n = text_at n ("0" ∷ "1" ∷ "2" ∷ "3" ∷ "4" ∷ "5" ∷ "6" ∷ "7" ∷ "8" ∷ "9" ∷ [])
  where
    text_at : ℕ → List String → String
    text_at n [] = ""
    text_at zero (d ∷ digits) = d
    text_at (suc n) (d ∷ digits) = text_at n digits

-- The digits in front of the rest, with more fuel than digits.
unfoldable show_digits : ℕ → ℕ → String → String
show_digits zero n rest = rest
show_digits (suc fuel) n rest =
    let more = show_digits fuel (n / 10) (digit (n % 10) <> rest) in
    if ltb n 10 then digit n <> rest else more

unfoldable pub show : ℕ → String
unfolding show_digits
show n = show_digits (suc n) n ""

-- At least three digits.
unfoldable pub show_padded : ℕ → String
unfolding show
show_padded n = if ltb n 10 then "00" <> show n else if ltb n 100 then "0" <> show n else show n

show_padded_runs : (show 1024 <> show_padded 7) ≡ "1024007"
unfolding show_padded
show_padded_runs = refl
