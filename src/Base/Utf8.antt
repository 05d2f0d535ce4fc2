-- ===== src/Base/Utf8.antt =====
-- `str.encode("utf-8")`: the bytes of a text.
pub mod Unique
use treasury_intent_controll.Base.{
  ℕ, ◌+◌, ◌/◌, ◌%◌, ◌≡◌, refl, List, [], ◌∷◌, ◌++◌, String, codes, ltb, if◌then◌else◌,
}

unfoldable pub utf8_char : ℕ → List ℕ
utf8_char c =
    if ltb c 128
    then c ∷ []
    else if ltb c 2048
    then (192 + c / 64) ∷ (128 + c % 64) ∷ []
    else if ltb c 65536
    then (224 + c / 4096) ∷ (128 + c / 64 % 64) ∷ (128 + c % 64) ∷ []
    else (240 + c / 262144) ∷ (128 + c / 4096 % 64) ∷ (128 + c / 64 % 64) ∷ (128 + c % 64) ∷ []

unfoldable pub utf8_codes : List ℕ → List ℕ
unfolding utf8_char
utf8_codes [] = []
utf8_codes (c ∷ s) = utf8_char c ++ utf8_codes s

unfoldable pub utf8 : String → List ℕ
unfolding utf8_codes
utf8 s = utf8_codes (codes s)

utf8_runs : utf8 "é€" ≡ 195 ∷ 169 ∷ 226 ∷ 130 ∷ 172 ∷ []
unfolding utf8
utf8_runs = refl
