-- ===== src/Skeptic/Locate.antt =====
-- `_locate` and the windows around a quote (tic-concept-chat/skeptic.py). Texts are lists of code
-- points; `is_space` is the test of `str.isspace` and of `\s` on one of them.
pub mod Splits
pub mod Words
pub mod Quoted
pub mod Bounds
pub mod Parts
pub mod Held
use treasury_intent_controll.Base.{
  ℕ, zero, suc, ◌+◌, ◌-◌, Bool, true, false, not, ◌&&◌, ◌||◌, List, [], ◌∷◌, Option, none, some,
  eqb, leb, if◌then◌else◌, ◌≡◌, refl, codes,
}

abbrev pub Codes : Type 0
Codes = List ℕ

abbrev pub length {ℓ} : {A : Type ℓ} → List A → ℕ
length [] = 0
length (x ∷ l) = suc (length l)

unfoldable pub is_prefix : Codes → Codes → Bool
is_prefix [] doc = true
is_prefix (c ∷ quote) [] = false
is_prefix (c ∷ quote) (d ∷ doc) = eqb c d && is_prefix quote doc

-- `doc.find(quote)`, from a position on; a quote that is not found is `none`.
unfoldable pub find : ℕ → Codes → Codes → Option ℕ
find at quote [] = if is_prefix quote [] then some at else none
find at quote (c ∷ doc) =
    let later = find (suc at) quote doc in if is_prefix quote (c ∷ doc) then some at else later

unfoldable pub skip_word : Codes → Codes → Option Codes
skip_word [] doc = some doc
skip_word (c ∷ word) [] = none
skip_word (c ∷ word) (d ∷ doc) = let rest = skip_word word doc in if eqb c d then rest else none

abbrev pub extend : ℕ → List Codes → List Codes
extend c [] = (c ∷ []) ∷ []
extend c (word ∷ words) = (c ∷ word) ∷ words

module _ (is_space : ℕ → Bool) where
  abbrev pub begins_word : Codes → Bool
  begins_word [] = false
  begins_word (c ∷ s) = not (is_space c)

  -- `quote.split()`.
  unfoldable pub split : Codes → List Codes
  split [] = []
  split (c ∷ s) =
      let words = split s in
      if is_space c then words else if begins_word s then extend c words else (c ∷ []) ∷ words

  abbrev pub skip_spaces : Codes → Codes
  skip_spaces [] = []
  skip_spaces (c ∷ doc) = let rest = skip_spaces doc in if is_space c then rest else c ∷ doc

  -- `\s+`, which takes all the white space: what follows it is no white space.
  abbrev pub skip_gap : Codes → Option Codes
  skip_gap [] = none
  skip_gap (c ∷ doc) = if is_space c then some (skip_spaces doc) else none

  -- The pattern that joins the words with `\s+`, at the front of a text: what follows the match.
  unfoldable pub match_words : List Codes → Codes → Option Codes
  match_words [] doc = some doc
  match_words (word ∷ []) doc = skip_word word doc
  match_words (word ∷ next ∷ words) doc = elim (skip_word word doc) [
    | none ↦ none
    | some rest ↦ elim (skip_gap rest) [
      | none ↦ none
      | some further ↦ match_words (next ∷ words) further
    ]
  ]

  abbrev pub span_of : ℕ → ℕ → Option Codes → Option (ℕ × ℕ) → Option (ℕ × ℕ)
  span_of at size none later = later
  span_of at size (some rest) later = some (at, at + (size - length rest))

  -- `re.search`: the first position with a match.
  unfoldable pub search_words : ℕ → List Codes → Codes → Option (ℕ × ℕ)
  search_words at words [] = span_of at 0 (match_words words []) none
  search_words at words (c ∷ doc) =
      span_of at (suc (length doc)) (match_words words (c ∷ doc)) (search_words (suc at) words doc)

  abbrev pub fall_back : List Codes → Codes → Option (ℕ × ℕ)
  fall_back [] doc = none
  fall_back (word ∷ words) doc = search_words 0 (word ∷ words) doc

  unfoldable pub locate : Codes → Codes → Option (ℕ × ℕ)
  locate doc quote = elim (find 0 quote doc) [
    | none ↦ fall_back (split quote) doc
    | some at ↦ some (at, at + length quote)
  ]

abbrev newline : ℕ
newline = 10

-- `doc.rfind("\n", 0, limit) + 1`: the best position so far, where none is found.
unfoldable pub line_start : ℕ → ℕ → ℕ → Codes → ℕ
line_start at best limit [] = best
line_start at best zero (c ∷ doc) = best
line_start at best (suc limit) (c ∷ doc) =
    line_start (suc at) (if eqb c newline then suc at else best) limit doc

-- `doc.find("\n", from)`, or the length of the document.
unfoldable pub line_end : ℕ → ℕ → Codes → ℕ
line_end at from [] = at
line_end at from (c ∷ doc) =
    let later = line_end (suc at) from doc in if leb from at && eqb c newline then at else later

abbrev pub drop : ℕ → Codes → Codes
drop zero doc = doc
drop (suc n) [] = []
drop (suc n) (c ∷ doc) = drop n doc

abbrev pub take : ℕ → Codes → Codes
take zero doc = []
take (suc n) [] = []
take (suc n) (c ∷ doc) = c ∷ take n doc

abbrev strip_front : Codes → Codes
strip_front [] = []
strip_front (c ∷ s) = let rest = strip_front s in if eqb c newline then rest else c ∷ s

abbrev add_back : ℕ → Codes → Codes
add_back c [] = if eqb c newline then [] else c ∷ []
add_back c (d ∷ s) = c ∷ d ∷ s

abbrev strip_back : Codes → Codes
strip_back [] = []
strip_back (c ∷ s) = add_back c (strip_back s)

-- The lines around a span, as far as the radius reaches.
abbrev pub window_start : ℕ → Codes → ℕ → ℕ
window_start radius doc at = line_start 0 0 (at - radius) doc

abbrev pub window_end : ℕ → Codes → ℕ → ℕ
window_end radius doc quote_end = line_end 0 (quote_end + radius) doc

-- `doc[start:end].strip("\n")`.
abbrev pub window : ℕ → Codes → ℕ × ℕ → Codes
window radius doc (at, quote_end) =
    let start = window_start radius doc at in
    strip_back (strip_front (take (window_end radius doc quote_end - start) (drop start doc)))

abbrev is_blank : ℕ → Bool
is_blank c = eqb c 32 || eqb c 10

locate_runs : locate is_blank (codes "a\nno  one\nb") (codes "no one") ≡ some (2, 9)
unfolding locate find is_prefix split search_words match_words skip_word
locate_runs = refl

window_runs : window 0 (codes "a\nno  one\nb") (2, 9) ≡ codes "no  one"
unfolding line_start line_end
window_runs = refl
