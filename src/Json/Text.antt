-- ===== src/Json/Text.antt =====
-- How `json.dumps` writes one text: a quoted ASCII string, with the escapes of the standard encoder.
use treasury_intent_controll.Base.{
  ℕ, ◌+◌, ◌-◌, ◌/◌, ◌%◌, ◌&&◌, List, [], ◌∷◌, ◌++◌, ltb, leb, eqb, if◌then◌else◌, String, codes,
  ◌≡◌, refl,
}

abbrev pub Bytes : Type 0
Bytes = List ℕ

unfoldable pub hex_digit : ℕ → ℕ
hex_digit d = if ltb d 10 then 48 + d else 87 + d

-- `\uXXXX`, in small hexadecimal digits.
unfoldable pub unicode_escape : ℕ → Bytes
unicode_escape n =
    b'\\'
    ∷ b'u'
    ∷ hex_digit (n / 4096)
    ∷ hex_digit (n / 256 % 16)
    ∷ hex_digit (n / 16 % 16)
    ∷ hex_digit (n % 16)
    ∷ []

-- A code point past U+FFFF is written as a surrogate pair.
unfoldable pub wide_escape : ℕ → Bytes
wide_escape c =
    if ltb c 65536
    then unicode_escape c
    else unicode_escape (55296 + (c - 65536) / 1024) ++ unicode_escape (56320 + (c - 65536) % 1024)

unfoldable pub escape : ℕ → Bytes
escape c =
    if eqb c b'"'
    then b'\\' ∷ b'"' ∷ []
    else if eqb c b'\\'
    then b'\\' ∷ b'\\' ∷ []
    else if eqb c 8
    then b'\\' ∷ b'b' ∷ []
    else if eqb c 12
    then b'\\' ∷ b'f' ∷ []
    else if eqb c 10
    then b'\\' ∷ b'n' ∷ []
    else if eqb c 13
    then b'\\' ∷ b'r' ∷ []
    else if eqb c 9
    then b'\\' ∷ b't' ∷ []
    else if leb 32 c && leb c 126
    then c ∷ []
    else wide_escape c

unfoldable pub escaped : List ℕ → Bytes
escaped [] = []
escaped (c ∷ s) = escape c ++ escaped s

-- A text as a JSON string, in front of what follows it.
unfoldable pub quoted : String → Bytes → Bytes
quoted s rest = b'"' ∷ (escaped (codes s) ++ (b'"' ∷ rest))

quoted_runs : quoted "a\"é" [] ≡ codes "\"a\\\"\\u00e9\""
unfolding quoted escaped escape wide_escape unicode_escape hex_digit
quoted_runs = refl
