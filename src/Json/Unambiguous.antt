-- ===== src/Json/Unambiguous.antt =====
-- Reading the JSON text of a string back, escape by escape.
use Prim.Native.Char.{Char, char, IsScalar, code}
use treasury_intent_controll.Base.{
  ℕ, ◌+◌, ◌-◌, ◌*◌, ◌/◌, ◌%◌, ◌≤◌, ◌<◌, ◌≡◌, refl, ap, sym, ◌∙◌, ◌⊎◌, inl, inr, ◌&&◌, Option, none,
  some, [], ◌∷◌, ◌++◌, ltb, leb, eqb, if◌then◌else◌, String, codes, codes_injective, arith,
  Bool-cases,
}
use mathlib.Core.List.{append_assoc}
use treasury_intent_controll.Json.Text.{
  Bytes, hex_digit, unicode_escape, wide_escape, escape, escaped, quoted,
}

-- The reader that takes an escape back; it stands in proofs only.
unhex : ℕ → ℕ
unhex c = if ltb c 58 then c - 48 else c - 87

unhex-hex_digit : (d : ℕ) → d < 16 → unhex (hex_digit d) ≡ d
unfolding unhex hex_digit
unhex-hex_digit d h = ground arith

four : ℕ → ℕ → ℕ → ℕ → ℕ
four a b c d = unhex a * 4096 + unhex b * 256 + unhex c * 16 + unhex d

four_digits :
    (n : ℕ)
    → n < 65536
    → four
        (hex_digit (n / 4096))
        (hex_digit (n / 256 % 16))
        (hex_digit (n / 16 % 16))
        (hex_digit (n % 16))
      ≡ n
unfolding four
four_digits n h = omega (
  arith,
  unhex-hex_digit (n / 4096) (omega arith),
  unhex-hex_digit (n / 256 % 16) (omega arith),
  unhex-hex_digit (n / 16 % 16) (omega arith),
  unhex-hex_digit (n % 16) (omega arith),
)

abbrev Item : Type 0
Item = Option (Option ℕ × Bytes)

read_low : ℕ → Bytes → Item
read_low n (_ ∷ _ ∷ a ∷ b ∷ c ∷ d ∷ r) =
    some (some (65536 + (n - 55296) * 1024 + (four a b c d - 56320)), r)
read_low n _ = none

read_wide : ℕ → Bytes → Item
read_wide n r = if leb 55296 n && ltb n 56320 then read_low n r else some (some n, r)

read_unicode : Bytes → Item
read_unicode (a ∷ b ∷ c ∷ d ∷ r) = read_wide (four a b c d) r
read_unicode _ = none

short_escape : ℕ → ℕ
short_escape e =
    if eqb e b'b'
    then 8
    else if eqb e b'f'
    then 12
    else if eqb e b'n'
    then 10
    else if eqb e b'r'
    then 13
    else if eqb e b't'
    then 9
    else e

read_escape : Bytes → Item
read_escape [] = none
read_escape (e ∷ r) = if eqb e b'u' then read_unicode r else some (some (short_escape e), r)

read_item : Bytes → Item
read_item [] = none
read_item (c ∷ r) =
    if eqb c b'"' then some (none, r) else if eqb c b'\\' then read_escape r else some (some c, r)

scalar_cases : (n : ℕ) → IsScalar n → (n < 55296) ⊎ ((57343 < n) × (n < 1114112))
scalar_cases n h = ground arith

read_unicode-escape :
    (n : ℕ) (r : Bytes) → n < 65536 → read_item (unicode_escape n ++ r) ≡ read_wide n r
unfolding unicode_escape read_item read_escape read_unicode
read_unicode-escape n r h = ap (λ (m : ℕ). read_wide m r) (four_digits n h)

read_low-escape :
    (n m : ℕ) (r : Bytes)
    → m < 65536
    → read_low n (unicode_escape m ++ r) ≡ some (some (65536 + (n - 55296) * 1024 + (m - 56320)), r)
unfolding unicode_escape read_low
read_low-escape n m r h =
    ap (λ (k : ℕ). some (some (65536 + (n - 55296) * 1024 + (k - 56320)), r)) (four_digits m h)

read_wide_narrow : (c : ℕ) (r : Bytes) → IsScalar c → c < 65536 → read_wide c r ≡ some (some c, r)
unfolding read_wide
read_wide_narrow c r h s = ground arith

read_wide_high : (n : ℕ) (r : Bytes) → 55296 ≤ n → n < 56320 → read_wide n r ≡ read_low n r
unfolding read_wide
read_wide_high n r h s = ground arith

surrogates :
    (c : ℕ)
    → 65536 ≤ c
    → c < 1114112
    → 65536 + (55296 + (c - 65536) / 1024 - 55296) * 1024 + (56320 + (c - 65536) % 1024 - 56320) ≡ c
surrogates c h s = omega arith

read_item-pair :
    (c : ℕ) (r : Bytes)
    → 65536 ≤ c
    → c < 1114112
    → read_item (
        unicode_escape (55296 + (c - 65536) / 1024)
        ++ (unicode_escape (56320 + (c - 65536) % 1024) ++ r))
      ≡ some (some c, r)
read_item-pair c r h s =
    let hi = 55296 + (c - 65536) / 1024 in
    let lo = 56320 + (c - 65536) % 1024 in
    read_unicode-escape hi (unicode_escape lo ++ r) (omega arith)
    ∙ read_wide_high hi (unicode_escape lo ++ r) (omega arith) (omega arith)
    ∙ read_low-escape hi lo r (omega arith)
    ∙ ap (λ (k : ℕ). some (some k, r)) (surrogates c h s)

read_item-wide_escape :
    (c : ℕ) (r : Bytes) → IsScalar c → read_item (wide_escape c ++ r) ≡ some (some c, r)
unfolding wide_escape
read_item-wide_escape c r h = elim (Bool-cases (ltb c 65536)) [
  | inl small ↦
      rw small (read_unicode-escape c r (ground arith) ∙ read_wide_narrow c r h (ground arith))
  | inr big ↦ rw (big, append_assoc) (read_item-pair c r (ground arith) (ground arith))
]

read_item-escape : (c : ℕ) (r : Bytes) → IsScalar c → read_item (escape c ++ r) ≡ some (some c, r)
unfolding escape read_item read_escape short_escape
read_item-escape c r h = ground (arith, read_item-wide_escape c r h)

read_item-end : (r : Bytes) → read_item (b'"' ∷ r) ≡ some (none, r)
unfolding read_item
read_item-end r = refl

code-IsScalar : (c : Char) → IsScalar (code c)
code-IsScalar (char n p) = p

read_item-char :
    (c : Char) (u r : Bytes)
    → read_item ((escape (code c) ++ u) ++ r) ≡ some (some (code c), u ++ r)
read_item-char c u r = rw append_assoc (read_item-escape (code c) (u ++ r) (code-IsScalar c))

-- The characters behind an opening quote, and what follows the closing one, are determined.
escaped_injective :
    (s t : String) (r q : Bytes)
    → escaped (codes s) ++ (b'"' ∷ r) ≡ escaped (codes t) ++ (b'"' ∷ q)
    → (codes s ≡ codes t) × (r ≡ q)
unfolding escaped
escaped_injective String.[] String.[] r q e = (refl, cc (ap read_item e))
escaped_injective String.[] (String.◌∷◌ d t) r q e =
    cc (read_item-end r, read_item-char d (escaped (codes t)) (b'"' ∷ q), ap read_item e)
escaped_injective (String.◌∷◌ c s) String.[] r q e =
    cc (read_item-end q, read_item-char c (escaped (codes s)) (b'"' ∷ r), ap read_item e)
escaped_injective (String.◌∷◌ c s) (String.◌∷◌ d t) r q e =
    let items : some (some (code c), escaped (codes s) ++ (b'"' ∷ r))
        ≡ some (some (code d), escaped (codes t) ++ (b'"' ∷ q)) =
      sym (read_item-char c (escaped (codes s)) (b'"' ∷ r))
      ∙ ap read_item e
      ∙ read_item-char d (escaped (codes t)) (b'"' ∷ q) in
    let (same, rest) = escaped_injective s t r q (cc items) in (cc (items, same), rest)

-- A quoted text determines the text and the bytes that follow it.
pub quoted_injective : (s t : String) (r q : Bytes) → quoted s r ≡ quoted t q → (s ≡ t) × (r ≡ q)
unfolding quoted
quoted_injective s t r q e =
    let (same, rest) = escaped_injective s t r q (cc e) in (codes_injective s t same, rest)
