-- ===== src/Base/Utf8/Unique.antt =====
-- UTF-8 determines the text.
use Prim.Native.Char.{Char, char, code}
use treasury_intent_controll.Base.{
  ℕ, ◌+◌, ◌/◌, ◌%◌, ◌<◌, ◌≡◌, refl, sym, ◌∙◌, ap, ap₂, List, [], ◌∷◌, ◌++◌, String, codes,
  codes_injective, ltb, inl, inr, true, Bool-cases, arith,
}
use treasury_intent_controll.Base.Utf8.{utf8_char, utf8_codes, utf8}

code-lt : (c : Char) → code c < 1114112
code-lt (char n p) = ground arith

first_eq : {a b : ℕ} {s t : List ℕ} → ◌≡◌ {A = List ℕ} (a ∷ s) (b ∷ t) → a ≡ b
first_eq h = cc

rest_eq : {a b : ℕ} {s t : List ℕ} → ◌≡◌ {A = List ℕ} (a ∷ s) (b ∷ t) → s ≡ t
rest_eq h = cc

two_bytes : (c d : ℕ) → 192 + c / 64 ≡ 192 + d / 64 → 128 + c % 64 ≡ 128 + d % 64 → c ≡ d
two_bytes c d h k = omega arith

three_bytes :
    (c d : ℕ)
    → 224 + c / 4096 ≡ 224 + d / 4096
    → 128 + c / 64 % 64 ≡ 128 + d / 64 % 64
    → 128 + c % 64 ≡ 128 + d % 64
    → c ≡ d
three_bytes c d h k l = omega arith

four_bytes :
    (c d : ℕ)
    → 240 + c / 262144 ≡ 240 + d / 262144
    → 128 + c / 4096 % 64 ≡ 128 + d / 4096 % 64
    → 128 + c / 64 % 64 ≡ 128 + d / 64 % 64
    → 128 + c % 64 ≡ 128 + d % 64
    → c ≡ d
four_bytes c d h k l m = omega arith

-- The bytes of a character, by their number.
data Shape (c : ℕ) : Type 0 where
  one : c < 128 → utf8_char c ≡ (c ∷ []) → Shape c
  two : c < 2048 → utf8_char c ≡ ((192 + c / 64) ∷ (128 + c % 64) ∷ []) → Shape c
  three :
      c < 65536
      → utf8_char c ≡ ((224 + c / 4096) ∷ (128 + c / 64 % 64) ∷ (128 + c % 64) ∷ [])
      → Shape c
  four :
      c < 1114112
      → utf8_char c
        ≡ ((240 + c / 262144) ∷ (128 + c / 4096 % 64) ∷ (128 + c / 64 % 64) ∷ (128 + c % 64) ∷ [])
      → Shape c

ltb-lt : (a b : ℕ) → ltb a b ≡ true → a < b
ltb-lt a b h = ground arith

shape_of : (c : ℕ) → c < 1114112 → Shape c
unfolding utf8_char
shape_of c h = elim (Bool-cases (ltb c 128)) [
  | inl e ↦ one (ltb-lt c 128 e) (rw e refl)
  | inr e ↦ elim (Bool-cases (ltb c 2048)) [
    | inl f ↦ two (ltb-lt c 2048 f) (rw (e, f) refl)
    | inr f ↦ elim (Bool-cases (ltb c 65536)) [
      | inl g ↦ three (ltb-lt c 65536 g) (rw (e, f, g) refl)
      | inr g ↦ four h (rw (e, f, g) refl)
    ]
  ]
]

between :
    {c d : List ℕ} (x y s t : List ℕ) → x ≡ c → y ≡ d → (x ++ s) ≡ (y ++ t) → (c ++ s) ≡ (d ++ t)
between {c = c} {d = d} x y s t e f h = sym (ap (λ l. l ++ s) e) ∙ (h ∙ ap (λ l. l ++ t) f)

-- A first byte tells the shapes apart.
one_two : (c x : ℕ) → c < 128 → c ≡ 192 + x → ⊥
one_two c x b h = omega arith

one_three : (c x : ℕ) → c < 128 → c ≡ 224 + x → ⊥
one_three c x b h = omega arith

one_four : (c x : ℕ) → c < 128 → c ≡ 240 + x → ⊥
one_four c x b h = omega arith

two_three : (c x : ℕ) → c < 2048 → 192 + c / 64 ≡ 224 + x → ⊥
two_three c x b h = omega arith

two_four : (c x : ℕ) → c < 2048 → 192 + c / 64 ≡ 240 + x → ⊥
two_four c x b h = omega arith

three_four : (c x : ℕ) → c < 65536 → 224 + c / 4096 ≡ 240 + x → ⊥
three_four c x b h = omega arith

-- A character is read off the front of the bytes.
utf8_char-front :
    (c d : ℕ) (s t : List ℕ)
    → Shape c
    → Shape d
    → (utf8_char c ++ s) ≡ (utf8_char d ++ t)
    → (c ≡ d) × (s ≡ t)
utf8_char-front c d s t (one b e) (one k f) h =
    let q = between (utf8_char c) (utf8_char d) s t e f h in (first_eq q, rest_eq q)
utf8_char-front c d s t (two b e) (two k f) h =
    let q = between (utf8_char c) (utf8_char d) s t e f h in
    let q1 = rest_eq q in (two_bytes c d (first_eq q) (first_eq q1), rest_eq q1)
utf8_char-front c d s t (three b e) (three k f) h =
    let q = between (utf8_char c) (utf8_char d) s t e f h in
    let q1 = rest_eq q in
    let q2 = rest_eq q1 in (three_bytes c d (first_eq q) (first_eq q1) (first_eq q2), rest_eq q2)
utf8_char-front c d s t (four b e) (four k f) h =
    let q = between (utf8_char c) (utf8_char d) s t e f h in
    let q1 = rest_eq q in
    let q2 = rest_eq q1 in
    let q3 = rest_eq q2 in
    (four_bytes c d (first_eq q) (first_eq q1) (first_eq q2) (first_eq q3), rest_eq q3)
utf8_char-front c d s t (one b e) (two k f) h =
    absurd (one_two c (d / 64) b (first_eq (between (utf8_char c) (utf8_char d) s t e f h)))
utf8_char-front c d s t (two b e) (one k f) h =
    absurd (one_two d (c / 64) k (first_eq (between (utf8_char d) (utf8_char c) t s f e (sym h))))
utf8_char-front c d s t (one b e) (three k f) h =
    absurd (one_three c (d / 4096) b (first_eq (between (utf8_char c) (utf8_char d) s t e f h)))
utf8_char-front c d s t (three b e) (one k f) h =
    absurd
      (one_three d (c / 4096) k (first_eq (between (utf8_char d) (utf8_char c) t s f e (sym h))))
utf8_char-front c d s t (one b e) (four k f) h =
    absurd (one_four c (d / 262144) b (first_eq (between (utf8_char c) (utf8_char d) s t e f h)))
utf8_char-front c d s t (four b e) (one k f) h =
    absurd
      (one_four d (c / 262144) k (first_eq (between (utf8_char d) (utf8_char c) t s f e (sym h))))
utf8_char-front c d s t (two b e) (three k f) h =
    absurd (two_three c (d / 4096) b (first_eq (between (utf8_char c) (utf8_char d) s t e f h)))
utf8_char-front c d s t (three b e) (two k f) h =
    absurd
      (two_three d (c / 4096) k (first_eq (between (utf8_char d) (utf8_char c) t s f e (sym h))))
utf8_char-front c d s t (two b e) (four k f) h =
    absurd (two_four c (d / 262144) b (first_eq (between (utf8_char c) (utf8_char d) s t e f h)))
utf8_char-front c d s t (four b e) (two k f) h =
    absurd
      (two_four d (c / 262144) k (first_eq (between (utf8_char d) (utf8_char c) t s f e (sym h))))
utf8_char-front c d s t (three b e) (four k f) h =
    absurd (three_four c (d / 262144) b (first_eq (between (utf8_char c) (utf8_char d) s t e f h)))
utf8_char-front c d s t (four b e) (three k f) h =
    absurd
      (three_four d (c / 262144) k (first_eq (between (utf8_char d) (utf8_char c) t s f e (sym h))))

no_nil : {a : ℕ} {s : List ℕ} → ◌≡◌ {A = List ℕ} (a ∷ s) [] → ⊥
no_nil h = cc h

utf8_char-nonempty : (c : ℕ) (s : List ℕ) → Shape c → (utf8_char c ++ s) ≡ [] → ⊥
utf8_char-nonempty c s (one b e) h = no_nil (sym (ap (λ l. l ++ s) e) ∙ h)
utf8_char-nonempty c s (two b e) h = no_nil (sym (ap (λ l. l ++ s) e) ∙ h)
utf8_char-nonempty c s (three b e) h = no_nil (sym (ap (λ l. l ++ s) e) ∙ h)
utf8_char-nonempty c s (four b e) h = no_nil (sym (ap (λ l. l ++ s) e) ∙ h)

shape_at : (c : Char) → Shape (code c)
shape_at c = shape_of (code c) (code-lt c)

utf8_codes_injective :
    (s t : String) → utf8_codes (codes s) ≡ utf8_codes (codes t) → codes s ≡ codes t
unfolding utf8_codes
utf8_codes_injective String.[] String.[] h = refl
utf8_codes_injective String.[] (String.◌∷◌ d t) h =
    absurd (utf8_char-nonempty (code d) (utf8_codes (codes t)) (shape_at d) (sym h))
utf8_codes_injective (String.◌∷◌ c s) String.[] h =
    absurd (utf8_char-nonempty (code c) (utf8_codes (codes s)) (shape_at c) h)
utf8_codes_injective (String.◌∷◌ c s) (String.◌∷◌ d t) h =
    let w =
      utf8_char-front (code c) (code d) (utf8_codes (codes s)) (utf8_codes (codes t)) (shape_at c)
        (shape_at d) h in
    ap₂ (λ (x : ℕ) l. x ∷ l) w.0 (utf8_codes_injective s t w.1)

-- Two texts with the same bytes are the same text.
pub utf8_injective : (s t : String) → utf8 s ≡ utf8 t → s ≡ t
unfolding utf8
utf8_injective s t h = codes_injective s t (utf8_codes_injective s t h)
