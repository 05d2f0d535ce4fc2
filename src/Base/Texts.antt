-- ===== src/Base/Texts.antt =====
-- Texts: the code points of a text, and the tests that the program makes on texts.
use Prim.Native.Nat.{ℕ}
use Prim.Native.Char.{code}
use Prim.Native.String.{String, ◌++◌}
use mathlib.Core.Path.{◌≡◌, refl, sym, ◌∙◌, ap, ap₂}
use mathlib.Core.Logic.{◌≢◌, inl, inr}
use mathlib.Core.Bool.{Bool, true, false, not, ◌||◌}
use mathlib.Core.List.{List, [], ◌∷◌}
use native.Mathlib.Omega.{arith}
use text.Mathlib.Text.{◌==◌, starts_with}
use text.Mathlib.TextEquality.{Char-path, eq_iff, starts_with_iff}
use text.Mathlib.TextLemmas.{
  cons-append, append-nil, append_assoc, append_cancel_left, head-eq_of_cons-eq, tail-eq_of_cons-eq,
}
use text.Mathlib.TextPositions.{starts_with_of_prefix}
use treasury_intent_controll.Base.Tests.{eqb, Bool-cases}

-- The code points of a text.
abbrev pub codes : String → List ℕ
codes String.[] = []
codes (String.◌∷◌ first others) = code first ∷ codes others

head_eq : {a b : ℕ} {s t : List ℕ} → ◌≡◌ {A = List ℕ} (a ∷ s) (b ∷ t) → a ≡ b
head_eq h = cc

tail_eq : {a b : ℕ} {s t : List ℕ} → ◌≡◌ {A = List ℕ} (a ∷ s) (b ∷ t) → s ≡ t
tail_eq h = cc

-- A text is determined by its code points.
pub codes_injective : (s t : String) → codes s ≡ codes t → s ≡ t
codes_injective String.[] String.[] h = refl
codes_injective String.[] (String.◌∷◌ d t) h = cc
codes_injective (String.◌∷◌ c s) String.[] h = cc
codes_injective (String.◌∷◌ c s) (String.◌∷◌ d t) h =
    ap₂ String.◌∷◌ (Char-path c d (head_eq h)) (codes_injective s t (tail_eq h))

-- `ch in s` for one character, by its code.
abbrev pub has_code : ℕ → String → Bool
has_code n String.[] = false
has_code n (String.◌∷◌ c s) = eqb (code c) n || has_code n s

has_code-append : (n : ℕ) (s t : String) → has_code n s ≡ true → has_code n (s ++ t) ≡ true
has_code-append n String.[] t h = cc
has_code-append n (String.◌∷◌ c s) t h = rw cons-append (ground (arith, has_code-append n s t))

-- A text that begins with `p` has the characters of `p`.
pub has_code-prefix :
    (n : ℕ) (s p : String) → has_code n p ≡ true → starts_with s p ≡ true → has_code n s ≡ true
has_code-prefix n s p h e =
    let (u, q) = (starts_with_iff s p).0 e in rw q at (has_code-append n p u h)

-- A text and a fresh text are told apart by a test.
pub eq-false : (s t : String) → s ≢ t → (s == t) ≡ false
eq-false s t h = elim (Bool-cases (s == t)) [ inl e ↦ absurd (h ((eq_iff s t).0 e)) | inr e ↦ e ]

-- Under a common front, a prefix test is the test on the rests.
starts_with-cancel :
    (p q n : String) → starts_with (p ++ n) (p ++ q) ≡ true → starts_with n q ≡ true
starts_with-cancel p q n h =
    let (u, e) = (starts_with_iff (p ++ n) (p ++ q)).0 h in
    starts_with_of_prefix q n (u, append_cancel_left p (q ++ u) n (sym (append_assoc p q u) ∙ e))

-- A text without the character does not begin, behind a front, with a text that has it.
pub starts_with-lacks :
    (k : ℕ) (p q n : String)
    → has_code k q ≡ true
    → has_code k n ≡ false
    → starts_with (p ++ n) (p ++ q) ≡ false
starts_with-lacks k p q n h l = elim (Bool-cases (starts_with (p ++ n) (p ++ q))) [
  | inl e ↦ cc (has_code-prefix k n q h (starts_with-cancel p q n e))
  | inr e ↦ e
]

-- Under a common front, fresh texts are told apart.
pub eq-append_false : (p q n : String) → n ≢ q → ((p ++ n) == (p ++ q)) ≡ false
eq-append_false p q n h = eq-false (p ++ n) (p ++ q) (λ e. h (append_cancel_left p n q e))

-- Two texts differ at a place that both have.
abbrev pub clash : String → String → Bool
clash (String.◌∷◌ c s) (String.◌∷◌ d t) = not (eqb (code c) (code d)) || clash s t
clash _ _ = false

clash_parts : (p q u v : String) → p ++ u ≡ q ++ v → clash p q ≡ true → ⊥
clash_parts String.[] String.[] u v e h = cc
clash_parts String.[] (String.◌∷◌ d t) u v e h = cc
clash_parts (String.◌∷◌ c s) String.[] u v e h = cc
clash_parts (String.◌∷◌ c s) (String.◌∷◌ d t) u v e h =
    let e' = sym (cons-append c s u) ∙ e ∙ cons-append d t v in
    ground (arith, ap code (head-eq_of_cons-eq e'), clash_parts s t u v (tail-eq_of_cons-eq e'))

-- A text behind one front does not begin with a front that clashes with it.
pub starts_with-clash : (p q n : String) → clash p q ≡ true → starts_with (p ++ n) q ≡ false
starts_with-clash p q n h = elim (Bool-cases (starts_with (p ++ n) q)) [
  | inl e ↦ let (u, r) = (starts_with_iff (p ++ n) q).0 e in absurd (clash_parts p q n u (sym r) h)
  | inr e ↦ e
]

-- Nor is it equal to such a front.
pub eq-clash : (p q n : String) → clash p q ≡ true → ((p ++ n) == q) ≡ false
eq-clash p q n h = eq-false (p ++ n) q (λ e. clash_parts p q n String.[] (e ∙ sym (append-nil q)) h)
