-- ===== src/Verifier/Encoding/Unique.antt =====
-- The hashed bytes of a history (verifier/pyverifier/verify.py) determine it.
use treasury_intent_controll.Base.{
  ℕ, zero, suc, ◌+◌, ◌-◌, ◌*◌, ◌/◌, ◌%◌, ◌<◌, ◌≡◌, refl, sym, ◌∙◌, ap, ap₂, true, false, eqb, ltb,
  if◌then◌else◌, List, [], ◌∷◌, ◌++◌, Option, none, some, inl, inr, Bool-cases, arith,
}
use treasury_intent_controll.Base.Utf8.{utf8}
use treasury_intent_controll.Base.Utf8.Unique.{utf8_injective}
use treasury_intent_controll.Json.Text.{Bytes}
use treasury_intent_controll.Verifier.Encoding.{Event, digits, decimal, length, write_field, encode}

-- A number up to the next colon, and what is behind the colon.
read_number : ℕ → Bytes → Option (ℕ × Bytes)
read_number n [] = none
read_number n (b ∷ rest) =
    let further = read_number (n * 10 + (b - 48)) rest in
    if eqb b 58 then some (n, rest) else further

read-digit :
    (m n : ℕ) (rest : Bytes)
    → n < 10
    → read_number m ((48 + n) ∷ rest) ≡ read_number (m * 10 + n) rest
unfolding read_number
read-digit m n rest h = rw (no_colon n h) (ap (λ k. read_number k rest) (same_value m n))
  where
    no_colon : (n : ℕ) → n < 10 → eqb (48 + n) 58 ≡ false
    no_colon n h = ground arith

    same_value : (m n : ℕ) → m * 10 + (48 + n - 48) ≡ m * 10 + n
    same_value m n = omega arith

-- With more fuel than the number, its digits are read back.
read-digits :
    (fuel n : ℕ) (rest : Bytes) → n < fuel → read_number 0 (digits fuel n rest) ≡ read_number n rest
unfolding digits
read-digits zero n rest h = absurd (impossible n h)
  where
    impossible : (n : ℕ) → n < 0 → ⊥
    impossible n h = omega arith
read-digits (suc fuel) n rest h = elim (Bool-cases (ltb n 10)) [
  | inl e ↦ rw e (read-digit 0 n rest (small n e) ∙ ap (λ k. read_number k rest) (from_zero n))
  | inr e ↦ rw e (
      read-digits fuel (n / 10) ((48 + n % 10) ∷ rest) (smaller n fuel e h)
      ∙ (read-digit (n / 10) (n % 10) rest (remainder n)
          ∙ ap (λ k. read_number k rest) (divided n)))
]
  where
    small : (n : ℕ) → ltb n 10 ≡ true → n < 10
    small n e = ground arith

    from_zero : (n : ℕ) → 0 * 10 + n ≡ n
    from_zero n = omega arith

    at_least_ten : (n : ℕ) → ltb n 10 ≡ false → 9 < n
    at_least_ten n e = ground arith

    halved : (n f : ℕ) → 9 < n → n < suc f → n / 10 < f
    halved n f a h = omega arith

    smaller : (n f : ℕ) → ltb n 10 ≡ false → n < suc f → n / 10 < f
    smaller n f e h = halved n f (at_least_ten n e) h

    remainder : (n : ℕ) → n % 10 < 10
    remainder n = omega arith

    divided : (n : ℕ) → n / 10 * 10 + n % 10 ≡ n
    divided n = omega arith

digits-append :
    (fuel n : ℕ) (rest tail : Bytes) → (digits fuel n rest ++ tail) ≡ digits fuel n (rest ++ tail)
unfolding digits
digits-append zero n rest tail = refl
digits-append (suc fuel) n rest tail = elim (Bool-cases (ltb n 10)) [
  | inl e ↦ rw e refl
  | inr e ↦ rw e (digits-append fuel (n / 10) ((48 + n % 10) ∷ rest) tail)
]

-- A number in front of a colon is read back.
read-decimal : (n : ℕ) (rest : Bytes) → read_number 0 (decimal n ++ (58 ∷ rest)) ≡ some (n, rest)
unfolding decimal read_number
read-decimal n rest =
    ap (λ l. read_number 0 l) (digits-append (suc n) n [] (58 ∷ rest))
    ∙ read-digits (suc n) n (58 ∷ rest) (omega arith)

same_number :
    (a b : ℕ) (s t : Bytes) → ◌≡◌ {A = Option (ℕ × Bytes)} (some (a, s)) (some (b, t)) → a ≡ b
same_number a b s t h = cc h

same_rest :
    (a b : ℕ) (s t : Bytes) → ◌≡◌ {A = Option (ℕ × Bytes)} (some (a, s)) (some (b, t)) → s ≡ t
same_rest a b s t h = cc h

decimal_injective : (a b : ℕ) → decimal a ≡ decimal b → a ≡ b
decimal_injective a b h =
    same_number a b [] []
      (sym (read-decimal a []) ∙ (ap (λ l. read_number 0 (l ++ (58 ∷ []))) h ∙ read-decimal b []))

first_eq : {a b : ℕ} {s t : Bytes} → ◌≡◌ {A = Bytes} (a ∷ s) (b ∷ t) → a ≡ b
first_eq h = cc

rest_eq : {a b : ℕ} {s t : Bytes} → ◌≡◌ {A = Bytes} (a ∷ s) (b ∷ t) → s ≡ t
rest_eq h = cc

-- Two fronts of one length.
same_length-append :
    (a b s t : Bytes) → length a ≡ length b → (a ++ s) ≡ (b ++ t) → (a ≡ b) × (s ≡ t)
same_length-append [] [] s t n h = (refl, h)
same_length-append [] (y ∷ b) s t n h = absurd (nonzero (length b) n)
  where
    nonzero : (k : ℕ) → 0 ≡ suc k → ⊥
    nonzero k h = omega arith
same_length-append (x ∷ a) [] s t n h = absurd (nonzero (length a) n)
  where
    nonzero : (k : ℕ) → suc k ≡ 0 → ⊥
    nonzero k h = omega arith
same_length-append (x ∷ a) (y ∷ b) s t n h =
    let w = same_length-append a b s t (pred_eq _ _ n) (rest_eq h) in
    (ap₂ (λ (z : ℕ) l. z ∷ l) (first_eq h) w.0, w.1)
  where
    pred_eq : (k m : ℕ) → suc k ≡ suc m → k ≡ m
    pred_eq k m h = omega arith

-- A field is read off the front of the bytes.
write_field-front : (a b s t : Bytes) → write_field a s ≡ write_field b t → (a ≡ b) × (s ≡ t)
unfolding write_field
write_field-front a b s t h =
    let e =
      sym (read-decimal (length a) (a ++ (10 ∷ s)))
      ∙ (ap (λ l. read_number 0 l) h ∙ read-decimal (length b) (b ++ (10 ∷ t))) in
    let w =
      same_length-append a b (10 ∷ s) (10 ∷ t) (same_number _ _ _ _ e) (same_rest _ _ _ _ e) in
    (w.0, rest_eq w.1)

write_field-nonempty : (a s : Bytes) → write_field a s ≡ [] → ⊥
unfolding write_field
write_field-nonempty a s h =
    no_number _ (sym (read-decimal (length a) (a ++ (10 ∷ s))) ∙ ap (λ l. read_number 0 l) h)
  where
    no_number : (x : ℕ × Bytes) → some x ≡ read_number 0 [] → ⊥
    no_number x e = unfold read_number in cc e

same_event :
    (e f : Event) → e.intent_seq ≡ f.intent_seq → e.type ≡ f.type → e.detail ≡ f.detail → e ≡ f
same_event e f h k l = λ i. record { intent_seq = h i; type = k i; detail = l i }

-- Two histories with the same bytes are the same history.
pub encode_injective : (h k : List Event) → encode h ≡ encode k → h ≡ k
unfolding encode
encode_injective [] [] q = refl
encode_injective [] (f ∷ k) q = absurd (write_field-nonempty _ _ (sym q))
encode_injective (e ∷ h) [] q = absurd (write_field-nonempty _ _ q)
encode_injective (e ∷ h) (f ∷ k) q =
    let a = write_field-front (decimal e.intent_seq) (decimal f.intent_seq) _ _ q in
    let b = write_field-front (utf8 e.type) (utf8 f.type) _ _ a.1 in
    let c = write_field-front (utf8 e.detail) (utf8 f.detail) _ _ b.1 in
    ap₂ (λ (x : Event) l. x ∷ l)
      (same_event e f (decimal_injective _ _ a.0) (utf8_injective _ _ b.0) (utf8_injective _ _ c.0))
      (encode_injective h k c.1)
