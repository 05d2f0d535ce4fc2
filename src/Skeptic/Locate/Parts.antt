-- ===== src/Skeptic/Locate/Parts.antt =====
-- The parts of a text, and of the lines around a span of it (`doc_windows` of
-- tic-concept-chat/skeptic.py).
use treasury_intent_controll.Base.{
  ℕ, zero, suc, ◌-◌, ◌+◌, ◌≤◌, [], ◌∷◌, ◌++◌, eqb, ◌≡◌, refl, sym, ◌∙◌, ap, inl, inr, Bool-cases,
  arith,
}
use treasury_intent_controll.Skeptic.Locate.{
  Codes, length, take, drop, strip_front, add_back, strip_back, window_start, window_end, window,
}
use treasury_intent_controll.Skeptic.Locate.Splits.{append_assoc, Splits}

-- A part of a text.
pub record IsPart (doc part : Codes) : Type 0 where
  pub before : Codes
  pub after : Codes
  pub is_doc : doc ≡ (before ++ (part ++ after))

append_nil : (s : Codes) → s ≡ (s ++ [])
append_nil [] = refl
append_nil (c ∷ s) = ap (λ l. c ∷ l) (append_nil s)

whole-IsPart : (s : Codes) → IsPart s s
whole-IsPart s = record { before = []; after = []; is_doc = append_nil s }

pub cons-IsPart : (c : ℕ) (s part : Codes) → IsPart s part → IsPart (c ∷ s) part
cons-IsPart c s part p = record {
  before = c ∷ p.before;
  after = p.after;
  is_doc = ap (λ l. c ∷ l) p.is_doc;
}

-- A part of a part.
IsPart-of_IsPart : (doc s part : Codes) → IsPart doc s → IsPart s part → IsPart doc part
IsPart-of_IsPart doc s part p q = record {
  before = p.before ++ q.before;
  after = q.after ++ p.after;
  is_doc =
      p.is_doc
      ∙ (ap (λ l. p.before ++ (l ++ p.after)) q.is_doc
          ∙ (ap (λ l. p.before ++ l) (append_assoc q.before (part ++ q.after) p.after)
              ∙ (sym (append_assoc p.before q.before ((part ++ q.after) ++ p.after))
                  ∙ ap (λ l. (p.before ++ q.before) ++ l) (append_assoc part q.after p.after))));
}

drop-IsPart : (n : ℕ) (s : Codes) → IsPart s (drop n s)
drop-IsPart zero s = whole-IsPart s
drop-IsPart (suc n) [] = whole-IsPart []
drop-IsPart (suc n) (c ∷ s) = cons-IsPart c s (drop n s) (drop-IsPart n s)

take-drop : (n : ℕ) (s : Codes) → s ≡ (take n s ++ drop n s)
take-drop zero s = refl
take-drop (suc n) [] = refl
take-drop (suc n) (c ∷ s) = ap (λ l. c ∷ l) (take-drop n s)

take-IsPart : (n : ℕ) (s : Codes) → IsPart s (take n s)
take-IsPart n s = record { before = []; after = drop n s; is_doc = take-drop n s }

strip_front-IsPart : (s : Codes) → IsPart s (strip_front s)
strip_front-IsPart [] = whole-IsPart []
strip_front-IsPart (c ∷ s) = elim (Bool-cases (eqb c b'\n')) [
  | inl e ↦ rw e (cons-IsPart c s (strip_front s) (strip_front-IsPart s))
  | inr e ↦ rw e (whole-IsPart (c ∷ s))
]

-- What `strip_back` leaves stands at the front.
pub record IsFront (s front : Codes) : Type 0 where
  pub after : Codes
  pub is_text : s ≡ (front ++ after)

add_back-IsFront : (c : ℕ) (s front : Codes) → IsFront s front → IsFront (c ∷ s) (add_back c front)
add_back-IsFront c s [] p = elim (Bool-cases (eqb c b'\n')) [
  | inl e ↦ rw e (record { after = c ∷ s; is_text = refl })
  | inr e ↦ rw e (record { after = s; is_text = refl })
]
add_back-IsFront c s (d ∷ front) p = record { after = p.after; is_text = ap (λ l. c ∷ l) p.is_text }

strip_back-IsFront : (s : Codes) → IsFront s (strip_back s)
strip_back-IsFront [] = record { after = []; is_text = refl }
strip_back-IsFront (c ∷ s) = add_back-IsFront c s (strip_back s) (strip_back-IsFront s)

strip_back-IsPart : (s : Codes) → IsPart s (strip_back s)
strip_back-IsPart s =
    let f = strip_back-IsFront s in record { before = []; after = f.after; is_doc = f.is_text }

-- The window is a part of the document.
pub window-IsPart :
    (radius : ℕ) (doc : Codes) (at quote_end : ℕ) → IsPart doc (window radius doc (at, quote_end))
window-IsPart radius doc at quote_end =
    let start = window_start radius doc at in
    let size = window_end radius doc quote_end - start in
    let lines = take size (drop start doc) in
    IsPart-of_IsPart doc (drop start doc) _ (drop-IsPart start doc) (
      IsPart-of_IsPart (drop start doc) lines _ (take-IsPart size (drop start doc)) (
        IsPart-of_IsPart lines (strip_front lines) _ (strip_front-IsPart lines)
          (strip_back-IsPart (strip_front lines))))

drop-append : (n : ℕ) (a b : Codes) → n ≤ length a → drop n (a ++ b) ≡ (drop n a ++ b)
drop-append zero a b h = refl
drop-append (suc n) [] b h = absurd (omega arith)
drop-append (suc n) (c ∷ a) b h = drop-append n a b (omega arith)

length-drop : (n : ℕ) (a : Codes) → length (drop n a) ≡ length a - n
length-drop zero a = omega arith
length-drop (suc n) [] = omega arith
length-drop (suc n) (c ∷ a) = omega (arith, length-drop n a)

take-append : (n : ℕ) (a b : Codes) → length a ≤ n → take n (a ++ b) ≡ (a ++ take (n - length a) b)
take-append n [] b h = ap (λ k. take k b) same
  where
    same : n ≡ n - 0
    same = omega arith
take-append zero (c ∷ a) b h = absurd (omega arith)
take-append (suc n) (c ∷ a) b h =
    ap (λ l. c ∷ l) (take-append n a b (omega arith) ∙ ap (λ k. a ++ take k b) (both (length a)))
  where
    both : (m : ℕ) → n - m ≡ suc n - suc m
    both m = omega arith

-- The lines from `start` to `stop` around a part of the text have that part.
pub slice-IsPart :
    (doc middle : Codes) (at quote_end start stop : ℕ)
    → Splits 0 doc middle at quote_end
    → start ≤ at
    → quote_end ≤ stop
    → IsPart (take (stop - start) (drop start doc)) middle
slice-IsPart doc middle at quote_end start stop s h k =
    let front = drop start s.before in
    let l = length-drop start s.before in
    record {
      before = front;
      after = take ((stop - start) - length front - length middle) s.after;
      is_doc =
          ap (λ d. take (stop - start) (drop start d)) s.is_doc
          ∙ (ap (λ d. take (stop - start) d)
                (drop-append start s.before (middle ++ s.after)
                  (reaches (length s.before) s.starts))
              ∙ (take-append (stop - start) front (middle ++ s.after)
                    (fits (length s.before) (length front) (length middle) l s.starts s.ends)
                  ∙ ap (λ d. front ++ d)
                      (take-append ((stop - start) - length front) middle s.after (
                        fits_on (length s.before) (length front) (length middle) l s.starts
                          s.ends))));
    }
  where
    reaches : (b : ℕ) → 0 + b ≡ at → start ≤ b
    reaches b e = omega arith

    fits : (b f m : ℕ) → f ≡ b - start → 0 + b ≡ at → at + m ≡ quote_end → f ≤ stop - start
    fits b f m l e q = omega arith

    fits_on : (b f m : ℕ) → f ≡ b - start → 0 + b ≡ at → at + m ≡ quote_end → m ≤ (stop - start) - f
    fits_on b f m l e q = omega arith
