-- ===== src/Skeptic/Locate/Splits.antt =====
-- Where `find` and a word of the pattern stand in a text (`_locate` of tic-concept-chat/skeptic.py).
use treasury_intent_controll.Base.{
  ℕ, suc, ◌+◌, ◌≤◌, Bool, true, ◌&&◌, [], ◌∷◌, ◌++◌, some, eqb, eqb_iff, ◌≡◌, refl, sym, ◌∙◌, ap,
  ap₂, inl, inr, Bool-cases, arith,
}
use treasury_intent_controll.Skeptic.Locate.{Codes, length, is_prefix, find, skip_word}

pub append_assoc : (a b c : Codes) → ((a ++ b) ++ c) ≡ (a ++ (b ++ c))
append_assoc [] b c = refl
append_assoc (x ∷ a) b c = ap (λ l. x ∷ l) (append_assoc a b c)

pub append_length : (a b : Codes) → length (a ++ b) ≡ length a + length b
append_length [] b = omega arith
append_length (x ∷ a) b = rw (append_length a b) (omega arith)

same_code : (a b : ℕ) → some a ≡ some b → a ≡ b
same_code a b h = cc

pub same_codes : (a b : Codes) → some a ≡ some b → a ≡ b
same_codes a b h = cc

first_and : (a b : Bool) → (a && b) ≡ true → a ≡ true
first_and a b h = ground arith

second_and : (a b : Bool) → (a && b) ≡ true → b ≡ true
second_and a b h = ground arith

is_prefix-append :
    (quote doc : Codes) → is_prefix quote doc ≡ true → (rest : Codes) × (doc ≡ (quote ++ rest))
unfolding is_prefix
is_prefix-append [] doc h = (doc, refl)
is_prefix-append (c ∷ quote) [] h = cc h
is_prefix-append (c ∷ quote) (d ∷ doc) h =
    let w = is_prefix-append quote doc (second_and _ _ h) in
    (w.0, ap₂ (λ (x : ℕ) l. x ∷ l) (sym ((eqb_iff c d).0 (first_and _ _ h))) w.1)

-- The text has a middle part at these positions, counted from a start.
pub record Splits (start : ℕ) (doc middle : Codes) (at quote_end : ℕ) : Type 0 where
  pub before : Codes
  pub after : Codes
  pub is_doc : doc ≡ (before ++ (middle ++ after))
  pub starts : start + length before ≡ at
  pub ends : at + length middle ≡ quote_end

-- A part of the text ends within the text.
pub Splits-le :
    (doc middle : Codes) (at quote_end : ℕ)
    → Splits 0 doc middle at quote_end
    → quote_end ≤ length doc
Splits-le doc middle at quote_end s =
    sizes (length s.before) (length middle) (length s.after) (length doc) at quote_end s.starts
      s.ends
      (ap (λ l. length l) s.is_doc
        ∙ (append_length s.before (middle ++ s.after)
            ∙ ap (λ n. length s.before + n) (append_length middle s.after)))
  where
    sizes : (b m a d at q : ℕ) → 0 + b ≡ at → at + m ≡ q → d ≡ b + (m + a) → q ≤ d
    sizes b m a d at q e f g = omega arith

pub at_front :
    (start : ℕ) (doc middle after : Codes) (at quote_end : ℕ)
    → doc ≡ (middle ++ after)
    → start ≡ at
    → at + length middle ≡ quote_end
    → Splits start doc middle at quote_end
at_front start doc middle after at quote_end e s q = record {
  before = [];
  after = after;
  is_doc = e;
  starts = omega arith;
  ends = q;
}

pub further :
    (start : ℕ) (c : ℕ) (doc middle : Codes) (at quote_end : ℕ)
    → Splits (suc start) doc middle at quote_end
    → Splits start (c ∷ doc) middle at quote_end
further start c doc middle at quote_end w = record {
  before = c ∷ w.before;
  after = w.after;
  is_doc = ap (λ l. c ∷ l) w.is_doc;
  starts = one_more start (length w.before) at w.starts;
  ends = w.ends;
}
  where
    one_more : (s b a : ℕ) → suc s + b ≡ a → s + suc b ≡ a
    one_more s b a h = omega arith

pub find-Splits :
    (start : ℕ) (quote doc : Codes) (at : ℕ)
    → find start quote doc ≡ some at
    → Splits start doc quote at (at + length quote)
unfolding find
find-Splits start quote [] at h = elim (Bool-cases (is_prefix quote [])) [
  | inl e ↦
      let w = is_prefix-append quote [] e in
      at_front start [] quote w.0 at _ w.1 (same_code start at (sym (rw e refl) ∙ h)) refl
  | inr e ↦ cc (h, e)
]
find-Splits start quote (c ∷ doc) at h = elim (Bool-cases (is_prefix quote (c ∷ doc))) [
  | inl e ↦
      let w = is_prefix-append quote (c ∷ doc) e in
      at_front start (c ∷ doc) quote w.0 at _ w.1 (same_code start at (sym (rw e refl) ∙ h)) refl
  | inr e ↦
      further start c doc quote at _ (find-Splits (suc start) quote doc at (sym (rw e refl) ∙ h))
]

pub skip_word-append :
    (word doc rest : Codes) → skip_word word doc ≡ some rest → doc ≡ (word ++ rest)
unfolding skip_word
skip_word-append [] doc rest h = same_codes doc rest h
skip_word-append (c ∷ word) [] rest h = cc h
skip_word-append (c ∷ word) (d ∷ doc) rest h = elim (Bool-cases (eqb c d)) [
  | inl e ↦
      ap₂ (λ (x : ℕ) l. x ∷ l) (sym ((eqb_iff c d).0 e))
        (skip_word-append word doc rest (sym (rw e refl) ∙ h))
  | inr e ↦ cc (h, e)
]
