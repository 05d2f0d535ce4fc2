-- ===== src/Skeptic/Locate/Words.antt =====
-- The words of a quote and what their pattern matches (`_locate` of tic-concept-chat/skeptic.py).
use treasury_intent_controll.Base.{
  ℕ, Bool, true, false, List, [], ◌∷◌, ◌++◌, Option, none, some, ◌≡◌, refl, sym, ◌∙◌, ap, inl, inr,
  Bool-cases,
}
use treasury_intent_controll.Skeptic.Locate.{
  Codes, extend, begins_word, split, skip_spaces, skip_gap, skip_word, match_words,
}
use treasury_intent_controll.Skeptic.Locate.Splits.{append_assoc, same_codes, skip_word-append}

module _ (is_space : ℕ → Bool) where
  -- A letter, and a text of letters alone.
  abbrev pub AllLetters : Codes → Type 0
  AllLetters [] = Unit
  AllLetters (c ∷ word) = (is_space c ≡ false) × AllLetters word

  abbrev pub IsWord : Codes → Type 0
  IsWord [] = ⊥
  IsWord (c ∷ word) = (is_space c ≡ false) × AllLetters word

  abbrev pub AllWords : List Codes → Type 0
  AllWords [] = Unit
  AllWords (word ∷ words) = IsWord word × AllWords words

  IsWord-AllLetters : (word : Codes) → IsWord word → AllLetters word
  IsWord-AllLetters [] h = absurd h
  IsWord-AllLetters (c ∷ word) h = h

  extend-AllWords :
      (c : ℕ) (words : List Codes) → is_space c ≡ false → AllWords words → AllWords (extend c words)
  extend-AllWords c [] e h = ((e, tt), tt)
  extend-AllWords c (word ∷ words) e h = ((e, IsWord-AllLetters word h.0), h.1)

  pub split-AllWords : (s : Codes) → AllWords (split is_space s)
  unfolding split
  split-AllWords [] = tt
  split-AllWords (c ∷ s) = elim (Bool-cases (is_space c)) [
    | inl e ↦ rw e (split-AllWords s)
    | inr e ↦ elim (Bool-cases (begins_word is_space s)) [
      | inl b ↦ rw (e, b) (extend-AllWords c (split is_space s) e (split-AllWords s))
      | inr b ↦ rw (e, b) ((e, tt), split-AllWords s)
    ]
  ]

  split-extend :
      (c : ℕ) (s : Codes)
      → is_space c ≡ false
      → begins_word is_space s ≡ true
      → split is_space (c ∷ s) ≡ extend c (split is_space s)
  unfolding split
  split-extend c s e b = rw (e, b) refl

  -- A word in front of white space, or of the end, is the first of the words.
  split-word :
      (c : ℕ) (word s : Codes)
      → is_space c ≡ false
      → AllLetters word
      → begins_word is_space s ≡ false
      → split is_space ((c ∷ word) ++ s) ≡ ((c ∷ word) ∷ split is_space s)
  unfolding split
  split-word c [] s e h b = rw (e, b) refl
  split-word c (d ∷ word) s e h b =
      split-extend c ((d ∷ word) ++ s) e (rw h.0 refl)
      ∙ ap (λ words. extend c words) (split-word d word s h.0 h.1 b)

  skip_spaces-split :
      (doc : Codes)
      → (gap : Codes) × (doc ≡ (gap ++ skip_spaces is_space doc))
        × ((s : Codes) → split is_space (gap ++ s) ≡ split is_space s)
  unfolding split
  skip_spaces-split [] = ([], refl, λ s. refl)
  skip_spaces-split (c ∷ doc) = elim (Bool-cases (is_space c)) [
    | inl e ↦
        let w = skip_spaces-split doc in (c ∷ w.0, rw e (ap (λ l. c ∷ l) w.1), λ s. rw e (w.2 s))
    | inr e ↦ ([], rw e refl, λ s. refl)
  ]

  -- White space, whatever follows it.
  record IsGap (doc rest : Codes) : Type 0 where
    gap : Codes
    is_doc : doc ≡ (gap ++ rest)
    blank : (s : Codes) → split is_space (gap ++ s) ≡ split is_space s
    ends_word : (s : Codes) → begins_word is_space (gap ++ s) ≡ false

  skip_gap-IsGap : (doc rest : Codes) → skip_gap is_space doc ≡ some rest → IsGap doc rest
  unfolding split
  skip_gap-IsGap [] rest h = cc h
  skip_gap-IsGap (c ∷ doc) rest h = elim (Bool-cases (is_space c)) [
    | inl e ↦
        let w = skip_spaces-split doc in
        let same = same_codes (skip_spaces is_space doc) rest (sym (rw e refl) ∙ h) in
        record {
          gap = c ∷ w.0;
          is_doc = ap (λ l. c ∷ l) (w.1 ∙ ap (λ l. w.0 ++ l) same);
          blank = λ s. rw e (w.2 s);
          ends_word = λ s. rw e refl;
        }
    | inr e ↦ cc (h, e)
  ]

  -- What a pattern matched: a text of just these words.
  pub record Matches (words : List Codes) (doc rest : Codes) : Type 0 where
    pub middle : Codes
    pub is_doc : doc ≡ (middle ++ rest)
    pub same_words : split is_space middle ≡ words

  append_nil : (s : Codes) → (s ++ []) ≡ s
  append_nil [] = refl
  append_nil (c ∷ s) = ap (λ l. c ∷ l) (append_nil s)

  word_then :
      (word s : Codes)
      → IsWord word
      → begins_word is_space s ≡ false
      → split is_space (word ++ s) ≡ (word ∷ split is_space s)
  word_then [] s h b = absurd h
  word_then (c ∷ word) s h b = split-word c word s h.0 h.1 b

  word_alone : (word : Codes) → IsWord word → split is_space word ≡ (word ∷ [])
  unfolding split
  word_alone word h = ap (λ s. split is_space s) (sym (append_nil word)) ∙ word_then word [] h refl

  pub match_words-Matches :
      (words : List Codes) (doc rest : Codes)
      → AllWords words
      → match_words is_space words doc ≡ some rest
      → Matches words doc rest
  unfolding match_words split
  match_words-Matches [] doc rest a h = record {
    middle = [];
    is_doc = same_codes doc rest h;
    same_words = refl;
  }
  match_words-Matches (word ∷ []) doc rest a h = record {
    middle = word;
    is_doc = skip_word-append word doc rest h;
    same_words = word_alone word a.0;
  }
  match_words-Matches (word ∷ next ∷ words) doc rest a h =
      after_word (skip_word word doc)
        (λ beyond k. match_words-Matches (next ∷ words) beyond rest a.1 k) refl h
    where
      after_gap :
          (behind : Codes) (o : Option Codes)
          → ((beyond : Codes)
              → match_words is_space (next ∷ words) beyond ≡ some rest
              → Matches (next ∷ words) beyond rest)
          → skip_word word doc ≡ some behind
          → skip_gap is_space behind ≡ o
          → elim o [ none ↦ none | some beyond ↦ match_words is_space (next ∷ words) beyond ]
            ≡ some rest
          → Matches (word ∷ next ∷ words) doc rest
      after_gap behind none ih e g k = cc k
      after_gap behind (some beyond) ih e g k =
          let w = skip_gap-IsGap behind beyond g in
          let m = ih beyond k in
          record {
            middle = word ++ (w.gap ++ m.middle);
            is_doc =
                skip_word-append word doc behind e
                ∙ (ap (λ l. word ++ l)
                      (w.is_doc
                        ∙ (ap (λ l. w.gap ++ l) m.is_doc ∙ sym (append_assoc w.gap m.middle rest)))
                    ∙ sym (append_assoc word (w.gap ++ m.middle) rest));
            same_words =
                word_then word (w.gap ++ m.middle) a.0 (w.ends_word m.middle)
                ∙ ap (λ l. word ∷ l) (w.blank m.middle ∙ m.same_words);
          }

      after_word :
          (o : Option Codes)
          → ((beyond : Codes)
              → match_words is_space (next ∷ words) beyond ≡ some rest
              → Matches (next ∷ words) beyond rest)
          → skip_word word doc ≡ o
          → elim o [
            | none ↦ none
            | some behind ↦ elim (skip_gap is_space behind) [
              | none ↦ none
              | some beyond ↦ match_words is_space (next ∷ words) beyond
            ]
          ]
            ≡ some rest
          → Matches (word ∷ next ∷ words) doc rest
      after_word none ih e k = cc k
      after_word (some behind) ih e k = after_gap behind (skip_gap is_space behind) ih e refl k
