-- ===== src/Skeptic/Locate/Held.antt =====
-- The words in the window around a quote (`doc_windows` of tic-concept-chat/skeptic.py).
use treasury_intent_controll.Base.{
  ℕ, ◌≤◌, Bool, true, List, [], ◌∷◌, ◌++◌, eqb, eqb_iff, ◌≡◌, refl, sym, ◌∙◌, ap, subst, inl, inr,
  Bool-cases,
}
use treasury_intent_controll.Skeptic.Locate.{
  Codes, split, begins_word, strip_front, add_back, strip_back, window_start, window_end, window,
}
use treasury_intent_controll.Skeptic.Locate.Parts.{IsPart, cons-IsPart, IsFront, slice-IsPart}
use treasury_intent_controll.Skeptic.Locate.Quoted.{Quotes}

-- A text that has just these words somewhere, one after another.
pub record Holds (is_space : ℕ → Bool) (words : List Codes) (s : Codes) : Type 0 where
  pub core : Codes
  pub is_part : IsPart s core
  pub same_words : split is_space core ≡ words

-- Where a line feed is white space, to strip line feeds keeps the words.
module _ (is_space : ℕ → Bool) (feed_is_space : is_space b'\n' ≡ true) where
  is_blank_feed : (c : ℕ) → eqb c b'\n' ≡ true → is_space c ≡ true
  is_blank_feed c e = ap is_space ((eqb_iff c b'\n').0 e) ∙ feed_is_space

  cons-Holds :
      (words : List Codes) (c : ℕ) (s : Codes)
      → Holds is_space words s
      → Holds is_space words (c ∷ s)
  cons-Holds words c s h = record {
    core = h.core;
    is_part = cons-IsPart c s h.core h.is_part;
    same_words = h.same_words;
  }

  -- A text that has the words of `core` at its front.
  record Leads (core s : Codes) : Type 0 where
    front : Codes
    is_front : IsFront s front
    same_words : split is_space front ≡ split is_space core
    same_begin : begins_word is_space front ≡ begins_word is_space core

  Leads-Holds :
      (words : List Codes) (core s : Codes)
      → split is_space core ≡ words
      → Leads core s
      → Holds is_space words s
  Leads-Holds words core s e l = record {
    core = l.front;
    is_part = record { before = []; after = l.is_front.after; is_doc = l.is_front.is_text };
    same_words = l.same_words ∙ e;
  }

  cons-Leads : (c : ℕ) (core s : Codes) → Leads core s → Leads (c ∷ core) (c ∷ s)
  unfolding split
  cons-Leads c core s l = record {
    front = c ∷ l.front;
    is_front = record { after = l.is_front.after; is_text = ap (λ t. c ∷ t) l.is_front.is_text };
    same_words = rw (l.same_words, l.same_begin) refl;
    same_begin = refl;
  }

  add_back-Leads : (c : ℕ) (core s : Codes) → Leads core s → Leads (c ∷ core) (add_back c s)
  unfolding split
  add_back-Leads c core (d ∷ s) l = cons-Leads c core (d ∷ s) l
  add_back-Leads c core [] l = elim (Bool-cases (eqb c b'\n')) [
    | inr e ↦ rw e (cons-Leads c core [] l)
    | inl e ↦ rw e (record {
      front = [];
      is_front = record { after = []; is_text = refl };
      same_words =
          nothing l.front l.is_front.after l.is_front.is_text l.same_words
          ∙ rw (is_blank_feed c e) refl;
      same_begin = rw (is_blank_feed c e) refl;
    })
  ]
    where
      nothing :
          (front after : Codes)
          → [] ≡ (front ++ after)
          → split is_space front ≡ split is_space core
          → [] ≡ split is_space core
      nothing [] after e w = w
      nothing (x ∷ front) after e w = cc e

  strip_back-Leads : (core after : Codes) → Leads core (strip_back (core ++ after))
  strip_back-Leads [] after = record {
    front = [];
    is_front = record { after = strip_back after; is_text = refl };
    same_words = refl;
    same_begin = refl;
  }
  strip_back-Leads (c ∷ core) after =
      add_back-Leads c core (strip_back (core ++ after)) (strip_back-Leads core after)

  add_back-Holds :
      (words : List Codes) (c : ℕ) (s : Codes)
      → Holds is_space words s
      → Holds is_space words (add_back c s)
  add_back-Holds words c (d ∷ s) h = cons-Holds words c (d ∷ s) h
  add_back-Holds words c [] h = elim (Bool-cases (eqb c b'\n')) [
    | inl e ↦ rw e h
    | inr e ↦ rw e (cons-Holds words c [] h)
  ]

  strip_back-around :
      (words : List Codes) (before core after : Codes)
      → split is_space core ≡ words
      → Holds is_space words (strip_back (before ++ (core ++ after)))
  strip_back-around words [] core after e =
      Leads-Holds words core (strip_back (core ++ after)) e (strip_back-Leads core after)
  strip_back-around words (c ∷ before) core after e =
      add_back-Holds words c (strip_back (before ++ (core ++ after)))
        (strip_back-around words before core after e)

  strip_back-Holds :
      (words : List Codes) (s : Codes)
      → Holds is_space words s
      → Holds is_space words (strip_back s)
  strip_back-Holds words s h =
      subst (λ t. Holds is_space words (strip_back t)) (sym h.is_part.is_doc)
        (strip_back-around words h.is_part.before h.core h.is_part.after h.same_words)

  -- A white space at the front holds nothing.
  tail-Holds :
      (words : List Codes) (c : ℕ) (s before core after : Codes)
      → is_space c ≡ true
      → split is_space core ≡ words
      → (c ∷ s) ≡ (before ++ (core ++ after))
      → Holds is_space words s
  unfolding split
  tail-Holds words c s (b ∷ before) core after e w h = record {
    core = core;
    is_part = record { before = before; after = after; is_doc = cc h };
    same_words = w;
  }
  tail-Holds words c s [] [] after e w h = record {
    core = [];
    is_part = record { before = []; after = s; is_doc = refl };
    same_words = w;
  }
  tail-Holds words c s [] (d ∷ core) after e w h = record {
    core = core;
    is_part = record { before = []; after = after; is_doc = cc h };
    same_words = sym (rw (same_space c d e (cc h)) refl) ∙ w;
  }
    where
      same_space : (c d : ℕ) → is_space c ≡ true → c ≡ d → is_space d ≡ true
      same_space c d e h = ap is_space (sym h) ∙ e

  strip_front-Holds :
      (words : List Codes) (s : Codes)
      → Holds is_space words s
      → Holds is_space words (strip_front s)
  strip_front-Holds words [] h = h
  strip_front-Holds words (c ∷ s) h = elim (Bool-cases (eqb c b'\n')) [
    | inr e ↦ rw e h
    | inl e ↦ rw e (
        strip_front-Holds words s (
          tail-Holds words c s h.is_part.before h.core h.is_part.after (is_blank_feed c e)
            h.same_words h.is_part.is_doc))
  ]

  -- The window around a quote that starts before it and ends behind it has the quote's words.
  pub window-Holds :
      (radius : ℕ) (doc : Codes) (words : List Codes) (at quote_end : ℕ)
      → Quotes is_space 0 doc words at quote_end
      → window_start radius doc at ≤ at
      → quote_end ≤ window_end radius doc quote_end
      → Holds is_space words (window radius doc (at, quote_end))
  window-Holds radius doc words at quote_end q h k = strip_back-Holds words _ (
      strip_front-Holds words _ (record {
        core = q.middle;
        is_part =
            slice-IsPart doc q.middle at quote_end (window_start radius doc at)
              (window_end radius doc quote_end) q.is_split h k;
        same_words = q.same_words;
      }))
