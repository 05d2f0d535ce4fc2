-- ===== src/Skeptic/Locate/Quoted.antt =====
-- What `_locate` (tic-concept-chat/skeptic.py) finds: the words of the quote, one after another.
use treasury_intent_controll.Base.{
  ℕ, suc, ◌+◌, ◌-◌, Bool, List, [], ◌∷◌, Option, none, some, ◌≡◌, refl, ◌∙◌, ap, subst, arith,
}
use treasury_intent_controll.Skeptic.Locate.{
  Codes, length, find, split, match_words, span_of, search_words, fall_back, locate,
}
use treasury_intent_controll.Skeptic.Locate.Splits.{
  append_length, Splits, at_front, further, find-Splits,
}
use treasury_intent_controll.Skeptic.Locate.Words.{AllWords, split-AllWords, match_words-Matches}

module _ (is_space : ℕ → Bool) where
  -- A part of the document that has the words of the quote, at these positions from a start.
  pub record Quotes (start : ℕ) (doc : Codes) (words : List Codes) (at quote_end : ℕ) : Type 0 where
    pub middle : Codes
    pub is_split : Splits start doc middle at quote_end
    pub same_words : split is_space middle ≡ words

  span_starts :
      (start size at quote_end : ℕ)
      → ◌≡◌ {A = Option (ℕ × ℕ)} (some (start, start + size)) (some (at, quote_end))
      → start ≡ at
  span_starts start size at quote_end h = cc

  span_ends :
      (start size at quote_end : ℕ)
      → ◌≡◌ {A = Option (ℕ × ℕ)} (some (start, start + size)) (some (at, quote_end))
      → start + size ≡ quote_end
  span_ends start size at quote_end h = cc

  matched-Quotes :
      (start : ℕ) (words : List Codes) (doc rest : Codes) (at quote_end : ℕ)
      → AllWords is_space words
      → match_words is_space words doc ≡ some rest
      → ◌≡◌ {A = Option (ℕ × ℕ)}
          (some (start, start + (length doc - length rest)))
          (some (at, quote_end))
      → Quotes start doc words at quote_end
  matched-Quotes start words doc rest at quote_end a m h =
      let w = match_words-Matches is_space words doc rest a m in
      let s = span_starts start (length doc - length rest) at quote_end h in
      let e = span_ends start (length doc - length rest) at quote_end h in
      record {
        middle = w.middle;
        is_split = at_front start doc w.middle rest at quote_end w.is_doc s (
            sizes start at (length doc) (length w.middle) (length rest) quote_end s
              (ap (λ l. length l) w.is_doc ∙ append_length w.middle rest) e);
        same_words = w.same_words;
      }
    where
      sizes : (start at d m r q : ℕ) → start ≡ at → d ≡ m + r → start + (d - r) ≡ q → at + m ≡ q
      sizes start at d m r q s e h = omega arith

  later-Quotes :
      (start c : ℕ) (doc : Codes) (words : List Codes) (at quote_end : ℕ)
      → Quotes (suc start) doc words at quote_end
      → Quotes start (c ∷ doc) words at quote_end
  later-Quotes start c doc words at quote_end q = record {
    middle = q.middle;
    is_split = further start c doc q.middle at quote_end q.is_split;
    same_words = q.same_words;
  }

  search_words-Quotes :
      (start : ℕ) (words : List Codes) (doc : Codes) (at quote_end : ℕ)
      → AllWords is_space words
      → search_words is_space start words doc ≡ some (at, quote_end)
      → Quotes start doc words at quote_end
  unfolding search_words
  search_words-Quotes start words [] at quote_end a h =
      by_match (match_words is_space words []) refl h
    where
      by_match :
          (o : Option Codes)
          → match_words is_space words [] ≡ o
          → span_of is_space start 0 o none ≡ some (at, quote_end)
          → Quotes start [] words at quote_end
      by_match none m k = cc k
      by_match (some rest) m k = matched-Quotes start words [] rest at quote_end a m k
  search_words-Quotes start words (c ∷ doc) at quote_end a h =
      by_match (match_words is_space words (c ∷ doc))
        (λ k. search_words-Quotes (suc start) words doc at quote_end a k) refl h
    where
      by_match :
          (o : Option Codes)
          → (search_words is_space (suc start) words doc ≡ some (at, quote_end)
              → Quotes (suc start) doc words at quote_end)
          → match_words is_space words (c ∷ doc) ≡ o
          → span_of is_space start
              (suc (length doc))
              o
              (search_words is_space (suc start) words doc)
            ≡ some (at, quote_end)
          → Quotes start (c ∷ doc) words at quote_end
      by_match none ih m k = later-Quotes start c doc words at quote_end (ih k)
      by_match (some rest) ih m k = matched-Quotes start words (c ∷ doc) rest at quote_end a m k

  fall_back-Quotes :
      (words : List Codes) (doc : Codes) (at quote_end : ℕ)
      → AllWords is_space words
      → fall_back is_space words doc ≡ some (at, quote_end)
      → Quotes 0 doc words at quote_end
  fall_back-Quotes [] doc at quote_end a h = cc h
  fall_back-Quotes (word ∷ words) doc at quote_end a h =
      search_words-Quotes 0 (word ∷ words) doc at quote_end a h

  -- The span that is located for a quote is a part of the document, and its words are the words of
  -- the quote, in their order.
  pub locate-Quotes :
      (doc quote : Codes) (at quote_end : ℕ)
      → locate is_space doc quote ≡ some (at, quote_end)
      → Quotes 0 doc (split is_space quote) at quote_end
  unfolding locate
  locate-Quotes doc quote at quote_end h = by_find (find 0 quote doc) refl h
    where
      by_find :
          (o : Option ℕ)
          → find 0 quote doc ≡ o
          → elim o [
            | none ↦ fall_back is_space (split is_space quote) doc
            | some k ↦ some (k, k + length quote)
          ]
            ≡ some (at, quote_end)
          → Quotes 0 doc (split is_space quote) at quote_end
      by_find none e k =
          fall_back-Quotes (split is_space quote) doc at quote_end (split-AllWords is_space quote) k
      by_find (some k) e h = record {
        middle = quote;
        is_split =
            subst (λ n. Splits 0 doc quote n quote_end)
              (span_starts k (length quote) at quote_end h)
              (subst (λ n. Splits 0 doc quote k n) (span_ends k (length quote) at quote_end h)
                (find-Splits 0 quote doc k e));
        same_words = refl;
      }
