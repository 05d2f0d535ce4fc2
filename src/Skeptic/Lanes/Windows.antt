-- ===== src/Skeptic/Lanes/Windows.antt =====
-- The windows that `doc_windows` (tic-concept-chat/skeptic.py) hands to the judgment lane.
use treasury_intent_controll.Base.{
  ℕ, ◌-◌, ◌≤◌, Bool, true, false, String, List, [], ◌∷◌, Option, none, some, codes, lookup, ◌≡◌,
  refl, sym, ◌∙◌, ap, subst, ◌⊎◌, inl, inr, Bool-cases, arith,
}
use treasury_intent_controll.Json.Value.{
  Value, null, boolean, number, text, array, object, Fields, get, is_text,
}
use treasury_intent_controll.Skeptic.{valid, invalid, subscript, hashed, unknown_document}
use treasury_intent_controll.Skeptic.Judged.{bind_valid, then_branch, valid_injective}
use treasury_intent_controll.Skeptic.Locate.{Codes, split, locate, window_start, window_end, window}
use treasury_intent_controll.Skeptic.Locate.Quoted.{Quotes, locate-Quotes}
use treasury_intent_controll.Skeptic.Locate.Held.{Holds, window-Holds}
use treasury_intent_controll.Skeptic.Locate.Parts.{IsPart, window-IsPart}
use treasury_intent_controll.Skeptic.Locate.Bounds.{locate-IsSnapped}
use treasury_intent_controll.Skeptic.Lanes.{
  part, document_of, located, locate_value, window_of, doc_windows,
}

module _ {N : Type 0} (is_space : ℕ → Bool) (radius : ℕ) (docs : List (String × String)) where
  -- A window of a cited claim: a part of the document that the citation names, which has the words of
  -- the quote one after another, around the place where they were located.
  pub record IsQuoted (claim : Fields N) (w : Codes) : Type 0 where
    pub citation : Fields N
    pub title : String
    pub quote : String
    pub doc : String
    pub at : ℕ
    pub quote_end : ℕ
    pub cites : get "citation" claim ≡ some (object citation)
    pub has_title : get "title" citation ≡ some (text title)
    pub has_quote : get "cited_text" citation ≡ some (text quote)
    pub is_document : lookup title docs ≡ some doc
    pub quotes : Quotes is_space 0 (codes doc) (split is_space (codes quote)) at quote_end
    pub starts_before : window_start radius (codes doc) at ≤ at
    pub ends_behind : quote_end ≤ window_end radius (codes doc) quote_end
    pub is_window : window radius (codes doc) (at, quote_end) ≡ w
    pub is_part : IsPart (codes doc) w
    pub holds : Holds is_space (split is_space (codes quote)) w

  -- The windows are those of the cited claims, in their order, each under the claim's id.
  abbrev pub AllQuoted : List (Fields N) → List (Value N × Codes) → Type 0
  AllQuoted [] windows = windows ≡ []
  AllQuoted (claim ∷ claims) windows =
      ((is_text "cited" (get "status" claim) ≡ false) × AllQuoted claims windows)
      ⊎ ((id : Value N) × (w : Codes) × (rest : List (Value N × Codes)) × (windows
            ≡ ((id, w) ∷ rest))
          × (get "id" claim ≡ some id)
          × IsQuoted claim w
          × AllQuoted claims rest)

  subscript-some : (o : Option (Value N)) (v : Value N) → subscript o ≡ valid v → o ≡ some v
  subscript-some none v h = cc h
  subscript-some (some u) v h = ap (λ x. some x) (valid_injective u v h)

  part-get :
      (key : String) (v u : Value N)
      → part key v ≡ valid u
      → (fields : Fields N) × (v ≡ object fields) × (get key fields ≡ some u)
  part-get key (object fields) u h = (fields, refl, subscript-some (get key fields) u h)
  part-get key null u h = cc h
  part-get key (boolean b) u h = cc h
  part-get key (number n) u h = cc h
  part-get key (text s) u h = cc h
  part-get key (array items) u h = cc h

  document_of-lookup :
      (v : Value N) (doc : String)
      → document_of docs v ≡ valid doc
      → (title : String) × (v ≡ text title) × (lookup title docs ≡ some doc)
  document_of-lookup (text title) doc h = (title, refl, by_lookup (lookup title docs) refl h)
    where
      by_lookup :
          (o : Option String)
          → lookup title docs ≡ o
          → elim o [ none ↦ invalid unknown_document | some d ↦ valid d ] ≡ valid doc
          → lookup title docs ≡ some doc
      by_lookup none e h = cc h
      by_lookup (some d) e h = e ∙ ap (λ x. some x) (valid_injective d doc h)
  document_of-lookup null doc h = cc h
  document_of-lookup (boolean b) doc h = cc h
  document_of-lookup (number n) doc h = cc h
  document_of-lookup (object fields) doc h = cc h
  document_of-lookup (array items) doc h = cc h

  locate_value-locate :
      (doc : String) (v : Value N) (span : ℕ × ℕ)
      → locate_value is_space doc v ≡ valid span
      → (quote : String) × (v ≡ text quote)
        × (locate is_space (codes doc) (codes quote) ≡ some span)
  locate_value-locate doc (text quote) span h =
      (quote, refl, by_locate (locate is_space (codes doc) (codes quote)) refl h)
    where
      by_locate :
          (o : Option (ℕ × ℕ))
          → locate is_space (codes doc) (codes quote) ≡ o
          → located o ≡ valid span
          → locate is_space (codes doc) (codes quote) ≡ some span
      by_locate none e h = cc h
      by_locate (some s) e h = e ∙ ap (λ x. some x) (valid_injective s span h)
  locate_value-locate doc null span h = cc h
  locate_value-locate doc (boolean b) span h = cc h
  locate_value-locate doc (number n) span h = cc h
  locate_value-locate doc (object fields) span h = cc h
  locate_value-locate doc (array items) span h = cc h

  object_injective : (a b : Fields N) → Value.object a ≡ Value.object b → a ≡ b
  object_injective a b h = cc

  window_of-IsQuoted :
      (claim : Fields N) (w : Codes)
      → is_space b'\n' ≡ true
      → window_of is_space radius docs claim ≡ valid w
      → IsQuoted claim w
  window_of-IsQuoted claim w feed h =
      let c = bind_valid (subscript (get "citation" claim)) _ h in
      let t = bind_valid (part "title" c.0) _ c.2 in
      let q = bind_valid (part "cited_text" c.0) _ t.2 in
      let d = bind_valid (document_of docs t.0) _ q.2 in
      let l = bind_valid (locate_value is_space d.0 q.0) _ d.2 in
      let title = part-get "title" c.0 t.0 t.1 in
      let quote = part-get "cited_text" c.0 q.0 q.1 in
      let name = document_of-lookup t.0 d.0 d.1 in
      let found = locate_value-locate d.0 q.0 l.0 l.1 in
      let quotes = locate-Quotes is_space (codes d.0) (codes found.0) l.0.0 l.0.1 found.2 in
      let snapped =
        locate-IsSnapped is_space (codes d.0) (codes found.0) radius l.0.0 l.0.1 found.2 in
      let starts = sub_le l.0.0 radius _ snapped.0.reaches_back in
      let same_window = valid_injective _ _ l.2 in
      record {
        citation = title.0;
        title = name.0;
        quote = found.0;
        doc = d.0;
        at = l.0.0;
        quote_end = l.0.1;
        cites = subscript-some (get "citation" claim) c.0 c.1 ∙ ap (λ x. some x) title.1;
        has_title = title.2 ∙ ap (λ x. some x) name.1;
        has_quote =
            ap (λ f. get "cited_text" f) (object_injective title.0 quote.0 (sym title.1 ∙ quote.1))
            ∙ (quote.2 ∙ ap (λ x. some x) found.1);
        is_document = name.2;
        quotes = quotes;
        starts_before = starts;
        ends_behind = snapped.0.ends_behind;
        is_window = same_window;
        is_part =
            subst (λ x. IsPart (codes d.0) x) same_window
              (window-IsPart radius (codes d.0) l.0.0 l.0.1);
        holds =
            subst (λ x. Holds is_space (split is_space (codes found.0)) x) same_window
              (window-Holds is_space feed radius (codes d.0) (split is_space (codes found.0)) l.0.0
                l.0.1 quotes starts snapped.0.ends_behind);
      }
    where
      sub_le : (a r k : ℕ) → k ≤ a - r → k ≤ a
      sub_le a r k h = omega arith

  same_status :
      (claim : Fields N) (status : Value N)
      → get "status" claim ≡ some status
      → is_text "cited" (get "status" claim) ≡ is_text "cited" (some status)
  same_status claim status e = ap (λ o. is_text "cited" o) e

  -- Where a line feed is white space and the windows are made at all, they are those of the cited
  -- claims in their order, each under the id of its claim; each is a part of the document that the
  -- citation names and has in it, one after another, the words of the quote, and is cut around the
  -- place where the quote was located.
  pub doc_windows-AllQuoted :
      (claims : List (Fields N)) (windows : List (Value N × Codes))
      → is_space b'\n' ≡ true
      → doc_windows is_space radius docs claims ≡ valid windows
      → AllQuoted claims windows
  unfolding doc_windows
  doc_windows-AllQuoted [] windows feed h = sym (valid_injective [] windows h)
  doc_windows-AllQuoted (claim ∷ claims) windows feed h =
      let s = bind_valid (subscript (get "status" claim)) _ h in
      let e = same_status claim s.0 (subscript-some (get "status" claim) s.0 s.1) in
      elim (Bool-cases (is_text "cited" (some s.0))) [
        | inr n ↦ inl (e ∙ n, doc_windows-AllQuoted claims windows feed (sym (rw n refl) ∙ s.2))
        | inl y ↦
            let w = bind_valid (window_of is_space radius docs claim) _ (then_branch _ _ _ y s.2) in
            let i = bind_valid (subscript (get "id" claim)) _ w.2 in
            let u = bind_valid (hashed i.0) _ i.2 in
            let r = bind_valid (doc_windows is_space radius docs claims) _ u.2 in
            inr (
              i.0,
              w.0,
              r.0,
              sym (valid_injective _ _ r.2),
              subscript-some (get "id" claim) i.0 i.1,
              window_of-IsQuoted claim w.0 feed w.1,
              doc_windows-AllQuoted claims r.0 feed r.1,
            )
      ]
