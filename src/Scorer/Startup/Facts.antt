-- ===== src/Scorer/Startup/Facts.antt =====
-- What the fact source of a started scorer holds (`facts_from_env` of
-- core/scorer/src/scorer/__main__.py).
use treasury_intent_controll.Base.{
  String, Bool, true, false, List, [], ◌∷◌, Option, none, some, lookup, ◌==◌, if◌then◌else◌, ◌≡◌,
  refl, sym, ◌∙◌, ap, subst, ◌↔◌,
}
use treasury_intent_controll.Scorer.{Tried, returned, FactSource, static_facts}
use treasury_intent_controll.Scorer.Startup.{
  started, or_fail, bind_started, started_injective, or_fail-some, FactsJson, object, not_object,
  read_facts, decoded_facts, facts_from_env, fact_source,
}

some_same {ℓ} : {A : Type ℓ} (a b : A) → some a ≡ some b → a ≡ b
some_same a b h = cc

answers :
    {F : Type 0} (o p : Option F) → ◌≡◌ {A = Tried (Option F)} (returned o) (returned p) → o ≡ p
answers o p h = cc

-- The setting is a JSON object with a number for the criterion.
pub record NamesFact {V F : Type 0} (loads : String → Option (FactsJson V))
    (to_float : V → Option F) (setting : Option String) (criterion : String) (fact : F)
    : Type 0 where
  pub raw : String
  pub items : List (String × V)
  pub value : V
  pub is_set : setting ≡ some raw
  pub decodes : loads raw ≡ some (object items)
  pub is_named : lookup criterion items ≡ some value
  pub converts : to_float value ≡ some fact

module _ {V F : Type 0} (loads : String → Option (FactsJson V)) (to_float : V → Option F) where
  -- Reading the facts converts the value of each name.
  abbrev Converted : Option V → Option F → Type 0
  Converted none o = o ≡ none
  Converted (some v) o = (fact : F) × (to_float v ≡ some fact) × (o ≡ some fact)

  if_Converted :
      (b : Bool) (v : V) (fact : F) (o : Option V) (p : Option F)
      → to_float v ≡ some fact
      → Converted o p
      → Converted (if b then some v else o) (if b then some fact else p)
  if_Converted true v fact o p e h = (fact, e, refl)
  if_Converted false v fact o p e h = h

  read_facts-Converted :
      (criterion : String) (items : List (String × V)) (facts : List (String × F))
      → read_facts loads to_float items ≡ started facts
      → Converted (lookup criterion items) (lookup criterion facts)
  unfolding read_facts lookup
  read_facts-Converted criterion [] facts h =
      ap (λ l. lookup criterion l) (sym (started_injective [] facts h))
  read_facts-Converted criterion ((k, v) ∷ items) facts h =
      let f = bind_started (or_fail (to_float v)) _ h in
      let r = bind_started (read_facts loads to_float items) _ f.2 in
      subst (λ l. Converted (lookup criterion ((k, v) ∷ items)) (lookup criterion l))
        (started_injective ((k, f.0) ∷ r.0) facts r.2)
        (if_Converted (k == criterion) v f.0 _ _ (or_fail-some (to_float v) f.0 f.1)
          (read_facts-Converted criterion items r.0 r.1))

  Converted-iff :
      (o : Option V) (p : Option F) (fact : F)
      → Converted o p
      → (p ≡ some fact) ↔ ((value : V) × (o ≡ some value) × (to_float value ≡ some fact))
  Converted-iff none p fact h = (λ e. cc (h, e), λ n. cc n.1)
  Converted-iff (some v) p fact h = (
    λ e. (v, refl, h.1 ∙ (sym h.2 ∙ e)),
    λ n. h.2 ∙ (sym h.1 ∙ (ap to_float (some_same v n.0 n.1) ∙ n.2)),
  )

  same_object : (a b : List (String × V)) → FactsJson.object a ≡ object b → a ≡ b
  same_object a b h = cc

  decoded_facts-NamesFact :
      (raw criterion : String) (json : FactsJson V) (facts : List (String × F)) (fact : F)
      → loads raw ≡ some json
      → decoded_facts loads to_float json ≡ started facts
      → (lookup criterion facts ≡ some fact) ↔ NamesFact loads to_float (some raw) criterion fact
  decoded_facts-NamesFact raw criterion not_object facts fact e h = cc h
  decoded_facts-NamesFact raw criterion (object items) facts fact e h =
      let c =
        Converted-iff (lookup criterion items) (lookup criterion facts) fact
          (read_facts-Converted criterion items facts h) in
      (
        λ q.
            let n = c.0 q in
            record {
              raw = raw;
              items = items;
              value = n.0;
              is_set = refl;
              decodes = e;
              is_named = n.1;
              converts = n.2;
            },
        λ n.
            let same = same_object items n.items (
              some_same (object items) (object n.items)
                (sym e ∙ (ap loads (some_same raw n.raw n.is_set) ∙ n.decodes))) in
            c.1 (n.value, ap (λ l. lookup criterion l) same ∙ n.is_named, n.converts),
      )

  -- The source of a started scorer has a fact exactly where the setting gives it.
  pub facts_from_env-NamesFact :
      (setting : Option String) (facts : Option (FactSource F))
      → facts_from_env loads to_float setting ≡ started facts
      → (criterion id : String) (fact : F)
      → (fact_source facts criterion id ≡ returned (some fact))
        ↔ NamesFact loads to_float setting criterion fact
  unfolding facts_from_env static_facts lookup
  facts_from_env-NamesFact none facts h criterion id fact =
      subst
        (λ f.
          (fact_source f criterion id ≡ returned (some fact))
          ↔ NamesFact loads to_float none criterion fact)
        (started_injective none facts h) (λ e. cc e, λ n. cc n.is_set)
  facts_from_env-NamesFact (some raw) facts h criterion id fact =
      let json = bind_started (or_fail (loads raw)) _ h in
      let read = bind_started (decoded_facts loads to_float json.0) _ json.2 in
      let names =
        decoded_facts-NamesFact raw criterion json.0 read.0 fact
          (or_fail-some (loads raw) json.0 json.1) read.1 in
      subst
        (λ f.
          (fact_source f criterion id ≡ returned (some fact))
          ↔ NamesFact loads to_float (some raw) criterion fact)
        (started_injective (some (static_facts read.0)) facts read.2)
        (λ e. names.0 (answers _ _ e), λ n. ap (λ o. returned o) (names.1 n))
