-- ===== src/Cdm/Keyed.antt =====
-- When an identity that was read from a step (declarant/pydeclarant/cdm_adapter.py) is keyed
-- (`canonical_identity` of declarant/pydeclarant/reporting_adapter.py).
use treasury_intent_controll.Base.{
  contains, Bool, true, false, not, ◌&&◌, String, List, [], ◌∷◌, ◌++◌, Option, none, some, ◌==◌,
  eq_iff, lookup, if◌then◌else◌, ◌≡◌, refl, sym, ap, subst, ◌∙◌, ◌↔◌, sort_items, inl, inr,
  Bool-cases, arith,
}
use treasury_intent_controll.Json.Text.{Bytes}
use treasury_intent_controll.Json.Objects.{dumps_items}
use treasury_intent_controll.Json.Value.{Value, Fields}
use treasury_intent_controll.Reporting.{
  ReportIdentity, keyed, base_keyed, discriminators, action_types, bad_date, collect, check_dropped,
  canonical_fields, with_extra, canonical_identity,
}
use treasury_intent_controll.Reporting.Dates.{is_iso_date}
use treasury_intent_controll.Reporting.Identity.{bind_keyed, not_refused}
use treasury_intent_controll.Cdm.{bridged, keyed_fields, identity_from_workflow_step}
use treasury_intent_controll.Cdm.Read.{HasKeys, identity_from_workflow_step-HasKeys}
use treasury_intent_controll.Reporting.Fields.{AllVerbatim, AllPresent, collect-pass, collect-keyed}

-- What the rows of the closed table key on.
data Row : List String → Type 0 where
  base : Row []
  on_event : Row ("event_ref" ∷ [])
  on_both : Row ("event_ref" ∷ "prior_ref" ∷ [])
  on_prior : Row ("prior_ref" ∷ [])
  on_date : Row ("as_of" ∷ [])

same-Row : (a b : List String) → some a ≡ some b → Row a → Row b
same-Row a b h row = subst Row (same a b h) row
  where
    same : (a b : List String) → some a ≡ some b → a ≡ b
    same a b h = cc

from_rows :
    (newt modi corr eror revi term valu colu posc maru : Bool) (extra : List String)
    → ◌≡◌ {A = Option (List String)}
        (if newt
          then some []
          else if modi
          then some ("event_ref" ∷ [])
          else if corr
          then some ("event_ref" ∷ "prior_ref" ∷ [])
          else if eror
          then some ("prior_ref" ∷ [])
          else if revi
          then some ("event_ref" ∷ [])
          else if term
          then some ("event_ref" ∷ [])
          else if valu
          then some ("as_of" ∷ [])
          else if colu
          then some ("as_of" ∷ [])
          else if posc
          then some ("as_of" ∷ [])
          else if maru
          then some ("as_of" ∷ [])
          else none)
        (some extra)
    → Row extra
from_rows true b c d e f g i j k extra h = same-Row _ extra h base
from_rows false true c d e f g i j k extra h = same-Row _ extra h on_event
from_rows false false true d e f g i j k extra h = same-Row _ extra h on_both
from_rows false false false true e f g i j k extra h = same-Row _ extra h on_prior
from_rows false false false false true f g i j k extra h = same-Row _ extra h on_event
from_rows false false false false false true g i j k extra h = same-Row _ extra h on_event
from_rows false false false false false false true i j k extra h = same-Row _ extra h on_date
from_rows false false false false false false false true j k extra h = same-Row _ extra h on_date
from_rows false false false false false false false false true k extra h =
    same-Row _ extra h on_date
from_rows false false false false false false false false false true extra h =
    same-Row _ extra h on_date
from_rows false false false false false false false false false false extra h = cc h

lookup-Row :
    (action : String) (extra : List String) → lookup action action_types ≡ some extra → Row extra
unfolding lookup
lookup-Row action extra h =
    from_rows ("NEWT" == action) ("MODI" == action) ("CORR" == action) ("EROR" == action)
      ("REVI" == action) ("TERM" == action) ("VALU" == action) ("COLU" == action) ("POSC" == action)
      ("MARU" == action) extra h

-- An action type of the table is not empty.
nonempty_action :
    (action : String) (extra : List String)
    → lookup action action_types ≡ some extra
    → (action == "") ≡ false
unfolding lookup
nonempty_action action extra h = elim (Bool-cases (action == "")) [
  | inr e ↦ e
  | inl e ↦
      absurd (no_row extra (ap (λ a. lookup a action_types) (sym ((eq_iff action "").0 e)) ∙ h))
]
  where
    no_row : (extra : List String) → lookup "" action_types ≡ some extra → ⊥
    no_row extra h = cc h

module _ (nfc : String → String) (r : ReportIdentity) where
  present-Row :
      (extra : List String)
      → Row extra
      → HasKeys r extra
      → (r.reporting_entity == "") ≡ false
      → (r.rule_set == "") ≡ false
      → AllPresent nfc r (base_keyed ++ extra)
  present-Row extra base h e s =
      (e, (h.uti, (nonempty_action r.action_type [] h.action, (s, (refl, tt)))))
  present-Row extra on_event h e s =
      (e, (h.uti, (nonempty_action r.action_type _ h.action, (s, (refl, (h.event_ref, tt))))))
  present-Row extra on_both h e s = (
    e,
    (
      h.uti,
      (nonempty_action r.action_type _ h.action, (s, (refl, (h.event_ref, (h.prior_ref, tt))))),
    ),
  )
  present-Row extra on_prior h e s =
      (e, (h.uti, (nonempty_action r.action_type _ h.action, (s, (refl, (h.prior_ref, tt))))))
  present-Row extra on_date h e s =
      (e, (h.uti, (nonempty_action r.action_type _ h.action, (s, (refl, (h.as_of, tt))))))

  dropped : (keys given : Bool) → given ≡ not keys → (not keys && not given) ≡ false
  dropped true given h = refl
  dropped false given h = rw h refl

  check_dropped-keyed :
      (extra : List String)
      → HasKeys r extra
      → check_dropped r (base_keyed ++ extra) discriminators ≡ keyed tt
  unfolding check_dropped
  check_dropped-keyed extra h =
      rw
        (
          dropped (contains extra "as_of") (r.as_of == "") h.as_of,
          dropped (contains extra "event_ref") (r.event_ref == "") h.event_ref,
          dropped (contains extra "prior_ref") (r.prior_ref == "") h.prior_ref,
        )
        refl

  -- What is still asked of an identity that was read: whose report it is and under which rules, every
  -- keyed value verbatim, and a calendar date where the action type keys on one.
  pub record IsKeyable (extra : List String) : Type 0 where
    pub entity : (r.reporting_entity == "") ≡ false
    pub rules : (r.rule_set == "") ≡ false
    pub verbatim : AllVerbatim nfc r (base_keyed ++ extra)
    pub date : contains extra "as_of" ≡ true → is_iso_date r.as_of ≡ true

  -- The identity has canonical bytes, from which its key is derived.
  abbrev pub IsKeyed : Type 0
  IsKeyed = (payload : Bytes) × (canonical_identity nfc r ≡ keyed payload)

  canonical_fields-IsKeyable :
      (extra : List String) (payload : Bytes)
      → canonical_fields nfc r (base_keyed ++ extra) ≡ keyed payload
      → IsKeyable extra
  unfolding canonical_fields
  canonical_fields-IsKeyable extra payload h =
      let a = bind_keyed (collect nfc r (base_keyed ++ extra)) _ h in
      let b = bind_keyed (check_dropped r (base_keyed ++ extra) discriminators) _ a.2 in
      let c = not_refused (contains extra "as_of" && not (is_iso_date r.as_of)) bad_date _ b.2 in
      let p = collect-pass nfc r (base_keyed ++ extra) a.0 a.1 in
      record {
        entity = p.0.0;
        rules = p.0.1.1.1.0;
        verbatim = p.1;
        date = dated (contains extra "as_of") (is_iso_date r.as_of) c.0;
      }
    where
      dated : (k i : Bool) → (k && not i) ≡ false → k ≡ true → i ≡ true
      dated k i h e = ground arith

  canonical_fields-keyed :
      (extra : List String)
      → HasKeys r extra
      → IsKeyable extra
      → (payload : Bytes) × (canonical_fields nfc r (base_keyed ++ extra) ≡ keyed payload)
  unfolding canonical_fields
  canonical_fields-keyed extra h k =
      let row = lookup-Row r.action_type extra h.action in
      let c =
        collect-keyed nfc r (base_keyed ++ extra) (present-Row extra row h k.entity k.rules)
          k.verbatim in
      (
        dumps_items (sort_items c.0) [],
        rw
            (
              c.1,
              check_dropped-keyed extra h,
              dated (contains extra "as_of") (is_iso_date r.as_of) k.date,
            )
            refl,
      )
    where
      dated : (k i : Bool) → (k ≡ true → i ≡ true) → (k && not i) ≡ false
      dated true i h = rw (h refl) refl
      dated false i h = refl

  canonical_identity-IsKeyable : (extra : List String) → HasKeys r extra → IsKeyed ↔ IsKeyable extra
  unfolding canonical_identity with_extra
  canonical_identity-IsKeyable extra h = (
    λ k. canonical_fields-IsKeyable extra k.0 (sym (ap (λ o. with_extra nfc r o) h.action) ∙ k.1),
    λ k.
        let c = canonical_fields-keyed extra h k in
        (c.0, ap (λ o. with_extra nfc r o) h.action ∙ c.1),
  )

module _ {N : Type 0} (is_zero : N → Bool) (repr : Value N → String) (nfc : String → String) where
  -- An identity that was read from a step has canonical bytes, from which its key is derived,
  -- exactly where its reporting entity and its rule set are not empty, each field that its action
  -- type keys on is in its normal form without white space around it, and, where the action type
  -- keys on as_of, that is a calendar date.
  pub identity_from_workflow_step-IsKeyed_iff :
      (step : Fields N) (entity rules : String) (given_type : Option String) (on_behalf : String)
      (r : ReportIdentity)
      → identity_from_workflow_step is_zero repr step entity rules given_type on_behalf ≡ bridged r
      → IsKeyed nfc r ↔ IsKeyable nfc r (keyed_fields (lookup r.action_type action_types))
  identity_from_workflow_step-IsKeyed_iff step entity rules given_type on_behalf r h =
      canonical_identity-IsKeyable nfc r (keyed_fields (lookup r.action_type action_types)) (
        identity_from_workflow_step-HasKeys is_zero repr step entity rules given_type on_behalf r h)
