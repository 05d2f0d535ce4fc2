-- ===== src/Reporting/Fields.antt =====
-- Which values `canonical_identity` (declarant/pydeclarant/reporting_adapter.py) takes for the fields
-- that it keys on.
use treasury_intent_controll.Base.{
  Bool, true, false, not, ◌&&◌, String, List, [], ◌∷◌, ◌==◌, ◌≡◌, refl, arith,
}
use treasury_intent_controll.Json.Objects.{TextItems}
use treasury_intent_controll.Reporting.{
  ReportIdentity, field, keyed, absent, not_stripped, not_nfc, check_field, collect,
}
use treasury_intent_controll.Reporting.Verbatim.{is_stripped}
use treasury_intent_controll.Reporting.Identity.{bind_keyed, not_refused}

is_true : (b : Bool) → not b ≡ false → b ≡ true
is_true b h = ground arith

module _ (nfc : String → String) (r : ReportIdentity) where
  -- A value that is taken verbatim: without white space around it, and in its normal form.
  pub record IsVerbatim (value : String) : Type 0 where
    pub stripped : is_stripped value ≡ true
    pub composed : (nfc value == value) ≡ true

  abbrev IsPresent : String → Type 0
  IsPresent name = (not (name == "on_behalf_of") && field r name == "") ≡ false

  abbrev pub AllVerbatim : List String → Type 0
  AllVerbatim [] = Unit
  AllVerbatim (name ∷ names) = IsVerbatim (field r name) × AllVerbatim names

  abbrev pub AllPresent : List String → Type 0
  AllPresent [] = Unit
  AllPresent (name ∷ names) = IsPresent name × AllPresent names

  check_field-pass :
      (name v : String)
      → check_field nfc r name ≡ keyed v
      → IsPresent name × IsVerbatim (field r name)
  unfolding check_field
  check_field-pass name v h =
      let value = field r name in
      let x = not_refused (not (name == "on_behalf_of") && value == "") (absent name) _ h in
      let y = not_refused (not (is_stripped value)) (not_stripped name) _ x.1 in
      let z = not_refused (not (nfc value == value)) (not_nfc name) _ y.1 in
      (
        x.0,
        record {
          stripped = is_true (is_stripped value) y.0;
          composed = is_true (nfc value == value) z.0;
        },
      )

  check_field-keyed :
      (name : String)
      → IsPresent name
      → IsVerbatim (field r name)
      → check_field nfc r name ≡ keyed (field r name)
  unfolding check_field
  check_field-keyed name p v = rw (p, v.stripped, v.composed) refl

  pub collect-pass :
      (names : List String) (p : TextItems)
      → collect nfc r names ≡ keyed p
      → AllPresent names × AllVerbatim names
  unfolding collect
  collect-pass [] p h = (tt, tt)
  collect-pass (name ∷ names) p h =
      let a = bind_keyed (check_field nfc r name) _ h in
      let b = bind_keyed (collect nfc r names) _ a.2 in
      let x = check_field-pass name a.0 a.1 in
      let y = collect-pass names b.0 b.1 in ((x.0, y.0), (x.1, y.1))

  pub collect-keyed :
      (names : List String)
      → AllPresent names
      → AllVerbatim names
      → (p : TextItems) × (collect nfc r names ≡ keyed p)
  unfolding collect
  collect-keyed [] p v = ([], refl)
  collect-keyed (name ∷ names) p v =
      let rest = collect-keyed names p.1 v.1 in
      ((name, field r name) ∷ rest.0, rw (check_field-keyed name p.0 v.0, rest.1) refl)
