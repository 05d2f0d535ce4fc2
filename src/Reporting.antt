-- ===== src/Reporting.antt =====
-- declarant/pydeclarant/reporting_adapter.py: the identity of a report and the bytes that its
-- idempotency key is derived from.
pub mod Dates
pub mod Verbatim
pub mod Identity
pub mod Keys
pub mod Fields
pub mod Submit
pub mod Reconcile
pub mod Tests
use treasury_intent_controll.Base.{
  contains, ℕ, Bool, true, false, not, ◌&&◌, ◌||◌, String, List, [], ◌∷◌, ◌++◌, Option, none, some,
  ◌==◌, lookup, sort_items, if◌then◌else◌,
}
use treasury_intent_controll.Json.Text.{Bytes}
use treasury_intent_controll.Json.Objects.{TextItems, dumps_items}
use treasury_intent_controll.Declare.Request.{derive_key}
use treasury_intent_controll.Reporting.Dates.{is_iso_date}
use treasury_intent_controll.Reporting.Verbatim.{is_stripped}

abbrev pub tool_name : String
tool_name = "report-submit"

-- The closed table: what each action type keys on beyond the base fields.
abbrev pub action_types : List (String × List String)
action_types =
    ("NEWT", [])
    ∷ ("MODI", "event_ref" ∷ [])
    ∷ ("CORR", "event_ref" ∷ "prior_ref" ∷ [])
    ∷ ("EROR", "prior_ref" ∷ [])
    ∷ ("REVI", "event_ref" ∷ [])
    ∷ ("TERM", "event_ref" ∷ [])
    ∷ ("VALU", "as_of" ∷ [])
    ∷ ("COLU", "as_of" ∷ [])
    ∷ ("POSC", "as_of" ∷ [])
    ∷ ("MARU", "as_of" ∷ [])
    ∷ []

abbrev pub base_keyed : List String
base_keyed = "reporting_entity" ∷ "uti" ∷ "action_type" ∷ "rule_set" ∷ "on_behalf_of" ∷ []

abbrev pub discriminators : List String
discriminators = "as_of" ∷ "event_ref" ∷ "prior_ref" ∷ []

pub record ReportIdentity : Type 0 where
  pub reporting_entity : String
  pub uti : String
  pub action_type : String
  pub rule_set : String
  pub on_behalf_of : String
  pub as_of : String
  pub event_ref : String
  pub prior_ref : String

-- `getattr(identity, name)`, for the names of the tables.
abbrev pub field : ReportIdentity → String → String
field r name =
    if name == "reporting_entity"
    then r.reporting_entity
    else if name == "uti"
    then r.uti
    else if name == "action_type"
    then r.action_type
    else if name == "rule_set"
    then r.rule_set
    else if name == "on_behalf_of"
    then r.on_behalf_of
    else if name == "as_of"
    then r.as_of
    else if name == "event_ref"
    then r.event_ref
    else r.prior_ref

-- The causes of `ReportUnkeyable`, with the field that is named.
pub data Unkeyable : Type 0 where
  unknown_action bad_date : Unkeyable
  absent not_stripped not_nfc not_keyed : String → Unkeyable

pub data Keyed {ℓ} (A : Type ℓ) : Type ℓ where
  keyed : A → Keyed A
  unkeyable : Unkeyable → Keyed A

infixl 5 ◌>>=◌ ◌>>◌
abbrev pub ◌>>=◌ {ℓ κ} : {A : Type ℓ} {B : Type κ} → Keyed A → (A → Keyed B) → Keyed B
keyed a >>= f = f a
unkeyable e >>= f = unkeyable e

abbrev pub ◌>>◌ {ℓ} : {B : Type ℓ} → Keyed (Unit {0}) → Keyed B → Keyed B
m >> k = m >>= λ _. k

abbrev pub refuse_if : Bool → Unkeyable → Keyed (Unit {0})
refuse_if true e = unkeyable e
refuse_if false e = keyed tt

-- The loop over the discriminators that the action type does not key on.
unfoldable pub check_dropped : ReportIdentity → List String → List String → Keyed (Unit {0})
check_dropped r names [] = keyed tt
check_dropped r names (name ∷ rest) = do
  refuse_if (not (contains names name) && not (field r name == "")) (not_keyed name)
  check_dropped r names rest

-- `unicodedata.normalize("NFC", …)` is a parameter.
module _ (nfc : String → String) where
  -- One round of the loop over the keyed names: the checks, in their order, and the value.
  unfoldable pub check_field : ReportIdentity → String → Keyed String
  check_field r name = do
    let value = field r name
    refuse_if (not (name == "on_behalf_of") && value == "") (absent name)
    refuse_if (not (is_stripped value)) (not_stripped name)
    refuse_if (not (nfc value == value)) (not_nfc name)
    keyed value

  unfoldable pub collect : ReportIdentity → List String → Keyed TextItems
  collect r [] = keyed []
  collect r (name ∷ names) = do
    value ← check_field r name
    rest ← collect r names
    keyed ((name, value) ∷ rest)

  unfoldable pub canonical_fields : ReportIdentity → List String → Keyed Bytes
  canonical_fields r names = do
    payload ← collect r names
    check_dropped r names discriminators
    refuse_if (contains names "as_of" && not (is_iso_date r.as_of)) bad_date
    keyed (dumps_items (sort_items payload) [])

  unfoldable pub with_extra : ReportIdentity → Option (List String) → Keyed Bytes
  unfolding canonical_fields
  with_extra r none = unkeyable unknown_action
  with_extra r (some extra) = canonical_fields r (base_keyed ++ extra)

  unfoldable pub canonical_identity : ReportIdentity → Keyed Bytes
  unfolding with_extra
  canonical_identity r = with_extra r (lookup r.action_type action_types)

  unfoldable pub report_key : (Bytes → String) → ReportIdentity → String → String → Keyed String
  report_key sha256 r scope run_id = do
    payload ← canonical_identity r
    keyed (derive_key sha256 scope run_id tool_name payload)
