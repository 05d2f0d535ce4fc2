-- ===== src/Cdm.antt =====
-- declarant/pydeclarant/cdm_adapter.py: CDM workflow steps, as decoded JSON, read into report
-- identities and written from them.
pub mod Emit
pub mod Read
pub mod Keyed
pub mod RoundTrip
pub mod Gate
pub mod Tests
use treasury_intent_controll.Base.{
  ◌+◌, Bool, true, false, ◌&&◌, ◌||◌, String, List, [], ◌∷◌, ◌++◌, Option, none, some, ◌==◌, lookup,
  contains, if◌then◌else◌,
}
use treasury_intent_controll.Json.Value.{
  Value, text, array, object, Fields, end, get, items_of, keys_of, one_item, first_item, is_text,
  truthy, at_key,
}
use treasury_intent_controll.Reporting.{ReportIdentity, action_types}

abbrev pub uti_type : String
uti_type = "UniqueTransactionIdentifier"

abbrev pub action_for_cdm : List (String × String)
action_for_cdm = ("New", "NEWT") ∷ ("Correct", "CORR") ∷ ("Cancel", "EROR") ∷ []

abbrev pub cdm_action_for : List (String × String)
cdm_action_for =
    ("NEWT", "New")
    ∷ ("MODI", "New")
    ∷ ("REVI", "New")
    ∷ ("TERM", "New")
    ∷ ("VALU", "New")
    ∷ ("COLU", "New")
    ∷ ("POSC", "New")
    ∷ ("MARU", "New")
    ∷ ("CORR", "Correct")
    ∷ ("EROR", "Cancel")
    ∷ []

-- The causes of a ReportUnkeyable in CDM vocabulary.
pub data Cause : Type 0 where
  no_uti two_utis no_event unknown_cdm_action unknown_action_type no_prior no_date no_mapping :
      Cause
  unqualifiable not_as_declared : Cause

-- A value, a ReportUnkeyable, or the TypeError or AttributeError of a step of another shape.
pub data Bridged {ℓ} (A : Type ℓ) : Type ℓ where
  bridged : A → Bridged A
  refused : Cause → Bridged A
  crashed : Bridged A

infixl 5 ◌>>=◌ ◌>>◌
abbrev pub ◌>>=◌ {ℓ κ} : {A : Type ℓ} {B : Type κ} → Bridged A → (A → Bridged B) → Bridged B
bridged a >>= f = f a
refused c >>= f = refused c
crashed >>= f = crashed

abbrev pub ◌>>◌ {ℓ} : {B : Type ℓ} → Bridged (Unit {0}) → Bridged B → Bridged B
m >> k = m >>= λ _. k

abbrev pub refuse_if : Bool → Cause → Bridged (Unit {0})
refuse_if true c = refused c
refuse_if false c = bridged tt

abbrev pub or_empty : Option String → String
or_empty none = ""
or_empty (some s) = s

abbrev pub add_uti : String → List String → List String
add_uti value found = if value == "" || contains found value then found else value ∷ found

abbrev pub merge : List String → List String → List String
merge [] found = found
merge (s ∷ l) found = add_uti s (merge l found)

abbrev pub single : List String → Bridged String
single [] = refused no_uti
single (uti ∷ []) = bridged uti
single (uti ∷ other ∷ rest) = refused two_utis

abbrev pub mapped_action : Option String → Bridged String
mapped_action none = refused unknown_cdm_action
mapped_action (some action) = bridged action

abbrev pub known_action : String → Option (List String) → Bridged String
known_action action none = refused unknown_action_type
known_action action (some extra) = bridged action

abbrev pub keyed_fields : Option (List String) → List String
keyed_fields none = []
keyed_fields (some extra) = extra

abbrev pub if_keyed : List String → String → String → String
if_keyed extra name value = if contains extra name then value else ""

-- The fields that the action type keys on, from those that the step carries.
unfoldable pub report_if :
    String → String → String → String → String → String → String → String → Bridged ReportIdentity
unfolding lookup
report_if reporting_entity rule_set on_behalf_of uti event_ref action prior_ref as_of = do
  let extra = keyed_fields (lookup action action_types)
  refuse_if (contains extra "prior_ref" && prior_ref == "") no_prior
  refuse_if (contains extra "as_of" && as_of == "") no_date
  bridged (record {
    reporting_entity = reporting_entity;
    uti = uti;
    action_type = action;
    rule_set = rule_set;
    on_behalf_of = on_behalf_of;
    as_of = if_keyed extra "as_of" as_of;
    event_ref = if_keyed extra "event_ref" event_ref;
    prior_ref = if_keyed extra "prior_ref" prior_ref;
  })

-- `is_zero` is the truth test on numbers, and `repr` what `str` makes of a value that is no text.
module _ {N : Type 0} (is_zero : N → Bool) (repr : Value N → String) where
  abbrev pub shown : Value N → String
  shown (text s) = s
  shown v = repr v

  -- `value or …`, for a value that may be absent.
  abbrev pub given : Option (Value N) → Option (Value N)
  given none = none
  given (some v) = if truthy is_zero v then some v else none

  -- `(value or {})`, on which `get` is called.
  abbrev pub fields_of : Option (Value N) → Bridged (Fields N)
  fields_of none = bridged end
  fields_of (some (object fields)) = bridged fields
  fields_of (some v) = crashed

  abbrev pub letters : String → List (Value N)
  letters String.[] = []
  letters (String.◌∷◌ c s) = text (String.◌∷◌ c String.[]) ∷ letters s

  -- `for x in (value or [])`.
  abbrev pub elements_of : Option (Value N) → Bridged (List (Value N))
  elements_of none = bridged []
  elements_of (some (array items)) = bridged (items_of items)
  elements_of (some (object fields)) = bridged (keys_of fields)
  elements_of (some (text s)) = bridged (letters s)
  elements_of (some v) = crashed

  -- The chain of subscripts; an exception on the way is "".
  abbrev pub identifier_in : Option (Value N) → Option (Value N)
  identifier_in none = none
  identifier_in (some v) = first_item v

  abbrev pub key_in : String → Option (Value N) → Option (Value N)
  key_in key none = none
  key_in key (some v) = at_key key v

  abbrev pub shown_or_empty : Option (Value N) → String
  shown_or_empty none = ""
  shown_or_empty (some v) = shown v

  unfoldable pub first_identifier : Value N → String
  unfolding get
  first_identifier identifiers =
      shown_or_empty
        (key_in "identifier" (identifier_in (key_in "assignedIdentifier" (first_item identifiers))))

  -- `_first_identifier(… or [])`.
  abbrev pub identifier_of : Option (Value N) → String
  identifier_of none = ""
  identifier_of (some v) = first_identifier v

  abbrev pub dicts_of : List (Value N) → List (Fields N)
  dicts_of [] = []
  dicts_of (object fields ∷ rest) = fields ∷ dicts_of rest
  dicts_of (_ ∷ rest) = dicts_of rest

  abbrev pub add_before : Option (Value N) → List (Fields N) → List (Fields N)
  add_before (some (object fields)) rest = fields ∷ rest
  add_before _ rest = rest

  unfoldable pub befores_of : List (Value N) → Bridged (List (Fields N))
  unfolding get
  befores_of [] = bridged []
  befores_of (instruction ∷ rest) = do
    fields ← fields_of (given (some instruction))
    found ← befores_of rest
    bridged (add_before (get "before" fields) found)

  unfoldable pub trade_states : Fields N → Bridged (List (Fields N))
  unfolding befores_of get
  trade_states step = do
    event ← fields_of (given (get "businessEvent" step))
    after ← elements_of (given (get "after" event))
    proposed ← fields_of (given (get "proposedEvent" step))
    instructions ← elements_of (given (get "instruction" proposed))
    befores ← befores_of instructions
    bridged (dicts_of after ++ befores)

  unfoldable pub utis_of : List (Value N) → Bridged (List String)
  unfolding first_identifier get
  utis_of [] = bridged []
  utis_of (tid ∷ rest) = do
    fields ← fields_of (given (some tid))
    found ← utis_of rest
    bridged (
        if is_text uti_type (get "identifierType" fields)
        then add_uti (first_identifier (one_item tid)) found
        else found)

  unfoldable pub state_utis : List (Fields N) → Bridged (List String)
  unfolding utis_of get
  state_utis [] = bridged []
  state_utis (state ∷ rest) = do
    trade ← fields_of (given (get "trade" state))
    ids ← elements_of (given (get "tradeIdentifier" trade))
    here ← utis_of ids
    found ← state_utis rest
    bridged (merge here found)

  -- `_utis`: the set of the values, each once.
  unfoldable pub utis : Fields N → Bridged (List String)
  unfolding trade_states state_utis
  utis step = do states ← trade_states step; state_utis states

  -- `step.get("businessEvent") or step.get("proposedEvent") or {}`.
  abbrev pub event_given : Fields N → Option (Value N) → Option (Value N)
  event_given step (some v) = some v
  event_given step none = given (get "proposedEvent" step)

  unfoldable pub event_of : Fields N → Bridged (Fields N)
  unfolding get
  event_of step = fields_of (event_given step (given (get "businessEvent" step)))

  -- `cdm_action in ACTION_FOR_CDM`; a list or a dict cannot be hashed.
  abbrev pub action_of : Option (Value N) → Bridged String
  action_of (some (text s)) = mapped_action (lookup s action_for_cdm)
  action_of (some (array items)) = crashed
  action_of (some (object fields)) = crashed
  action_of _ = refused unknown_cdm_action

  unfoldable pub resolve_action : Option String → Fields N → Bridged String
  unfolding get lookup
  resolve_action none step = action_of (get "action" step)
  resolve_action (some action) step = known_action action (lookup action action_types)

  unfoldable pub identity_from_workflow_step :
      Fields N → String → String → Option String → String → Bridged ReportIdentity
  unfolding utis resolve_action event_of first_identifier get lookup
  identity_from_workflow_step step reporting_entity rule_set action_type on_behalf_of = do
    found ← utis step
    uti ← single found
    let event_ref = identifier_of (given (get "eventIdentifier" step))
    refuse_if (event_ref == "") no_event
    action ← resolve_action action_type step
    previous ← fields_of (given (get "previousWorkflowStep" step))
    let prior_ref = identifier_of (given (get "eventIdentifier" previous))
    event ← event_of step
    let as_of = shown_or_empty (given (get "eventDate" event))
    report_if reporting_entity rule_set on_behalf_of uti event_ref action prior_ref as_of
