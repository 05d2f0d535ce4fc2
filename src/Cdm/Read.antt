-- ===== src/Cdm/Read.antt =====
-- What an identity that was read from a step carries (declarant/pydeclarant/cdm_adapter.py).
use treasury_intent_controll.Base.{
  Bool, true, false, not, ◌&&◌, ◌||◌, String, List, [], ◌∷◌, Option, none, some, ◌==◌, lookup,
  contains, if◌then◌else◌, ◌≡◌, refl, subst, inl, inr, Bool-cases, arith,
}
use treasury_intent_controll.Json.Value.{
  Value, is_text, null, boolean, number, text, Fields, get, array, object, one_item,
}
use treasury_intent_controll.Reporting.{ReportIdentity, action_types}
use treasury_intent_controll.Cdm.{
  action_for_cdm, add_uti, merge, report_if, refuse_if, known_action, ◌>>◌, single, given, Bridged,
  bridged, refused, crashed, ◌>>=◌, Cause, keyed_fields, if_keyed, utis, first_identifier,
  identity_from_workflow_step, resolve_action, event_of, trade_states, state_utis, utis_of,
  fields_of, uti_type, elements_of, no_event, no_prior, no_date, identifier_of, action_of,
  mapped_action,
}

-- The shape of an identity that was read: its action type is of the table with these fields, a UTI
-- is there, and a discriminator is there exactly when the action type keys on it.
pub record HasKeys (r : ReportIdentity) (extra : List String) : Type 0 where
  pub action : lookup r.action_type action_types ≡ some extra
  pub uti : (r.uti == "") ≡ false
  pub as_of : (r.as_of == "") ≡ not (contains extra "as_of")
  pub event_ref : (r.event_ref == "") ≡ not (contains extra "event_ref")
  pub prior_ref : (r.prior_ref == "") ≡ not (contains extra "prior_ref")

pub bind_bridged {ℓ κ} :
    {A : Type ℓ} {B : Type κ} (m : Bridged A) (f : A → Bridged B) {b : B}
    → (m >>= f) ≡ bridged b
    → (a : A) × (m ≡ bridged a) × (f a ≡ bridged b)
bind_bridged (bridged a) f h = (a, refl, h)
bind_bridged (refused c) f h = cc
bind_bridged crashed f h = cc

pub not_refused {ℓ} :
    {B : Type ℓ} (b : Bool) (c : Cause) (k : Bridged B) {x : B}
    → (refuse_if b c >> k) ≡ bridged x
    → (b ≡ false) × (k ≡ bridged x)
not_refused true c k h = cc
not_refused false c k h = (refl, h)

pub bridged_injective {ℓ} : {A : Type ℓ} (a b : A) → bridged a ≡ bridged b → a ≡ b
bridged_injective a b h = cc

-- Every one of the values is a text that is not empty.
unfoldable AllGiven : List String → Type 0
AllGiven [] = Unit
AllGiven (s ∷ l) = ((s == "") ≡ false) × AllGiven l

or_left : (a b : Bool) → (a || b) ≡ false → a ≡ false
or_left a b h = ground arith

if-AllGiven :
    (b : Bool) (l m : List String) → AllGiven l → AllGiven m → AllGiven (if b then l else m)
if-AllGiven true l m x y = x
if-AllGiven false l m x y = y

add_uti-AllGiven : (s : String) (l : List String) → AllGiven l → AllGiven (add_uti s l)
unfolding AllGiven
add_uti-AllGiven s l a = elim (Bool-cases (s == "" || contains l s)) [
  | inl e ↦ rw e a
  | inr e ↦ rw e (or_left (s == "") (contains l s) e, a)
]

merge-AllGiven : (l found : List String) → AllGiven found → AllGiven (merge l found)
merge-AllGiven [] found a = a
merge-AllGiven (s ∷ l) found a = add_uti-AllGiven s (merge l found) (merge-AllGiven l found a)

module _ {N : Type 0} (is_zero : N → Bool) (repr : Value N → String) where
  utis_of-AllGiven :
      (ids : List (Value N)) (l : List String) → utis_of is_zero repr ids ≡ bridged l → AllGiven l
  unfolding utis_of AllGiven
  utis_of-AllGiven [] l h = subst AllGiven (bridged_injective [] l h) tt
  utis_of-AllGiven (tid ∷ rest) l h =
      let a = bind_bridged (fields_of is_zero repr (given is_zero repr (some tid))) _ h in
      let b = bind_bridged (utis_of is_zero repr rest) _ a.2 in
      let given_rest = utis_of-AllGiven rest b.0 b.1 in
      subst AllGiven (bridged_injective _ l b.2) (
        if-AllGiven (is_text uti_type (get "identifierType" a.0))
          (add_uti (first_identifier is_zero repr (one_item tid)) b.0) b.0
          (add_uti-AllGiven (first_identifier is_zero repr (one_item tid)) b.0 given_rest)
          given_rest)

  state_utis-AllGiven :
      (states : List (Fields N)) (l : List String)
      → state_utis is_zero repr states ≡ bridged l
      → AllGiven l
  unfolding state_utis AllGiven
  state_utis-AllGiven [] l h = subst AllGiven (bridged_injective [] l h) tt
  state_utis-AllGiven (state ∷ rest) l h =
      let a = bind_bridged (fields_of is_zero repr (given is_zero repr (get "trade" state))) _ h in
      let b =
        bind_bridged (elements_of is_zero repr (given is_zero repr (get "tradeIdentifier" a.0))) _
          a.2 in
      let c = bind_bridged (utis_of is_zero repr b.0) _ b.2 in
      let d = bind_bridged (state_utis is_zero repr rest) _ c.2 in
      subst AllGiven (bridged_injective (merge c.0 d.0) l d.2)
        (merge-AllGiven c.0 d.0 (state_utis-AllGiven rest d.0 d.1))

  utis-AllGiven :
      (step : Fields N) (l : List String) → utis is_zero repr step ≡ bridged l → AllGiven l
  unfolding utis
  utis-AllGiven step l h =
      let a = bind_bridged (trade_states is_zero repr step) _ h in state_utis-AllGiven a.0 l a.2

single-given :
    (l : List String) (uti : String) → AllGiven l → single l ≡ bridged uti → (uti == "") ≡ false
unfolding AllGiven
single-given [] uti a h = cc
single-given (s ∷ []) uti a h = subst (λ t. (t == "") ≡ false) (bridged_injective s uti h) a.0
single-given (s ∷ t ∷ l) uti a h = cc

-- An action type of the table.
abbrev IsKnown : String → Type 0
IsKnown action = lookup action action_types ≡ some (keyed_fields (lookup action action_types))

known_action-IsKnown :
    (action result : String) (extra : Option (List String))
    → lookup action action_types ≡ extra
    → known_action action extra ≡ bridged result
    → IsKnown result
known_action-IsKnown action result none e h = cc
known_action-IsKnown action result (some extra) e h =
    subst IsKnown (bridged_injective action result h) (rw e refl)

from_table :
    (b c d : Bool) (result : String)
    → mapped_action
        (if b then some "NEWT" else if c then some "CORR" else if d then some "EROR" else none)
      ≡ bridged result
    → IsKnown result
unfolding lookup
from_table true c d result h = subst IsKnown (bridged_injective "NEWT" result h) refl
from_table false true d result h = subst IsKnown (bridged_injective "CORR" result h) refl
from_table false false true result h = subst IsKnown (bridged_injective "EROR" result h) refl
from_table false false false result h = cc

mapped_action-IsKnown :
    (s result : String) → mapped_action (lookup s action_for_cdm) ≡ bridged result → IsKnown result
unfolding lookup
mapped_action-IsKnown s result h = from_table ("New" == s) ("Correct" == s) ("Cancel" == s) result h

and_false : (b : Bool) → (b && false) ≡ false
and_false true = refl
and_false false = refl

keyed_value :
    (b : Bool) (value : String)
    → (b && value == "") ≡ false
    → ((if b then value else "") == "") ≡ not b
keyed_value true value h = h
keyed_value false value h = refl

if_keyed-empty :
    (extra : List String) (name value : String)
    → (contains extra name && value == "") ≡ false
    → (if_keyed extra name value == "") ≡ not (contains extra name)
if_keyed-empty extra name value h = keyed_value (contains extra name) value h

if_keyed-nonempty :
    (extra : List String) (name value : String)
    → (value == "") ≡ false
    → (if_keyed extra name value == "") ≡ not (contains extra name)
if_keyed-nonempty extra name value h =
    keyed_value (contains extra name) value (rw h (and_false (contains extra name)))

-- A record of the identity that is read.
report_if-HasKeys :
    (entity rules on_behalf uti event_ref action prior_ref as_of : String) (r : ReportIdentity)
    → IsKnown action
    → (uti == "") ≡ false
    → (event_ref == "") ≡ false
    → report_if entity rules on_behalf uti event_ref action prior_ref as_of ≡ bridged r
    → HasKeys r (keyed_fields (lookup r.action_type action_types))
unfolding report_if
report_if-HasKeys entity rules on_behalf uti event_ref action prior_ref as_of r a u v h =
    let extra : List String = keyed_fields (lookup action action_types) in
    let x = not_refused (contains extra "prior_ref" && prior_ref == "") no_prior _ h in
    let y = not_refused (contains extra "as_of" && as_of == "") no_date _ x.1 in
    subst (λ (q : ReportIdentity). HasKeys q (keyed_fields (lookup q.action_type action_types)))
      (bridged_injective _ r y.1)
      (record {
        action = a;
        uti = u;
        as_of = if_keyed-empty extra "as_of" as_of y.0;
        event_ref = if_keyed-nonempty extra "event_ref" event_ref v;
        prior_ref = if_keyed-empty extra "prior_ref" prior_ref x.0;
      })

module _ {N : Type 0} (is_zero : N → Bool) (repr : Value N → String) where
  action_of-IsKnown :
      (v : Option (Value N)) (result : String)
      → action_of is_zero repr v ≡ bridged result
      → IsKnown result
  action_of-IsKnown none result h = cc
  action_of-IsKnown (some (text s)) result h = mapped_action-IsKnown s result h
  action_of-IsKnown (some (array items)) result h = cc
  action_of-IsKnown (some (object fields)) result h = cc
  action_of-IsKnown (some null) result h = cc
  action_of-IsKnown (some (boolean b)) result h = cc
  action_of-IsKnown (some (number n)) result h = cc

  resolve_action-IsKnown :
      (given_type : Option String) (step : Fields N) (result : String)
      → resolve_action is_zero repr given_type step ≡ bridged result
      → IsKnown result
  unfolding resolve_action
  resolve_action-IsKnown none step result h = action_of-IsKnown (get "action" step) result h
  resolve_action-IsKnown (some action) step result h =
      known_action-IsKnown action result (lookup action action_types) refl h

  -- An identity that was read from a step has an action type of the closed table, a UTI that is not
  -- empty, and each discriminator empty exactly when its action type does not key on it.
  pub identity_from_workflow_step-HasKeys :
      (step : Fields N) (entity rules : String) (given_type : Option String) (on_behalf : String)
      (r : ReportIdentity)
      → identity_from_workflow_step is_zero repr step entity rules given_type on_behalf ≡ bridged r
      → HasKeys r (keyed_fields (lookup r.action_type action_types))
  unfolding identity_from_workflow_step
  identity_from_workflow_step-HasKeys step entity rules given_type on_behalf r h =
      let a = bind_bridged (utis is_zero repr step) _ h in
      let b = bind_bridged (single a.0) _ a.2 in
      let c =
        not_refused
          (identifier_of is_zero repr (given is_zero repr (get "eventIdentifier" step)) == "")
          no_event _ b.2 in
      let d = bind_bridged (resolve_action is_zero repr given_type step) _ c.1 in
      let e =
        bind_bridged (fields_of is_zero repr (given is_zero repr (get "previousWorkflowStep" step)))
          _ d.2 in
      let f = bind_bridged (event_of is_zero repr step) _ e.2 in
      report_if-HasKeys entity rules on_behalf b.0 _ d.0 _ _ r
        (resolve_action-IsKnown given_type step d.0 d.1)
        (single-given a.0 b.0 (utis-AllGiven is_zero repr step a.0 a.1) b.1) c.0 f.2
