-- ===== src/Langchain.antt =====
-- declarant/pydeclarant/langchain_adapter.py: a framework tool behind the gate. The arguments are what
-- schema validation hands over; the wrapped tool acts on a world of its own and may raise.
pub mod Cleared
pub mod Tests
use treasury_intent_controll.Base.{Bool, String, Option, none, some, if◌then◌else◌}
use treasury_intent_controll.Json.Value.{Value, array, object, Items, nil, item, Fields, end, field}
use treasury_intent_controll.Json.Text.{Bytes}
use treasury_intent_controll.Declare.Request.{derive_key}
use treasury_intent_controll.Client.{Gate, Result, Attempt, done, raised, Fault, declare}
use treasury_intent_controll.Gating.{
  Gated, authorized, refused, IntentRefused, require_fresh_proceed,
}
use treasury_intent_controll.Reporting.Submit.{request_for}

-- A validated argument: a scalar of JSON, a model instance with what its `model_dump` makes, a dict, a
-- list or tuple, or a value that `json.dumps` does not take.
mutual
  pub data Argument (N : Type 0) : Type 0 where
    scalar : Value N → Argument N
    model : Value N → Argument N
    dict : Arguments N → Argument N
    sequence : Elements N → Argument N
    opaque : Argument N

  pub data Arguments (N : Type 0) : Type 0 where
    no_more : Arguments N
    argument : String → Argument N → Arguments N → Arguments N

  pub data Elements (N : Type 0) : Type 0 where
    no_element : Elements N
    element : Argument N → Elements N → Elements N

abbrev pub dict_of : {N : Type 0} → Option (Fields N) → Option (Value N)
dict_of none = none
dict_of (some fields) = some (object fields)

abbrev pub list_of : {N : Type 0} → Option (Items N) → Option (Value N)
list_of none = none
list_of (some items) = some (array items)

abbrev pub add_field :
    {N : Type 0} → String → Option (Value N) → Option (Fields N) → Option (Fields N)
add_field name none rest = none
add_field name (some v) none = none
add_field name (some v) (some rest) = some (field name v rest)

abbrev pub add_item : {N : Type 0} → Option (Value N) → Option (Items N) → Option (Items N)
add_item none rest = none
add_item (some v) none = none
add_item (some v) (some rest) = some (item v rest)

-- `_jsonable`; `none` where a value is left that `json.dumps` raises TypeError on.
unfoldable mutual
  pub jsonable : {N : Type 0} → Argument N → Option (Value N)
  jsonable (scalar v) = some v
  jsonable (model v) = some v
  jsonable (dict fields) = dict_of (jsonable_fields fields)
  jsonable (sequence items) = list_of (jsonable_items items)
  jsonable opaque = none

  pub jsonable_fields : {N : Type 0} → Arguments N → Option (Fields N)
  jsonable_fields no_more = some end
  jsonable_fields (argument name a rest) = add_field name (jsonable a) (jsonable_fields rest)

  pub jsonable_items : {N : Type 0} → Elements N → Option (Items N)
  jsonable_items no_element = some nil
  jsonable_items (element a rest) = add_item (jsonable a) (jsonable_items rest)

-- One invocation: whether there is positional input, the keyword arguments, and the nonce that is drawn.
pub record Invocation (N A W : Type 0) : Type 0 where
  pub is_positional : Bool
  pub kwargs : Arguments N
  pub nonce : String
  pub invoke : W → Option A × W

pub data Outcome (A : Type 0) : Type 0 where
  returned : A → Outcome A
  tool_raised positional_input not_serializable : Outcome A
  intent_refused : IntentRefused → Outcome A
  client_raised : Fault → Outcome A

abbrev pub outcome_of : {A : Type 0} → Option A → Outcome A
outcome_of none = tool_raised
outcome_of (some a) = returned a

-- `json.dumps` of a dict, with its keys sorted, is a parameter.
module _ {N : Type 0} (dumps : Fields N → Bytes) where
  abbrev pub dumped : Option (Fields N) → Option Bytes
  dumped none = none
  dumped (some fields) = some (dumps fields)

  unfoldable pub canonical_args : Arguments N → Option Bytes
  unfolding jsonable_fields
  canonical_args kwargs = dumped (jsonable_fields kwargs)

module _ {N A W : Type 0} (dumps : Fields N → Bytes) (sha256 : Bytes → String) (G : Gate)
    (name intent_spec_hash scope run_id : String) where
  unfoldable pub if_authorized :
      Invocation N A W → Gated (Unit {0}) → G.State → W → Outcome A × G.State × W
  if_authorized c (authorized _) s w = let (r, w') = c.invoke w in (outcome_of r, s, w')
  if_authorized c (refused e) s w = (intent_refused e, s, w)

  unfoldable pub if_declared :
      Invocation N A W → Attempt Result → G.State → W → Outcome A × G.State × W
  unfolding if_authorized
  if_declared c (done res) s w = if_authorized c (require_fresh_proceed res) s w
  if_declared c (raised fault) s w = (client_raised fault, s, w)

  unfoldable pub if_keyed : Invocation N A W → Option Bytes → G.State → W → Outcome A × G.State × W
  unfolding if_declared
  if_keyed c none s w = (not_serializable, s, w)
  if_keyed c (some payload) s w =
      let r =
        request_for scope (derive_key sha256 scope run_id name payload) c.nonce intent_spec_hash in
      let (answer, s') = declare sha256 G r s in if_declared c answer s' w

  -- The function that `gate_tool` wraps the tool in.
  unfoldable pub gated : Invocation N A W → G.State → W → Outcome A × G.State × W
  unfolding if_keyed canonical_args
  gated c s w =
      if c.is_positional
      then (positional_input, s, w)
      else if_keyed c (canonical_args dumps c.kwargs) s w
