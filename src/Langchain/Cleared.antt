-- ===== src/Langchain/Cleared.antt =====
-- What an invocation of a wrapped tool (declarant/pydeclarant/langchain_adapter.py) has done to the
-- world, and the arguments that its key is derived from.
use treasury_intent_controll.Base.{
  Bool, true, false, String, Option, none, some, ◌≡◌, refl, ap, if◌then◌else◌,
}
use treasury_intent_controll.Json.Value.{
  Value, null, boolean, number, text, array, object, Items, nil, item, Fields, end, field,
}
use treasury_intent_controll.Json.Text.{Bytes}
use treasury_intent_controll.Declare.Request.{marshal_request, derive_key}
use treasury_intent_controll.Client.{Gate, Result, Attempt, done, raised, declare}
use treasury_intent_controll.Gating.{Gated, authorized, refused, require_fresh_proceed}
use treasury_intent_controll.Gating.Fresh.{Authorizes, AchievedReply, declare-Authorizes_iff}
use treasury_intent_controll.Reporting.Submit.{request_for}
use treasury_intent_controll.Langchain.{
  Argument, scalar, model, dict, sequence, Arguments, no_more, argument, Elements, no_element,
  element, dict_of, list_of, jsonable, jsonable_fields, jsonable_items, Invocation, Outcome,
  returned, tool_raised, positional_input, not_serializable, intent_refused, client_raised,
  outcome_of, canonical_args, if_authorized, if_declared, if_keyed, gated,
}

-- A JSON value, as plain dicts and lists.
abbrev mutual
  plain : {N : Type 0} → Value N → Argument N
  plain null = scalar null
  plain (boolean b) = scalar (boolean b)
  plain (number n) = scalar (number n)
  plain (text s) = scalar (text s)
  plain (array items) = sequence (plain_items items)
  plain (object fields) = dict (plain_fields fields)

  plain_items : {N : Type 0} → Items N → Elements N
  plain_items nil = no_element
  plain_items (item v rest) = element (plain v) (plain_items rest)

  plain_fields : {N : Type 0} → Fields N → Arguments N
  plain_fields end = no_more
  plain_fields (field name v rest) = argument name (plain v) (plain_fields rest)

mutual
  unfolding jsonable

  jsonable-plain : {N : Type 0} (v : Value N) → jsonable (plain v) ≡ some v
  jsonable-plain null = refl
  jsonable-plain (boolean b) = refl
  jsonable-plain (number n) = refl
  jsonable-plain (text s) = refl
  jsonable-plain (array items) = ap list_of (jsonable_items-plain items)
  jsonable-plain (object fields) = ap dict_of (jsonable_fields-plain fields)

  jsonable_items-plain :
      {N : Type 0} (items : Items N) → jsonable_items (plain_items items) ≡ some items
  jsonable_items-plain nil = refl
  jsonable_items-plain (item v rest) = rw (jsonable-plain v) (rw (jsonable_items-plain rest) refl)

  jsonable_fields-plain :
      {N : Type 0} (fields : Fields N) → jsonable_fields (plain_fields fields) ≡ some fields
  jsonable_fields-plain end = refl
  jsonable_fields-plain (field name v rest) =
      rw (jsonable-plain v) (rw (jsonable_fields-plain rest) refl)

-- An argument that arrives as a model instance and the same one as plain dicts and lists have one key.
canonical_args-model :
    {N : Type 0} (dumps : Fields N → Bytes) (name : String) (v : Value N) (rest : Arguments N)
    → canonical_args dumps (argument name (model v) rest)
      ≡ canonical_args dumps (argument name (plain v) rest)
unfolding canonical_args jsonable
canonical_args-model dumps name v rest = rw (jsonable-plain v) refl

module _ {N A W : Type 0} (dumps : Fields N → Bytes) (sha256 : Bytes → String) (G : Gate)
    (name intent_spec_hash scope run_id : String) where
  -- What stands behind a run of the tool: keyword input that can be serialized, and an ACHIEVED to the
  -- request declared under its key.
  pub record Cleared (c : Invocation N A W) (s : G.State) : Type 0 where
    pub payload : Bytes
    pub by_keyword : c.is_positional ≡ false
    pub is_canonical : canonical_args dumps c.kwargs ≡ some payload
    pub achieved :
        AchievedReply
          (G.post s (
            marshal_request (
              request_for scope
                (derive_key sha256 scope run_id name payload)
                c.nonce
                intent_spec_hash))).0

  -- The outcome says what was done.
  unfoldable pub Told : Invocation N A W → G.State → W → Outcome A × G.State × W → Type 0
  Told c s w (returned a, s', w') = Cleared c s
  Told c s w (tool_raised, s', w') = Cleared c s
  Told c s w (positional_input, s', w') = (s' ≡ s) × (w' ≡ w)
  Told c s w (not_serializable, s', w') = (s' ≡ s) × (w' ≡ w)
  Told c s w (intent_refused e, s', w') = w' ≡ w
  Told c s w (client_raised fault, s', w') = w' ≡ w

  outcome_of-Told :
      (c : Invocation N A W) (o : Option A) (s s' : G.State) (w w' : W)
      → Cleared c s
      → Told c s w (outcome_of o, s', w')
  unfolding Told
  outcome_of-Told c none s s' w w' h = h
  outcome_of-Told c (some a) s s' w w' h = h

  if_authorized-Told :
      (c : Invocation N A W) (g : Gated (Unit {0})) (s s' : G.State) (w : W)
      → (g ≡ authorized tt → Cleared c s)
      → Told c s w (if_authorized dumps sha256 G name intent_spec_hash scope run_id c g s' w)
  unfolding if_authorized Told
  if_authorized-Told c (authorized _) s s' w h =
      outcome_of-Told c (c.invoke w).0 s s' w (c.invoke w).1 (h refl)
  if_authorized-Told c (refused e) s s' w h = refl

  if_declared-Told :
      (c : Invocation N A W) (a : Attempt Result) (s s' : G.State) (w : W)
      → (Authorizes a → Cleared c s)
      → Told c s w (if_declared dumps sha256 G name intent_spec_hash scope run_id c a s' w)
  unfolding if_declared Told
  if_declared-Told c (done res) s s' w h = if_authorized-Told c (require_fresh_proceed res) s s' w h
  if_declared-Told c (raised fault) s s' w h = refl

  if_keyed-Told :
      (c : Invocation N A W) (o : Option Bytes) (s : G.State) (w : W)
      → c.is_positional ≡ false
      → canonical_args dumps c.kwargs ≡ o
      → Told c s w (if_keyed dumps sha256 G name intent_spec_hash scope run_id c o s w)
  unfolding if_keyed Told
  if_keyed-Told c none s w p e = (refl, refl)
  if_keyed-Told c (some payload) s w p e =
      let r =
        request_for scope (derive_key sha256 scope run_id name payload) c.nonce intent_spec_hash in
      if_declared-Told c (declare sha256 G r s).0 s (declare sha256 G r s).1 w (λ a. record {
        payload = payload;
        by_keyword = p;
        is_canonical = e;
        achieved = (declare-Authorizes_iff sha256 G r s).0 a;
      })

  by_input-Told :
      (b : Bool) (c : Invocation N A W) (s : G.State) (w : W)
      → c.is_positional ≡ b
      → Told c s w (
          if b
          then (positional_input, s, w)
          else if_keyed dumps sha256 G name intent_spec_hash scope run_id c
              (canonical_args dumps c.kwargs)
              s
              w)
  unfolding Told
  by_input-Told true c s w e = (refl, refl)
  by_input-Told false c s w e = if_keyed-Told c (canonical_args dumps c.kwargs) s w e refl

  -- An invocation of a wrapped tool whose tool ran, to a result or to an exception, had no positional
  -- input, and the gate answered ACHIEVED to the request declared under the key of its arguments. One
  -- that ended otherwise left the tool's world as it was, and the gate too where the input was
  -- positional or could not be serialized.
  pub gated-Told :
      (c : Invocation N A W) (s : G.State) (w : W)
      → Told c s w (gated dumps sha256 G name intent_spec_hash scope run_id c s w)
  unfolding gated
  gated-Told c s w = by_input-Told c.is_positional c s w refl
