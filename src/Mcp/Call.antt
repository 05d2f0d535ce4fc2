-- ===== src/Mcp/Call.antt =====
-- `_tier1_args`, `_canonical_args`, `_refusal_message`, `_gate_call` and `IntentGateMiddleware`
-- (declarant/pydeclarant/mcp_adapter.py). The server's tools, the signature of a callable, pydantic's
-- model of its fields and `json.dumps` are parameters; the tool that runs acts on a world of its own.
use treasury_intent_controll.Base.{
  Bool, false, not, String, ◌<>◌, List, [], ◌∷◌, true, Option, none, some, contains, if◌then◌else◌,
}
use treasury_intent_controll.Json.Value.{Value, Fields, end}
use treasury_intent_controll.Json.Text.{Bytes}
use treasury_intent_controll.Declare.{class_name}
use treasury_intent_controll.Declare.Request.{derive_key}
use treasury_intent_controll.Client.{Gate, Result, Attempt, done, raised, Fault, declare}
use treasury_intent_controll.Gating.{
  Gated, authorized, refused, IntentRefused, require_fresh_proceed,
}
use treasury_intent_controll.Reporting.Submit.{request_for}
use treasury_intent_controll.Mcp.{
  Trouble, Canon, canonical, unkeyable, crashed, unfinished, ◌>>=◌, not_valid, unreadable_signature,
}

-- A parameter of a callable, with its annotation and its default where it has them.
pub data Kind : Type 0 where
  var_positional var_keyword named : Kind

pub record Parameter (O : Type 0) : Type 0 where
  pub name : String
  pub kind : Kind
  pub annotation : Option O
  pub default : Option O

abbrev pub is_variadic : Kind → Bool
is_variadic named = false
is_variadic _ = true

-- The fields of the pydantic model; `object` stands for a missing annotation and `...` for a missing
-- default, here `none`.
abbrev pub ModelFields : Type 0 → Type 0
ModelFields O = List (String × Option O × Option O)

unfoldable pub model_fields : {O : Type 0} → List (Parameter O) → ModelFields O
model_fields [] = []
model_fields (p ∷ params) =
    let rest = model_fields params in
    if is_variadic p.kind then rest else (p.name, p.annotation, p.default) ∷ rest

-- A tool: with its own callable, seen through its signature where that can be read, or with no more
-- than its schema.
pub data Tool (N O : Type 0) : Type 0 where
  owned : Option (List (Parameter O)) → Tool N O
  proxied : Value N → Tool N O

abbrev pub validated : {N : Type 0} → Option (Fields N) → Canon (Fields N)
validated none = unkeyable not_valid
validated (some args) = canonical args

-- `_tier1_args`: `validate` makes a model of the fields, which forbids extra arguments, validates the
-- raw ones against it and dumps the result.
unfoldable pub tier1_args :
    {N O : Type 0}
    → (ModelFields O → Fields N → Option (Fields N))
    → Option (List (Parameter O))
    → Fields N
    → Canon (Fields N)
unfolding model_fields
tier1_args validate none raw = unkeyable unreadable_signature
tier1_args validate (some params) raw = validated (validate (model_fields params) raw)

-- `dict(arguments) if arguments else {}`.
abbrev pub raw_of : {N : Type 0} → Option (Fields N) → Fields N
raw_of none = end
raw_of (some fields) = fields

unfoldable pub refusal_message : IntentRefused → String
unfolding class_name
refusal_message e =
    "intent refused: class="
    <> (class_name e.class_
        <> (" terminal="
            <> (e.terminal
                <> (" reason="
                    <> (e.reason
                        <> (" retry_safe="
                            <> ((if e.same_key_retry_safe then "true" else "false")
                                <> (" -- " <> e.retry_guidance))))))))

-- How a call ends: the tool's result or exception, a ToolError, or another exception.
pub data CallEnding (A : Type 0) : Type 0 where
  returned : A → CallEnding A
  tool_raised unreadable_schema escaped : CallEnding A
  not_canonical : Trouble → CallEnding A
  not_authorized : String → CallEnding A
  client_raised : Fault → CallEnding A

-- One call, with the nonce that it draws.
pub record ToolCall (N A W : Type 0) : Type 0 where
  pub name : String
  pub arguments : Option (Fields N)
  pub nonce : String
  pub call_next : W → Option A × W

abbrev pub result_of : {A : Type 0} → Option A → CallEnding A
result_of none = tool_raised
result_of (some a) = returned a

-- `tools is not None and name not in tools`.
abbrev pub is_ungated : Option (List String) → String → Bool
is_ungated none name = false
is_ungated (some tools) name = not (contains tools name)

-- The collection of names that the constructor takes.
pub data Names : Type 0 where
  absent : Names
  a_string : String → Names
  collection : List String → Names

-- `IntentGateMiddleware.__init__`: the gated set, or TypeError.
unfoldable pub gated_tools : Names → Option (Option (List String))
gated_tools absent = some none
gated_tools (a_string s) = none
gated_tools (collection names) = some (some names)

module _ {N O : Type 0} (tier2_args : Bool → Fields N → Value N → Canon (Fields N))
    (validate : ModelFields O → Fields N → Option (Fields N)) (dumps : Fields N → Bytes)
    (strict_args : Bool) where
  abbrev pub args_for : Tool N O → Fields N → Canon (Fields N)
  args_for (owned signature) raw = tier1_args validate signature raw
  args_for (proxied schema) raw = tier2_args strict_args raw schema

  unfoldable pub canonical_args : Option (Fields N) → Tool N O → Canon Bytes
  unfolding tier1_args
  canonical_args arguments tool = do args ← args_for tool (raw_of arguments); canonical (dumps args)

module _ {N O A W : Type 0} (tier2_args : Bool → Fields N → Value N → Canon (Fields N))
    (validate : ModelFields O → Fields N → Option (Fields N)) (dumps : Fields N → Bytes)
    (sha256 : Bytes → String) (G : Gate) (get_tool : String → Option (Tool N O))
    (intent_spec_hash scope run_id : String) (tools : Option (List String))
    (strict_args : Bool) where
  unfoldable pub run_tool : ToolCall N A W → G.State → W → CallEnding A × G.State × W
  run_tool c s w = let (r, w') = c.call_next w in (result_of r, s, w')

  unfoldable pub if_authorized :
      ToolCall N A W → Gated (Unit {0}) → G.State → W → CallEnding A × G.State × W
  unfolding run_tool
  if_authorized c (authorized _) s w = run_tool c s w
  if_authorized c (refused e) s w = (not_authorized (refusal_message e), s, w)

  unfoldable pub if_declared :
      ToolCall N A W → Attempt Result → G.State → W → CallEnding A × G.State × W
  unfolding if_authorized
  if_declared c (done res) s w = if_authorized c (require_fresh_proceed res) s w
  if_declared c (raised fault) s w = (client_raised fault, s, w)

  unfoldable pub if_canonical :
      ToolCall N A W → Canon Bytes → G.State → W → CallEnding A × G.State × W
  unfolding if_declared
  if_canonical c (canonical payload) s w =
      let key = derive_key sha256 scope run_id c.name payload in
      let r = request_for scope key c.nonce intent_spec_hash in
      let (answer, s') = declare sha256 G r s in if_declared c answer s' w
  if_canonical c (unkeyable t) s w = (not_canonical t, s, w)
  if_canonical c crashed s w = (escaped, s, w)
  if_canonical c unfinished s w = (escaped, s, w)

  unfoldable pub if_readable :
      ToolCall N A W → Option (Tool N O) → G.State → W → CallEnding A × G.State × W
  unfolding if_canonical canonical_args
  if_readable c none s w = (unreadable_schema, s, w)
  if_readable c (some tool) s w =
      if_canonical c (canonical_args tier2_args validate dumps strict_args c.arguments tool) s w

  unfoldable pub gate_call : ToolCall N A W → G.State → W → CallEnding A × G.State × W
  unfolding if_readable run_tool
  gate_call c s w =
      if is_ungated tools c.name then run_tool c s w else if_readable c (get_tool c.name) s w
