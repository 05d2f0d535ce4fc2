-- ===== src/Mcp/Tests.antt =====
-- Runs of the MCP adapter (declarant/pydeclarant/mcp_adapter.py) on concrete schemas and calls.
use treasury_intent_controll.Base.{
  ℕ, Bool, true, false, String, List, [], ◌∷◌, Option, none, some, eqb, ◌≡◌, refl, ◌≢◌, lookup,
}
use treasury_intent_controll.Json.Value.{
  number, text, Fields, end, field, get, object, one_item, one_field,
}
use treasury_intent_controll.Json.Text.{Bytes}
use treasury_intent_controll.Client.Tests.{granting}
use treasury_intent_controll.Mcp.{
  unkeyable, unfinished, ref_cycle, unreadable_signature, required_missing, at_name,
}
use treasury_intent_controll.Mcp.Schema.{
  Defs, defs_of, resolve, resolve_dict, rounds, size, turn, split, target_of, remove, update, set,
}
use treasury_intent_controll.Mcp.Canonical.{
  tier2_args, tier2_value, tier2_object, arguments, argument, absent_argument, required_names,
  names_in, extras, append, by_type, branch_of, concrete_of, tier2_array, tier2_items,
}
use treasury_intent_controll.Mcp.Call.{
  ModelFields, Parameter, Kind, Tool, proxied, model_fields, tier1_args, ToolCall, canonical_args,
  gate_call,
}
use treasury_intent_controll.Mcp.Resolved.{resolve-Finished}
use treasury_intent_controll.Mcp.Defaults.{Binds, canonical_args-default}
use treasury_intent_controll.Mcp.Cleared.{Told, gate_call-Told}

abbrev is_zero : ℕ → Bool
is_zero n = eqb n 0

abbrev is_integral : ℕ → Bool
is_integral n = true

abbrev to_float : ℕ → Option ℕ
to_float n = some n

abbrev to_int : ℕ → ℕ
to_int n = n

abbrev dumps : Fields ℕ → Bytes
dumps fields = []

-- A model that takes what it is given.
abbrev validate : ModelFields (Unit {0}) → Fields ℕ → Option (Fields ℕ)
validate fields raw = some raw

abbrev digest : Bytes → String
digest b = "00ff"

-- Two definitions that refer to each other.
abbrev loop_defs : Defs ℕ
loop_defs =
    (
      "$defs",
      field "A" (one_field "$ref" (text "#/$defs/B"))
          (field "B" (one_field "$ref" (text "#/$defs/A")) end),
    )
    ∷ []

loop_refused :
    resolve loop_defs (one_field "$ref" (text "#/$defs/A")) ≡ unkeyable (ref_cycle "#/$defs/A")
unfolding resolve resolve_dict rounds size turn split target_of remove update set lookup get
loop_refused = refl

resolve-Finished_example : resolve loop_defs (one_field "$ref" (text "#/$defs/A")) ≢ unfinished
resolve-Finished_example = resolve-Finished loop_defs (one_field "$ref" (text "#/$defs/A"))

-- A tool with an amount, which is required, and a currency, which has a default.
abbrev currency : Fields ℕ
currency = field "default" (text "EUR") (field "type" (text "string") end)

abbrev properties : Fields ℕ
properties =
    field "amount" (one_field "type" (text "number")) (field "currency" (object currency) end)

abbrev schema : Fields ℕ
schema =
    field "type" (text "object")
      (field "properties" (object properties) (field "required" (one_item (text "amount")) end))

amount_missing :
    tier2_args is_zero is_integral to_float to_int 9 false end (object schema)
    ≡ unkeyable (required_missing (at_name "amount" ∷ []))
unfolding tier2_args tier2_value tier2_object arguments argument absent_argument required_names
    names_in extras append by_type branch_of concrete_of tier2_array tier2_items resolve
    resolve_dict rounds size turn defs_of get
amount_missing = refl

canonical_args-default_example :
    canonical_args
      (tier2_args is_zero is_integral to_float to_int 9)
      validate
      dumps
      true
      (some (field "amount" (number 500) (field "currency" (text "EUR") end)))
      (proxied (object schema))
    ≡ canonical_args
        (tier2_args is_zero is_integral to_float to_int 9)
        validate
        dumps
        true
        (some (field "amount" (number 500) end))
        (proxied (object schema))
unfolding append
canonical_args-default_example =
    canonical_args-default is_zero is_integral to_float to_int 9 validate dumps true schema
      (field "amount" (number 500) end) end schema properties "currency" (text "EUR") currency
      (unfold resolve resolve_dict rounds size turn defs_of get in refl) (unfold get in refl)
      (unfold get in refl) (unfold Binds in ((λ h. cc h), ((λ h. refl), tt))) (unfold get in refl)
      (unfold get append in refl)

abbrev transfer : ToolCall ℕ (Unit {0}) (List String)
transfer = record {
  name = "transfer";
  arguments = some (field "amount" (number 500) end);
  nonce = "n1";
  call_next = λ log. (some tt, "moved" ∷ log);
}

abbrev get_tool : String → Option (Tool ℕ (Unit {0}))
get_tool name = some (proxied (object schema))

gate_call-Told_example :
    Told
      (tier2_args is_zero is_integral to_float to_int 9)
      validate
      dumps
      digest
      granting
      get_tool
      "1111"
      "per-actor"
      "run-7"
      none
      true
      transfer
      false
      []
      (gate_call
        (tier2_args is_zero is_integral to_float to_int 9)
        validate
        dumps
        digest
        granting
        get_tool
        "1111"
        "per-actor"
        "run-7"
        none
        true
        transfer
        false
        [])
gate_call-Told_example =
    gate_call-Told (tier2_args is_zero is_integral to_float to_int 9) validate dumps digest granting
      get_tool "1111" "per-actor" "run-7" none true transfer false []

-- A callable with an account, without annotation, and `**options`.
abbrev parameters : List (Parameter (Unit {0}))
parameters =
    record { name = "account"; kind = Kind.named; annotation = none; default = some tt }
    ∷ record { name = "options"; kind = Kind.var_keyword; annotation = some tt; default = none }
    ∷ []

fields_run : model_fields parameters ≡ ("account", none, some tt) ∷ []
unfolding model_fields
fields_run = refl

signature_unreadable : tier1_args validate none end ≡ unkeyable unreadable_signature
unfolding tier1_args
signature_unreadable = refl
