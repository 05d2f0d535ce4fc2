-- ===== src/Mcp/Canonical.antt =====
-- `_tier2_value`, `_tier2_object` and `_tier2_args` (declarant/pydeclarant/mcp_adapter.py): arguments
-- made canonical by a JSON schema. `is_zero` is the truth test on numbers; `to_float` is `float(n)`,
-- absent where it overflows; `is_integral` is `float.is_integer`, and `to_int` is `int(n)`.
use treasury_intent_controll.Base.{
  ℕ, zero, suc, Bool, true, false, ◌||◌, String, List, [], ◌∷◌, ◌++◌, contains, Option, none, some,
  if◌then◌else◌,
}
use treasury_intent_controll.Json.Value.{
  Value, null, number, text, array, object, Items, nil, item, Fields, end, field, get, is_text,
  truthy,
}
use treasury_intent_controll.Mcp.{
  Step, at_name, at_index, Canon, canonical, unkeyable, crashed, ◌>>=◌, required_missing,
  default_unknown,
}
use treasury_intent_controll.Mcp.Schema.{Defs, defs_of, resolve}

-- `key in d`, and the dict or list that a value is, or an empty one.
abbrev pub is_there {ℓ} : {A : Type ℓ} → Option A → Bool
is_there none = false
is_there (some a) = true

abbrev pub dict_or_empty : {N : Type 0} → Option (Value N) → Fields N
dict_or_empty (some (object fields)) = fields
dict_or_empty _ = end

-- `set(required)`: the texts among the elements, where all of them can be hashed.
unfoldable pub names_in : {N : Type 0} → Items N → Canon (List String)
names_in nil = canonical []
names_in (item (text name) rest) = do names ← names_in rest; canonical (name ∷ names)
names_in (item (array items) rest) = crashed
names_in (item (object fields) rest) = crashed
names_in (item _ rest) = names_in rest

unfoldable pub required_names : {N : Type 0} → Option (Value N) → Canon (List String)
unfolding names_in
required_names (some (array items)) = names_in items
required_names _ = canonical []

-- The arguments that the schema does not declare, as spelled.
unfoldable pub extras : {N : Type 0} → Fields N → Fields N → Fields N
unfolding get
extras properties end = end
extras properties (field name v rest) =
    if is_there (get name properties)
    then extras properties rest
    else field name v (extras properties rest)

unfoldable pub append : {N : Type 0} → Fields N → Fields N → Fields N
append end more = more
append (field k v rest) more = field k v (append rest more)

abbrev pub add_if_there : {N : Type 0} → String → Option (Value N) → Fields N → Fields N
add_if_there name none rest = rest
add_if_there name (some v) rest = field name v rest

module _ {N : Type 0} (defs : Defs N) (strict : Bool)
    (value_of : List Step → Value N → Value N → Canon (Value N)) where
  -- An argument that is absent and has no default.
  unfoldable pub absent_argument : List Step → Bool → Canon (Option (Value N))
  absent_argument here is_required =
      if is_required
      then unkeyable (required_missing here)
      else if strict
      then unkeyable (default_unknown here)
      else canonical none

  abbrev pub made : Canon (Value N) → Canon (Option (Value N))
  made v = do w ← v; canonical (some w)

  -- A default of the schema that the property refers to.
  abbrev pub default_behind :
      List Step → Value N → Bool → Option (Value N) → Canon (Option (Value N))
  default_behind here prop is_required (some v) = made (value_of here v prop)
  default_behind here prop is_required none = absent_argument here is_required

  -- The argument as spelled, or else the property's default.
  unfoldable pub argument :
      List Step → Value N → Bool → Option (Value N) → Option (Value N) → Canon (Option (Value N))
  unfolding absent_argument get resolve
  argument here prop is_required (some v) default = made (value_of here v prop)
  argument here prop is_required none (some v) = made (value_of here v prop)
  argument here prop is_required none none = do
    resolved ← resolve defs prop
    default_behind here prop is_required (get "default" resolved)

  -- The loop over the properties.
  unfoldable pub arguments : List Step → List String → Fields N → Fields N → Canon (Fields N)
  unfolding argument get
  arguments place required value end = canonical end
  arguments place required value (field name prop rest) = do
    let fields = dict_or_empty (some prop)
    found ←
        argument (place ++ (at_name name ∷ [])) (object fields) (contains required name)
          (get name value) (get "default" fields)
    others ← arguments place required value rest
    canonical (add_if_there name found others)

  unfoldable pub tier2_object : List Step → Fields N → Fields N → Canon (Fields N)
  unfolding arguments required_names extras append get
  tier2_object place value schema = do
    let properties = dict_or_empty (get "properties" schema)
    required ← required_names (get "required" schema)
    declared ← arguments place required value properties
    canonical (append declared (extras properties value))

  unfoldable pub tier2_items : List Step → ℕ → Value N → Items N → Canon (Items N)
  tier2_items place i schema nil = canonical nil
  tier2_items place i schema (item v rest) = do
    w ← value_of (place ++ (at_index i ∷ [])) v schema
    others ← tier2_items place (suc i) schema rest
    canonical (item w others)

  unfoldable pub tier2_array : List Step → Items N → Option (Value N) → Canon (Value N)
  unfolding tier2_items
  tier2_array place items (some (object schema)) = do
    made_items ← tier2_items place 0 (object schema) items
    canonical (array made_items)
  tier2_array place items _ = canonical (array items)

abbrev pub only : {N : Type 0} → List (Value N) → Option (Value N)
only (v ∷ []) = some v
only _ = none

abbrev pub is_null : {N : Type 0} → Value N → Bool
is_null null = true
is_null _ = false

module _ {N : Type 0} (defs : Defs N) where
  -- `[b for b in branches if …]`.
  unfoldable pub concrete_of : Items N → Canon (List (Value N))
  unfolding resolve get
  concrete_of nil = canonical []
  concrete_of (item (object branch) rest) = do
    resolved ← resolve defs (object branch)
    others ← concrete_of rest
    canonical (if is_text "null" (get "type" resolved) then others else object branch ∷ others)
  concrete_of (item _ rest) = concrete_of rest

  abbrev pub branch_in : Value N → Option (Value N) → Canon (Option (Value N))
  branch_in value (some (array branches)) =
      if is_null value
      then canonical none
      else (do found ← concrete_of branches; canonical (only found))
  branch_in value _ = canonical none

-- `schema.get("anyOf") or schema.get("oneOf")`.
abbrev pub or_one_of :
    {N : Type 0} → (N → Bool) → Option (Value N) → Option (Value N) → Option (Value N)
or_one_of is_zero none other = other
or_one_of is_zero (some v) other = if truthy is_zero v then some v else other

module _ {N : Type 0} (is_zero is_integral : N → Bool) (to_float : N → Option N) (to_int : N → N)
    (defs : Defs N) (strict : Bool) where
  abbrev pub as_float : Option N → Canon (Value N)
  as_float none = crashed
  as_float (some x) = canonical (number x)

  abbrev pub as_int : N → Option N → Canon (Value N)
  as_int n none = crashed
  as_int n (some x) = canonical (number (if is_integral x then to_int n else n))

  abbrev pub coerced : N → Option (Value N) → Canon (Value N)
  coerced n declared =
      if is_text "number" declared
      then as_float (to_float n)
      else if is_text "integer" declared
      then as_int n (to_float n)
      else canonical (number n)

  -- The value under a schema that is resolved.
  unfoldable pub by_type :
      (List Step → Value N → Value N → Canon (Value N))
      → List Step
      → Value N
      → Fields N
      → Canon (Value N)
  unfolding tier2_object tier2_array get
  by_type value_of place (object fields) schema =
      if is_text "object" (get "type" schema) || is_there (get "properties" schema)
      then (do
        made_fields ← tier2_object defs strict value_of place fields schema
        canonical (object made_fields))
      else canonical (object fields)
  by_type value_of place (array items) schema =
      tier2_array defs strict value_of place items (get "items" schema)
  by_type value_of place (number n) schema = coerced n (get "type" schema)
  by_type value_of place v schema = canonical v

  -- The one branch of a union that is not null, if the schema has no type.
  unfoldable pub branch_of : Value N → Fields N → Canon (Option (Value N))
  unfolding concrete_of get
  branch_of value schema =
      if is_there (get "type" schema)
      then canonical none
      else branch_in defs value (or_one_of is_zero (get "anyOf" schema) (get "oneOf" schema))

  abbrev pub by_branch :
      (List Step → Value N → Value N → Canon (Value N))
      → List Step
      → Value N
      → Fields N
      → Option (Value N)
      → Canon (Value N)
  by_branch value_of place value schema (some branch) = value_of place value branch
  by_branch value_of place value schema none = by_type value_of place value schema

  -- `_tier2_value`, to the depth at which a call raises RecursionError.
  unfoldable pub tier2_value : ℕ → List Step → Value N → Value N → Canon (Value N)
  unfolding branch_of by_type resolve
  tier2_value zero place value schema = crashed
  tier2_value (suc depth) place value schema = do
    resolved ← resolve defs schema
    branch ← branch_of value resolved
    by_branch (tier2_value depth) place value resolved branch

module _ {N : Type 0} (is_zero is_integral : N → Bool) (to_float : N → Option N)
    (to_int : N → N) where
  unfoldable pub tier2_args : ℕ → Bool → Fields N → Value N → Canon (Fields N)
  unfolding tier2_value tier2_object defs_of resolve
  tier2_args depth strict raw schema = do
    let fields = dict_or_empty (some schema)
    let defs = defs_of fields
    resolved ← resolve defs (object fields)
    tier2_object defs strict (tier2_value is_zero is_integral to_float to_int defs strict depth) []
        raw resolved
