-- ===== src/Mcp/Schema.antt =====
-- `_defs_of` and `_resolve` (declarant/pydeclarant/mcp_adapter.py): the `$ref`s of a JSON schema.
use treasury_intent_controll.Base.{
  ℕ, zero, suc, ◌+◌, String, List, [], ◌∷◌, Option, none, some, ◌==◌, eqb, lookup, contains,
  if◌then◌else◌,
}
use Prim.Native.Char.{Char, code}
use treasury_intent_controll.Json.Value.{Value, text, array, object, Fields, end, field, get}
use treasury_intent_controll.Mcp.{
  Canon, canonical, unkeyable, crashed, unfinished, ref_cycle, ref_unresolved, ref_no_text,
}

-- The sections that hold definitions.
abbrev pub Defs : Type 0 → Type 0
Defs N = List (String × Fields N)

abbrev pub add_section : {N : Type 0} → String → Option (Value N) → Defs N → Defs N
add_section key (some (object section)) defs = (key, section) ∷ defs
add_section key _ defs = defs

unfoldable pub defs_of : {N : Type 0} → Fields N → Defs N
unfolding get
defs_of schema =
    add_section "$defs" (get "$defs" schema)
      (add_section "definitions" (get "definitions" schema) [])

-- `s.split("/")`: the first part, and the others.
abbrev pub add_code : Char → List String → List String
add_code c [] = String.◌∷◌ c String.[] ∷ []
add_code c (part ∷ parts) = String.◌∷◌ c part ∷ parts

unfoldable pub split : String → List String
split String.[] = String.[] ∷ []
split (String.◌∷◌ c s) = if eqb (code c) 47 then String.[] ∷ split s else add_code c (split s)

-- `d.pop(key)`, `d[key] = value`, and `d.update(more)`.
unfoldable pub remove : {N : Type 0} → String → Fields N → Fields N
remove key end = end
remove key (field k v rest) = if k == key then remove key rest else field k v (remove key rest)

unfoldable pub set : {N : Type 0} → String → Value N → Fields N → Fields N
set key v end = field key v end
set key v (field k w rest) = if k == key then field k v rest else field k w (set key v rest)

unfoldable pub update : {N : Type 0} → Fields N → Fields N → Fields N
unfolding set
update fields end = fields
update fields (field k v rest) = update (set k v fields) rest

-- The entry of a section that a reference names.
abbrev pub entry : {N : Type 0} → String → Option (Fields N) → Option (Value N)
entry name none = none
entry name (some section) = get name section

unfoldable pub target_of : {N : Type 0} → Defs N → List String → Option (Value N)
unfolding lookup get
target_of defs (root ∷ section ∷ name ∷ []) =
    if root == "#" then entry name (lookup section defs) else none
target_of defs _ = none

-- One round of the loop: the end of it, or another round under the reference.
pub data Turn (N : Type 0) : Type 0 where
  stop : Canon (Fields N) → Turn N
  go : String → Fields N → Turn N

abbrev pub go_to : {N : Type 0} → Fields N → String → Option (Value N) → Turn N
go_to schema ref (some (object target)) = go ref (update target (remove "$ref" schema))
go_to schema ref _ = stop (unkeyable (ref_unresolved ref))

-- A reference that is an array or an object cannot be hashed; the text of one that is a number, a
-- boolean or null has no three parts.
unfoldable pub turn : {N : Type 0} → Defs N → List String → Fields N → Option (Value N) → Turn N
unfolding target_of split remove update
turn defs seen schema none = stop (canonical schema)
turn defs seen schema (some (text ref)) =
    if contains seen ref
    then stop (unkeyable (ref_cycle ref))
    else go_to schema ref (target_of defs (split ref))
turn defs seen schema (some (array items)) = stop crashed
turn defs seen schema (some (object fields)) = stop crashed
turn defs seen schema (some _) = stop (unkeyable ref_no_text)

-- The loop of `_resolve` on a dict, for so many rounds.
unfoldable pub resolve_dict : {N : Type 0} → ℕ → Defs N → List String → Fields N → Canon (Fields N)
unfolding turn get
resolve_dict zero defs seen schema = unfinished
resolve_dict (suc n) defs seen schema = elim (turn defs seen schema (get "$ref" schema)) [
  | stop result ↦ result
  | go ref next ↦ resolve_dict n defs (ref ∷ seen) next
]

unfoldable pub size : {N : Type 0} → Fields N → ℕ
size end = 0
size (field k v rest) = suc (size rest)

-- The rounds that suffice: one for each definition, and two.
unfoldable pub rounds : {N : Type 0} → Defs N → ℕ
unfolding size
rounds [] = 2
rounds ((key, section) ∷ defs) = size section + rounds defs

unfoldable pub resolve : {N : Type 0} → Defs N → Value N → Canon (Fields N)
unfolding resolve_dict rounds
resolve defs (object schema) = resolve_dict (rounds defs) defs [] schema
resolve defs _ = canonical end
