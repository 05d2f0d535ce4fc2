-- ===== src/Json/Value.antt =====
-- A decoded JSON value, as Python code reads it: `isinstance`, `get`, iteration and truth. What a
-- number is, is left open.
use treasury_intent_controll.Base.{
  Bool, true, false, not, String, List, [], ◌∷◌, Option, none, some, ◌==◌, if◌then◌else◌,
}

mutual
  pub data Value (N : Type 0) : Type 0 where
    null : Value N
    boolean : Bool → Value N
    number : N → Value N
    text : String → Value N
    array : Items N → Value N
    object : Fields N → Value N

  pub data Items (N : Type 0) : Type 0 where
    nil : Items N
    item : Value N → Items N → Items N

  pub data Fields (N : Type 0) : Type 0 where
    end : Fields N
    field : String → Value N → Fields N → Fields N

-- `d.get(key)`, where `none` is a key that is not there.
unfoldable pub get : {N : Type 0} → String → Fields N → Option (Value N)
get key end = none
get key (field k v rest) = if k == key then some v else get key rest

abbrev pub items_of : {N : Type 0} → Items N → List (Value N)
items_of nil = []
items_of (item v rest) = v ∷ items_of rest

-- A one-element array, and an object with one field, as literals.
abbrev pub one_item : {N : Type 0} → Value N → Value N
one_item v = array (item v nil)

abbrev pub one_field : {N : Type 0} → String → Value N → Value N
one_field key v = object (field key v end)

abbrev pub keys_of : {N : Type 0} → Fields N → List (Value N)
keys_of end = []
keys_of (field k v rest) = text k ∷ keys_of rest

-- `value[0]` where a list is expected; any other value fails.
abbrev pub first_item : {N : Type 0} → Value N → Option (Value N)
first_item (array (item v rest)) = some v
first_item _ = none

-- `value[key]` where a dict is expected; any other value fails.
abbrev pub at_key : {N : Type 0} → String → Value N → Option (Value N)
at_key key (object fields) = get key fields
at_key key _ = none

-- Whether a value is there and is this text.
abbrev pub is_text : {N : Type 0} → String → Option (Value N) → Bool
is_text s (some (text t)) = t == s
is_text s _ = false

-- The truth of a value, by that of its numbers.
abbrev pub truthy : {N : Type 0} → (N → Bool) → Value N → Bool
truthy is_zero null = false
truthy is_zero (boolean b) = b
truthy is_zero (number n) = not (is_zero n)
truthy is_zero (text s) = not (s == "")
truthy is_zero (array nil) = false
truthy is_zero (array (item v rest)) = true
truthy is_zero (object end) = false
truthy is_zero (object (field k v rest)) = true
