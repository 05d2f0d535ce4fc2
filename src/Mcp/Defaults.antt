-- ===== src/Mcp/Defaults.antt =====
-- A default of the schema, left out or spelled out in the arguments
-- (declarant/pydeclarant/mcp_adapter.py).
use treasury_intent_controll.Base.{
  ℕ, Bool, true, false, String, List, [], ◌∷◌, ◌++◌, Option, none, some, ◌==◌, eq_iff, eq_refl,
  eq-false, contains, if◌then◌else◌, ◌≡◌, refl, sym, ◌∙◌, ap, subst, Bool-cases, inl, inr,
}
use treasury_intent_controll.Json.Value.{Value, object, Fields, end, field, get}
use treasury_intent_controll.Json.Text.{Bytes}
use treasury_intent_controll.Mcp.{
  Step, at_name, Canon, canonical, unkeyable, crashed, unfinished, ◌>>=◌,
}
use treasury_intent_controll.Mcp.Schema.{Defs, defs_of, resolve}
use treasury_intent_controll.Mcp.Canonical.{
  is_there, dict_or_empty, required_names, extras, append, add_if_there, argument, arguments,
  tier2_object, tier2_value, tier2_args,
}
use treasury_intent_controll.Mcp.Call.{ModelFields, proxied, canonical_args}

other_way : (n name : String) → (n == name) ≡ false → (name == n) ≡ false
other_way n name h = eq-false name n (λ e. cc (h, (eq_iff n name).1 (sym e)))

bind_eq :
    {A B : Type 0} (m : Canon A) (f g : A → Canon B) → ((a : A) → f a ≡ g a) → (m >>= f) ≡ (m >>= g)
bind_eq (canonical a) f g h = h a
bind_eq (unkeyable t) f g h = refl
bind_eq crashed f g h = refl
bind_eq unfinished f g h = refl

module _ {N : Type 0} where
  -- The properties of a dict under this name are this one.
  unfoldable pub Binds : String → Value N → Fields N → Type 0
  Binds name v end = Unit
  Binds name v (field k w rest) = ((k == name) ≡ true → w ≡ v) × Binds name v rest

  get_spelled :
      (before after : Fields N) (name n : String) (d : Value N)
      → (name == n) ≡ false
      → get n (append before (field name d after)) ≡ get n (append before after)
  unfolding append get
  get_spelled end after name n d h = rw h refl
  get_spelled (field k w before) after name n d h =
      ap (λ (o : Option (Value N)). if k == n then some w else o)
        (get_spelled before after name n d h)

  get_here :
      (before after : Fields N) (name : String) (d : Value N)
      → get name (append before after) ≡ none
      → get name (append before (field name d after)) ≡ some d
  unfolding append get
  get_here end after name d h = rw (eq_refl name) refl
  get_here (field k w before) after name d h = elim (Bool-cases (k == name)) [
    | inl e ↦
        cc (subst (λ (b : Bool). (if b then some w else get name (append before after)) ≡ none) e h)
    | inr e ↦ rw e (
        get_here before after name d
          (subst (λ (b : Bool). (if b then some w else get name (append before after)) ≡ none) e h))
  ]

  extras_spelled :
      (properties before after : Fields N) (name : String) (d p : Value N)
      → get name properties ≡ some p
      → extras properties (append before (field name d after))
        ≡ extras properties (append before after)
  unfolding append extras
  extras_spelled properties end after name d p h = rw h refl
  extras_spelled properties (field k w before) after name d p h =
      ap (λ (o : Fields N). if is_there (get k properties) then o else field k w o)
        (extras_spelled properties before after name d p h)

  module _ (defs : Defs N) (strict : Bool)
      (value_of : List Step → Value N → Value N → Canon (Value N)) where
    argument_default :
        (here : List Step) (q : Value N) (is_required : Bool)
        (o none_there default : Option (Value N)) (d : Value N)
        → o ≡ some d
        → none_there ≡ none
        → default ≡ some d
        → argument defs strict value_of here q is_required o default
          ≡ argument defs strict value_of here q is_required none_there default
    unfolding argument
    argument_default here q is_required o none_there default d x y z = rw x (rw y (rw z refl))

    argument_spelled :
        (here : List Step) (is_required : Bool) (before after : Fields N) (name n : String)
        (d prop : Value N) (p : Fields N)
        → ((n == name) ≡ true → prop ≡ object p)
        → get "default" p ≡ some d
        → get name (append before after) ≡ none
        → argument defs strict value_of here
            (object (dict_or_empty (some prop)))
            is_required
            (get n (append before (field name d after)))
            (get "default" (dict_or_empty (some prop)))
          ≡ argument defs strict value_of here
              (object (dict_or_empty (some prop)))
              is_required
              (get n (append before after))
              (get "default" (dict_or_empty (some prop)))
    argument_spelled here is_required before after name n d prop p b e h =
        elim (Bool-cases (n == name)) [
          | inl q ↦
              argument_default here (object (dict_or_empty (some prop))) is_required
                (get n (append before (field name d after))) (get n (append before after))
                (get "default" (dict_or_empty (some prop))) d
                (ap (λ (k : String). get k (append before (field name d after)))
                    ((eq_iff n name).0 q)
                  ∙ get_here before after name d h)
                (ap (λ (k : String). get k (append before after)) ((eq_iff n name).0 q) ∙ h)
                (ap (λ (v : Value N). get "default" (dict_or_empty (some v))) (b q) ∙ e)
          | inr q ↦
              ap
                (λ (o : Option (Value N)).
                  argument defs strict value_of here (object (dict_or_empty (some prop)))
                    is_required o (get "default" (dict_or_empty (some prop))))
                (get_spelled before after name n d (other_way n name q))
        ]

    arguments_spelled :
        (place : List Step) (required : List String) (before after rest : Fields N) (name : String)
        (d : Value N) (p : Fields N)
        → Binds name (object p) rest
        → get "default" p ≡ some d
        → get name (append before after) ≡ none
        → arguments defs strict value_of place required (append before (field name d after)) rest
          ≡ arguments defs strict value_of place required (append before after) rest
    unfolding arguments Binds argument
    arguments_spelled place required before after end name d p b e h = refl
    arguments_spelled place required before after (field n prop rest) name d p b e h =
        rw (arguments_spelled place required before after rest name d p b.1 e h) (
          ap
            (λ (m : Canon (Option (Value N))). m >>= λ found.
              (arguments defs strict value_of place required (append before after) rest
                >>= λ others. canonical (add_if_there n found others)))
            (argument_spelled (place ++ (at_name n ∷ [])) (contains required n) before after name n
              d prop p b.0 e h))

    tier2_object_spelled :
        (place : List Step) (schema before after properties : Fields N) (name : String)
        (d : Value N) (p : Fields N)
        → get "properties" schema ≡ some (object properties)
        → get name properties ≡ some (object p)
        → Binds name (object p) properties
        → get "default" p ≡ some d
        → get name (append before after) ≡ none
        → tier2_object defs strict value_of place (append before (field name d after)) schema
          ≡ tier2_object defs strict value_of place (append before after) schema
    unfolding tier2_object
    tier2_object_spelled place schema before after properties name d p g q b e h = rw g (
        bind_eq (required_names (get "required" schema)) _ _ (λ required.
          rw (arguments_spelled place required before after properties name d p b e h)
            (rw (extras_spelled properties before after name d (object p) q) refl)))

  -- An argument that is left out, where the schema declares a default for it, and the same argument
  -- spelled out as the default at any place, give a proxied tool's call the same canonical bytes, or
  -- the same refusal.
  pub canonical_args-default :
      {O : Type 0} (is_zero is_integral : N → Bool) (to_float : N → Option N) (to_int : N → N)
      (depth : ℕ) (validate : ModelFields O → Fields N → Option (Fields N))
      (dumps : Fields N → Bytes) (strict : Bool)
      (schema before after resolved properties : Fields N) (name : String) (d : Value N)
      (p : Fields N)
      → resolve (defs_of schema) (object schema) ≡ canonical resolved
      → get "properties" resolved ≡ some (object properties)
      → get name properties ≡ some (object p)
      → Binds name (object p) properties
      → get "default" p ≡ some d
      → get name (append before after) ≡ none
      → canonical_args
          (tier2_args is_zero is_integral to_float to_int depth)
          validate
          dumps
          strict
          (some (append before (field name d after)))
          (proxied (object schema))
        ≡ canonical_args
            (tier2_args is_zero is_integral to_float to_int depth)
            validate
            dumps
            strict
            (some (append before after))
            (proxied (object schema))
  unfolding canonical_args tier2_args
  canonical_args-default is_zero is_integral to_float to_int depth validate dumps strict schema
        before after resolved properties name d p r g q b e h =
      rw r (
        ap (λ (m : Canon (Fields N)). m >>= λ args. canonical (dumps args))
          (tier2_object_spelled (defs_of schema) strict
            (tier2_value is_zero is_integral to_float to_int (defs_of schema) strict depth) []
            resolved before after properties name d p g q b e h))
