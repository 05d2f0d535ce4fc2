-- ===== src/Skeptic/Models.antt =====
-- tic-concept-chat/models.py: the model of a role, from the decoded configuration.
use treasury_intent_controll.Base.{
  Bool, true, false, not, String, Option, none, some, ◌==◌, if◌then◌else◌, ◌≡◌, subst, Bool-cases,
  inl, inr,
}
use treasury_intent_controll.Json.Value.{Value, text, object, Fields, end, field, get}

-- The exceptions: FileNotFoundError, ValueError, and KeyError for a role.
pub data ConfigError : Type 0 where
  not_found not_an_object unknown_role : ConfigError
  bad_model : String → ConfigError

pub data Loaded (A : Type 0) : Type 0 where
  loaded : A → Loaded A
  failed : ConfigError → Loaded A

module _ {N : Type 0} where
  abbrev pub is_model : Value N → Bool
  is_model (text s) = not (s == "")
  is_model _ = false

  -- The loop over the items: the first role that does not map to a model.
  unfoldable pub bad_role : Fields N → Option String
  bad_role end = none
  bad_role (field role model rest) = if is_model model then bad_role rest else some role

  abbrev pub load_items : Fields N → Option String → Loaded (Fields N)
  load_items config none = loaded config
  load_items config (some role) = failed (bad_model role)

  -- The file, decoded; `none` where it is not there.
  unfoldable pub load_config : Option (Value N) → Loaded (Fields N)
  unfolding bad_role
  load_config none = failed not_found
  load_config (some (object (field role model rest))) =
      load_items (field role model rest) (bad_role (field role model rest))
  load_config (some _) = failed not_an_object

  abbrev pub model_of : Option (Value N) → Loaded (Value N)
  model_of none = failed unknown_role
  model_of (some model) = loaded model

  abbrev pub resolve_in : String → Loaded (Fields N) → Loaded (Value N)
  resolve_in role (loaded config) = model_of (get role config)
  resolve_in role (failed e) = failed e

  unfoldable pub resolve : String → Option (Value N) → Loaded (Value N)
  unfolding load_config get
  resolve role file = resolve_in role (load_config file)

  -- A configuration that was loaded maps its roles to texts that are not empty.
  get-bad_role :
      (fields : Fields N) (role : String) (v : Value N)
      → bad_role fields ≡ none
      → get role fields ≡ some v
      → is_model v ≡ true
  unfolding bad_role get
  get-bad_role end role v h e = cc
  get-bad_role (field k w rest) role v h e = elim (Bool-cases (is_model w)) [
    | inl m ↦
        let h' = subst (λ (b : Bool). (if b then bad_role rest else some k) ≡ none) m h in
        elim (Bool-cases (k == role)) [
          | inl q ↦ cc (subst (λ (b : Bool). (if b then some w else get role rest) ≡ some v) q e, m)
          | inr q ↦
              get-bad_role rest role v h'
                (subst (λ (b : Bool). (if b then some w else get role rest) ≡ some v) q e)
        ]
    | inr m ↦ cc (subst (λ (b : Bool). (if b then bad_role rest else some k) ≡ none) m h)
  ]
