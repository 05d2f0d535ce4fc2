-- ===== src/Declare/Request.antt =====
-- The request, its wire bytes and the idempotency key (declarant/pydeclarant/declare.py).
pub mod Keys
pub mod Wire
use treasury_intent_controll.Base.{
  ℕ, zero, suc, String, ◌<>◌, Option, none, some, List, [], ◌∷◌, ◌++◌, ◌==◌, codes, if◌then◌else◌,
  ◌≡◌, refl,
}
use treasury_intent_controll.Base.Utf8.{utf8}
use treasury_intent_controll.Json.Text.{Bytes, quoted, escaped, escape}

-- `spec_envelope` is the compact JSON of the decoded envelope, where there is one.
pub record Request : Type 0 where
  pub episode_seed : String
  pub idempotency_key : String
  pub rule_artifact_hash : String
  pub intent_spec_hash : String
  pub idempotency_scope : String
  pub spec_envelope : Option Bytes

-- `"name":"value"`, in front of the rest.
abbrev pub wire_field : String → String → Bytes → Bytes
wire_field name value rest = quoted name (b':' ∷ quoted value rest)

unfoldable pub wire_envelope : Option Bytes → Bytes
wire_envelope none = b'}' ∷ []
wire_envelope (some raw) = b',' ∷ quoted "spec_envelope" (b':' ∷ (raw ++ (b'}' ∷ [])))

-- From `intent_spec_hash` on.
unfoldable pub wire_spec : Request → Bytes
unfolding wire_envelope
wire_spec r = wire_field "intent_spec_hash" r.intent_spec_hash (
    b','
    ∷ quoted "spec" (
        b':'
        ∷ b'{'
        ∷ wire_field "idempotency_scope" r.idempotency_scope
            (b'}' ∷ wire_envelope r.spec_envelope)))

-- An empty artifact hash is left out.
unfoldable pub wire_artifact : Request → Bytes
unfolding wire_spec
wire_artifact r =
    if r.rule_artifact_hash == ""
    then wire_spec r
    else wire_field "rule_artifact_hash" r.rule_artifact_hash (b',' ∷ wire_spec r)

unfoldable pub marshal_request : Request → Bytes
unfolding wire_artifact
marshal_request r =
    b'{'
    ∷ wire_field "episode_seed" r.episode_seed
        (b',' ∷ wire_field "idempotency_key" r.idempotency_key (b',' ∷ wire_artifact r))

-- `s[:n]`.
unfoldable pub first_chars : ℕ → String → String
first_chars zero s = ""
first_chars (suc n) String.[] = ""
first_chars (suc n) (String.◌∷◌ c s) = String.◌∷◌ c (first_chars n s)

-- `hashlib.sha256(bytes).hexdigest()` is a parameter.
module _ (sha256 : Bytes → String) where
  unfoldable pub derive_key : String → String → String → Bytes → String
  derive_key scope agent_run_id tool_name canonical_args =
      scope <> (":" <> (agent_run_id <> (":" <> (tool_name <> (":" <> sha256 canonical_args)))))

  unfoldable pub intent_id : String → String
  unfolding first_chars utf8
  intent_id episode_seed = first_chars 16 (sha256 (utf8 episode_seed))

abbrev golden : Request
golden = record {
  episode_seed = "golden-episode";
  idempotency_key = "per-actor:run-7";
  rule_artifact_hash = "";
  intent_spec_hash = "1111";
  idempotency_scope = "per-actor";
  spec_envelope = none;
}

golden_bytes :
    marshal_request golden
    ≡ codes
        "{\"episode_seed\":\"golden-episode\",\"idempotency_key\":\"per-actor:run-7\",\"intent_spec_hash\":\"1111\",\"spec\":{\"idempotency_scope\":\"per-actor\"}}"
unfolding marshal_request quoted escaped escape
golden_bytes = refl
