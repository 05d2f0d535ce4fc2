-- ===== src/Declare/Request/Wire.antt =====
-- Reading `marshal_request` (declarant/pydeclarant/declare.py) back, field by field.
use treasury_intent_controll.Base.{
  String, Option, none, some, [], ◌∷◌, ◌==◌, ◌≡◌, refl, ap, sym, ◌∙◌, false, true, eq_iff,
  Bool-cases, inl, inr,
}
use mathlib.Core.List.{append_cancel_right}
use treasury_intent_controll.Json.Text.{Bytes}
use treasury_intent_controll.Json.Unambiguous.{quoted_injective}
use treasury_intent_controll.Json.Objects.{item_injective, rest_eq}
use treasury_intent_controll.Declare.Request.{
  Request, wire_field, wire_envelope, wire_spec, wire_artifact, marshal_request,
}

wire_envelope_injective : (a b : Option Bytes) → wire_envelope a ≡ wire_envelope b → a ≡ b
unfolding wire_envelope
wire_envelope_injective none none e = refl
wire_envelope_injective none (some q) e = cc
wire_envelope_injective (some r) none e = cc
wire_envelope_injective (some r) (some q) e =
    let name = quoted_injective "spec_envelope" "spec_envelope" _ _ (rest_eq b',' b',' _ _ e) in
    ap some (append_cancel_right r q (b'}' ∷ []) (rest_eq b':' b':' _ _ name.1))

-- The fields from `intent_spec_hash` on.
record SameSpec (r q : Request) : Type 0 where
  hash : r.intent_spec_hash ≡ q.intent_spec_hash
  scope : r.idempotency_scope ≡ q.idempotency_scope
  envelope : r.spec_envelope ≡ q.spec_envelope

wire_spec_injective : (r q : Request) → wire_spec r ≡ wire_spec q → SameSpec r q
unfolding wire_spec
wire_spec_injective r q e =
    let hash =
      item_injective "intent_spec_hash" "intent_spec_hash" r.intent_spec_hash q.intent_spec_hash _ _
        e in
    let spec = quoted_injective "spec" "spec" _ _ (rest_eq b',' b',' _ _ hash.2) in
    let inner = rest_eq b'{' b'{' _ _ (rest_eq b':' b':' _ _ spec.1) in
    let scope =
      item_injective "idempotency_scope" "idempotency_scope" r.idempotency_scope q.idempotency_scope
        _ _ inner in
    record {
      hash = hash.1;
      scope = scope.1;
      envelope =
          wire_envelope_injective r.spec_envelope q.spec_envelope (rest_eq b'}' b'}' _ _ scope.2);
    }

names_differ : ◌≡◌ {A = String} "intent_spec_hash" "rule_artifact_hash" → ⊥
names_differ e = cc ((eq_iff "intent_spec_hash" "rule_artifact_hash").1 e)

without_artifact :
    (r : Request) → (r.rule_artifact_hash == "") ≡ true → wire_artifact r ≡ wire_spec r
unfolding wire_artifact
without_artifact r h = rw h

with_artifact :
    (r : Request)
    → (r.rule_artifact_hash == "") ≡ false
    → wire_artifact r ≡ wire_field "rule_artifact_hash" r.rule_artifact_hash (b',' ∷ wire_spec r)
unfolding wire_artifact
with_artifact r h = rw h

clash_artifact :
    (r q : Request)
    → wire_spec r ≡ wire_field "rule_artifact_hash" q.rule_artifact_hash (b',' ∷ wire_spec q)
    → ⊥
unfolding wire_spec
clash_artifact r q e =
    names_differ
      (item_injective "intent_spec_hash" "rule_artifact_hash" r.intent_spec_hash
        q.rule_artifact_hash _ _ e).0

both_artifacts :
    (r q : Request)
    → wire_field "rule_artifact_hash" r.rule_artifact_hash (b',' ∷ wire_spec r)
      ≡ wire_field "rule_artifact_hash" q.rule_artifact_hash (b',' ∷ wire_spec q)
    → (r.rule_artifact_hash ≡ q.rule_artifact_hash) × SameSpec r q
both_artifacts r q e =
    let same =
      item_injective "rule_artifact_hash" "rule_artifact_hash" r.rule_artifact_hash
        q.rule_artifact_hash (b',' ∷ wire_spec r) (b',' ∷ wire_spec q) e in
    (same.1, wire_spec_injective r q (rest_eq b',' b',' _ _ same.2))

wire_artifact_injective :
    (r q : Request)
    → wire_artifact r ≡ wire_artifact q
    → (r.rule_artifact_hash ≡ q.rule_artifact_hash) × SameSpec r q
wire_artifact_injective r q e = elim (Bool-cases (r.rule_artifact_hash == "")) [
  | inl a ↦ elim (Bool-cases (q.rule_artifact_hash == "")) [
    | inl b ↦ (
      (eq_iff r.rule_artifact_hash "").0 a ∙ sym ((eq_iff q.rule_artifact_hash "").0 b),
      wire_spec_injective r q (sym (without_artifact r a) ∙ e ∙ without_artifact q b),
    )
    | inr b ↦ absurd (clash_artifact r q (sym (without_artifact r a) ∙ e ∙ with_artifact q b))
  ]
  | inr a ↦ elim (Bool-cases (q.rule_artifact_hash == "")) [
    | inl b ↦ absurd (clash_artifact q r (sym (without_artifact q b) ∙ sym e ∙ with_artifact r a))
    | inr b ↦ both_artifacts r q (sym (with_artifact r a) ∙ e ∙ with_artifact q b)
  ]
]

same_request :
    (r q : Request)
    → r.episode_seed ≡ q.episode_seed
    → r.idempotency_key ≡ q.idempotency_key
    → r.rule_artifact_hash ≡ q.rule_artifact_hash
    → SameSpec r q
    → r ≡ q
same_request r q a b c d = λ i. record {
  episode_seed = a i;
  idempotency_key = b i;
  rule_artifact_hash = c i;
  intent_spec_hash = d.hash i;
  idempotency_scope = d.scope i;
  spec_envelope = d.envelope i;
}

-- Two requests with the same wire bytes are the same request.
pub marshal_request_injective : (r q : Request) → marshal_request r ≡ marshal_request q → r ≡ q
unfolding marshal_request
marshal_request_injective r q e =
    let seed =
      item_injective "episode_seed" "episode_seed" r.episode_seed q.episode_seed
        (b',' ∷ wire_field "idempotency_key" r.idempotency_key (b',' ∷ wire_artifact r))
        (b',' ∷ wire_field "idempotency_key" q.idempotency_key (b',' ∷ wire_artifact q))
        (rest_eq b'{' b'{' _ _ e) in
    let key =
      item_injective "idempotency_key" "idempotency_key" r.idempotency_key q.idempotency_key
        (b',' ∷ wire_artifact r) (b',' ∷ wire_artifact q) (rest_eq b',' b',' _ _ seed.2) in
    let rest = wire_artifact_injective r q (rest_eq b',' b',' _ _ key.2) in
    same_request r q seed.1 key.1 rest.0 rest.1
