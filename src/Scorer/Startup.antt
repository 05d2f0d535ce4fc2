-- ===== src/Scorer/Startup.antt =====
-- core/scorer/src/scorer/__main__.py, `create_app` (app.py) and `KeArtifactResolver.from_paths`
-- (resolver.py): what a scorer serves with, from its environment. `json.loads`, `float`, `int`, the
-- reading of files and the artifact wheel are parameters.
pub mod Facts
pub mod Vouched
pub mod Served
use treasury_intent_controll.Base.{
  String, Bool, true, false, List, [], ◌∷◌, Option, none, some, ◌≡◌, refl,
}
use treasury_intent_controll.Json.Text.{Bytes}
use treasury_intent_controll.Scorer.{
  Tried, FactSource, static_facts, ArtifactResolver, null_resolver, verifying, Boot, no_resolver,
  incomplete, configured, resolver_from_env,
}
use treasury_intent_controll.Scorer.Resolver.{Decoded, Outcome, verify}

-- A step of the start-up that went on, raised SystemExit, or raised another exception.
pub data Started {ℓ} (A : Type ℓ) : Type ℓ where
  started : A → Started A
  refused failed : Started A

infixl 5 ◌>>=◌ ◌>>◌
abbrev pub ◌>>=◌ {ℓ κ} : {A : Type ℓ} {B : Type κ} → Started A → (A → Started B) → Started B
started a >>= f = f a
refused >>= f = refused
failed >>= f = failed

abbrev pub ◌>>◌ {ℓ} : {B : Type ℓ} → Started (Unit {0}) → Started B → Started B
m >> k = m >>= λ _. k

-- A call that raises is `none`.
abbrev pub or_fail {ℓ} : {A : Type ℓ} → Option A → Started A
or_fail none = failed
or_fail (some a) = started a

-- Inversion of a step that went on.
pub bind_started {ℓ κ} :
    {A : Type ℓ} {B : Type κ} (m : Started A) (f : A → Started B) {b : B}
    → (m >>= f) ≡ started b
    → (a : A) × (m ≡ started a) × (f a ≡ started b)
bind_started (started a) f h = (a, refl, h)
bind_started refused f h = cc h
bind_started failed f h = cc h

pub started_injective {ℓ} : {A : Type ℓ} (a b : A) → started a ≡ started b → a ≡ b
started_injective a b h = cc

pub or_fail-some {ℓ} : {A : Type ℓ} (o : Option A) (a : A) → or_fail o ≡ started a → o ≡ some a
or_fail-some none a h = cc h
or_fail-some (some x) a h = cc

-- What `json.loads` returns: a dict, or another value.
pub data FactsJson (V : Type 0) : Type 0 where
  object : List (String × V) → FactsJson V
  not_object : FactsJson V

module _ {V F : Type 0} (loads : String → Option (FactsJson V)) (to_float : V → Option F) where
  unfoldable pub read_facts : List (String × V) → Started (List (String × F))
  read_facts [] = started []
  read_facts ((k, v) ∷ items) =
      let rest = read_facts items in
      or_fail (to_float v) >>= λ fact. rest >>= λ facts. started ((k, fact) ∷ facts)

  abbrev pub decoded_facts : FactsJson V → Started (List (String × F))
  decoded_facts (object items) = read_facts items
  decoded_facts not_object = refused

  unfoldable pub facts_from_env : Option String → Started (Option (FactSource F))
  unfolding read_facts
  facts_from_env none = started none
  facts_from_env (some raw) = do
    json ← or_fail (loads raw)
    facts ← decoded_facts json
    started (some (static_facts facts))

-- The facts of `create_app`, where they are given.
abbrev pub fact_source : {F : Type 0} → Option (FactSource F) → FactSource F
fact_source none = static_facts []
fact_source (some facts) = facts

-- `KeArtifactResolver`, with the integers of `int` as a type.
pub record KeArtifactResolver (I : Type 0) : Type 0 where
  pub artifact_dir : String
  pub keydir_json : String
  pub context_json : String
  pub policy_json : String
  pub registry_json : String
  pub exported_at : I

-- `read_text` is `(inputs / name).read_text()`, `has_wheel` is whether ke_artifact_py can be imported,
-- and `store` is the bytes of a directory's artifact files, in their sorted order.
pub record Host (I : Type 0) : Type 0 where
  pub read_text : String → String → Option String
  pub has_wheel : Bool
  pub int : String → Option I
  pub store : String → List Bytes
  pub lower : String → String
  pub from_bytes : Bytes → Decoded
  pub verify_artifact : Bytes → String → String → String → String → I → Tried Outcome

abbrev pub import_wheel : Bool → Started (Unit {0})
import_wheel true = started tt
import_wheel false = failed

module _ {I : Type 0} (host : Host I) where
  unfoldable pub from_paths : String → String → I → Started (KeArtifactResolver I)
  from_paths artifact_dir inputs_dir exported_at = do
    keydir ← or_fail (host.read_text inputs_dir "keydir.json")
    context ← or_fail (host.read_text inputs_dir "context.json")
    policy ← or_fail (host.read_text inputs_dir "policy.json")
    registry ← or_fail (host.read_text inputs_dir "registry.json")
    import_wheel host.has_wheel
    started (record {
      artifact_dir = artifact_dir;
      keydir_json = keydir;
      context_json = context;
      policy_json = policy;
      registry_json = registry;
      exported_at = exported_at;
    })

  -- The end of `resolver_from_env`, where the settings are read.
  unfoldable pub boot_resolver : Boot → Started (Option (KeArtifactResolver I))
  unfolding from_paths
  boot_resolver no_resolver = started none
  boot_resolver incomplete = refused
  boot_resolver (configured artifact_dir inputs_dir exported_at) = do
    at ← or_fail (host.int exported_at)
    resolver ← from_paths artifact_dir inputs_dir at
    started (some resolver)

  -- `KeArtifactResolver.verify` with the resolver's own evidence.
  abbrev pub verify_with : KeArtifactResolver I → Option String → Option String → Tried Bool
  verify_with r =
      verify host.lower host.from_bytes
        (λ kew.
          host.verify_artifact kew r.keydir_json r.context_json r.policy_json r.registry_json
            r.exported_at)
        (host.store r.artifact_dir)

  -- The resolver of `create_app`, where one is given.
  abbrev pub artifact_resolver : Option (KeArtifactResolver I) → ArtifactResolver
  artifact_resolver none = null_resolver
  artifact_resolver (some r) = verifying (verify_with r)

-- What `uvicorn.run` is called with.
pub record ServedApp (F I : Type 0) : Type 0 where
  pub facts : FactSource F
  pub resolver : ArtifactResolver
  pub host_name : String
  pub port : I

abbrev pub env_or : String → Option String → String
env_or default none = default
env_or default (some s) = s

module _ {V F I : Type 0} (loads : String → Option (FactsJson V)) (to_float : V → Option F)
    (host : Host I) where
  -- `env` is `os.environ.get`.
  unfoldable pub main : (String → Option String) → Started (ServedApp F I)
  unfolding facts_from_env boot_resolver resolver_from_env
  main env = do
    facts ← facts_from_env loads to_float (env "SCORER_FACTS_JSON")
    resolver ← boot_resolver host (
        resolver_from_env (env "SCORER_ARTIFACT_DIR") (env "SCORER_ATLAS_INPUTS_DIR")
          (env "SCORER_EXPORTED_AT_UNIX"))
    port ← or_fail (host.int (env_or "8000" (env "SCORER_PORT")))
    started (record {
      facts = fact_source facts;
      resolver = artifact_resolver host resolver;
      host_name = env_or "127.0.0.1" (env "SCORER_HOST");
      port = port;
    })
