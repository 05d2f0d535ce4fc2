-- ===== src/Reporting/Submit.antt =====
-- `gate_submission` and `gate_batch` (declarant/pydeclarant/reporting_adapter.py). The caller's
-- `submit` acts on a world of its own and may raise; the nonce of each call is an argument.
pub mod Refusals
pub mod AtMostOnce
use mathlib.Core.Option
use treasury_intent_controll.Base.{
  ℕ, Bool, true, false, String, ◌<>◌, List, [], ◌∷◌, Option, none, some, lookup, if◌then◌else◌,
}
use treasury_intent_controll.Json.Text.{Bytes}
use treasury_intent_controll.Declare.Request.{Request, derive_key, intent_id}
use treasury_intent_controll.Client.{Gate, Result, Attempt, done, raised, Fault, declare}
use treasury_intent_controll.Gating.{
  Gated, authorized, refused, IntentRefused, require_fresh_proceed,
}
use treasury_intent_controll.Reporting.{
  ReportIdentity, Unkeyable, Keyed, keyed, unkeyable, canonical_identity, tool_name,
}

-- `intent_spec_hash`: one hash, or a mapping by action type.
pub data SpecMapping : Type 0 where
  one : String → SpecMapping
  by_action : List (String × String) → SpecMapping

-- `_spec_hash_for`; `none` is SpecMappingError.
unfoldable pub spec_hash_for : SpecMapping → String → Option String
spec_hash_for (one hash) action = some hash
spec_hash_for (by_action m) action = lookup action m

pub record Submitted (A : Type 0) : Type 0 where
  pub key : String
  pub intent_id : String
  pub result : A

-- How one call ended: its return value, or the exception that left it.
pub data Ending (A : Type 0) : Type 0 where
  submitted : Submitted A → Ending A
  not_keyable : Unkeyable → Ending A
  no_spec : Ending A
  gate_refused : IntentRefused → Ending A
  client_raised : Fault → Ending A
  submit_raised : Ending A

-- One pair of `items`, with the nonce that its call draws.
pub record Job (A W : Type 0) : Type 0 where
  pub identity : ReportIdentity
  pub nonce : String
  pub submit : W → Option A × W

abbrev pub ended : {A : Type 0} → (Bytes → String) → String → String → Option A → Ending A
ended sha256 key seed none = submit_raised
ended sha256 key seed (some a) =
    submitted (record { key = key; intent_id = intent_id sha256 seed; result = a })

-- The request that a call declares: a fresh episode under the key.
abbrev pub request_for : String → String → String → String → Request
request_for scope key nonce hash = record {
  episode_seed = key <> ("-" <> nonce);
  idempotency_key = key;
  rule_artifact_hash = "";
  intent_spec_hash = hash;
  idempotency_scope = scope;
  spec_envelope = none;
}

-- The exceptions that `gate_batch` does not catch.
abbrev pub propagates : {A : Type 0} → Ending A → Bool
propagates (client_raised fault) = true
propagates submit_raised = true
propagates _ = false

-- An exception that goes through ends the batch; else the outcome stands in front of the rest.
unfoldable pub batch_more :
    {A S W : Type 0}
    → Bool
    → ReportIdentity × Ending A
    → S
    → W
    → Option (List (ReportIdentity × Ending A)) × S × W
    → Option (List (ReportIdentity × Ending A)) × S × W
batch_more true outcome s w rest = (none, s, w)
batch_more false outcome s w rest = (Option.map (λ out. outcome ∷ out) rest.0, rest.1, rest.2)

module _ {A W : Type 0} (nfc : String → String) (sha256 : Bytes → String) (G : Gate)
    (spec : SpecMapping) (scope run_id : String) where
  unfoldable pub run_submit :
      Job A W → String → String → Gated (Unit {0}) → G.State → W → Ending A × G.State × W
  run_submit job key seed (authorized _) s w =
      let (r, w') = job.submit w in (ended sha256 key seed r, s, w')
  run_submit job key seed (refused e) s w = (gate_refused e, s, w)

  unfoldable pub after_declare :
      Job A W → String → String → Attempt Result → G.State → W → Ending A × G.State × W
  unfolding run_submit
  after_declare job key seed (done res) s w =
      run_submit job key seed (require_fresh_proceed res) s w
  after_declare job key seed (raised fault) s w = (client_raised fault, s, w)

  unfoldable pub declare_job : Job A W → Bytes → String → G.State → W → Ending A × G.State × W
  unfolding after_declare
  declare_job job payload hash s w =
      let key = derive_key sha256 scope run_id tool_name payload in
      let r = request_for scope key job.nonce hash in
      let (answer, s') = declare sha256 G r s in after_declare job key r.episode_seed answer s' w

  unfoldable pub with_spec : Job A W → Bytes → Option String → G.State → W → Ending A × G.State × W
  unfolding declare_job
  with_spec job payload none s w = (no_spec, s, w)
  with_spec job payload (some hash) s w = declare_job job payload hash s w

  unfoldable pub with_payload : Job A W → Keyed Bytes → G.State → W → Ending A × G.State × W
  unfolding with_spec spec_hash_for
  with_payload job (unkeyable e) s w = (not_keyable e, s, w)
  with_payload job (keyed payload) s w =
      with_spec job payload (spec_hash_for spec job.identity.action_type) s w

  unfoldable pub gate_submission : Job A W → G.State → W → Ending A × G.State × W
  unfolding with_payload
  gate_submission job s w = with_payload job (canonical_identity nfc job.identity) s w

  -- The outcomes in order; `none` when an exception went through.
  unfoldable pub gate_batch :
      List (Job A W) → G.State → W → Option (List (ReportIdentity × Ending A)) × G.State × W
  unfolding batch_more
  gate_batch [] s w = (some [], s, w)
  gate_batch (job ∷ jobs) s w =
      let (e, s', w') = gate_submission job s w in
      batch_more (propagates e) (job.identity, e) s' w' (gate_batch jobs s' w')
