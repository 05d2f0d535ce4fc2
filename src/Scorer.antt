-- ===== src/Scorer.antt =====
-- core/scorer/src/scorer: models.py, evaluator.py, facts.py, app.py and the boot choice of
-- __main__.py. Numbers are Python's floats: a type with its test `>=` and its two-decimal print.
pub mod Resolver
pub mod Verdicts
pub mod Startup
pub mod Tests
use treasury_intent_controll.Base.{
  String, ◌<>◌, Bool, true, false, not, ◌||◌, ◌&&◌, List, Option, none, some, ◌==◌, lookup,
  if◌then◌else◌,
}

-- A call that returned, or raised an exception of the named type.
pub data Tried {ℓ} (A : Type ℓ) : Type ℓ where
  returned : A → Tried A
  threw : String → Tried A

pub record EvalRequest (F : Type 0) : Type 0 where
  pub intent_id : String
  pub criterion : String
  pub threshold : F
  pub phase : String
  pub volatility : String
  pub rule_artifact_hash : Option String
  pub intent_spec_hash : Option String

pub data Verdict : Type 0 where
  pass fail unevaluable : Verdict

pub record EvalResponse : Type 0 where
  pub result : Verdict
  pub basis : Option String

-- The truth of a field that is a text or absent.
abbrev pub is_given : Option String → Bool
is_given none = false
is_given (some s) = not (s == "")

abbrev pub FactSource : Type 0 → Type 0
FactSource F = String → String → Tried (Option F)

unfoldable pub static_facts : {F : Type 0} → List (String × F) → FactSource F
static_facts facts criterion intent_id = returned (lookup criterion facts)

-- `NullResolver`, or a resolver with its `verify`.
pub data ArtifactResolver : Type 0 where
  null_resolver : ArtifactResolver
  verifying : (Option String → Option String → Tried Bool) → ArtifactResolver

abbrev pub skip_note : String
skip_note = "resolver=null: verification skipped; "

abbrev pub basis_text : Option String → String
basis_text none = ""
basis_text (some s) = s

abbrev pub internal_error : String → EvalResponse
internal_error name = record { result = unevaluable; basis = some ("internal error: " <> name) }

-- What stands in front of the evaluation: a note, a refusal, or an exception.
pub data Clearance : Type 0 where
  cleared : String → Clearance
  not_verified : Clearance
  crashed : String → Clearance

unfoldable pub verdict_of : Tried Bool → Clearance
verdict_of (returned true) = cleared ""
verdict_of (returned false) = not_verified
verdict_of (threw name) = crashed name

unfoldable pub ask : ArtifactResolver → Option String → Option String → Clearance
unfolding verdict_of
ask null_resolver rule spec = cleared skip_note
ask (verifying verify) rule spec = verdict_of (verify rule spec)

unfoldable pub clearance : ArtifactResolver → Option String → Option String → Clearance
unfolding ask
clearance resolver rule spec =
    if is_given rule || is_given spec then ask resolver rule spec else cleared ""

-- A note stands in front of the basis.
unfoldable pub annotate : String → EvalResponse → EvalResponse
annotate note resp =
    if note == ""
    then resp
    else record { result = resp.result; basis = some (note <> basis_text resp.basis) }

module _ {F : Type 0} (at_least : F → F → Bool) (two_decimals : F → String) where
  unfoldable pub evaluate : EvalRequest F → Option F → EvalResponse
  evaluate req none = record {
    result = unevaluable;
    basis = some ("unknown criterion: " <> req.criterion);
  }
  evaluate req (some fact) =
      if at_least fact req.threshold
      then record {
        result = pass;
        basis = some (
            req.criterion
            <> ("=" <> (two_decimals fact <> (" >= " <> two_decimals req.threshold))));
      }
      else record {
        result = fail;
        basis = some (
            req.criterion <> ("=" <> (two_decimals fact <> (" < " <> two_decimals req.threshold))));
      }

  unfoldable pub score : EvalRequest F → String → Tried (Option F) → EvalResponse
  unfolding evaluate annotate
  score req note (returned fact) = annotate note (evaluate req fact)
  score req note (threw name) = internal_error name

  unfoldable pub after_clearance : FactSource F → EvalRequest F → Clearance → EvalResponse
  unfolding score
  after_clearance facts req (cleared note) = score req note (facts req.criterion req.intent_id)
  after_clearance facts req not_verified = record {
    result = unevaluable;
    basis = some "artifact verification failed";
  }
  after_clearance facts req (crashed name) = internal_error name

  unfoldable pub ml_evaluate : FactSource F → ArtifactResolver → EvalRequest F → EvalResponse
  unfolding after_clearance clearance
  ml_evaluate facts resolver req =
      after_clearance facts req (clearance resolver req.rule_artifact_hash req.intent_spec_hash)

-- `resolver_from_env`: no resolver, a refusal to boot, or the three settings.
pub data Boot : Type 0 where
  no_resolver incomplete : Boot
  configured : String → String → String → Boot

unfoldable pub resolver_from_env : Option String → Option String → Option String → Boot
resolver_from_env artifact_dir inputs_dir exported_at =
    if not (is_given artifact_dir || is_given inputs_dir || is_given exported_at)
    then no_resolver
    else if not (is_given artifact_dir && is_given inputs_dir && is_given exported_at)
    then incomplete
    else configured (basis_text artifact_dir) (basis_text inputs_dir) (basis_text exported_at)
