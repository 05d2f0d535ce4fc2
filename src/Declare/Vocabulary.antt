-- ===== src/Declare/Vocabulary.antt =====
-- The closed vocabulary of terminals and reasons (CONTRACT.md 3.2 and 3.3), as data: the independent
-- description that the classifiers are held to.
use treasury_intent_controll.Base.{String, ◌<>◌, ◌≡◌, ◌≢◌, false, has_code}
use treasury_intent_controll.Declare.{
  Class, proceed, shadow_recorded, policy_denied, sdk_bug, spec_unattested, spec_defect,
  human_judgment, unevaluable, revoked, fact_drift, already_reserved,
}

-- What the gate may answer. The texts are the criterion names and the references.
pub data Outcome : Type 0 where
  achieved shadow absent_key unattested_spec invalid_posture empty_criteria collision : Outcome
  invalid_volatility unresolved_judgment pulled unscored denied drifted pulled_at_dispatch :
      String → Outcome

unfoldable pub terminal_of : Outcome → String
terminal_of achieved = "ACHIEVED"
terminal_of shadow = "SHADOW_RECORDED"
terminal_of collision = "FAILED_AT_DISPATCH"
terminal_of (drifted name) = "FAILED_AT_DISPATCH"
terminal_of (pulled_at_dispatch ref) = "FAILED_AT_DISPATCH"
terminal_of _ = "FAILED"

unfoldable pub reason_of : Outcome → String
reason_of achieved = ""
reason_of shadow = ""
reason_of absent_key = "unevaluable:absent-key"
reason_of unattested_spec = "unevaluable:unattested-spec"
reason_of invalid_posture = "unevaluable:invalid-posture"
reason_of empty_criteria = "unevaluable:empty-criteria"
reason_of collision = "idempotency-collision"
reason_of (invalid_volatility name) = "unevaluable:invalid-volatility:" <> name
reason_of (unresolved_judgment name) = "unevaluable:human-judgment:" <> name
reason_of (pulled ref) = "revoked:" <> ref
reason_of (unscored name) = "unevaluable:" <> name
reason_of (denied names) = names
reason_of (drifted name) = "volatile-recheck:" <> name
reason_of (pulled_at_dispatch ref) = "revoked:" <> ref

-- The class that the contract's table gives to each.
abbrev pub class_of : Outcome → Class
class_of achieved = proceed
class_of shadow = shadow_recorded
class_of absent_key = sdk_bug
class_of unattested_spec = spec_unattested
class_of invalid_posture = spec_defect
class_of empty_criteria = spec_defect
class_of collision = already_reserved
class_of (invalid_volatility name) = spec_defect
class_of (unresolved_judgment name) = human_judgment
class_of (pulled ref) = revoked
class_of (unscored name) = unevaluable
class_of (denied names) = policy_denied
class_of (drifted name) = fact_drift
class_of (pulled_at_dispatch ref) = revoked

-- A criterion name that the contract allows, and that is not one of the fixed refusals.
pub record IsCriterionName (n : String) : Type 0 where
  pub no_colon : has_code b':' n ≡ false
  pub not_absent_key : n ≢ "absent-key"
  pub not_unattested : n ≢ "unattested-spec"
  pub not_posture : n ≢ "invalid-posture"
  pub not_empty : n ≢ "empty-criteria"

-- The names in an outcome are such that its reason can be told from the others.
abbrev pub IsPlain : Outcome → Type 0
IsPlain (unscored name) = IsCriterionName name
IsPlain (denied names) = (names ≢ "") × (has_code b':' names ≡ false)
IsPlain _ = Unit
