-- ===== src/Gating.antt =====
-- declarant/pydeclarant/gating.py: the refusal that the framework adapters share.
pub mod Fresh
use treasury_intent_controll.Base.{
  ℕ, Bool, true, false, String, Option, none, some, eqb, ◌&&◌, if◌then◌else◌,
}
use treasury_intent_controll.Declare.{
  Class, proceed, shadow_recorded, policy_denied, sdk_bug, spec_unattested, spec_defect,
  human_judgment, unevaluable, revoked, fact_drift, already_reserved, indeterminate, unknown,
  already_achieved, get_text,
}
use treasury_intent_controll.Client.{Result, Terminal}

-- The exception `IntentRefused`.
pub record IntentRefused : Type 0 where
  pub class_ : Class
  pub terminal : String
  pub reason : String
  pub same_key_retry_safe : Bool
  pub retry_guidance : String

unfoldable pub retry_guidance_for : Class → String
retry_guidance_for shadow_recorded =
    "recorded, NOT authorized; promotion to enforce is a new attestation"
retry_guidance_for policy_denied = "criteria bound and failed; retry permitted after facts change"
retry_guidance_for sdk_bug = "declaration defect; fix the caller, never auto-retry"
retry_guidance_for spec_unattested = "retry after the spec is attested"
retry_guidance_for spec_defect = "route to the spec owner; never retry unchanged"
retry_guidance_for human_judgment = "a human must resolve the entry via a new attestation"
retry_guidance_for unevaluable = "backoff retry; never treat as pass"
retry_guidance_for revoked = "only after a fresh attestation"
retry_guidance_for fact_drift = "retry permitted; the key was not reserved"
retry_guidance_for already_reserved =
    "NEVER retry with intent to execute; reconcile from the feed by key"
retry_guidance_for already_achieved =
    "already achieved on a prior attempt; the consequence fired once -- recover the outcome from the feed, never re-execute"
retry_guidance_for indeterminate =
    "no terminal observed and the feed decided nothing; investigate before retry"
-- UNKNOWN, and PROCEED, which the table does not hold.
retry_guidance_for _ = "outside the closed vocabulary; surface, no auto-retry"

-- Returning normally, or the exception.
pub data Gated {ℓ} (A : Type ℓ) : Type ℓ where
  authorized : A → Gated A
  refused : IntentRefused → Gated A

unfoldable pub historical : IntentRefused
unfolding retry_guidance_for
historical = record {
  class_ = already_achieved;
  terminal = "ACHIEVED";
  reason = "";
  same_key_retry_safe = false;
  retry_guidance = retry_guidance_for already_achieved;
}

abbrev pub terminal_text : Option Terminal → String
terminal_text none = ""
terminal_text (some t) = get_text t.terminal

abbrev pub reason_text : Option Terminal → String
reason_text none = ""
reason_text (some t) = get_text t.reason

unfoldable pub refusal_of : Result → IntentRefused
unfolding retry_guidance_for
refusal_of res = record {
  class_ = res.class_;
  terminal = terminal_text res.terminal;
  reason = reason_text res.terminal;
  same_key_retry_safe = res.same_key_retry_safe;
  retry_guidance = retry_guidance_for res.class_;
}

abbrev is_some {ℓ} : {A : Type ℓ} → Option A → Bool
is_some none = false
is_some (some a) = true

abbrev pub is_proceed : Class → Bool
is_proceed proceed = true
is_proceed _ = false

unfoldable pub require_fresh_proceed : Result → Gated (Unit {0})
unfolding historical refusal_of
require_fresh_proceed res =
    if is_proceed res.class_
    then (if eqb res.http_status 200 && is_some res.terminal
        then authorized tt
        else refused historical)
    else refused (refusal_of res)
