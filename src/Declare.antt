-- ===== src/Declare.antt =====
-- declarant/pydeclarant/declare.py: the outcome classes, the request, the idempotency key, and the
-- total classification of terminals and of feed records.
pub mod Request
pub mod Vocabulary
pub mod Classify
pub mod Feed
pub mod Tests
use treasury_intent_controll.Base.{
  String, ◌<>◌, Bool, true, false, not, ◌&&◌, ◌||◌, List, Option, none, some, ◌==◌, starts_with,
  has_code, ℕ, if◌then◌else◌,
}

-- The class constants. `already_achieved` is the one that gating.py layers on top of the table.
pub data Class : Type 0 where
  proceed shadow_recorded policy_denied sdk_bug spec_unattested spec_defect : Class
  human_judgment unevaluable revoked fact_drift already_reserved : Class
  indeterminate unknown already_achieved : Class

-- The string that each constant stands for.
unfoldable pub class_name : Class → String
class_name proceed = "PROCEED"
class_name shadow_recorded = "SHADOW_RECORDED"
class_name policy_denied = "POLICY_DENIED"
class_name sdk_bug = "SDK_BUG"
class_name spec_unattested = "SPEC_UNATTESTED"
class_name spec_defect = "SPEC_DEFECT"
class_name human_judgment = "HUMAN_JUDGMENT"
class_name unevaluable = "UNEVALUABLE"
class_name revoked = "REVOKED"
class_name fact_drift = "FACT_DRIFT"
class_name already_reserved = "ALREADY_RESERVED"
class_name indeterminate = "INDETERMINATE"
class_name unknown = "UNKNOWN"
class_name already_achieved = "ALREADY_ACHIEVED"

-- `class_` and the same-key retry position.
abbrev pub Classified : Type 0
Classified = Class × Bool

-- The branch of `classify` for the terminal FAILED. The order of the tests is the source's.
unfoldable pub classify_failed : String → Classified
classify_failed reason =
    if reason == "unevaluable:absent-key"
    then (sdk_bug, true)
    else if reason == "unevaluable:unattested-spec"
    then (spec_unattested, true)
    else if reason == "unevaluable:invalid-posture"
        || reason == "unevaluable:empty-criteria"
        || starts_with reason "unevaluable:invalid-volatility:"
    then (spec_defect, true)
    else if starts_with reason "unevaluable:human-judgment:"
    then (human_judgment, true)
    else if starts_with reason "revoked:"
    then (revoked, true)
    else if starts_with reason "unevaluable:"
    then (unevaluable, true)
    else if not (reason == "") && not (has_code b':' reason)
    then (policy_denied, true)
    else (unknown, false)

-- The branch for FAILED_AT_DISPATCH.
unfoldable pub classify_dispatch : String → Classified
classify_dispatch reason =
    if starts_with reason "volatile-recheck:"
    then (fact_drift, true)
    else if reason == "idempotency-collision"
    then (already_reserved, false)
    else if starts_with reason "revoked:"
    then (revoked, true)
    else (unknown, false)

unfoldable pub classify : String → String → Classified
classify terminal reason =
    if terminal == "ACHIEVED"
    then (proceed, false)
    else if terminal == "SHADOW_RECORDED"
    then (shadow_recorded, true)
    else if terminal == "FAILED"
    then classify_failed reason
    else if terminal == "FAILED_AT_DISPATCH"
    then classify_dispatch reason
    else (unknown, false)

-- `rec.get(name, "")` on a record whose fields, where present, are texts.
abbrev pub get_text : Option String → String
get_text none = ""
get_text (some s) = s

-- A durable feed record, as the declarant reads it. A field may be absent.
pub record FeedRecord : Type 0 where
  pub intent_seq : Option ℕ
  pub type : Option String
  pub detail : Option String
  pub trajectory_hash : Option String

-- The branch of `classify_feed_record` for the record type UNEVALUABLE.
unfoldable pub classify_unevaluable_record : String → Classified
classify_unevaluable_record d =
    if d == "absent-key"
    then classify "FAILED" "unevaluable:absent-key"
    else if starts_with d "unattested-spec:"
    then classify "FAILED" "unevaluable:unattested-spec"
    else if starts_with d "invalid-posture:"
    then classify "FAILED" "unevaluable:invalid-posture"
    else if starts_with d "empty-criteria:"
    then classify "FAILED" "unevaluable:empty-criteria"
    else classify "FAILED" ("unevaluable:" <> d)

-- `classify_feed_record`, from the two fields that it reads.
unfoldable pub classify_record : String → String → Classified
classify_record t d =
    if t == "ACHIEVED" || t == "SHADOW_RECORDED" || t == "FAILED" || t == "FAILED_AT_DISPATCH"
    then classify t d
    else if t == "UNEVALUABLE"
    then classify_unevaluable_record d
    else if t == "REVOKED"
    then classify "FAILED" ("revoked:" <> d)
    else (unknown, false)

unfoldable pub classify_feed_record : FeedRecord → Classified
unfolding classify_record
classify_feed_record rec = classify_record (get_text rec.type) (get_text rec.detail)
