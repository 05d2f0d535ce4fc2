-- ===== src/Declare/Tests.antt =====
-- Concrete terminals, records, requests and keys for the theorems on declare.py.
use treasury_intent_controll.Base.{
  true, false, String, [], ◌∷◌, none, some, ◌≡◌, refl, ◌≢◌, ◌==◌, eq_iff,
}
use treasury_intent_controll.Json.Text.{Bytes}
use treasury_intent_controll.Json.Objects.{TextItems}
use treasury_intent_controll.Declare.{
  FeedRecord, classify, classify_feed_record, unevaluable, fact_drift,
}
use treasury_intent_controll.Declare.Vocabulary.{
  unscored, drifted, terminal_of, reason_of, IsCriterionName,
}
use treasury_intent_controll.Declare.Classify.{classify-class_of}
use treasury_intent_controll.Declare.Feed.{classify_feed_record-class_of}
use treasury_intent_controll.Declare.Request.{Request, derive_key}
use treasury_intent_controll.Declare.Request.Wire.{marshal_request_injective}
use treasury_intent_controll.Declare.Request.Keys.{derive_key_injective}

abbrev digest : Bytes → String
digest b = "00ff"

ne_by_test : (s t : String) → (s == t) ≡ false → s ≢ t
ne_by_test s t h e = cc (h, (eq_iff s t).1 e)

name_plain : IsCriterionName "limit_check"
name_plain = record {
  no_colon = refl;
  not_absent_key = ne_by_test _ _ refl;
  not_unattested = ne_by_test _ _ refl;
  not_posture = ne_by_test _ _ refl;
  not_empty = ne_by_test _ _ refl;
}

classify-class_of_example : classify "FAILED" "unevaluable:limit_check" ≡ (unevaluable, true)
unfolding terminal_of reason_of
classify-class_of_example = classify-class_of (unscored "limit_check") name_plain

classify_feed_record-class_of_example :
    classify_feed_record (record {
      intent_seq = some 7;
      type = some "FAILED_AT_DISPATCH";
      detail = some "volatile-recheck:limit_check";
      trajectory_hash = some "ab";
    })
    ≡ (fact_drift, true)
classify_feed_record-class_of_example =
    classify_feed_record-class_of (drifted "limit_check") "fast" (some 7) (some "ab") tt

abbrev torn : FeedRecord
torn = record { intent_seq = none; type = none; detail = none; trajectory_hash = none }

abbrev request : Request
request = record {
  episode_seed = "episode \"1\"";
  idempotency_key = "per-actor:run-7";
  rule_artifact_hash = "aa";
  intent_spec_hash = "1111";
  idempotency_scope = "per-actor";
  spec_envelope = none;
}

marshal_request_injective_example : request ≡ request
marshal_request_injective_example = marshal_request_injective request request refl

derive_key_injective_example :
    (◌≡◌ {A = String} "per-actor" "per-actor")
    × (◌≡◌ {A = String} "run-7" "run-7")
    × (◌≡◌ {A = String} "report-submit" "report-submit")
    × (◌≡◌ {A = String} "00ff" "00ff")
derive_key_injective_example =
    derive_key_injective digest "per-actor" "per-actor" "run-7" "run-7" "report-submit"
      "report-submit" (1 ∷ []) (2 ∷ []) refl refl refl refl refl refl (unfold derive_key in refl)

-- A colon within a part: two scopes and runs with one key.
shared_key : derive_key digest "a:b" "c" "tool" [] ≡ derive_key digest "a" "b:c" "tool" []
unfolding derive_key
shared_key = refl

abbrev items : TextItems
items = ("uti", "U\n1") ∷ ("as_of", "") ∷ []
