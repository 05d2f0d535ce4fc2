-- ===== src/Declare/Feed.antt =====
-- `classify_feed_record` (declarant/pydeclarant/declare.py) against the synchronous vocabulary.
use treasury_intent_controll.Base.{
  String, ◌<>◌, ◌≡◌, refl, ◌≢◌, ◌↔◌, ◌==◌, ℕ, arith, eq_iff, starts_with, starts_with-append,
  starts_with-clash, eq-clash, some, Option, sym, ◌∙◌, if_both,
}
use text.Mathlib.TextLemmas.{append_assoc}
use treasury_intent_controll.Declare.{
  proceed, Classified, classify, classify_record, classify_unevaluable_record, classify_feed_record,
  FeedRecord, get_text,
}
use treasury_intent_controll.Declare.Vocabulary.{
  Outcome, absent_key, unattested_spec, invalid_posture, empty_criteria, invalid_volatility,
  unresolved_judgment, pulled, unscored, denied, drifted, pulled_at_dispatch, achieved, shadow,
  collision, terminal_of, reason_of, class_of, IsPlain,
}
use treasury_intent_controll.Declare.Classify.{
  classify-proceed_iff, classify-class_of, retry_safe_class,
}

-- How the gate writes the final record of an outcome: the type and the detail. A refusal before
-- scoring is a record of its own type; `tail` is the spec hash, the posture, the volatility or the
-- intent id that the record carries.
abbrev pub record_type : Outcome → String
record_type absent_key = "UNEVALUABLE"
record_type unattested_spec = "UNEVALUABLE"
record_type invalid_posture = "UNEVALUABLE"
record_type empty_criteria = "UNEVALUABLE"
record_type (invalid_volatility name) = "UNEVALUABLE"
record_type (unresolved_judgment name) = "UNEVALUABLE"
record_type (unscored name) = "FAILED"
record_type (pulled ref) = "REVOKED"
record_type (pulled_at_dispatch ref) = "FAILED_AT_DISPATCH"
record_type (denied names) = "FAILED"
record_type (drifted name) = "FAILED_AT_DISPATCH"
record_type collision = "FAILED_AT_DISPATCH"
record_type achieved = "ACHIEVED"
record_type shadow = "SHADOW_RECORDED"

abbrev pub record_detail : String → Outcome → String
record_detail tail absent_key = "absent-key"
record_detail tail unattested_spec = "unattested-spec:" <> tail
record_detail tail invalid_posture = "invalid-posture:" <> tail
record_detail tail empty_criteria = "empty-criteria:" <> tail
record_detail tail (invalid_volatility name) = "invalid-volatility:" <> (name <> (":" <> tail))
record_detail tail (unresolved_judgment name) = "human-judgment:" <> name
record_detail tail (unscored name) = "unevaluable:" <> name
record_detail tail (pulled ref) = ref
record_detail tail (pulled_at_dispatch ref) = "revoked:" <> ref
record_detail tail (denied names) = names
record_detail tail (drifted name) = "volatile-recheck:" <> name
record_detail tail collision = "idempotency-collision"
record_detail tail achieved = tail
record_detail tail shadow = tail

failed_ne : ◌≢◌ {A = String} "FAILED" "ACHIEVED"
failed_ne = ground (arith, eq_iff "FAILED" "ACHIEVED")

-- The cause of an UNEVALUABLE record, put behind `unevaluable:`, is the synchronous reason.
unevaluable_record :
    (tail : String)
    → (classify_unevaluable_record ("unattested-spec:" <> tail)
        ≡ classify "FAILED" "unevaluable:unattested-spec")
      × (classify_unevaluable_record ("invalid-posture:" <> tail)
          ≡ classify "FAILED" "unevaluable:invalid-posture")
      × (classify_unevaluable_record ("empty-criteria:" <> tail)
          ≡ classify "FAILED" "unevaluable:empty-criteria")
unfolding classify_unevaluable_record
unevaluable_record tail = (
  ground (
    arith,
    eq-clash "unattested-spec:" "absent-key" tail refl,
    starts_with-append "unattested-spec:" tail,
  ),
  ground (
    arith,
    eq-clash "invalid-posture:" "absent-key" tail refl,
    starts_with-clash "invalid-posture:" "unattested-spec:" tail refl,
    starts_with-append "invalid-posture:" tail,
  ),
  ground (
    arith,
    eq-clash "empty-criteria:" "absent-key" tail refl,
    starts_with-clash "empty-criteria:" "unattested-spec:" tail refl,
    starts_with-clash "empty-criteria:" "invalid-posture:" tail refl,
    starts_with-append "empty-criteria:" tail,
  ),
)

named_record :
    (n : String)
    → (classify_unevaluable_record ("invalid-volatility:" <> n)
        ≡ classify "FAILED" ("unevaluable:invalid-volatility:" <> n))
      × (classify_unevaluable_record ("human-judgment:" <> n)
          ≡ classify "FAILED" ("unevaluable:human-judgment:" <> n))
unfolding classify_unevaluable_record
named_record n = (
  ground (
    arith,
    append_assoc "unevaluable:" "invalid-volatility:" n,
    eq-clash "invalid-volatility:" "absent-key" n refl,
    starts_with-clash "invalid-volatility:" "unattested-spec:" n refl,
    starts_with-clash "invalid-volatility:" "invalid-posture:" n refl,
    starts_with-clash "invalid-volatility:" "empty-criteria:" n refl,
  ),
  ground (
    arith,
    append_assoc "unevaluable:" "human-judgment:" n,
    eq-clash "human-judgment:" "absent-key" n refl,
    starts_with-clash "human-judgment:" "unattested-spec:" n refl,
    starts_with-clash "human-judgment:" "invalid-posture:" n refl,
    starts_with-clash "human-judgment:" "empty-criteria:" n refl,
  ),
)

classify-terminal :
    (o : Outcome)
    → IsPlain o
    → (tail : String)
    → classify (terminal_of o) (reason_of o)
      ≡ classify_record (record_type o) (record_detail tail o)
unfolding classify_record terminal_of reason_of
classify-terminal achieved h tail = unfold classify in refl
classify-terminal shadow h tail = unfold classify in refl
classify-terminal absent_key h tail = unfold classify_unevaluable_record in refl
classify-terminal unattested_spec h tail = sym (unevaluable_record tail).0
classify-terminal invalid_posture h tail = sym (unevaluable_record tail).1
classify-terminal empty_criteria h tail = sym (unevaluable_record tail).2
classify-terminal (invalid_volatility n) h tail =
    classify-class_of (invalid_volatility n) h
    ∙ sym (classify-class_of (invalid_volatility (n <> (":" <> tail))) h)
    ∙ sym (named_record (n <> (":" <> tail))).0
classify-terminal (unresolved_judgment n) h tail = sym (named_record n).1
classify-terminal _ h tail = refl

-- For each outcome of the closed vocabulary with plain names, the durable feed record of it gets
-- the class and retry position that the contract gives the outcome.
pub classify_feed_record-class_of :
    (o : Outcome) (tail : String) (seq : Option ℕ) (hash : Option String)
    → IsPlain o
    → classify_feed_record (record {
      intent_seq = seq;
      type = some (record_type o);
      detail = some (record_detail tail o);
      trajectory_hash = hash;
    })
      ≡ (class_of o, retry_safe_class (class_of o))
unfolding classify_feed_record
classify_feed_record-class_of o tail seq hash h =
    sym (classify-terminal o h tail) ∙ classify-class_of o h

abbrev NotProceed : Classified → Type 0
NotProceed c = c.0 ≢ proceed

failed_not_proceed : (r : String) → (classify "FAILED" r).0 ≢ proceed
failed_not_proceed r e = failed_ne ((classify-proceed_iff "FAILED" r).0 e)

unevaluable_not_proceed : (d : String) → (classify_unevaluable_record d).0 ≢ proceed
unfolding classify_unevaluable_record
unevaluable_not_proceed d = if_both NotProceed (d == "absent-key") (failed_not_proceed _) (
    if_both NotProceed (starts_with d "unattested-spec:") (failed_not_proceed _) (
      if_both NotProceed (starts_with d "invalid-posture:") (failed_not_proceed _) (
        if_both NotProceed (starts_with d "empty-criteria:") (failed_not_proceed _)
          (failed_not_proceed _))))

record_proceed : (t d : String) → (classify_record t d).0 ≡ proceed → t ≡ "ACHIEVED"
unfolding classify_record
record_proceed t d = ground (
  arith,
  (classify-proceed_iff t d).0,
  unevaluable_not_proceed d,
  failed_not_proceed ("revoked:" <> d),
)

achieved_record : (d : String) → (classify_record "ACHIEVED" d).0 ≡ proceed
unfolding classify_record classify
achieved_record d = refl

-- A feed record is read as PROCEED exactly when its type is ACHIEVED.
pub classify_feed_record-proceed_iff :
    (rec : FeedRecord) → ((classify_feed_record rec).0 ≡ proceed) ↔ (get_text rec.type ≡ "ACHIEVED")
unfolding classify_feed_record
classify_feed_record-proceed_iff rec = (
  record_proceed (get_text rec.type) (get_text rec.detail),
  λ e. rw e (achieved_record (get_text rec.detail)),
)
