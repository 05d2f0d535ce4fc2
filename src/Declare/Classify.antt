-- ===== src/Declare/Classify.antt =====
-- What the classes of `classify` (declarant/pydeclarant/declare.py) tell a caller.
use treasury_intent_controll.Base.{
  String, ◌<>◌, ◌≡◌, refl, ◌≢◌, ◌↔◌, inl, inr, Bool, true, false, arith, eq_iff, starts_with,
  has_code, ◌==◌, has_code-prefix, starts_with-append, starts_with-lacks, eq-append_false, eq-false,
  Bool-cases, if_both, not, ◌&&◌, ◌||◌, starts_with-clash, eq-clash, ap,
}
use treasury_intent_controll.Declare.{
  Class, proceed, policy_denied, sdk_bug, spec_unattested, spec_defect, human_judgment, unevaluable,
  revoked, fact_drift, already_reserved, indeterminate, unknown, already_achieved, Classified,
  classify, classify_failed, classify_dispatch,
}
use treasury_intent_controll.Declare.Vocabulary.{
  Outcome, invalid_volatility, unresolved_judgment, pulled, unscored, denied, drifted,
  pulled_at_dispatch, terminal_of, reason_of, class_of, IsPlain, IsCriterionName,
}

-- The classes after which the same key must not be retried, by the contract's table.
abbrev pub retry_safe_class : Class → Bool
retry_safe_class proceed = false
retry_safe_class already_reserved = false
retry_safe_class indeterminate = false
retry_safe_class unknown = false
retry_safe_class already_achieved = false
retry_safe_class _ = true

record Shaped (c : Classified) : Type 0 where
  not_proceed : c.0 ≢ proceed
  safe : c.1 ≡ retry_safe_class c.0

of_class-Shaped : (c : Class) → c ≢ proceed → Shaped (c, retry_safe_class c)
of_class-Shaped c h = record { not_proceed = h; safe = refl }

failed-Shaped : (r : String) → Shaped (classify_failed r)
unfolding classify_failed
failed-Shaped r =
    if_both Shaped (r == "unevaluable:absent-key") (of_class-Shaped sdk_bug (λ e. cc e)) (
      if_both Shaped (r == "unevaluable:unattested-spec")
        (of_class-Shaped spec_unattested (λ e. cc e))
        (if_both Shaped
          (r == "unevaluable:invalid-posture"
            || r == "unevaluable:empty-criteria"
            || starts_with r "unevaluable:invalid-volatility:")
          (of_class-Shaped spec_defect (λ e. cc e))
          (if_both Shaped (starts_with r "unevaluable:human-judgment:")
            (of_class-Shaped human_judgment (λ e. cc e))
            (if_both Shaped (starts_with r "revoked:") (of_class-Shaped revoked (λ e. cc e)) (
              if_both Shaped (starts_with r "unevaluable:")
                (of_class-Shaped unevaluable (λ e. cc e))
                (if_both Shaped (not (r == "") && not (has_code b':' r))
                  (of_class-Shaped policy_denied (λ e. cc e))
                  (of_class-Shaped unknown (λ e. cc e))))))))

failed_shape :
    (r : String)
    → ((classify_failed r).0 ≢ proceed)
      × ((classify_failed r).1 ≡ retry_safe_class (classify_failed r).0)
failed_shape r = let s = failed-Shaped r in (s.not_proceed, s.safe)

dispatch_shape :
    (r : String)
    → ((classify_dispatch r).0 ≢ proceed)
      × ((classify_dispatch r).1 ≡ retry_safe_class (classify_dispatch r).0)
unfolding classify_dispatch
dispatch_shape r = ground arith

-- The class PROCEED is given to the terminal ACHIEVED and to no other pair of texts.
pub classify-proceed_iff : (t r : String) → ((classify t r).0 ≡ proceed) ↔ (t ≡ "ACHIEVED")
unfolding classify
classify-proceed_iff t r = ground (arith, eq_iff t "ACHIEVED", failed_shape r, dispatch_shape r)

-- The retry position is a function of the class.
pub classify-retry_safe : (t r : String) → (classify t r).1 ≡ retry_safe_class (classify t r).0
unfolding classify
classify-retry_safe t r = ground (arith, failed_shape r, dispatch_shape r)

colon_of_prefix :
    (r p : String) → has_code b':' p ≡ true → has_code b':' r ≡ false → starts_with r p ≡ false
colon_of_prefix r p h l = elim (Bool-cases (starts_with r p)) [
  | inl e ↦ cc (has_code-prefix b':' r p h e)
  | inr e ↦ e
]

colon_free_ne : (r p : String) → has_code b':' p ≡ true → has_code b':' r ≡ false → (r == p) ≡ false
colon_free_ne r p h l = eq-false r p (λ e. cc (rw e at l))

denied_failed :
    (r : String) → r ≢ "" → has_code b':' r ≡ false → classify_failed r ≡ (policy_denied, true)
unfolding classify_failed
denied_failed r h l = ground (
  arith,
  eq-false r "",
  colon_free_ne r "unevaluable:absent-key" refl l,
  colon_free_ne r "unevaluable:unattested-spec" refl l,
  colon_free_ne r "unevaluable:invalid-posture" refl l,
  colon_free_ne r "unevaluable:empty-criteria" refl l,
  colon_of_prefix r "unevaluable:invalid-volatility:" refl l,
  colon_of_prefix r "unevaluable:human-judgment:" refl l,
  colon_of_prefix r "revoked:" refl l,
  colon_of_prefix r "unevaluable:" refl l,
)

failed_denied :
    (r : String) → (classify_failed r).0 ≡ policy_denied → (r ≢ "") × (has_code b':' r ≡ false)
unfolding classify_failed
failed_denied r h = ground (arith, eq_iff r "")

dispatch_not_denied : (r : String) → (classify_dispatch r).0 ≢ policy_denied
unfolding classify_dispatch
dispatch_not_denied r = ground arith

-- A policy denial is a FAILED whose reason is not empty and has no colon, and nothing else is.
pub classify-policy_denied_iff :
    (t r : String)
    → ((classify t r).0 ≡ policy_denied) ↔ ((t ≡ "FAILED") × (r ≢ "") × (has_code b':' r ≡ false))
unfolding classify
classify-policy_denied_iff t r = (
  λ h. ground (arith, eq_iff t "FAILED", failed_denied r, dispatch_not_denied r),
  λ h. rw h.0 (ap (λ (c : Classified). c.0) (denied_failed r h.1 h.2)),
)

under : (p n : String) → starts_with (p <> n) p ≡ true
under = starts_with-append

classify-achieved : (n : String) → classify "ACHIEVED" n ≡ (proceed, false)
unfolding classify
classify-achieved n = refl

-- A criterion that could not be scored is told from the fixed refusals.
failed_unscored :
    (n : String) → IsCriterionName n → classify_failed ("unevaluable:" <> n) ≡ (unevaluable, true)
unfolding classify_failed
failed_unscored n h = ground (
  arith,
  eq-append_false "unevaluable:" "absent-key" n h.not_absent_key,
  eq-append_false "unevaluable:" "unattested-spec" n h.not_unattested,
  eq-append_false "unevaluable:" "invalid-posture" n h.not_posture,
  eq-append_false "unevaluable:" "empty-criteria" n h.not_empty,
  starts_with-lacks b':' "unevaluable:" "invalid-volatility:" n refl h.no_colon,
  starts_with-lacks b':' "unevaluable:" "human-judgment:" n refl h.no_colon,
  under "unevaluable:" n,
  starts_with-clash "unevaluable:" "revoked:" n refl,
)

-- The reasons that name a criterion or a reference behind a longer front.
failed_fronts :
    (n : String)
    → (classify_failed ("unevaluable:invalid-volatility:" <> n) ≡ (spec_defect, true))
      × (classify_failed ("unevaluable:human-judgment:" <> n) ≡ (human_judgment, true))
      × (classify_failed ("revoked:" <> n) ≡ (revoked, true))
unfolding classify_failed
failed_fronts n = (
  ground (
    arith,
    under "unevaluable:invalid-volatility:" n,
    eq-clash "unevaluable:invalid-volatility:" "unevaluable:absent-key" n refl,
    eq-clash "unevaluable:invalid-volatility:" "unevaluable:unattested-spec" n refl,
  ),
  ground (
    arith,
    under "unevaluable:human-judgment:" n,
    starts_with-clash "unevaluable:human-judgment:" "unevaluable:invalid-volatility:" n refl,
    eq-clash "unevaluable:human-judgment:" "unevaluable:absent-key" n refl,
    eq-clash "unevaluable:human-judgment:" "unevaluable:unattested-spec" n refl,
    eq-clash "unevaluable:human-judgment:" "unevaluable:invalid-posture" n refl,
    eq-clash "unevaluable:human-judgment:" "unevaluable:empty-criteria" n refl,
  ),
  ground (
    arith,
    under "revoked:" n,
    starts_with-clash "revoked:" "unevaluable:invalid-volatility:" n refl,
    starts_with-clash "revoked:" "unevaluable:human-judgment:" n refl,
    eq-clash "revoked:" "unevaluable:absent-key" n refl,
    eq-clash "revoked:" "unevaluable:unattested-spec" n refl,
    eq-clash "revoked:" "unevaluable:invalid-posture" n refl,
    eq-clash "revoked:" "unevaluable:empty-criteria" n refl,
  ),
)

dispatch_fronts :
    (n : String)
    → (classify_dispatch ("volatile-recheck:" <> n) ≡ (fact_drift, true))
      × (classify_dispatch ("revoked:" <> n) ≡ (revoked, true))
unfolding classify_dispatch
dispatch_fronts n = (
  ground (arith, under "volatile-recheck:" n),
  ground (
    arith,
    under "revoked:" n,
    starts_with-clash "revoked:" "volatile-recheck:" n refl,
    eq-clash "revoked:" "idempotency-collision" n refl,
  ),
)

-- For each outcome of the closed vocabulary with plain names, `classify` of its terminal and reason
-- is the class and retry position that the contract gives it.
pub classify-class_of :
    (o : Outcome)
    → IsPlain o
    → classify (terminal_of o) (reason_of o) ≡ (class_of o, retry_safe_class (class_of o))
unfolding classify classify_failed classify_dispatch terminal_of reason_of
classify-class_of (invalid_volatility n) h = (failed_fronts n).0
classify-class_of (unresolved_judgment n) h = (failed_fronts n).1
classify-class_of (pulled n) h = (failed_fronts n).2
classify-class_of (unscored n) h = failed_unscored n h
classify-class_of (denied n) h = denied_failed n h.0 h.1
classify-class_of (drifted n) h = (dispatch_fronts n).0
classify-class_of (pulled_at_dispatch n) h = (dispatch_fronts n).1
classify-class_of _ h = refl
