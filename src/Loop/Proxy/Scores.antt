-- ===== src/Loop/Proxy/Scores.antt =====
-- The scorer (core/scorer) behind the fault proxy, against the scores that the oracle of
-- treasury/randomized_loop.py computes.
use treasury_intent_controll.Base.{
  ℕ, Bool, true, false, ◌&&◌, ◌||◌, String, List, Option, none, some, ◌==◌, contains, lookup, eqb,
  if◌then◌else◌, ◌≡◌, refl, sym, ◌∙◌, ap, ap₂, Bool-cases, inl, inr,
}
use treasury_intent_controll.Scorer.{
  EvalRequest, Verdict, EvalResponse, is_given, static_facts, null_resolver, skip_note, annotate,
  evaluate, ml_evaluate,
}
use treasury_intent_controll.Loop.Oracle.{
  Criterion, Intent, Score, pass, fail, unevaluable, Phase, declaration, dispatch, is_dispatch,
  is_volatile, compare_fact, score,
}
use treasury_intent_controll.Loop.Proxy.{
  Call, Response, outage_injected, scored, forwarded, do_post,
}

abbrev pub phase_text : Phase → String
phase_text declaration = "declaration"
phase_text dispatch = "dispatch"

abbrev pub score_of : Verdict → Score
score_of Verdict.pass = pass
score_of Verdict.fail = fail
score_of Verdict.unevaluable = unevaluable

-- An answer as the caller takes it: a 200 with its result, and anything else UNEVALUABLE.
abbrev pub reading : Response → Score
reading outage_injected = unevaluable
reading (scored status v) = if eqb status 200 then score_of v else unevaluable

annotate-result : (note : String) (r : EvalResponse) → (annotate note r).result ≡ r.result
unfolding annotate
annotate-result note r = elim (Bool-cases (note == "")) [ inl e ↦ rw e refl | inr e ↦ rw e refl ]

drift_phase : (phase : Phase) → (phase_text phase == "dispatch") ≡ is_dispatch phase
drift_phase declaration = refl
drift_phase dispatch = refl

volatile_phase : (b v : Bool) → (b ≡ true → v ≡ true) → (b && v) ≡ b
volatile_phase true v h = h refl
volatile_phase false v h = refl

by_fault :
    (outage drift in_dispatch : Bool) (r : Response) (s : Score)
    → reading r ≡ s
    → reading (
        if outage
        then outage_injected
        else if drift && in_dispatch
        then scored 200 Verdict.fail
        else r)
      ≡ (if outage then unevaluable else if drift && in_dispatch then fail else s)
by_fault true drift in_dispatch r s h = refl
by_fault false true true r s h = refl
by_fault false true false r s h = h
by_fault false false in_dispatch r s h = h

module _ {F : Type 0} (at_least : F → F → Bool) (two_decimals : F → String) where
  evaluate-score :
      (req : EvalRequest F) (o : Option F)
      → score_of (evaluate at_least two_decimals req o).result
        ≡ compare_fact at_least o req.threshold
  unfolding evaluate
  evaluate-score req none = refl
  evaluate-score req (some fact) = elim (Bool-cases (at_least fact req.threshold)) [
    | inl e ↦ rw e refl
    | inr e ↦ rw e refl
  ]

  ml_evaluate-score :
      (facts : List (String × F)) (req : EvalRequest F)
      → score_of (ml_evaluate at_least two_decimals (static_facts facts) null_resolver req).result
        ≡ compare_fact at_least (lookup req.criterion facts) req.threshold
  unfolding ml_evaluate static_facts
  ml_evaluate-score facts req =
      elim (Bool-cases (is_given req.rule_artifact_hash || is_given req.intent_spec_hash)) [
        | inl e ↦ rw e (
            ap score_of (
              annotate-result skip_note
                (evaluate at_least two_decimals req (lookup req.criterion facts)))
            ∙ evaluate-score req (lookup req.criterion facts))
        | inr e ↦ rw e (
            ap score_of
              (annotate-result "" (evaluate at_least two_decimals req (lookup req.criterion facts)))
            ∙ evaluate-score req (lookup req.criterion facts))
      ]

  -- The scorer's answer to a request about a criterion.
  abbrev pub scorer : List (String × F) → Option (EvalRequest F) → Option (ℕ × Verdict)
  scorer facts none = none
  scorer facts (some req) =
      some (200, (ml_evaluate at_least two_decimals (static_facts facts) null_resolver req).result)

  -- A request that asks for this criterion, in this phase, about an intent whose faults these are.
  pub record AsksFor (it : Intent) (c : Criterion F) (phase : Phase) (outage drift : List String)
      (req : EvalRequest F) : Type 0 where
    pub criterion : req.criterion ≡ c.name
    pub threshold : req.threshold ≡ c.threshold
    pub in_phase : req.phase ≡ phase_text phase
    pub has_outage : contains outage req.intent_id ≡ it.outage
    pub has_drift : contains drift req.intent_id ≡ it.drift
    pub rechecks : is_dispatch phase ≡ true → is_volatile c.volatility ≡ true

  forwarded-score :
      (facts : List (String × F)) (c : Criterion F) (req : EvalRequest F)
      → req.criterion ≡ c.name
      → req.threshold ≡ c.threshold
      → reading (forwarded (scorer facts (some req)))
        ≡ compare_fact at_least (lookup c.name facts) c.threshold
  forwarded-score facts c req e t =
      ml_evaluate-score facts req
      ∙ ap (λ (n : String). compare_fact at_least (lookup n facts) req.threshold) e
      ∙ ap (compare_fact at_least (lookup c.name facts)) t

  -- The scorer behind the fault proxy, asked for a criterion about an intent, answers what the oracle
  -- computes for it, where the proxy injects the intent's faults and a dispatch asks for volatile
  -- criteria only, and where the scorer verifies no artifacts.
  pub do_post-score :
      (facts : List (String × F)) (it : Intent) (c : Criterion F) (phase : Phase)
      (outage drift : List String) (req : EvalRequest F) (calls : List Call)
      → AsksFor it c phase outage drift req
      → reading (do_post outage drift (scorer facts) (some req) calls).0
        ≡ score at_least facts it c phase
  unfolding do_post score
  do_post-score facts it c phase outage drift req calls a =
      ap reading (
        ap₂
          (λ (o d : Bool).
            if o
            then outage_injected
            else if d && req.phase == "dispatch"
            then scored 200 Verdict.fail
            else forwarded (scorer facts (some req)))
          a.has_outage a.has_drift)
      ∙ by_fault it.outage it.drift (req.phase == "dispatch") (forwarded (scorer facts (some req)))
          (compare_fact at_least (lookup c.name facts) c.threshold)
          (forwarded-score facts c req a.criterion a.threshold)
      ∙ ap
          (λ (b : Bool).
            if it.outage
            then unevaluable
            else if it.drift && b
            then fail
            else compare_fact at_least (lookup c.name facts) c.threshold)
          (ap (λ (p : String). p == "dispatch") a.in_phase
            ∙ drift_phase phase
            ∙ sym (volatile_phase (is_dispatch phase) (is_volatile c.volatility) a.rechecks))
