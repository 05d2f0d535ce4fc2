-- ===== src/Loop/Oracle/Classes.antt =====
-- The classes that the oracle's predictions are counted in, and when it predicts at all
-- (treasury/randomized_loop.py).
use treasury_intent_controll.Base.{
  ℕ, zero, suc, Bool, true, false, not, ◌&&◌, String, List, [], ◌∷◌, Option, none, some, ◌==◌,
  contains, get_elem?, ◌≡◌, refl, sym, subst, ◌⊎◌, inl, inr, Bool-cases,
}
use treasury_intent_controll.Loop.{classes}
use treasury_intent_controll.Loop.Oracle.{
  Criterion, Spec, Intent, Revocation, Plan, Ruling, Prediction, revocation_of, is_valid_posture,
  is_valid_volatility, is_volatile, is_pass, dispatch, declaration, check_judgment, scored_ruling,
  settle, score, check_posture, check_criteria, check_volatility, score_all, check_drift,
  check_spec, rule_spec, rule_attested, rule_revoked, rule, predict, predict_all, oracle,
}
use treasury_intent_controll.Loop.Oracle.Stated.{
  IsStated, bucket-IsClass, AllStated, failed_as-IsStated, nonempty_append, front-IsStated,
  flag_if-AllStated, or_else-AllStated, check_judgment-AllStated, NamesFailed,
  scored_ruling-AllStated, add_score-NamesFailed, settle-IsStated, refuse_or-IsStated,
}

-- The class of each prediction is one of the thirteen.
abbrev pub AllClasses : List Prediction → Type 0
AllClasses [] = Unit
AllClasses (p ∷ out) = (contains classes p.class_ ≡ true) × AllClasses out

module _ {F : Type 0} (at_least : F → F → Bool) where
  -- Every criterion has a name.
  abbrev pub AllNamed : List (Criterion F) → Type 0
  AllNamed [] = Unit
  AllNamed (c ∷ criteria) = ((c.name == "") ≡ false) × AllNamed criteria

  abbrev pub SpecsNamed : List (Spec F) → Type 0
  SpecsNamed [] = Unit
  SpecsNamed (s ∷ specs) = AllNamed s.criteria × SpecsNamed specs

  -- Each intent's spec, where it has one, is in the plan.
  abbrev pub AllInRange : List (Spec F) → List Intent → Type 0
  AllInRange specs [] = Unit
  AllInRange specs (it ∷ intents) =
      ((it.spec ≡ none)
        ⊎ ((k : ℕ) × (s : Spec F) × (it.spec ≡ some k) × (get_elem? specs k ≡ some s)))
      × AllInRange specs intents

  score_all-NamesFailed :
      (facts : List (String × F)) (it : Intent) (criteria : List (Criterion F))
      → AllNamed criteria
      → NamesFailed (score_all at_least facts it criteria)
  unfolding score_all
  score_all-NamesFailed facts it [] h = tt
  score_all-NamesFailed facts it (c ∷ criteria) h =
      add_score-NamesFailed (score at_least facts it c declaration) c.name
        (score_all at_least facts it criteria) h.0 (score_all-NamesFailed facts it criteria h.1)

  check_volatility-AllStated :
      (criteria : List (Criterion F)) → AllStated (check_volatility at_least criteria)
  unfolding check_volatility
  check_volatility-AllStated [] = tt
  check_volatility-AllStated (c ∷ criteria) =
      or_else-AllStated _ _
        (flag_if-AllStated (not (is_valid_volatility c.volatility)) _
          (front-IsStated "unevaluable:invalid-volatility:" c.name refl))
        (check_volatility-AllStated criteria)

  check_drift-AllStated :
      (facts : List (String × F)) (it : Intent) (criteria : List (Criterion F))
      → AllStated (check_drift at_least facts it criteria)
  unfolding check_drift
  check_drift-AllStated facts it [] = tt
  check_drift-AllStated facts it (c ∷ criteria) =
      or_else-AllStated _ _
        (flag_if-AllStated
          (is_volatile c.volatility && not (is_pass (score at_least facts it c dispatch))) _
          (record { stated = rw (nonempty_append "volatile-recheck:" c.name refl) refl }))
        (check_drift-AllStated facts it criteria)

  check_criteria-AllStated :
      (criteria : List (Criterion F)) → AllStated (check_criteria at_least criteria)
  unfolding check_criteria
  check_criteria-AllStated [] = failed_as-IsStated "unevaluable:empty-criteria" refl
  check_criteria-AllStated (c ∷ criteria) = tt

  check_spec-AllStated :
      (facts : List (String × F)) (it : Intent) (s : Spec F)
      → AllNamed s.criteria
      → AllStated (check_spec at_least facts it s)
  unfolding check_spec check_posture
  check_spec-AllStated facts it s h =
      or_else-AllStated _ _
        (flag_if-AllStated (not (is_valid_posture s.enforcement_posture)) _
          (failed_as-IsStated "unevaluable:invalid-posture" refl))
        (or_else-AllStated (check_judgment s.human_judgment) _
          (check_judgment-AllStated s.human_judgment)
          (or_else-AllStated (check_criteria at_least s.criteria) _
            (check_criteria-AllStated s.criteria)
            (or_else-AllStated (check_volatility at_least s.criteria) _
              (check_volatility-AllStated s.criteria)
              (or_else-AllStated (scored_ruling (score_all at_least facts it s.criteria)) _
                (scored_ruling-AllStated (score_all at_least facts it s.criteria)
                  (score_all-NamesFailed facts it s.criteria h))
                (check_drift-AllStated facts it s.criteria)))))

  get_elem?-AllNamed :
      (specs : List (Spec F)) (k : ℕ) (s : Spec F)
      → SpecsNamed specs
      → get_elem? specs k ≡ some s
      → AllNamed s.criteria
  get_elem?-AllNamed [] k s h e = cc e
  get_elem?-AllNamed (x ∷ specs) zero s h e =
      subst (λ (y : Spec F). AllNamed y.criteria) (same_spec x s e) h.0
    where
      same_spec : (x s : Spec F) → some x ≡ some s → x ≡ s
      same_spec x s e = cc
  get_elem?-AllNamed (x ∷ specs) (suc k) s h e = get_elem?-AllNamed specs k s h.1 e

  -- A round ends, with a ruling that says something.
  abbrev Rules : Option (Ruling × List String) → Type 0
  Rules none = ⊥
  Rules (some x) = IsStated x.0

  rule_spec-Rules :
      (facts : List (String × F)) (it : Intent) (reserved : List String) (s : Spec F)
      → AllNamed s.criteria
      → Rules (rule_spec at_least facts it reserved (some s))
  unfolding rule_spec
  rule_spec-Rules facts it reserved s h =
      refuse_or-IsStated (check_spec at_least facts it s) reserved
        (settle s.enforcement_posture it.key reserved) (check_spec-AllStated facts it s h)
        (settle-IsStated s.enforcement_posture it.key reserved)

  rule_attested-Rules :
      (plan : Plan F) (it : Intent) (reserved : List String)
      → SpecsNamed plan.specs
      → (it.spec ≡ none)
        ⊎ ((k : ℕ) × (s : Spec F) × (it.spec ≡ some k) × (get_elem? plan.specs k ≡ some s))
      → Rules (rule_attested at_least plan it reserved it.spec)
  unfolding rule_attested
  rule_attested-Rules plan it reserved n (inl e) =
      subst (λ (o : Option ℕ). Rules (rule_attested at_least plan it reserved o)) (sym e)
        (failed_as-IsStated "unevaluable:unattested-spec" refl)
  rule_attested-Rules plan it reserved n (inr w) =
      subst (λ (o : Option ℕ). Rules (rule_attested at_least plan it reserved o)) (sym w.2)
        (subst (λ (o : Option (Spec F)). Rules (rule_spec at_least plan.facts it reserved o))
          (sym w.3)
          (rule_spec-Rules plan.facts it reserved w.1
            (get_elem?-AllNamed plan.specs w.0 w.1 n w.3)))

  rule-Rules :
      (plan : Plan F) (it : Intent) (reserved : List String)
      → SpecsNamed plan.specs
      → (it.spec ≡ none)
        ⊎ ((k : ℕ) × (s : Spec F) × (it.spec ≡ some k) × (get_elem? plan.specs k ≡ some s))
      → Rules (rule at_least plan reserved it)
  unfolding rule
  rule-Rules plan it reserved n w = elim (Bool-cases (it.key == "")) [
    | inl e ↦ rw e (failed_as-IsStated "unevaluable:absent-key" refl)
    | inr e ↦ rw e (by_revocation (revocation_of it plan.revocations))
  ]
    where
      by_revocation : (o : Option Revocation) → Rules (rule_revoked at_least plan it reserved o)
      by_revocation (some r) = unfold rule_revoked in front-IsStated "revoked:" r.ref refl
      by_revocation none = unfold rule_revoked in rule_attested-Rules plan it reserved n w

  predict_all-AllClasses :
      (plan : Plan F) (reserved : List String) (intents : List Intent)
      → SpecsNamed plan.specs
      → AllInRange plan.specs intents
      → (out : List Prediction) × (predict_all at_least plan reserved intents ≡ some out)
        × AllClasses out
  unfolding predict_all
  predict_all-AllClasses plan reserved [] n w = ([], refl, tt)
  predict_all-AllClasses plan reserved (it ∷ intents) n w =
      by_rule (rule at_least plan reserved it) (rule-Rules plan it reserved n w.0)
        (λ next. predict_all-AllClasses plan next intents n w.1)
    where
      by_rule :
          (o : Option (Ruling × List String))
          → Rules o
          → ((next : List String)
              → (out : List Prediction) × (predict_all at_least plan next intents ≡ some out)
                × AllClasses out)
          → (out : List Prediction) × (elim o [
            | none ↦ none
            | some x ↦ elim (predict_all at_least plan x.1 intents) [
              | none ↦ none
              | some l ↦ some (predict it x.0 ∷ l)
            ]
          ]
              ≡ some out)
            × AllClasses out
      by_rule none r ih = absurd r
      by_rule (some x) r ih =
          let rest = ih x.1 in
          (predict it x.0 ∷ rest.0, rw rest.1 refl, ((bucket-IsClass x.0 r).listed, rest.2))

  -- For a plan whose criteria have names and whose intents refer to its specs, the oracle predicts,
  -- and it counts each prediction in one of the thirteen classes.
  pub oracle-AllClasses :
      (plan : Plan F)
      → SpecsNamed plan.specs
      → AllInRange plan.specs plan.intents
      → (out : List Prediction) × (oracle at_least plan ≡ some out) × AllClasses out
  unfolding oracle
  oracle-AllClasses plan n w = predict_all-AllClasses plan [] plan.intents n w
