-- ===== src/Loop/Oracle/Admission.antt =====
-- When the oracle predicts ACHIEVED (treasury/randomized_loop.py).
use treasury_intent_controll.Base.{
  ℕ, Bool, true, false, not, ◌&&◌, String, List, [], ◌∷◌, Option, none, some, ◌==◌, eq_iff,
  contains, get_elem?, flag_if, chain, must_hold, if◌then◌else◌, ◌≡◌, refl, sym, ◌∙◌, subst, ◌≢◌,
  ◌↔◌, ◌⊎◌, inl, inr, Bool-cases, arith,
}
use treasury_intent_controll.Loop.Oracle.{
  Judgment, Criterion, Spec, Intent, Revocation, Plan, Score, pass, fail, unevaluable, Ruling,
  achieved_ruling, shadow_ruling, collision_ruling, revocation_of, is_valid_posture,
  is_valid_volatility, is_volatile, is_pass, dispatch, declaration, check_judgment, Scored,
  unscored, failing, add_score, scored_ruling, settle, refuse_or, score, check_posture,
  check_criteria, check_volatility, score_all, check_drift, check_spec, rule_spec, rule_attested,
  rule_revoked, rule,
}
use treasury_intent_controll.Loop.Oracle.Once.{AllRefuse, check_spec-AllRefuse}

-- The terminal of a ruling is ACHIEVED.
abbrev pub IsAchieved : Option (Ruling × List String) → Type 0
IsAchieved none = ⊥
IsAchieved (some x) = (x.0.terminal == "ACHIEVED") ≡ true

check_judgment_iff : (names : List Judgment) → (check_judgment names ≡ none) ↔ (names ≡ [])
unfolding check_judgment
check_judgment_iff [] = (λ e. refl, λ e. refl)
check_judgment_iff (n ∷ names) = (λ e. cc e, λ e. cc e)

-- No criterion lacks a score, and none failed.
abbrev IsClear : Scored → Type 0
IsClear s = s ≡ failing []

scored_ruling_iff : (s : Scored) → (scored_ruling s ≡ none) ↔ IsClear s
unfolding scored_ruling
scored_ruling_iff (unscored n) = (λ e. cc e, λ e. cc e)
scored_ruling_iff (failing []) = (λ e. refl, λ e. refl)
scored_ruling_iff (failing (n ∷ names)) = (λ e. cc e, λ e. cc e)

add_score_iff :
    (v : Score) (name : String) (rest : Scored)
    → IsClear (add_score v name rest) ↔ ((v ≡ pass) × IsClear rest)
add_score_iff pass name rest = (λ e. (refl, e), λ p. p.1)
add_score_iff unevaluable name rest = (λ e. cc e, λ p. cc p.0)
add_score_iff fail name (unscored n) = (λ e. cc e, λ p. cc p.0)
add_score_iff fail name (failing l) = (λ e. cc e, λ p. cc p.0)

volatile_test :
    (a : Bool) (v : Score) → ((a && not (is_pass v)) ≡ false) ↔ ((a ≡ false) ⊎ (v ≡ pass))
volatile_test a v = ground arith

flag_if_iff : (b : Bool) (r : Ruling) → (flag_if b r ≡ none) ↔ (b ≡ false)
flag_if_iff true r = (λ e. cc e, λ e. cc e)
flag_if_iff false r = (λ e. refl, λ e. refl)

module _ {F : Type 0} (at_least : F → F → Bool) where
  abbrev pub AllValid : List (Criterion F) → Type 0
  AllValid [] = Unit
  AllValid (c ∷ criteria) = (is_valid_volatility c.volatility ≡ true) × AllValid criteria

  -- Every criterion passes at the declaration.
  abbrev pub AllPass : List (String × F) → Intent → List (Criterion F) → Type 0
  AllPass facts it [] = Unit
  AllPass facts it (c ∷ criteria) =
      (score at_least facts it c declaration ≡ pass) × AllPass facts it criteria

  -- Every volatile criterion still passes at the dispatch.
  abbrev pub AllHold : List (String × F) → Intent → List (Criterion F) → Type 0
  AllHold facts it [] = Unit
  AllHold facts it (c ∷ criteria) =
      ((is_volatile c.volatility ≡ false) ⊎ (score at_least facts it c dispatch ≡ pass))
      × AllHold facts it criteria

  -- A spec that no check refuses.
  abbrev pub SpecAdmits : List (String × F) → Intent → Spec F → Type 0
  SpecAdmits facts it s =
      (is_valid_posture s.enforcement_posture ≡ true)
      × ((s.human_judgment ≡ [])
          × ((s.criteria ≢ [])
              × (AllValid s.criteria
                  × (AllPass facts it s.criteria × AllHold facts it s.criteria))))

  check_criteria_iff :
      (criteria : List (Criterion F)) → (check_criteria at_least criteria ≡ none) ↔ (criteria ≢ [])
  unfolding check_criteria
  check_criteria_iff [] = (λ e. cc e, λ n. absurd (n refl))
  check_criteria_iff (c ∷ criteria) = (λ e q. cc q, λ n. refl)

  check_volatility_iff :
      (criteria : List (Criterion F))
      → (check_volatility at_least criteria ≡ none) ↔ AllValid criteria
  unfolding check_volatility
  check_volatility_iff [] = (λ e. tt, λ e. refl)
  check_volatility_iff (c ∷ criteria) =
      chain _ _ (must_hold (is_valid_volatility c.volatility) _) (check_volatility_iff criteria)

  score_all_iff :
      (facts : List (String × F)) (it : Intent) (criteria : List (Criterion F))
      → IsClear (score_all at_least facts it criteria) ↔ AllPass facts it criteria
  unfolding score_all
  score_all_iff facts it [] = (λ e. tt, λ e. refl)
  score_all_iff facts it (c ∷ criteria) =
      let a =
        add_score_iff (score at_least facts it c declaration) c.name
          (score_all at_least facts it criteria) in
      let b = score_all_iff facts it criteria in
      (λ e. ((a.0 e).0, b.0 (a.0 e).1), λ p. a.1 (p.0, b.1 p.1))

  check_drift_iff :
      (facts : List (String × F)) (it : Intent) (criteria : List (Criterion F))
      → (check_drift at_least facts it criteria ≡ none) ↔ AllHold facts it criteria
  unfolding check_drift
  check_drift_iff facts it [] = (λ e. tt, λ e. refl)
  check_drift_iff facts it (c ∷ criteria) =
      let t = volatile_test (is_volatile c.volatility) (score at_least facts it c dispatch) in
      let f =
        flag_if_iff (is_volatile c.volatility && not (is_pass (score at_least facts it c dispatch)))
          _ in
      chain _ _ (λ e. t.0 (f.0 e), λ e. f.1 (t.1 e)) (check_drift_iff facts it criteria)

  check_spec_iff :
      (facts : List (String × F)) (it : Intent) (s : Spec F)
      → (check_spec at_least facts it s ≡ none) ↔ SpecAdmits facts it s
  unfolding check_spec check_posture
  check_spec_iff facts it s =
      let r = scored_ruling_iff (score_all at_least facts it s.criteria) in
      let a = score_all_iff facts it s.criteria in
      chain _ _ (must_hold (is_valid_posture s.enforcement_posture) _) (
        chain (check_judgment s.human_judgment) _ (check_judgment_iff s.human_judgment) (
          chain (check_criteria at_least s.criteria) _ (check_criteria_iff s.criteria) (
            chain (check_volatility at_least s.criteria) _ (check_volatility_iff s.criteria) (
              chain (scored_ruling (score_all at_least facts it s.criteria)) _
                (λ e. a.0 (r.0 e), λ e. r.1 (a.1 e)) (check_drift_iff facts it s.criteria)))))

  -- What an ACHIEVED needs: a key that is there and free, no revocation in force, an attested spec
  -- that no check refuses, and a posture that enforces.
  pub record Admitted (plan : Plan F) (reserved : List String) (it : Intent) : Type 0 where
    pub position : ℕ
    pub spec : Spec F
    pub has_key : it.key ≢ ""
    pub standing : revocation_of it plan.revocations ≡ none
    pub attested : it.spec ≡ some position
    pub is_spec : get_elem? plan.specs position ≡ some spec
    pub admits : SpecAdmits plan.facts it spec
    pub enforced : (spec.enforcement_posture == "shadow") ≡ false
    pub free : contains reserved it.key ≡ false

  refuse_or_iff :
      (o : Option Ruling) (posture key : String) (reserved : List String)
      → AllRefuse o
      → IsAchieved (some (refuse_or o reserved (settle posture key reserved)))
        ↔ ((o ≡ none) × (((posture == "shadow") ≡ false) × (contains reserved key ≡ false)))
  unfolding settle
  refuse_or_iff (some r) posture key reserved h = (λ e. cc (e, h.not_achieved), λ p. cc p.0)
  refuse_or_iff none posture key reserved h = by_tests (posture == "shadow") (contains reserved key)
    where
      by_tests :
          (a b : Bool)
          → IsAchieved (
              some (
                if a
                then (shadow_ruling, reserved)
                else if b
                then (collision_ruling, reserved)
                else (achieved_ruling, key ∷ reserved)))
            ↔ ((◌≡◌ {A = Option Ruling} none none) × ((a ≡ false) × (b ≡ false)))
      by_tests true b = (λ e. cc e, λ p. cc p.1.0)
      by_tests false true = (λ e. cc e, λ p. cc p.1.1)
      by_tests false false = (λ e. (refl, (refl, refl)), λ p. refl)

  -- What `rule_spec` needs of the spec at a position.
  record SpecAdmitted (facts : List (String × F)) (it : Intent) (reserved : List String)
      (o : Option (Spec F)) : Type 0 where
    spec : Spec F
    is_spec : o ≡ some spec
    admits : SpecAdmits facts it spec
    enforced : (spec.enforcement_posture == "shadow") ≡ false
    free : contains reserved it.key ≡ false

  same_spec : (s t : Spec F) → some s ≡ some t → s ≡ t
  same_spec s t h = cc

  rule_spec_iff :
      (facts : List (String × F)) (it : Intent) (reserved : List String) (o : Option (Spec F))
      → IsAchieved (rule_spec at_least facts it reserved o) ↔ SpecAdmitted facts it reserved o
  unfolding rule_spec
  rule_spec_iff facts it reserved none = (λ e. absurd e, λ a. cc a.is_spec)
  rule_spec_iff facts it reserved (some s) =
      let r =
        refuse_or_iff (check_spec at_least facts it s) s.enforcement_posture it.key reserved
          (check_spec-AllRefuse at_least facts it s) in
      let c = check_spec_iff facts it s in
      (
        λ e.
            let q = r.0 e in
            record { spec = s; is_spec = refl; admits = c.0 q.0; enforced = q.1.0; free = q.1.1 },
        λ a.
            let e = same_spec s a.spec a.is_spec in
            r.1 (
              c.1 (subst (λ (t : Spec F). SpecAdmits facts it t) (sym e) a.admits),
              (
                subst (λ (t : Spec F). (t.enforcement_posture == "shadow") ≡ false) (sym e)
                    a.enforced,
                a.free,
              ),
            ),
      )

  same_position : (a b : ℕ) → some a ≡ some b → a ≡ b
  same_position a b h = cc

  rule_attested_iff :
      (plan : Plan F) (it : Intent) (reserved : List String) (o : Option ℕ)
      → it.spec ≡ o
      → revocation_of it plan.revocations ≡ none
      → it.key ≢ ""
      → IsAchieved (rule_attested at_least plan it reserved o) ↔ Admitted plan reserved it
  unfolding rule_attested
  rule_attested_iff plan it reserved none e v k = (λ h. cc h, λ a. cc (e, a.attested))
  rule_attested_iff plan it reserved (some p) e v k =
      let r = rule_spec_iff plan.facts it reserved (get_elem? plan.specs p) in
      (
        λ h.
            let a = r.0 h in
            record {
              position = p;
              spec = a.spec;
              has_key = k;
              standing = v;
              attested = e;
              is_spec = a.is_spec;
              admits = a.admits;
              enforced = a.enforced;
              free = a.free;
            },
        λ a.
            let q = same_position a.position p (sym a.attested ∙ e) in
            r.1 (record {
              spec = a.spec;
              is_spec = subst (λ (n : ℕ). get_elem? plan.specs n ≡ some a.spec) q a.is_spec;
              admits = a.admits;
              enforced = a.enforced;
              free = a.free;
            }),
      )

  rule_revoked_iff :
      (plan : Plan F) (it : Intent) (reserved : List String) (o : Option Revocation)
      → revocation_of it plan.revocations ≡ o
      → it.key ≢ ""
      → IsAchieved (rule_revoked at_least plan it reserved o) ↔ Admitted plan reserved it
  unfolding rule_revoked
  rule_revoked_iff plan it reserved (some r) e k = (λ h. cc h, λ a. cc (e, a.standing))
  rule_revoked_iff plan it reserved none e k = rule_attested_iff plan it reserved it.spec refl e k

  -- The oracle predicts ACHIEVED exactly for an intent with a free key, no revocation in force and an
  -- attested, enforcing spec whose criteria are well formed, pass at the declaration and, where they
  -- are volatile, pass again at the dispatch.
  pub rule-IsAchieved_iff :
      (plan : Plan F) (reserved : List String) (it : Intent)
      → IsAchieved (rule at_least plan reserved it) ↔ Admitted plan reserved it
  unfolding rule
  rule-IsAchieved_iff plan reserved it = elim (Bool-cases (it.key == "")) [
    | inl b ↦ rw b (λ h. cc h, λ a. absurd (a.has_key ((eq_iff it.key "").0 b)))
    | inr b ↦
        let r =
          rule_revoked_iff plan it reserved (revocation_of it plan.revocations) refl
            (λ q. absurd (differs b ((eq_iff it.key "").1 q))) in
        rw b (r.0, r.1)
  ]
    where
      differs : {b : Bool} → b ≡ false → b ≡ true → ⊥
      differs h k = cc
