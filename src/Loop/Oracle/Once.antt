-- ===== src/Loop/Oracle/Once.antt =====
-- The keys that the oracle's ACHIEVED predictions take (treasury/randomized_loop.py).
use treasury_intent_controll.Base.{
  ℕ, ◌≤◌, Bool, true, false, not, ◌&&◌, String, ◌<>◌, List, [], ◌∷◌, Option, none, some, ◌==◌,
  eq_iff, count, contains, get_elem?, flag_if, ◌or_else◌, if◌then◌else◌, if_both, ◌≡◌, refl, sym,
  subst, ◌⊎◌, inl, inr, Bool-cases, arith,
}
use treasury_intent_controll.Loop.Oracle.{
  Judgment, Criterion, Spec, Intent, Revocation, Plan, Ruling, failed_as, achieved_ruling,
  shadow_ruling, collision_ruling, Prediction, revocation_of, is_valid_posture, is_valid_volatility,
  is_volatile, is_pass, dispatch, check_judgment, join_names, Scored, unscored, failing,
  scored_ruling, settle, refuse_or, score, check_posture, check_criteria, check_volatility,
  score_all, check_drift, check_spec, rule_spec, rule_attested, rule_revoked, rule, predict,
  predict_all, oracle,
}

-- A ruling that takes no key.
pub record Refuses (r : Ruling) : Type 0 where
  pub not_achieved : (r.terminal == "ACHIEVED") ≡ false

-- A check whose finding, where there is one, takes no key.
abbrev pub AllRefuse : Option Ruling → Type 0
AllRefuse none = Unit
AllRefuse (some r) = Refuses r

failed_as-Refuses : (reason : String) → Refuses (failed_as reason)
failed_as-Refuses reason = record { not_achieved = refl }

flag_if-AllRefuse : (b : Bool) (r : Ruling) → Refuses r → AllRefuse (flag_if b r)
flag_if-AllRefuse true r h = h
flag_if-AllRefuse false r h = tt

or_else-AllRefuse : (a b : Option Ruling) → AllRefuse a → AllRefuse b → AllRefuse (a or_else b)
or_else-AllRefuse none b h k = k
or_else-AllRefuse (some r) b h k = h

check_judgment-AllRefuse : (names : List Judgment) → AllRefuse (check_judgment names)
unfolding check_judgment
check_judgment-AllRefuse [] = tt
check_judgment-AllRefuse (n ∷ names) = failed_as-Refuses ("unevaluable:human-judgment:" <> n.name)

scored_ruling-AllRefuse : (s : Scored) → AllRefuse (scored_ruling s)
unfolding scored_ruling
scored_ruling-AllRefuse (unscored name) = failed_as-Refuses ("unevaluable:" <> name)
scored_ruling-AllRefuse (failing []) = tt
scored_ruling-AllRefuse (failing (n ∷ names)) = failed_as-Refuses (join_names (n ∷ names))

-- What one round does: it takes the intent's key, which was free, or it takes none.
pub record Round (key : String) (reserved : List String) (x : Ruling × List String) : Type 0 where
  pub either :
      ((x.1 ≡ reserved) × ((x.0.terminal == "ACHIEVED") ≡ false))
      ⊎ ((x.1 ≡ key ∷ reserved) × ((x.0 ≡ achieved_ruling) × (contains reserved key ≡ false)))

abbrev AllRound : String → List String → Option (Ruling × List String) → Type 0
AllRound key reserved none = Unit
AllRound key reserved (some x) = Round key reserved x

refused-Round :
    (key : String) (reserved : List String) (r : Ruling)
    → Refuses r
    → Round key reserved (r, reserved)
refused-Round key reserved r h = record { either = inl (refl, h.not_achieved) }

settle-Round :
    (posture key : String) (reserved : List String)
    → Round key reserved (settle posture key reserved)
unfolding settle
settle-Round posture key reserved =
    if_both (Round key reserved) (posture == "shadow")
      (refused-Round key reserved shadow_ruling (record { not_achieved = refl }))
      (by_test (contains reserved key) refl)
  where
    by_test :
        (b : Bool)
        → contains reserved key ≡ b
        → Round key reserved
            (if b then (collision_ruling, reserved) else (achieved_ruling, key ∷ reserved))
    by_test true e = refused-Round key reserved collision_ruling (record { not_achieved = refl })
    by_test false e = record { either = inr (refl, (refl, e)) }

refuse_or-Round :
    (key : String) (reserved : List String) (o : Option Ruling) (x : Ruling × List String)
    → AllRefuse o
    → Round key reserved x
    → Round key reserved (refuse_or o reserved x)
refuse_or-Round key reserved none x h k = k
refuse_or-Round key reserved (some r) x h k = refused-Round key reserved r h

-- The keys of the intents that were predicted to be ACHIEVED.
abbrev pub achieved_keys : List Intent → List Prediction → List String
achieved_keys [] out = []
achieved_keys (it ∷ intents) [] = []
achieved_keys (it ∷ intents) (p ∷ out) =
    let rest = achieved_keys intents out in
    if p.ruling.terminal == "ACHIEVED" then it.key ∷ rest else rest

-- A key that is taken occurs no more, and a free one at most once.
record Bounded (k : String) (reserved keys : List String) : Type 0 where
  at_most_one : count k keys ≤ 1
  taken : contains reserved k ≡ true → count k keys ≡ 0

here-Bounded :
    (k key : String) (reserved : List String) (x : Ruling × List String) (keys : List String)
    → Round key reserved x
    → Bounded k x.1 keys
    → Bounded k reserved (if x.0.terminal == "ACHIEVED" then key ∷ keys else keys)
here-Bounded k key reserved x keys r b = elim r.either [
  | inl p ↦ rw p.1 (subst (λ (l : List String). Bounded k l keys) p.0 b)
  | inr p ↦
      let c = subst (λ (l : List String). Bounded k l keys) p.0 b in
      subst
        (λ (q : Ruling). Bounded k reserved (if q.terminal == "ACHIEVED" then key ∷ keys else keys))
        (sym p.1.0) (added k key reserved keys p.1.1 c)
]
  where
    added :
        (k key : String) (reserved keys : List String)
        → contains reserved key ≡ false
        → Bounded k (key ∷ reserved) keys
        → Bounded k reserved (key ∷ keys)
    added k key reserved keys free b = elim (Bool-cases (key == k)) [
      | inl e ↦
          let none_left = b.taken (rw e refl) in
          record {
            at_most_one = rw e (omega (arith, none_left));
            taken = λ h. cc ((eq_iff key k).0 e, free, h);
          }
      | inr e ↦ record { at_most_one = rw e b.at_most_one; taken = λ h. rw e (b.taken (rw e h)) }
    ]

some_list : (l m : List Prediction) → some l ≡ some m → l ≡ m
some_list l m h = cc

module _ {F : Type 0} (at_least : F → F → Bool) where
  check_volatility-AllRefuse :
      (criteria : List (Criterion F)) → AllRefuse (check_volatility at_least criteria)
  unfolding check_volatility
  check_volatility-AllRefuse [] = tt
  check_volatility-AllRefuse (c ∷ criteria) =
      or_else-AllRefuse _ _
        (flag_if-AllRefuse (not (is_valid_volatility c.volatility)) _ (failed_as-Refuses _))
        (check_volatility-AllRefuse criteria)

  check_drift-AllRefuse :
      (facts : List (String × F)) (it : Intent) (criteria : List (Criterion F))
      → AllRefuse (check_drift at_least facts it criteria)
  unfolding check_drift
  check_drift-AllRefuse facts it [] = tt
  check_drift-AllRefuse facts it (c ∷ criteria) =
      or_else-AllRefuse _ _
        (flag_if-AllRefuse
          (is_volatile c.volatility && not (is_pass (score at_least facts it c dispatch))) _
          (record { not_achieved = refl }))
        (check_drift-AllRefuse facts it criteria)

  check_criteria-AllRefuse :
      (criteria : List (Criterion F)) → AllRefuse (check_criteria at_least criteria)
  unfolding check_criteria
  check_criteria-AllRefuse [] = failed_as-Refuses "unevaluable:empty-criteria"
  check_criteria-AllRefuse (c ∷ criteria) = tt

  pub check_spec-AllRefuse :
      (facts : List (String × F)) (it : Intent) (s : Spec F)
      → AllRefuse (check_spec at_least facts it s)
  unfolding check_spec check_posture
  check_spec-AllRefuse facts it s =
      or_else-AllRefuse _ _
        (flag_if-AllRefuse (not (is_valid_posture s.enforcement_posture)) _ (failed_as-Refuses _))
        (or_else-AllRefuse (check_judgment s.human_judgment) _
          (check_judgment-AllRefuse s.human_judgment)
          (or_else-AllRefuse (check_criteria at_least s.criteria) _
            (check_criteria-AllRefuse s.criteria)
            (or_else-AllRefuse (check_volatility at_least s.criteria) _
              (check_volatility-AllRefuse s.criteria)
              (or_else-AllRefuse (scored_ruling (score_all at_least facts it s.criteria)) _
                (scored_ruling-AllRefuse (score_all at_least facts it s.criteria))
                (check_drift-AllRefuse facts it s.criteria)))))

  rule_spec-AllRound :
      (facts : List (String × F)) (it : Intent) (reserved : List String) (o : Option (Spec F))
      → AllRound it.key reserved (rule_spec at_least facts it reserved o)
  unfolding rule_spec
  rule_spec-AllRound facts it reserved none = tt
  rule_spec-AllRound facts it reserved (some s) =
      refuse_or-Round it.key reserved (check_spec at_least facts it s)
        (settle s.enforcement_posture it.key reserved) (check_spec-AllRefuse facts it s)
        (settle-Round s.enforcement_posture it.key reserved)

  rule_attested-AllRound :
      (plan : Plan F) (it : Intent) (reserved : List String) (o : Option ℕ)
      → AllRound it.key reserved (rule_attested at_least plan it reserved o)
  unfolding rule_attested
  rule_attested-AllRound plan it reserved none =
      refused-Round it.key reserved _ (failed_as-Refuses _)
  rule_attested-AllRound plan it reserved (some k) =
      rule_spec-AllRound plan.facts it reserved (get_elem? plan.specs k)

  rule_revoked-AllRound :
      (plan : Plan F) (it : Intent) (reserved : List String) (o : Option Revocation)
      → AllRound it.key reserved (rule_revoked at_least plan it reserved o)
  unfolding rule_revoked
  rule_revoked-AllRound plan it reserved (some r) =
      refused-Round it.key reserved _ (failed_as-Refuses _)
  rule_revoked-AllRound plan it reserved none = rule_attested-AllRound plan it reserved it.spec

  pub rule-AllRound :
      (plan : Plan F) (reserved : List String) (it : Intent)
      → AllRound it.key reserved (rule at_least plan reserved it)
  unfolding rule
  rule-AllRound plan reserved it = elim (Bool-cases (it.key == "")) [
    | inl e ↦ rw e (refused-Round it.key reserved _ (failed_as-Refuses _))
    | inr e ↦ rw e (rule_revoked-AllRound plan it reserved (revocation_of it plan.revocations))
  ]

  predict_all-Bounded :
      (k : String) (plan : Plan F) (reserved : List String) (intents : List Intent)
      (out : List Prediction)
      → predict_all at_least plan reserved intents ≡ some out
      → Bounded k reserved (achieved_keys intents out)
  unfolding predict_all
  predict_all-Bounded k plan reserved [] out e = record {
    at_most_one = omega arith;
    taken = λ h. refl;
  }
  predict_all-Bounded k plan reserved (it ∷ intents) out e =
      by_rule (rule at_least plan reserved it) (rule-AllRound plan reserved it)
        (λ next rest q. predict_all-Bounded k plan next intents rest q) out e
    where
      by_rest :
          (x : Ruling × List String) (o : Option (List Prediction)) (out : List Prediction)
          → Round it.key reserved x
          → ((rest : List Prediction) → o ≡ some rest → Bounded k x.1 (achieved_keys intents rest))
          → elim o [ none ↦ none | some l ↦ some (predict it x.0 ∷ l) ] ≡ some out
          → Bounded k reserved (achieved_keys (it ∷ intents) out)
      by_rest x none out r ih q = cc q
      by_rest x (some l) out r ih q =
          subst (λ (p : List Prediction). Bounded k reserved (achieved_keys (it ∷ intents) p))
            (some_list (predict it x.0 ∷ l) out q)
            (here-Bounded k it.key reserved x (achieved_keys intents l) r (ih l refl))

      by_rule :
          (o : Option (Ruling × List String))
          → AllRound it.key reserved o
          → ((next : List String) (rest : List Prediction)
              → predict_all at_least plan next intents ≡ some rest
              → Bounded k next (achieved_keys intents rest))
          → (out : List Prediction)
          → elim o [
            | none ↦ none
            | some x ↦ elim (predict_all at_least plan x.1 intents) [
              | none ↦ none
              | some l ↦ some (predict it x.0 ∷ l)
            ]
          ]
            ≡ some out
          → Bounded k reserved (achieved_keys (it ∷ intents) out)
      by_rule none r ih out q = cc q
      by_rule (some x) r ih out q =
          by_rest x (predict_all at_least plan x.1 intents) out r (λ rest h. ih x.1 rest h) q

  -- Where the oracle predicts at all, it predicts ACHIEVED for at most one intent of each key.
  pub oracle-count-le :
      (plan : Plan F) (out : List Prediction) (k : String)
      → oracle at_least plan ≡ some out
      → count k (achieved_keys plan.intents out) ≤ 1
  unfolding oracle
  oracle-count-le plan out k e = (predict_all-Bounded k plan [] plan.intents out e).at_most_one
