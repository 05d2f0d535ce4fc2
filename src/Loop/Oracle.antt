-- ===== src/Loop/Oracle.antt =====
-- `oracle` (treasury/randomized_loop.py): the terminals that a plan predicts, in the refusal order of
-- CONTRACT.md 4.2. Facts and thresholds are floats with their test `>=`.
pub mod Admission
pub mod Once
pub mod Stated
pub mod Classes
pub mod Tests
use treasury_intent_controll.Base.{
  ℕ, Bool, true, false, not, ◌&&◌, ◌||◌, String, ◌<>◌, List, [], ◌∷◌, Option, none, some, ◌==◌, eqb,
  leb, lookup, contains, get_elem?, flag_if, ◌or_else◌, if◌then◌else◌,
}
use treasury_intent_controll.Loop.{bucket}

pub record Criterion (F : Type 0) : Type 0 where
  pub name : String
  pub threshold : F
  pub volatility : String

-- An entry of a spec that a human has to resolve.
pub record Judgment : Type 0 where
  pub name : String
  pub passage_sha256 : String

-- A spec; one without human-judgment entries leaves their list out.
pub record Spec (F : Type 0) : Type 0 where
  pub spec_version : ℕ
  pub action_class : String
  pub enforcement_posture : String
  pub criteria : List (Criterion F)
  pub human_judgment : List Judgment

pub record Revocation : Type 0 where
  pub spec : ℕ
  pub at : ℕ
  pub ref : String

-- The spec is a position in the plan's specs; `none` stands for a hash that nobody attested.
pub record Intent : Type 0 where
  pub i : ℕ
  pub seed : String
  pub spec : Option ℕ
  pub key : String
  pub outage : Bool
  pub drift : Bool

pub record Plan (F : Type 0) : Type 0 where
  pub facts : List (String × F)
  pub specs : List (Spec F)
  pub revocations : List Revocation
  pub intents : List Intent

pub data Score : Type 0 where
  pass fail unevaluable : Score

pub data Phase : Type 0 where
  declaration dispatch : Phase

-- A terminal and its reason.
pub record Ruling : Type 0 where
  pub terminal : String
  pub reason : String

abbrev pub failed_as : String → Ruling
failed_as reason = record { terminal = "FAILED"; reason = reason }

abbrev pub achieved_ruling : Ruling
achieved_ruling = record { terminal = "ACHIEVED"; reason = "" }

abbrev pub shadow_ruling : Ruling
shadow_ruling = record { terminal = "SHADOW_RECORDED"; reason = "" }

abbrev pub collision_ruling : Ruling
collision_ruling = record { terminal = "FAILED_AT_DISPATCH"; reason = "idempotency-collision" }

pub record Prediction : Type 0 where
  pub i : ℕ
  pub ruling : Ruling
  pub class_ : String

-- The first revocation of the spec that is in force by the intent's position.
unfoldable pub revoked_by : ℕ → ℕ → List Revocation → Option Revocation
revoked_by spec idx [] = none
revoked_by spec idx (r ∷ revocations) =
    let later = revoked_by spec idx revocations in
    if eqb r.spec spec && leb r.at idx then some r else later

unfoldable pub revocation_of : Intent → List Revocation → Option Revocation
unfolding revoked_by
revocation_of it revocations = elim it.spec [ none ↦ none | some k ↦ revoked_by k it.i revocations ]

abbrev pub is_volatile : String → Bool
is_volatile v = v == "volatile"

abbrev pub is_valid_volatility : String → Bool
is_valid_volatility v = v == "stable" || v == "volatile"

abbrev pub is_valid_posture : String → Bool
is_valid_posture p = p == "enforce" || p == "shadow"

abbrev pub is_dispatch : Phase → Bool
is_dispatch declaration = false
is_dispatch dispatch = true

abbrev pub is_pass : Score → Bool
is_pass pass = true
is_pass _ = false

unfoldable pub check_judgment : List Judgment → Option Ruling
check_judgment [] = none
check_judgment (j ∷ judgments) = some (failed_as ("unevaluable:human-judgment:" <> j.name))

-- `",".join(names)`.
unfoldable pub join_names : List String → String
join_names [] = ""
join_names (n ∷ []) = n
join_names (n ∷ m ∷ names) = n <> ("," <> join_names (m ∷ names))

-- The declaration's scores: the first criterion without one, or the names of those that failed.
pub data Scored : Type 0 where
  unscored : String → Scored
  failing : List String → Scored

abbrev pub add_failed : String → Scored → Scored
add_failed name (unscored other) = unscored other
add_failed name (failing names) = failing (name ∷ names)

abbrev pub add_score : Score → String → Scored → Scored
add_score pass name rest = rest
add_score fail name rest = add_failed name rest
add_score unevaluable name rest = unscored name

unfoldable pub scored_ruling : Scored → Option Ruling
unfolding join_names
scored_ruling (unscored name) = some (failed_as ("unevaluable:" <> name))
scored_ruling (failing []) = none
scored_ruling (failing (n ∷ names)) = some (failed_as (join_names (n ∷ names)))

-- A spec that no check refuses: recorded, or the key is taken if it is free.
unfoldable pub settle : String → String → List String → Ruling × List String
settle posture key reserved =
    if posture == "shadow"
    then (shadow_ruling, reserved)
    else if contains reserved key
    then (collision_ruling, reserved)
    else (achieved_ruling, key ∷ reserved)

abbrev pub refuse_or : Option Ruling → List String → Ruling × List String → Ruling × List String
refuse_or (some r) reserved otherwise = (r, reserved)
refuse_or none reserved otherwise = otherwise

abbrev pub predict : Intent → Ruling → Prediction
predict it r = record { i = it.i; ruling = r; class_ = bucket r.terminal r.reason }

module _ {F : Type 0} (at_least : F → F → Bool) where
  abbrev pub compare_fact : Option F → F → Score
  compare_fact none threshold = unevaluable
  compare_fact (some fact) threshold = if at_least fact threshold then pass else fail

  unfoldable pub score : List (String × F) → Intent → Criterion F → Phase → Score
  score facts it c phase =
      if it.outage
      then unevaluable
      else if it.drift && (is_dispatch phase && is_volatile c.volatility)
      then fail
      else compare_fact (lookup c.name facts) c.threshold

  unfoldable pub check_posture : Spec F → Option Ruling
  check_posture s =
      flag_if (not (is_valid_posture s.enforcement_posture))
        (failed_as "unevaluable:invalid-posture")

  unfoldable pub check_criteria : List (Criterion F) → Option Ruling
  check_criteria [] = some (failed_as "unevaluable:empty-criteria")
  check_criteria (c ∷ criteria) = none

  unfoldable pub check_volatility : List (Criterion F) → Option Ruling
  check_volatility [] = none
  check_volatility (c ∷ criteria) =
      flag_if (not (is_valid_volatility c.volatility))
        (failed_as ("unevaluable:invalid-volatility:" <> c.name))
      or_else check_volatility criteria

  unfoldable pub score_all : List (String × F) → Intent → List (Criterion F) → Scored
  unfolding score
  score_all facts it [] = failing []
  score_all facts it (c ∷ criteria) =
      add_score (score facts it c declaration) c.name (score_all facts it criteria)

  -- The recheck of the volatile criteria at the dispatch edge.
  unfoldable pub check_drift : List (String × F) → Intent → List (Criterion F) → Option Ruling
  unfolding score
  check_drift facts it [] = none
  check_drift facts it (c ∷ criteria) =
      flag_if (is_volatile c.volatility && not (is_pass (score facts it c dispatch)))
        (record { terminal = "FAILED_AT_DISPATCH"; reason = "volatile-recheck:" <> c.name })
      or_else check_drift facts it criteria

  unfoldable pub check_spec : List (String × F) → Intent → Spec F → Option Ruling
  unfolding check_posture check_judgment check_criteria check_volatility score_all scored_ruling
      check_drift
  check_spec facts it s =
      check_posture s
      or_else check_judgment s.human_judgment
      or_else check_criteria s.criteria
      or_else check_volatility s.criteria
      or_else scored_ruling (score_all facts it s.criteria)
      or_else check_drift facts it s.criteria

  -- `plan["specs"][k]` out of range is an IndexError: `none`.
  unfoldable pub rule_spec :
      List (String × F) → Intent → List String → Option (Spec F) → Option (Ruling × List String)
  unfolding check_spec settle
  rule_spec facts it reserved none = none
  rule_spec facts it reserved (some s) =
      some
        (refuse_or (check_spec facts it s) reserved (settle s.enforcement_posture it.key reserved))

  unfoldable pub rule_attested :
      Plan F → Intent → List String → Option ℕ → Option (Ruling × List String)
  unfolding rule_spec
  rule_attested plan it reserved none = some (failed_as "unevaluable:unattested-spec", reserved)
  rule_attested plan it reserved (some k) =
      rule_spec plan.facts it reserved (get_elem? plan.specs k)

  unfoldable pub rule_revoked :
      Plan F → Intent → List String → Option Revocation → Option (Ruling × List String)
  unfolding rule_attested
  rule_revoked plan it reserved (some r) = some (failed_as ("revoked:" <> r.ref), reserved)
  rule_revoked plan it reserved none = rule_attested plan it reserved it.spec

  -- One round of the loop: the ruling, and the keys that are taken after it.
  unfoldable pub rule : Plan F → List String → Intent → Option (Ruling × List String)
  unfolding rule_revoked revocation_of
  rule plan reserved it =
      if it.key == ""
      then some (failed_as "unevaluable:absent-key", reserved)
      else rule_revoked plan it reserved (revocation_of it plan.revocations)

  unfoldable pub predict_all : Plan F → List String → List Intent → Option (List Prediction)
  unfolding rule
  predict_all plan reserved [] = some []
  predict_all plan reserved (it ∷ intents) = elim (rule plan reserved it) [
    | none ↦ none
    | some x ↦ elim (predict_all plan x.1 intents) [
      | none ↦ none
      | some out ↦ some (predict it x.0 ∷ out)
    ]
  ]

  unfoldable pub oracle : Plan F → Option (List Prediction)
  unfolding predict_all
  oracle plan = predict_all plan [] plan.intents
