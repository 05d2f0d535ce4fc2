-- ===== src/Loop/Oracle/Tests.antt =====
-- A small plan, and the theorems on the oracle of treasury/randomized_loop.py at it.
use treasury_intent_controll.Base.{
  ℕ, Bool, true, false, String, List, [], ◌∷◌, none, some, ◌≡◌, refl, ◌↔◌, ◌≤◌, leb, count, lookup,
}
use treasury_intent_controll.Loop.Oracle.{
  Criterion, Spec, Intent, Plan, achieved_ruling, collision_ruling, Prediction, predict, rule,
  oracle, score, dispatch,
}
use treasury_intent_controll.Scorer.{EvalRequest}
use treasury_intent_controll.Loop.Proxy.{do_post}
use treasury_intent_controll.Loop.Proxy.Scores.{reading, scorer, do_post-score}
use treasury_intent_controll.Loop.Oracle.Admission.{IsAchieved, Admitted, rule-IsAchieved_iff}
use treasury_intent_controll.Loop.Oracle.Once.{achieved_keys, oracle-count-le}

abbrev at_least : ℕ → ℕ → Bool
at_least a b = leb b a

abbrev balance : Criterion ℕ
balance = record { name = "balance"; threshold = 5; volatility = "volatile" }

abbrev payment : Spec ℕ
payment = record {
  spec_version = 1;
  action_class = "payment";
  enforcement_posture = "enforce";
  criteria = balance ∷ [];
  human_judgment = [];
}

abbrev first_intent : Intent
first_intent = record {
  i = 0;
  seed = "rnd-0";
  spec = some 0;
  key = "pay-1";
  outage = false;
  drift = false;
}

abbrev second_intent : Intent
second_intent = record {
  i = 1;
  seed = "rnd-1";
  spec = some 0;
  key = "pay-1";
  outage = false;
  drift = false;
}

abbrev drifting : Intent
drifting = record {
  i = 2;
  seed = "rnd-2";
  spec = some 0;
  key = "pay-2";
  outage = false;
  drift = true;
}

abbrev plan : Plan ℕ
plan = record {
  facts = ("balance", 7) ∷ [];
  specs = payment ∷ [];
  revocations = record { spec = 0; at = 9; ref = "rotation" } ∷ [];
  intents = first_intent ∷ second_intent ∷ drifting ∷ [];
}

abbrev predictions : List Prediction
predictions =
    predict first_intent achieved_ruling
    ∷ predict second_intent collision_ruling
    ∷ predict drifting
        (record { terminal = "FAILED_AT_DISPATCH"; reason = "volatile-recheck:balance" })
    ∷ []

oracle_runs : oracle at_least plan ≡ some predictions
unfolding oracle lookup
oracle_runs = refl

oracle-count-le_example : count "pay-1" (achieved_keys plan.intents predictions) ≤ 1
oracle-count-le_example = oracle-count-le at_least plan predictions "pay-1" oracle_runs

rule-IsAchieved_iff_example :
    IsAchieved (rule at_least plan ("pay-1" ∷ []) second_intent)
    ↔ Admitted at_least plan ("pay-1" ∷ []) second_intent
rule-IsAchieved_iff_example = rule-IsAchieved_iff at_least plan ("pay-1" ∷ []) second_intent

-- The dispatch check of the drifting intent, as the gate asks for it.
abbrev asked : EvalRequest ℕ
asked = record {
  intent_id = "i-2";
  criterion = "balance";
  threshold = 5;
  phase = "dispatch";
  volatility = "volatile";
  rule_artifact_hash = none;
  intent_spec_hash = some "1111";
}

abbrev two_decimals : ℕ → String
two_decimals n = "5.00"

do_post-score_example :
    reading
      (do_post []
        ("i-2" ∷ [])
        (scorer at_least two_decimals (("balance", 7) ∷ []))
        (some asked)
        []).0
    ≡ score at_least (("balance", 7) ∷ []) drifting balance dispatch
do_post-score_example =
    do_post-score at_least two_decimals (("balance", 7) ∷ []) drifting balance dispatch []
      ("i-2" ∷ []) asked []
      (record {
        criterion = refl;
        threshold = refl;
        in_phase = refl;
        has_outage = refl;
        has_drift = refl;
        rechecks = λ h. refl;
      })
