-- ===== src/Loop/Run/Tests.antt =====
-- The theorems on `main` of treasury/randomized_loop.py at a small run.
use treasury_intent_controll.Base.{
  ℕ, Bool, true, false, String, List, [], ◌∷◌, Option, none, some, ◌≡◌, refl, get_elem?, lookup,
}
use treasury_intent_controll.Loop.Draws.Always.{Always}
use treasury_intent_controll.Loop.Numerals.{show}
use treasury_intent_controll.Loop.Oracle.{
  Criterion, Judgment, Spec, Intent, Plan, Prediction, oracle,
}
use treasury_intent_controll.Loop.Worlds.{max}
use treasury_intent_controll.Loop.Plan.Tests.{counting, floats, at_least, counting-IsRandom}
use treasury_intent_controll.Loop.Run.{
  Answer, Verification, FeedEvent, resample, observe_all, exit_code, mismatches, missing_classes,
  tally, increment, is_feed_ok, achieved_keys, distinct_keys, expected_achieved,
}
use treasury_intent_controll.Loop.{bucket}
use treasury_intent_controll.Loop.Run.Resampling.{IsDecided, resample-IsDecided}

resample-IsDecided_example :
    Always (IsDecided at_least 4 3) (resample counting floats at_least (λ s. s) 4 3 (max 1 3) 0)
resample-IsDecided_example =
    resample-IsDecided counting floats counting-IsRandom at_least (λ s. s) 4 3

abbrev criterion : String → ℕ → String → Criterion ℕ
criterion name threshold volatility = record {
  name = name;
  threshold = threshold;
  volatility = volatility;
}

abbrev spec_of : String → List (Criterion ℕ) → List Judgment → Spec ℕ
spec_of posture criteria judgments = record {
  spec_version = 1;
  action_class = "payment";
  enforcement_posture = posture;
  criteria = criteria;
  human_judgment = judgments;
}

abbrev intent_of : ℕ → Option ℕ → String → Bool → Intent
intent_of i spec key drift = record {
  i = i;
  seed = "rnd";
  spec = spec;
  key = key;
  outage = false;
  drift = drift;
}

-- One intent for each of the thirteen classes.
abbrev plan : Plan ℕ
plan = record {
  facts = ("balance", 7) ∷ [];
  specs =
      spec_of "enforce" (criterion "balance" 5 "volatile" ∷ []) []
      ∷ spec_of "shadow" (criterion "balance" 5 "stable" ∷ []) []
      ∷ spec_of "enforce" (criterion "balance" 9 "stable" ∷ []) []
      ∷ spec_of "audit" [] []
      ∷ spec_of "enforce" [] []
      ∷ spec_of "enforce" (criterion "balance" 5 "sometimes" ∷ []) []
      ∷ spec_of "enforce" [] (record { name = "officer_signoff"; passage_sha256 = "ab" } ∷ [])
      ∷ spec_of "enforce" (criterion "vega" 5 "stable" ∷ []) []
      ∷ [];
  revocations = record { spec = 4; at = 9; ref = "rotation-4" } ∷ [];
  intents =
      intent_of 0 (some 0) "pay-1" false
      ∷ intent_of 1 (some 1) "pay-1" false
      ∷ intent_of 2 (some 0) "pay-1" false
      ∷ intent_of 3 (some 2) "pay-2" false
      ∷ intent_of 4 none "pay-2" false
      ∷ intent_of 5 (some 3) "pay-2" false
      ∷ intent_of 6 (some 4) "pay-2" false
      ∷ intent_of 7 (some 5) "pay-2" false
      ∷ intent_of 8 (some 6) "pay-2" false
      ∷ intent_of 9 (some 4) "pay-2" false
      ∷ intent_of 10 (some 7) "pay-2" false
      ∷ intent_of 11 (some 0) "pay-2" true
      ∷ intent_of 12 (some 0) "" false
      ∷ [];
}

abbrev predicted : Option (List Prediction) → List Prediction
predicted none = []
predicted (some out) = out

abbrev expected : List Prediction
expected = predicted (oracle at_least plan)

abbrev answer_of : Option Prediction → Answer
answer_of none = record { status = 503; terminal = none; reason = none }
answer_of (some p) = record {
  status = 200;
  terminal = some p.ruling.terminal;
  reason = some p.ruling.reason;
}

-- A gate that answers as predicted.
abbrev gate : Intent → Answer
gate it = answer_of (get_elem? expected it.i)

abbrev feed : List FeedEvent
feed = record { type = "ACHIEVED"; idempotency_key = some "pay-1" } ∷ []

abbrev verified : Verification
verified = record { returncode = 0; stdout = "VERIFIED" }

exit_code_runs :
    exit_code plan.intents expected (observe_all gate plan.intents) feed verified verified ≡ 0
unfolding oracle lookup bucket exit_code mismatches missing_classes tally increment is_feed_ok
    achieved_keys distinct_keys expected_achieved show
exit_code_runs = refl
