-- ===== src/Loop/Run.antt =====
-- `main` (treasury/randomized_loop.py): plans are sampled until the oracle predicts every class, and
-- the terminals that the live gate answered are compared with the predictions. The processes that it
-- starts are not modelled: what they answer comes in as values.
pub mod Resampling
pub mod Coverage
pub mod Verdict
pub mod Tests
use treasury_intent_controll.Base.{
  ℕ, zero, suc, Bool, true, false, ◌&&◌, ◌||◌, String, ◌<>◌, List, [], ◌∷◌, Option, none, some,
  ◌==◌, ltb, leb, eqb, contains, lookup, if◌then◌else◌,
}
use treasury_intent_controll.Loop.{classes, bucket}
use treasury_intent_controll.Loop.Draws.{Random, Draw, ◌>>=◌, done, given, length}
use treasury_intent_controll.Loop.Numerals.{show}
use treasury_intent_controll.Loop.Oracle.{Intent, Plan, Prediction, Ruling, oracle}
use treasury_intent_controll.Loop.Plan.{sample_plan}
use treasury_intent_controll.Loop.Worlds.{Floats}

abbrev pub classes_of : List Prediction → List String
classes_of [] = []
classes_of (p ∷ expected) = p.class_ ∷ classes_of expected

-- The classes of a list that another lacks, in the order of the first.
abbrev pub lacking : List String → List String → List String
lacking [] covered = []
lacking (c ∷ wanted) covered =
    if contains covered c then lacking wanted covered else c ∷ lacking wanted covered

abbrev pub is_empty {ℓ} : {A : Type ℓ} → List A → Bool
is_empty [] = true
is_empty (x ∷ l) = false

-- How the search for a plan ends; `out_of_fuel` is the model's own.
pub data Search (F : Type 0) : Type 0 where
  found : ℕ → Plan F → List Prediction → Search F
  gave_up : ℕ → List String → Search F
  out_of_fuel : Search F

module _ {S F : Type 0} (rng : Random S F) (floats : Floats F) (at_least : F → F → Bool) where
  -- `while True`, with the attempts made so far.
  unfoldable pub resample : (String → String) → ℕ → ℕ → ℕ → ℕ → Draw S (Search F)
  resample sha256_hex n_intents max_resamples zero attempts = done out_of_fuel
  resample sha256_hex n_intents max_resamples (suc fuel) attempts =
      let again = resample sha256_hex n_intents max_resamples fuel (suc attempts) in
      sample_plan rng floats sha256_hex n_intents >>= (λ plan.
        given (oracle at_least plan) >>= (λ expected.
          if is_empty (lacking classes (classes_of expected))
          then done (found (suc attempts) plan expected)
          else if leb max_resamples (suc attempts)
          then done (gave_up (suc attempts) (lacking classes (classes_of expected)))
          else again))

-- What the gate answers: the status and the two texts, where the response has them.
pub record Answer : Type 0 where
  pub status : ℕ
  pub terminal : Option String
  pub reason : Option String

pub record Observed : Type 0 where
  pub i : ℕ
  pub terminal : String
  pub reason : String
  pub class_ : String
  pub http : ℕ

abbrev or_default : String → Option String → String
or_default default none = default
or_default default (some s) = s

abbrev pub observe : Intent → Answer → Observed
observe it answer =
    let term = or_default ("HTTP_" <> show answer.status) answer.terminal in
    let why = or_default "" answer.reason in
    record {
      i = it.i;
      terminal = term;
      reason = why;
      class_ = bucket term why;
      http = answer.status;
    }

abbrev pub observe_all : (Intent → Answer) → List Intent → List Observed
observe_all gate [] = []
observe_all gate (it ∷ intents) = observe it (gate it) ∷ observe_all gate intents

pub record Mismatch : Type 0 where
  pub i : ℕ
  pub expected : Ruling
  pub actual : Ruling

abbrev pub is_same : Prediction → Observed → Bool
is_same exp act = exp.ruling.terminal == act.terminal && exp.ruling.reason == act.reason

-- `zip` stops at the shorter list.
unfoldable pub mismatches : List Prediction → List Observed → List Mismatch
mismatches [] actual = []
mismatches (exp ∷ expected) [] = []
mismatches (exp ∷ expected) (act ∷ actual) =
    let rest = mismatches expected actual in
    if is_same exp act
    then rest
    else record {
      i = exp.i;
      expected = exp.ruling;
      actual = record { terminal = act.terminal; reason = act.reason };
    }
      ∷ rest

-- `counts[key] = counts.get(key, 0) + 1`.
unfoldable pub increment : String → List (String × ℕ) → List (String × ℕ)
increment key [] = (key, 1) ∷ []
increment key ((k, n) ∷ counts) =
    if k == key then (k, suc n) ∷ counts else (k, n) ∷ increment key counts

abbrev pub is_faulty : List Intent → ℕ → Bool
is_faulty [] i = false
is_faulty (it ∷ intents) i =
    let later = is_faulty intents i in if eqb it.i i then it.outage || it.drift else later

-- The counts of the classes, and of those whose intent had a fault injected.
unfoldable pub tally :
    List Intent
    → List Observed
    → List (String × ℕ) × List (String × ℕ)
    → List (String × ℕ) × List (String × ℕ)
tally intents [] counted = counted
tally intents (a ∷ actual) (counts, injected) = tally intents actual (
  increment a.class_ counts,
  if is_faulty intents a.i then increment a.class_ injected else injected,
)

abbrev pub counts_of : List Intent → List Observed → List (String × ℕ)
counts_of intents actual = (tally intents actual ([], [])).0

abbrev pub is_counted : List (String × ℕ) → String → Bool
is_counted [] c = false
is_counted ((k, n) ∷ counts) c = k == c || is_counted counts c

-- `[c for c in CLASSES if c not in counts]`.
unfoldable pub missing_classes : List String → List (String × ℕ) → List String
missing_classes [] counts = []
missing_classes (c ∷ wanted) counts =
    let rest = missing_classes wanted counts in if is_counted counts c then rest else c ∷ rest

abbrev get_count : List (String × ℕ) → String → ℕ
get_count counts c = elim (lookup c counts) [ none ↦ 0 | some n ↦ n ]

-- The classes that occurred behind an injected fault alone.
unfoldable pub forged_classes : List String → List (String × ℕ) → List (String × ℕ) → List String
forged_classes [] counts injected = []
forged_classes (c ∷ wanted) counts injected =
    let rest = forged_classes wanted counts injected in
    if ltb 0 (get_count counts c) && eqb (get_count injected c) (get_count counts c)
    then c ∷ rest
    else rest

-- What is read of an event of the gate's feed.
pub record FeedEvent : Type 0 where
  pub type : String
  pub idempotency_key : Option String

abbrev pub same_key : Option String → Option String → Bool
same_key none none = true
same_key (some a) (some b) = a == b
same_key _ _ = false

abbrev pub among : List (Option String) → Option String → Bool
among [] key = false
among (k ∷ keys) key = same_key k key || among keys key

-- `set(keys)`.
unfoldable pub distinct_keys : List (Option String) → List (Option String)
distinct_keys [] = []
distinct_keys (k ∷ keys) = let rest = distinct_keys keys in if among keys k then rest else k ∷ rest

-- The keys of the ACHIEVED events.
unfoldable pub achieved_keys : List FeedEvent → List (Option String)
achieved_keys [] = []
achieved_keys (e ∷ events) =
    let rest = achieved_keys events in
    if e.type == "ACHIEVED" then e.idempotency_key ∷ rest else rest

unfoldable pub expected_achieved : List Prediction → ℕ
expected_achieved [] = 0
expected_achieved (p ∷ expected) =
    let rest = expected_achieved expected in if p.class_ == "ACHIEVED" then suc rest else rest

unfoldable pub is_feed_ok : List Prediction → List FeedEvent → Bool
is_feed_ok expected events =
    let keys = achieved_keys events in
    eqb (length keys) (expected_achieved expected)
    && eqb (length (distinct_keys keys)) (length keys)

-- A verifier's exit status and its output.
pub record Verification : Type 0 where
  pub returncode : ℕ
  pub stdout : String

abbrev pub are_twins_ok : Verification → Verification → Bool
are_twins_ok go_v py_v =
    eqb go_v.returncode 0 && eqb py_v.returncode 0 && (go_v.stdout == py_v.stdout)

-- The exit status behind the comparison.
unfoldable pub exit_code :
    List Intent → List Prediction → List Observed → List FeedEvent → Verification → Verification → ℕ
exit_code intents expected actual events go_v py_v =
    if is_empty (mismatches expected actual)
      && is_empty (missing_classes classes (counts_of intents actual))
      && is_feed_ok expected events
      && are_twins_ok go_v py_v
    then 0
    else 1
