-- ===== src/Loop/Worlds.antt =====
-- The facts and the specs of a random world (treasury/randomized_loop.py, `sample_plan`). The
-- generator, the float operations and SHA-256 are parameters.
use treasury_intent_controll.Base.{
  ℕ, zero, suc, Bool, String, ◌<>◌, List, [], ◌∷◌, leb, lookup, get_elem?, if◌then◌else◌,
}
use treasury_intent_controll.Loop.Draws.{
  Random, length, Draw, ◌>>=◌, done, drawn, given, each, range, randint, choice, sample,
}
use treasury_intent_controll.Loop.Numerals.{show}
use treasury_intent_controll.Loop.Oracle.{Criterion, Judgment, Spec}

-- The float operations of the sampler; a constant is given in hundredths, and `round2` is `round(x, 2)`.
pub record Floats (F : Type 0) : Type 0 where
  pub hundredths : ℕ → F
  pub times : F → F → F
  pub round2 : F → F
  pub less : F → F → Bool

abbrev pub known_facts : List String
known_facts = "balance" ∷ "fx_rate" ∷ "exposure" ∷ "liquidity" ∷ []

abbrev pub unknown_metrics : List String
unknown_metrics = "unknown_metric" ∷ "coverage_ratio" ∷ "vega" ∷ []

abbrev pub take {ℓ} : {A : Type ℓ} → ℕ → List A → List A
take zero l = []
take (suc n) [] = []
take (suc n) (x ∷ l) = x ∷ take n l

abbrev pub names_of : {F : Type 0} → List (String × F) → List String
names_of [] = []
names_of ((name, fact) ∷ facts) = name ∷ names_of facts

abbrev pub min : ℕ → ℕ → ℕ
min a b = if leb a b then a else b

abbrev pub max : ℕ → ℕ → ℕ
max a b = if leb a b then b else a

module _ {S F : Type 0} (rng : Random S F) (floats : Floats F) where
  -- `rng.random() < k / 100`.
  unfoldable pub chance : ℕ → Draw S Bool
  chance k = drawn rng.random >>= λ roll. done (floats.less roll (floats.hundredths k))

  unfoldable pub draw_facts : Draw S (List (String × F))
  draw_facts = do
    known ← drawn (rng.shuffle known_facts)
    n ← randint rng 2 4
    each
        (λ name. do
          fact ← drawn (rng.uniform (floats.hundredths 1000) (floats.hundredths 50000))
          done (name, floats.round2 fact))
        (take n known)

  unfoldable pub draw_posture : Draw S String
  draw_posture = do
    roll ← drawn rng.random
    (if floats.less roll (floats.hundredths 60)
        then done "enforce"
        else if floats.less roll (floats.hundredths 85)
        then done "shadow"
        else choice rng ("audit" ∷ "" ∷ "ENFORCE" ∷ []))

  -- A criterion on a fact, with its threshold between two multiples of the fact.
  unfoldable pub draw_near : List (String × F) → String → ℕ → ℕ → Draw S (String × F)
  draw_near facts name low high = do
    fact ← given (lookup name facts)
    factor ← drawn (rng.uniform (floats.hundredths low) (floats.hundredths high))
    done (name, floats.round2 (floats.times fact factor))

  unfoldable pub draw_unknown : Draw S (String × F)
  draw_unknown = do
    name ← choice rng unknown_metrics
    threshold ← drawn (rng.uniform (floats.hundredths 100) (floats.hundredths 10000))
    done (name, floats.round2 threshold)

  unfoldable pub draw_criterion : List (String × F) → Draw S (Criterion F)
  draw_criterion facts = do
    on_fact ← chance 75
    measure ←
        (if on_fact
          then choice rng (names_of facts) >>= (λ name. draw_near facts name 40 160)
          else draw_unknown)
    volatility ← choice rng ("stable" ∷ "volatile" ∷ [])
    is_odd ← chance 8
    named ← (if is_odd then choice rng ("Volatile" ∷ "sometimes" ∷ "" ∷ []) else done volatility)
    done (record { name = measure.0; threshold = measure.1; volatility = named })

  -- One spec in eight is thin.
  unfoldable pub draw_criteria : List (String × F) → Draw S (List (Criterion F))
  draw_criteria facts = do
    roll ← drawn rng.random
    (if floats.less (floats.hundredths 12) roll
        then randint rng 1 3 >>= (λ n. each (λ k. draw_criterion facts) (range n))
        else done [])

  unfoldable pub draw_judgment : (String → String) → ℕ → Draw S (List Judgment)
  draw_judgment sha256_hex k = do
    has_judgment ← chance 12
    (if has_judgment
        then choice rng ("officer_signoff" ∷ "sanctions_review" ∷ []) >>= (λ name.
          done (record { name = name; passage_sha256 = sha256_hex ("passage-" <> show k) } ∷ []))
        else done [])

  unfoldable pub draw_spec : (String → String) → List (String × F) → ℕ → Draw S (Spec F)
  draw_spec sha256_hex facts k = do
    posture ← draw_posture
    criteria ← draw_criteria facts
    action_class ← choice rng ("payment" ∷ "transfer" ∷ "settlement" ∷ [])
    human_judgment ← draw_judgment sha256_hex k
    done (record {
      spec_version = 1;
      action_class = action_class;
      enforcement_posture = posture;
      criteria = criteria;
      human_judgment = human_judgment;
    })

  -- A criterion that its fact passes.
  unfoldable pub draw_passing : List (String × F) → ℕ → Draw S (Criterion F)
  draw_passing facts k = do
    name ← given (get_elem? (names_of facts) k)
    measure ← draw_near facts name 20 90
    volatility ← choice rng ("stable" ∷ "volatile" ∷ [])
    done (record { name = measure.0; threshold = measure.1; volatility = volatility })

  unfoldable pub draw_viable : List (String × F) → String → Draw S (Spec F)
  draw_viable facts posture = do
    n ← randint rng 1 (min 2 (length facts))
    positions ← sample rng (length facts) n
    criteria ← each (draw_passing facts) positions
    done (record {
      spec_version = 1;
      action_class = "payment";
      enforcement_posture = posture;
      criteria = criteria;
      human_judgment = [];
    })
