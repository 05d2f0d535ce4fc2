-- ===== src/Loop/Plan/Specs.antt =====
-- The specs of a sampled plan (treasury/randomized_loop.py): each criterion has a name.
use treasury_intent_controll.Base.{
  ℕ, suc, ◌<◌, ◌≤◌, String, List, [], ◌∷◌, ◌≡◌, refl, lookup, get_elem?, arith,
}
use treasury_intent_controll.Loop.Draws.{Random, IsRandom, length, All, range, choice}
use treasury_intent_controll.Loop.Draws.Always.{
  Always, All-get_elem?, done-Always, then-Always, given-Always, each-Always, if-Always,
  randint-Always, choice-Always, sample-Always,
}
use treasury_intent_controll.Loop.Oracle.{Criterion, Spec}
use treasury_intent_controll.Loop.Worlds.{
  Floats, unknown_metrics, names_of, min, draw_posture, draw_near, draw_unknown, draw_criterion,
  draw_criteria, draw_judgment, draw_spec, draw_passing, draw_viable,
}
use treasury_intent_controll.Loop.Plan.Facts.{
  IsNamed, Any, IsFact, AreFacts, names_of-length, names_of-IsFact, drawn-Any, chance-Any,
}

pub All-Any : {A : Type 0} (l : List A) → All Any l
All-Any [] = tt
All-Any (x ∷ l) = (tt, All-Any l)

abbrev pub HasName : {F : Type 0} → Criterion F → Type 0
HasName c = IsNamed c.name

abbrev pub HasNames : {F : Type 0} → Spec F → Type 0
HasNames s = All HasName s.criteria

abbrev IsMeasure : {F : Type 0} → String × F → Type 0
IsMeasure measure = IsNamed measure.0

-- A spec planted for a posture.
abbrev pub IsPlanted : {F : Type 0} → String → Spec F → Type 0
IsPlanted posture s = HasNames s × (s.enforcement_posture ≡ posture)

module _ {S F : Type 0} (rng : Random S F) (floats : Floats F) (law : IsRandom rng) where
  pub choice-Any : {A : Type 0} (x : A) (l : List A) → Always Any (choice rng (x ∷ l))
  choice-Any x l = choice-Always rng law (x ∷ l) (positive (length l)) (All-Any (x ∷ l))
    where
      positive : (n : ℕ) → 0 < suc n
      positive n = omega arith

  draw_near-IsMeasure :
      (facts : List (String × F)) (name : String) (low high : ℕ)
      → IsFact facts name
      → Always IsMeasure (draw_near rng floats facts name low high)
  unfolding draw_near
  draw_near-IsMeasure facts name low high p =
      then-Always {P = Any} (given-Always (lookup name facts) (p.1.0, p.1.1, tt))
        (λ fact t. then-Always (drawn-Any rng floats law _) (λ factor u. done-Always _ p.0))

  draw_unknown-IsMeasure : Always IsMeasure (draw_unknown rng floats)
  unfolding draw_unknown
  draw_unknown-IsMeasure =
      then-Always
        (choice-Always rng law {P = IsNamed} unknown_metrics (omega arith)
          (refl, (refl, (refl, tt))))
        (λ name p. then-Always (drawn-Any rng floats law _) (λ threshold t. done-Always _ p))

  names_of-nonempty : (facts : List (String × F)) → AreFacts facts → 0 < length (names_of facts)
  names_of-nonempty facts h = rw (names_of-length facts) h.nonempty

  draw_criterion-HasName :
      (facts : List (String × F))
      → AreFacts facts
      → Always HasName (draw_criterion rng floats facts)
  unfolding draw_criterion
  draw_criterion-HasName facts h = then-Always (chance-Any rng floats law 75) (λ on_fact t.
      then-Always
        (if-Always on_fact
          (then-Always
            (choice-Always rng law (names_of facts) (names_of-nonempty facts h)
              (names_of-IsFact facts h.named))
            (λ name p. draw_near-IsMeasure facts name 40 160 p))
          draw_unknown-IsMeasure)
        (λ measure p. then-Always (choice-Any _ _) (λ volatility t.
          then-Always (chance-Any rng floats law 8) (λ is_odd t.
            then-Always {P = Any} (if-Always is_odd (choice-Any _ _) (done-Always volatility tt))
              (λ named t. done-Always _ p)))))

  draw_criteria-HasName :
      (facts : List (String × F))
      → AreFacts facts
      → Always (All HasName) (draw_criteria rng floats facts)
  unfolding draw_criteria
  draw_criteria-HasName facts h = then-Always (drawn-Any rng floats law _) (λ roll t.
      if-Always (floats.less (floats.hundredths 12) roll)
        (then-Always (randint-Always rng law 1 3 (omega arith)) (λ n b.
          each-Always (λ k u. draw_criterion-HasName facts h) (range n) (All-Any (range n))))
        (done-Always [] tt))

  draw_posture-Any : Always Any (draw_posture rng floats)
  unfolding draw_posture
  draw_posture-Any = then-Always (drawn-Any rng floats law rng.random) (λ roll t.
      if-Always _ (done-Always "enforce" tt)
        (if-Always _ (done-Always "shadow" tt) (choice-Any _ _)))

  draw_judgment-Any :
      (sha256_hex : String → String) (k : ℕ) → Always Any (draw_judgment rng floats sha256_hex k)
  unfolding draw_judgment
  draw_judgment-Any sha256_hex k = then-Always (chance-Any rng floats law 12) (λ has_judgment t.
      if-Always has_judgment (then-Always (choice-Any _ _) (λ name u. done-Always _ tt))
        (done-Always [] tt))

  pub draw_spec-HasNames :
      (sha256_hex : String → String) (facts : List (String × F)) (k : ℕ)
      → AreFacts facts
      → Always HasNames (draw_spec rng floats sha256_hex facts k)
  unfolding draw_spec
  draw_spec-HasNames sha256_hex facts k h = then-Always draw_posture-Any (λ posture t.
      then-Always (draw_criteria-HasName facts h) (λ criteria p.
        then-Always (choice-Any _ _) (λ action_class t.
          then-Always (draw_judgment-Any sha256_hex k) (λ human_judgment t. done-Always _ p))))

  draw_passing-HasName :
      (facts : List (String × F)) (k : ℕ)
      → AreFacts facts
      → k < length facts
      → Always HasName (draw_passing rng floats facts k)
  unfolding draw_passing
  draw_passing-HasName facts k h b =
      then-Always
        (given-Always (get_elem? (names_of facts) k) (
          All-get_elem? (names_of facts) k (names_of-IsFact facts h.named)
            (rw (names_of-length facts) b)))
        (λ name p.
          then-Always (draw_near-IsMeasure facts name 20 90 p)
            (λ measure q. then-Always (choice-Any _ _) (λ volatility t. done-Always _ q)))

  pub draw_viable-IsPlanted :
      (facts : List (String × F)) (posture : String)
      → AreFacts facts
      → Always (IsPlanted posture) (draw_viable rng floats facts posture)
  unfolding draw_viable
  draw_viable-IsPlanted facts posture h =
      then-Always
        (randint-Always rng law 1 (min 2 (length facts)) (one_le (length facts) h.nonempty))
        (λ n b.
          then-Always (sample-Always rng law (length facts) n (below_len n (length facts) b.1))
            (λ positions p.
              then-Always (each-Always (λ k q. draw_passing-HasName facts k h q) positions p.1)
                (λ criteria q. done-Always _ (q, refl))))
    where
      one_le : (m : ℕ) → 0 < m → 1 ≤ min 2 m
      one_le m h = ground arith

      below_len : (n m : ℕ) → n ≤ min 2 m → n ≤ m
      below_len n m h = ground arith
