-- ===== src/Loop/Plan/Sound.antt =====
-- Every sampled plan is one that the oracle predicts for (treasury/randomized_loop.py).
use treasury_intent_controll.Base.{
  ℕ, suc, ◌<◌, Bool, String, List, [], ◌∷◌, ◌++◌, none, some, ◌≡◌, refl, ap, inl, inr, ◌⊎◌,
  get_elem?, arith,
}
use treasury_intent_controll.Loop.Draws.{Random, IsRandom, length, All, range}
use treasury_intent_controll.Loop.Draws.Always.{
  Always, All-get_elem?, done-Always, then-Always, each-Always, weaken-Always, range-IsBelow,
  randint-Always,
}
use treasury_intent_controll.Loop.Oracle.{Criterion, Spec, Intent, Plan, Prediction, oracle}
use treasury_intent_controll.Loop.Oracle.Classes.{
  AllNamed, SpecsNamed, AllInRange, AllClasses, oracle-AllClasses,
}
use treasury_intent_controll.Loop.Plan.{Viable, plan_of, sample_plan}
use treasury_intent_controll.Loop.Worlds.{Floats}
use treasury_intent_controll.Loop.Plan.Facts.{draw_facts-AreFacts}
use treasury_intent_controll.Loop.Plan.Specs.{
  All-Any, HasName, HasNames, draw_spec-HasNames, IsPlanted, draw_viable-IsPlanted,
}
use treasury_intent_controll.Loop.Plan.Intents.{
  Spares, Refers, draw_revocations-Spares, draw_intents-Refers,
}

module _ {F : Type 0} where
  -- What the specs of a plan have at the position planted for a posture.
  abbrev pub Plants : String → List (Spec F) → ℕ → Type 0
  Plants posture specs k =
      (s : Spec F) × (get_elem? specs k ≡ some s) × (s.enforcement_posture ≡ posture)

  planted-first :
      (specs : List (Spec F)) (e r : Spec F)
      → get_elem? (specs ++ (e ∷ r ∷ [])) (length specs) ≡ some e
  planted-first [] e r = refl
  planted-first (s ∷ specs) e r = planted-first specs e r

  planted-second :
      (specs : List (Spec F)) (e r : Spec F)
      → get_elem? (specs ++ (e ∷ r ∷ [])) (suc (length specs)) ≡ some r
  planted-second [] e r = refl
  planted-second (s ∷ specs) e r = planted-second specs e r

  planted-length :
      (specs : List (Spec F)) (e r : Spec F)
      → length (specs ++ (e ∷ r ∷ [])) ≡ suc (suc (length specs))
  planted-length [] e r = refl
  planted-length (s ∷ specs) e r = ap suc (planted-length specs e r)

  planted-HasNames :
      (specs : List (Spec F)) (e r : Spec F)
      → All HasNames specs
      → HasNames e
      → HasNames r
      → All HasNames (specs ++ (e ∷ r ∷ []))
  planted-HasNames [] e r h p q = (p, (q, tt))
  planted-HasNames (s ∷ specs) e r h p q = (h.0, planted-HasNames specs e r h.1 p q)

  get_elem?-below :
      (specs : List (Spec F)) (k : ℕ)
      → k < length specs
      → (s : Spec F) × (get_elem? specs k ≡ some s)
  get_elem?-below specs k b = let w = All-get_elem? specs k (All-Any specs) b in (w.0, w.1)

-- What every sampled plan for n intents has: named criteria, intents that refer to its specs, one spec
-- planted for each posture, and no revocation of these two.
pub record IsSound {F : Type 0} (at_least : F → F → Bool) (n : ℕ) (plan : Plan F) : Type 0 where
  pub named : SpecsNamed at_least plan.specs
  pub in_range : AllInRange at_least plan.specs plan.intents
  pub all_intents : length plan.intents ≡ n
  pub viable : Viable
  pub enforcing : Plants "enforce" plan.specs viable.enforce
  pub recording : Plants "shadow" plan.specs viable.shadow
  pub spared : All (Spares viable (length plan.specs)) plan.revocations

module _ {F : Type 0} (at_least : F → F → Bool) where
  named-AllNamed :
      (criteria : List (Criterion F)) → All HasName criteria → AllNamed at_least criteria
  named-AllNamed [] h = tt
  named-AllNamed (c ∷ criteria) h = (h.0, named-AllNamed criteria h.1)

  named-SpecsNamed : (specs : List (Spec F)) → All HasNames specs → SpecsNamed at_least specs
  named-SpecsNamed [] h = tt
  named-SpecsNamed (s ∷ specs) h = (named-AllNamed s.criteria h.0, named-SpecsNamed specs h.1)

  Refers-AllInRange :
      (specs : List (Spec F)) (intents : List Intent)
      → All (Refers (length specs)) intents
      → AllInRange at_least specs intents
  Refers-AllInRange specs [] h = tt
  Refers-AllInRange specs (it ∷ intents) h = (in_specs h.0, Refers-AllInRange specs intents h.1)
    where
      in_specs :
          Refers (length specs) it
          → (it.spec ≡ none)
            ⊎ ((k : ℕ) × (s : Spec F) × (it.spec ≡ some k) × (get_elem? specs k ≡ some s))
      in_specs (inl e) = inl e
      in_specs (inr w) = let x = get_elem?-below specs w.0 w.2 in inr (w.0, x.0, w.1, x.1)

module _ {S F : Type 0} (rng : Random S F) (floats : Floats F) (law : IsRandom rng)
    (at_least : F → F → Bool) where
  plan_of-IsSound :
      (n : ℕ) (facts : List (String × F)) (specs : List (Spec F)) (e r : Spec F)
      → All HasNames specs
      → IsPlanted "enforce" e
      → IsPlanted "shadow" r
      → Always (IsSound at_least n) (plan_of rng floats facts specs e r n)
  unfolding plan_of
  plan_of-IsSound n facts specs e r h p q =
      let all = specs ++ (e ∷ r ∷ []) in
      let viable : Viable = record { enforce = length specs; shadow = suc (length specs) } in
      let size = planted-length specs e r in
      then-Always
        (draw_revocations-Spares rng floats law viable (length all) n (range (length all))
          (range-IsBelow (length all)))
        (λ revocations v.
          then-Always
            (draw_intents-Refers rng floats law viable (length all) n (rw size (omega arith))
              (rw size (omega arith), rw size (omega arith)))
            (λ intents w. done-Always _ (record {
              named = named-SpecsNamed at_least all (planted-HasNames specs e r h p.0 q.0);
              in_range = Refers-AllInRange at_least all intents w.0;
              all_intents = w.1;
              viable = viable;
              enforcing = (e, planted-first specs e r, p.1);
              recording = (r, planted-second specs e r, q.1);
              spared = v;
            })))

  -- Sampling raises nothing, whatever the generator answers within what it documents, and every
  -- sampled plan is sound: its criteria have names, its intents are as many as asked for and refer
  -- to its specs, a spec is planted for each posture, and no revocation names one of the two.
  pub sample_plan-IsSound :
      (sha256_hex : String → String) (n : ℕ)
      → Always (IsSound at_least n) (sample_plan rng floats sha256_hex n)
  unfolding sample_plan
  sample_plan-IsSound sha256_hex n = then-Always (draw_facts-AreFacts rng floats law) (λ facts f.
      then-Always (randint-Always rng law 6 10 (omega arith)) (λ n_specs b.
        then-Always
          (each-Always (λ k t. draw_spec-HasNames rng floats law sha256_hex facts k f)
            (range n_specs) (All-Any (range n_specs)))
          (λ specs h. then-Always (draw_viable-IsPlanted rng floats law facts "enforce" f) (λ e p.
            then-Always (draw_viable-IsPlanted rng floats law facts "shadow" f)
              (λ r q. plan_of-IsSound n facts specs e r h p q)))))

  -- Whatever the generator answers, a plan is sampled for which the oracle predicts, and each
  -- prediction is counted in one of the thirteen classes.
  pub sample_plan-AllClasses :
      (sha256_hex : String → String) (n : ℕ)
      → Always
          (λ (plan : Plan F).
            (out : List Prediction) × (oracle at_least plan ≡ some out) × AllClasses out)
          (sample_plan rng floats sha256_hex n)
  sample_plan-AllClasses sha256_hex n =
      weaken-Always (λ plan h. oracle-AllClasses at_least plan h.named h.in_range)
        (sample_plan-IsSound sha256_hex n)
