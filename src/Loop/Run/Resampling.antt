-- ===== src/Loop/Run/Resampling.antt =====
-- The search for a plan ends (treasury/randomized_loop.py).
use treasury_intent_controll.Base.{
  ℕ, zero, suc, ◌+◌, ◌≤◌, ◌<◌, Bool, true, false, String, List, [], ◌∷◌, some, ◌≡◌, ◌≢◌, refl, leb,
  contains, not, ◌&&◌, eq_iff, sym, ap, ◌∙◌, inl, inr, Bool-cases, arith,
}
use treasury_intent_controll.Loop.{classes}
use treasury_intent_controll.Loop.Draws.{Random, IsRandom}
use treasury_intent_controll.Loop.Draws.Always.{Always, done-Always, then-Always, given-Always}
use treasury_intent_controll.Loop.Oracle.{Plan, Prediction, oracle}
use treasury_intent_controll.Loop.Oracle.Classes.{AllClasses, oracle-AllClasses}
use treasury_intent_controll.Loop.Worlds.{Floats, max}
use treasury_intent_controll.Loop.Plan.Sound.{IsSound, sample_plan-IsSound}
use treasury_intent_controll.Loop.Run.{
  Search, found, gave_up, out_of_fuel, classes_of, lacking, is_empty, resample,
}

-- What a search lacks, told by the classes themselves.
lacking-contains :
    (wanted covered : List String) (c : String)
    → contains (lacking wanted covered) c ≡ (contains wanted c && not (contains covered c))
lacking-contains [] covered c = refl
lacking-contains (w ∷ wanted) covered c =
    ground (arith, eq_iff w c, lacking-contains wanted covered c)

module _ {F : Type 0} (at_least : F → F → Bool) where
  -- A plan that was drawn, and what the oracle predicts of its intents.
  pub record Predicted (n : ℕ) (plan : Plan F) (expected : List Prediction) : Type 0 where
    pub is_sound : IsSound at_least n plan
    pub predicts : oracle at_least plan ≡ some expected
    pub all_classes : AllClasses expected

  -- Just the classes that no prediction of a sound plan is of.
  pub record Unpredicted (n : ℕ) (missing : List String) : Type 0 where
    pub plan : Plan F
    pub expected : List Prediction
    pub is_predicted : Predicted n plan expected
    pub exactly :
        (c : String)
        → contains missing c ≡ (contains classes c && not (contains (classes_of expected) c))

  -- A search that ended: within the attempts allowed with a sound plan whose predictions are of every
  -- class, or after just so many attempts with exactly the classes that no prediction of a sound plan
  -- is of, of which there is one.
  abbrev pub IsDecided : ℕ → ℕ → Search F → Type 0
  IsDecided n max_resamples (found attempts plan expected) =
      (attempts ≤ max 1 max_resamples)
      × Predicted n plan expected
      × ((c : String) → contains classes c ≡ true → contains (classes_of expected) c ≡ true)
  IsDecided n max_resamples (gave_up attempts missing) =
      (attempts ≡ max 1 max_resamples) × (missing ≢ []) × Unpredicted n missing
  IsDecided n max_resamples out_of_fuel = ⊥

is_empty-eq : (l : List String) → is_empty l ≡ true → l ≡ []
is_empty-eq [] e = refl
is_empty-eq (x ∷ l) e = cc e

lacking-covers :
    (wanted covered : List String)
    → lacking wanted covered ≡ []
    → (c : String) → contains wanted c ≡ true
    → contains covered c ≡ true
lacking-covers wanted covered e c h =
    covers (contains wanted c) (contains covered c)
      (sym (ap (λ l. contains l c) e) ∙ lacking-contains wanted covered c) h
  where
    covers : (w k : Bool) → false ≡ (w && not k) → w ≡ true → k ≡ true
    covers w k e h = ground arith

is_empty-ne : (l : List String) → is_empty l ≡ false → l ≢ []
is_empty-ne [] e q = cc e
is_empty-ne (x ∷ l) e q = cc q

module _ {S F : Type 0} (rng : Random S F) (floats : Floats F) (law : IsRandom rng)
    (at_least : F → F → Bool) where
  resample-from :
      (sha256_hex : String → String) (n max_resamples fuel attempts : ℕ)
      → attempts + fuel ≡ max 1 max_resamples
      → 0 < fuel
      → Always
          (IsDecided at_least n max_resamples)
          (resample rng floats at_least sha256_hex n max_resamples fuel attempts)
  unfolding resample
  resample-from sha256_hex n max_resamples zero attempts e h = absurd (impossible h)
    where
      impossible : 0 < 0 → ⊥
      impossible h = omega arith
  resample-from sha256_hex n max_resamples (suc fuel) attempts e h =
      then-Always (sample_plan-IsSound rng floats law at_least sha256_hex n) (λ plan s.
        let w = oracle-AllClasses at_least plan s.named s.in_range in
        then-Always {P = λ expected. (oracle at_least plan ≡ some expected) × AllClasses expected}
          (given-Always (oracle at_least plan) (w.0, w.1, (w.1, w.2)))
          (λ expected p. elim (Bool-cases (is_empty (lacking classes (classes_of expected)))) [
            | inl c ↦ rw c (
                done-Always _ (
                  one_more attempts fuel max_resamples e,
                  record { is_sound = s; predicts = p.0; all_classes = p.1 },
                  lacking-covers classes (classes_of expected) (is_empty-eq _ c),
                ))
            | inr c ↦ elim (Bool-cases (leb max_resamples (suc attempts))) [
              | inl d ↦
                  rw (c, d)
                    (done-Always _ (
                      last attempts fuel max_resamples e d,
                      is_empty-ne _ c,
                      record {
                        plan = plan;
                        expected = expected;
                        is_predicted = record { is_sound = s; predicts = p.0; all_classes = p.1 };
                        exactly = lacking-contains classes (classes_of expected);
                      },
                    ))
              | inr d ↦
                  rw (c, d)
                    (resample-from sha256_hex n max_resamples fuel (suc attempts)
                      (next attempts fuel max_resamples e) (more attempts fuel max_resamples e d))
            ]
          ]))
    where
      one_more : (a f m : ℕ) → a + suc f ≡ max 1 m → suc a ≤ max 1 m
      one_more a f m e = omega arith

      last : (a f m : ℕ) → a + suc f ≡ max 1 m → leb m (suc a) ≡ true → suc a ≡ max 1 m
      last a f m e d = ground arith

      next : (a f m : ℕ) → a + suc f ≡ max 1 m → suc a + f ≡ max 1 m
      next a f m e = omega arith

      more : (a f m : ℕ) → a + suc f ≡ max 1 m → leb m (suc a) ≡ false → 0 < f
      more a f m e d = ground arith

  -- The search for a plan ends, whatever the generator answers within what it documents: as many
  -- rounds as the attempts allowed, at least one, are enough. It finds a sound plan whose
  -- predictions cover all thirteen classes, or it gives up after its last attempt and names just
  -- the classes, at least one, that no prediction of a sound plan is of.
  pub resample-IsDecided :
      (sha256_hex : String → String) (n max_resamples : ℕ)
      → Always
          (IsDecided at_least n max_resamples)
          (resample rng floats at_least sha256_hex n max_resamples (max 1 max_resamples) 0)
  resample-IsDecided sha256_hex n max_resamples =
      resample-from sha256_hex n max_resamples (max 1 max_resamples) 0 (from_zero max_resamples)
        (positive max_resamples)
    where
      from_zero : (m : ℕ) → 0 + max 1 m ≡ max 1 m
      from_zero m = omega arith

      positive : (m : ℕ) → 0 < max 1 m
      positive m = ground arith
