-- ===== src/Loop/Run/Coverage.antt =====
-- A run without mismatches misses no class (treasury/randomized_loop.py).
use treasury_intent_controll.Base.{
  ℕ, suc, Bool, true, false, ◌&&◌, ◌||◌, String, List, [], ◌∷◌, Option, none, some, ◌≡◌, refl, sym,
  ◌∙◌, ap, ap₂, subst, contains, ◌==◌, eq_iff, inl, inr, Bool-cases, if◌then◌else◌, arith,
}
use treasury_intent_controll.Loop.{classes, bucket}
use treasury_intent_controll.Loop.Draws.{length}
use treasury_intent_controll.Loop.Oracle.{
  Intent, Plan, Prediction, Ruling, predict, rule, predict_all, oracle,
}
use treasury_intent_controll.Loop.Run.{
  classes_of, lacking, Answer, Observed, observe_all, is_same, mismatches, increment, tally,
  counts_of, is_counted, missing_classes,
}

-- The class is the one of the terminal and the reason.
abbrev IsBucketed : Prediction → Type 0
IsBucketed p = p.class_ ≡ bucket p.ruling.terminal p.ruling.reason

abbrev pub AllBucketed : List Prediction → Type 0
AllBucketed [] = Unit
AllBucketed (p ∷ expected) = IsBucketed p × AllBucketed expected

-- The observed classes are those of what was observed, as `observe` makes them.
abbrev pub AllObserved : List Observed → Type 0
AllObserved [] = Unit
AllObserved (a ∷ actual) = (a.class_ ≡ bucket a.terminal a.reason) × AllObserved actual

abbrev observed_classes : List Observed → List String
observed_classes [] = []
observed_classes (a ∷ actual) = a.class_ ∷ observed_classes actual

same_ruling :
    (exp : Prediction) (act : Observed)
    → is_same exp act ≡ true
    → IsBucketed exp
    → act.class_ ≡ bucket act.terminal act.reason
    → exp.class_ ≡ act.class_
same_ruling exp act e b c =
    b
    ∙ (ap₂ bucket ((eq_iff exp.ruling.terminal act.terminal).0 (left_true _ _ e))
          ((eq_iff exp.ruling.reason act.reason).0 (right_true _ _ e))
        ∙ sym c)
  where
    left_true : (a b : Bool) → (a && b) ≡ true → a ≡ true
    left_true a b h = ground arith

    right_true : (a b : Bool) → (a && b) ≡ true → b ≡ true
    right_true a b h = ground arith

none_before :
    {A : Type 0} (b : Bool) (x : A) (l : List A) → b ≡ true → (if b then l else x ∷ l) ≡ [] → l ≡ []
none_before true x l e h = h
none_before false x l e h = cc e

one_before :
    {A : Type 0} (b : Bool) (x : A) (l : List A) → b ≡ false → (if b then l else x ∷ l) ≡ [] → ⊥
one_before true x l e h = cc e
one_before false x l e h = cc h

-- Without mismatches the observed classes are the predicted ones.
mismatches-classes :
    (expected : List Prediction) (actual : List Observed)
    → length actual ≡ length expected
    → AllBucketed expected
    → AllObserved actual
    → mismatches expected actual ≡ []
    → classes_of expected ≡ observed_classes actual
unfolding mismatches
mismatches-classes [] [] n b c e = refl
mismatches-classes [] (act ∷ actual) n b c e = absurd (nonzero (length actual) n)
  where
    nonzero : (k : ℕ) → suc k ≡ 0 → ⊥
    nonzero k h = omega arith
mismatches-classes (exp ∷ expected) [] n b c e = absurd (nonzero (length expected) n)
  where
    nonzero : (k : ℕ) → 0 ≡ suc k → ⊥
    nonzero k h = omega arith
mismatches-classes (exp ∷ expected) (act ∷ actual) n b c e = elim (Bool-cases (is_same exp act)) [
  | inl s ↦
      ap₂ (λ (x : String) l. x ∷ l) (same_ruling exp act s b.0 c.0)
        (mismatches-classes expected actual (same_length _ _ n) b.1 c.1 (none_before _ _ _ s e))
  | inr s ↦ absurd (one_before _ _ _ s e)
]
  where
    same_length : (k m : ℕ) → suc k ≡ suc m → k ≡ m
    same_length k m h = omega arith

increment-counts :
    (key c : String) (counts : List (String × ℕ))
    → is_counted (increment key counts) c ≡ (key == c || is_counted counts c)
unfolding increment
increment-counts key c [] = refl
increment-counts key c ((k, n) ∷ counts) =
    ground (arith, eq_iff k key, increment-counts key c counts)

counted_later : (a b c : Bool) → ((a || b) || c) ≡ (b || (a || c))
counted_later a b c = ground arith

-- A class is counted where it was counted before or is observed.
tally-counts :
    (intents : List Intent) (actual : List Observed) (counts injected : List (String × ℕ))
    (c : String)
    → is_counted (tally intents actual (counts, injected)).0 c
      ≡ (contains (observed_classes actual) c || is_counted counts c)
unfolding tally
tally-counts intents [] counts injected c = refl
tally-counts intents (a ∷ actual) counts injected c =
    tally-counts intents actual (increment a.class_ counts) _ c
    ∙ (ap (λ b. contains (observed_classes actual) c || b) (increment-counts a.class_ c counts)
        ∙ sym (
            counted_later (a.class_ == c) (contains (observed_classes actual) c)
              (is_counted counts c)))

missing-lacking :
    (wanted : List String) (intents : List Intent) (actual : List Observed)
    → missing_classes wanted (counts_of intents actual) ≡ lacking wanted (observed_classes actual)
unfolding missing_classes
missing-lacking [] intents actual = refl
missing-lacking (c ∷ wanted) intents actual =
    rw (tally-counts intents actual [] [] c, missing-lacking wanted intents actual)
      (same_test (contains (observed_classes actual) c) _ _)
  where
    same_test :
        {A : Type 0} (b : Bool) (x y : A) → (if b || false then x else y) ≡ (if b then x else y)
    same_test true x y = refl
    same_test false x y = refl

mismatches-missing_classes :
    (intents : List Intent) (expected : List Prediction) (actual : List Observed)
    → lacking classes (classes_of expected) ≡ []
    → length actual ≡ length expected
    → AllBucketed expected
    → AllObserved actual
    → mismatches expected actual ≡ []
    → missing_classes classes (counts_of intents actual) ≡ []
mismatches-missing_classes intents expected actual l n b c e =
    missing-lacking classes intents actual
    ∙ (ap (λ covered. lacking classes covered) (sym (mismatches-classes expected actual n b c e))
        ∙ l)

observe_all-AllObserved :
    (gate : Intent → Answer) (intents : List Intent) → AllObserved (observe_all gate intents)
observe_all-AllObserved gate [] = tt
observe_all-AllObserved gate (it ∷ intents) = (refl, observe_all-AllObserved gate intents)

observe_all-length :
    (gate : Intent → Answer) (intents : List Intent)
    → length (observe_all gate intents) ≡ length intents
observe_all-length gate [] = refl
observe_all-length gate (it ∷ intents) = ap suc (observe_all-length gate intents)

same_list : (l m : List Prediction) → some l ≡ some m → l ≡ m
same_list l m h = cc

module _ {F : Type 0} (at_least : F → F → Bool) where
  -- The predictions are as many as the intents, each in the class of its ruling.
  predict_all-Bucketed :
      (plan : Plan F) (reserved : List String) (intents : List Intent) (expected : List Prediction)
      → predict_all at_least plan reserved intents ≡ some expected
      → AllBucketed expected × (length intents ≡ length expected)
  unfolding predict_all
  predict_all-Bucketed plan reserved [] expected e =
      subst (λ l. AllBucketed l × (0 ≡ length l)) (same_list [] expected e) (tt, refl)
  predict_all-Bucketed plan reserved (it ∷ intents) expected e =
      by_rule (λ next out h. predict_all-Bucketed plan next intents out h)
        (rule at_least plan reserved it) e
    where
      by_rest :
          (x : Ruling × List String) (o : Option (List Prediction))
          → ((out : List Prediction)
              → o ≡ some out
              → AllBucketed out × (length intents ≡ length out))
          → elim o [ none ↦ none | some out ↦ some (predict it x.0 ∷ out) ] ≡ some expected
          → AllBucketed expected × (suc (length intents) ≡ length expected)
      by_rest x none ih e = cc e
      by_rest x (some out) ih e =
          let h = ih out refl in
          subst (λ l. AllBucketed l × (suc (length intents) ≡ length l))
            (same_list (predict it x.0 ∷ out) expected e) ((refl, h.0), ap suc h.1)

      by_rule :
          ((next : List String) (out : List Prediction)
            → predict_all at_least plan next intents ≡ some out
            → AllBucketed out × (length intents ≡ length out))
          → (o : Option (Ruling × List String))
          → elim o [
            | none ↦ none
            | some x ↦ elim (predict_all at_least plan x.1 intents) [
              | none ↦ none
              | some out ↦ some (predict it x.0 ∷ out)
            ]
          ]
            ≡ some expected
          → AllBucketed expected × (suc (length intents) ≡ length expected)
      by_rule ih none e = cc e
      by_rule ih (some x) e =
          by_rest x (predict_all at_least plan x.1 intents) (λ out h. ih x.1 out h) e

  -- A run whose predictions cover all classes and match what the gate answered misses no class among
  -- the counts of what was observed.
  pub run-missing_classes :
      (plan : Plan F) (expected : List Prediction) (gate : Intent → Answer)
      → oracle at_least plan ≡ some expected
      → lacking classes (classes_of expected) ≡ []
      → mismatches expected (observe_all gate plan.intents) ≡ []
      → missing_classes classes (counts_of plan.intents (observe_all gate plan.intents)) ≡ []
  unfolding oracle
  run-missing_classes plan expected gate o l e =
      let p = predict_all-Bucketed plan [] plan.intents expected o in
      mismatches-missing_classes plan.intents expected (observe_all gate plan.intents) l
        (observe_all-length gate plan.intents ∙ p.1) p.0 (observe_all-AllObserved gate plan.intents)
        e
