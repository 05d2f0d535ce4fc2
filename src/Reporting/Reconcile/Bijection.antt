-- ===== src/Reporting/Reconcile/Bijection.antt =====
-- What `ok` says of a reconciliation (declarant/pydeclarant/reporting_adapter.py).
use treasury_intent_controll.Base.{
  count, ℕ, suc, zero, ◌+◌, ◌≤◌, Bool, true, false, ◌&&◌, String, ◌<>◌, List, [], ◌∷◌, Option, none,
  some, ◌==◌, eq_iff, ltb, lookup, text_lt, if◌then◌else◌, ◌≡◌, refl, sym, ◌∙◌, ap, Bool-cases, inl,
  inr, arith, subst,
}
use treasury_intent_controll.Json.Text.{Bytes}
use treasury_intent_controll.Reporting.{ReportIdentity, keyed, tool_name}
use treasury_intent_controll.Reporting.Identity.{bind_keyed, keyed_injective}
use treasury_intent_controll.Reporting.Reconcile.{
  KeyedRecord, Tally, bump, tally, achieved_keys, holds, lacking, repeated, insert_text, sort_texts,
  Reconciliation, is_nil, ok, compare_tallies, logged_keys, reconcile,
}

-- A count on top of what stands.
abbrev plus : Option ℕ → ℕ → Option ℕ
plus o zero = o
plus none (suc n) = some (suc n)
plus (some m) (suc n) = some (m + suc n)

abbrev once_more : Option ℕ → Option ℕ
once_more none = some 1
once_more (some n) = some (suc n)

lookup-bump :
    (key k : String) (d : Tally)
    → lookup k (bump key d) ≡ (if key == k then once_more (lookup k d) else lookup k d)
unfolding lookup bump
lookup-bump key k [] = refl
lookup-bump key k ((j, n) ∷ d) =
    ground (arith, eq_iff key k, eq_iff j k, eq_iff j key, lookup-bump key k d)

plus_once : (o : Option ℕ) (n : ℕ) → plus (once_more o) n ≡ plus o (suc n)
plus_once none zero = refl
plus_once none (suc n) = ap (λ (m : ℕ). some m) (omega arith)
plus_once (some m) zero = ap (λ (m : ℕ). some m) (omega arith)
plus_once (some m) (suc n) = ap (λ (m : ℕ). some m) (omega arith)

lookup-tally :
    (k : String) (d : Tally) (keys : List String)
    → lookup k (tally d keys) ≡ plus (lookup k d) (count k keys)
unfolding tally
lookup-tally k d [] = refl
lookup-tally k d (key ∷ keys) = elim (Bool-cases (key == k)) [
  | inl b ↦
      lookup-tally k (bump key d) keys
      ∙ ap (λ (o : Option ℕ). plus o (count k keys)) (lookup-bump key k d)
      ∙ rw b (plus_once (lookup k d) (count k keys))
  | inr b ↦
      lookup-tally k (bump key d) keys
      ∙ ap (λ (o : Option ℕ). plus o (count k keys)) (lookup-bump key k d)
      ∙ rw b refl
]

lacking-empty :
    (k : String) (d other : Tally) (n : ℕ)
    → lacking d other ≡ []
    → lookup k d ≡ some n
    → holds (lookup k other) ≡ true
unfolding lacking lookup
lacking-empty k [] other n e h = cc
lacking-empty k ((j, m) ∷ d) other n e h = elim (Bool-cases (holds (lookup j other))) [
  | inr b ↦ cc (rw b at e)
  | inl b ↦ elim (Bool-cases (j == k)) [
    | inl s ↦ subst (λ (x : String). holds (lookup x other) ≡ true) ((eq_iff j k).0 s) b
    | inr s ↦ lacking-empty k d other n (rw b at e) (rw s at h)
  ]
]

repeated-empty : (k : String) (d : Tally) (n : ℕ) → repeated d ≡ [] → lookup k d ≡ some n → n ≤ 1
unfolding repeated lookup
repeated-empty k [] n e h = cc
repeated-empty k ((j, m) ∷ d) n e h = elim (Bool-cases (ltb 1 m)) [
  | inl b ↦ cc (rw b at e)
  | inr b ↦ elim (Bool-cases (j == k)) [
    | inl s ↦ bounded m n b (rw s at h)
    | inr s ↦ repeated-empty k d n (rw b at e) (rw s at h)
  ]
]
  where
    bounded : (m n : ℕ) → ltb 1 m ≡ false → some m ≡ some n → n ≤ 1
    bounded m n b h = ground arith

insert_text-nil : (s : String) (l : List String) → is_nil (insert_text s l) ≡ false
unfolding insert_text
insert_text-nil s [] = refl
insert_text-nil s (t ∷ l) = elim (Bool-cases (text_lt t s)) [
  | inl b ↦ rw b refl
  | inr b ↦ rw b refl
]

sort_texts-nil : (l : List String) → is_nil (sort_texts l) ≡ true → l ≡ []
unfolding sort_texts
sort_texts-nil [] h = refl
sort_texts-nil (s ∷ l) h = cc (insert_text-nil s (sort_texts l), h)

-- Each key occurs as often in one list as in the other, and at most once.
abbrev pub Bijective : List String → List String → Type 0
Bijective achieved logged =
    (k : String) → (count k achieved ≡ count k logged) × (count k achieved ≤ 1)

four_tests :
    (a b c d : Bool) → (a && b && c && d) ≡ true → (a ≡ true) × (b ≡ true) × (c ≡ true) × (d ≡ true)
four_tests a b c d h = ground arith

-- Two counts, each of which shows up where the other does, and neither of which passes one.
same_counts :
    (a l : ℕ)
    → ((n : ℕ) → plus none a ≡ some n → holds (plus none l) ≡ true)
    → ((n : ℕ) → plus none l ≡ some n → holds (plus none a) ≡ true)
    → ((n : ℕ) → plus none a ≡ some n → n ≤ 1)
    → ((n : ℕ) → plus none l ≡ some n → n ≤ 1)
    → (a ≡ l) × (a ≤ 1)
same_counts zero zero f g p q = (refl, omega arith)
same_counts zero (suc l) f g p q = let x = g (suc l) refl in cc x
same_counts (suc a) zero f g p q = let x = f (suc a) refl in cc x
same_counts (suc a) (suc l) f g p q =
    let x = p (suc a) refl in let y = q (suc l) refl in (omega (arith, x, y), x)

compare_tallies-Bijective :
    (achieved logged : List String)
    → ok (compare_tallies (tally [] achieved) (tally [] logged)) ≡ true
    → Bijective achieved logged
unfolding compare_tallies lookup
compare_tallies-Bijective achieved logged h k =
    let a = tally [] achieved in
    let l = tally [] logged in
    let t =
      four_tests (is_nil (sort_texts (lacking a l))) (is_nil (sort_texts (lacking l a)))
        (is_nil (sort_texts (repeated l))) (is_nil (sort_texts (repeated a))) h in
    let x = lookup-tally k [] achieved in
    let y = lookup-tally k [] logged in
    same_counts (count k achieved) (count k logged)
      (λ n e.
        subst (λ (o : Option ℕ). holds o ≡ true) y
          (lacking-empty k a l n (sort_texts-nil (lacking a l) t.0) (x ∙ e)))
      (λ n e.
        subst (λ (o : Option ℕ). holds o ≡ true) x
          (lacking-empty k l a n (sort_texts-nil (lacking l a) t.1) (y ∙ e)))
      (λ n e. repeated-empty k a n (sort_texts-nil (repeated a) t.3) (x ∙ e))
      (λ n e. repeated-empty k l n (sort_texts-nil (repeated l) t.2) (y ∙ e))

module _ (nfc : String → String) (sha256 : Bytes → String) (scope run_id : String) where
  -- When a reconciliation is returned and is `ok`, every logged submission is keyable, and each key
  -- occurs as often among the ACHIEVED records of the scope, run and tool as in the log, at most once.
  pub reconcile-Bijective :
      (recs : List KeyedRecord) (submissions : List ReportIdentity) (r : Reconciliation)
      → reconcile nfc sha256 scope run_id recs submissions ≡ keyed r
      → ok r ≡ true
      → (keys : List String) × (logged_keys nfc sha256 scope run_id submissions ≡ keyed keys)
        × Bijective
            (achieved_keys (scope <> (":" <> (run_id <> (":" <> (tool_name <> ":"))))) recs)
            keys
  unfolding reconcile
  reconcile-Bijective recs submissions r e h =
      let x = bind_keyed (logged_keys nfc sha256 scope run_id submissions) _ e in
      let achieved =
        achieved_keys (scope <> (":" <> (run_id <> (":" <> (tool_name <> ":"))))) recs in
      let same = keyed_injective (compare_tallies (tally [] achieved) (tally [] x.0)) r x.2 in
      (
        x.0,
        x.1,
        compare_tallies-Bijective achieved x.0
            (subst (λ (q : Reconciliation). ok q ≡ true) (sym same) h),
      )
