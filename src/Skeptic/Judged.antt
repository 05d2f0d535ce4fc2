-- ===== src/Skeptic/Judged.antt =====
-- The verdicts that `validate_verdicts` (tic-concept-chat/skeptic.py) accepts.
use treasury_intent_controll.Base.{
  ℕ, suc, ◌+◌, ◌≤◌, Bool, true, false, not, ◌&&◌, String, List, [], ◌∷◌, Option, none, some,
  if◌then◌else◌, ◌≡◌, refl, sym, ◌∙◌, subst, Bool-cases, inl, inr, arith,
}
use treasury_intent_controll.Json.Value.{
  Value, null, boolean, number, text, array, object, Items, nil, item, Fields, get,
}
use treasury_intent_controll.Skeptic.{
  Invalid, Checked, valid, invalid, crashed, ◌>>=◌, ◌>>◌, require, verdicts_of, id_of, hashed,
  among, status_by_id, status_of, is_verdict, check_allowed, check_legal, is_known, check_verdicts,
  all_judged, unjudged_ids, refuse_unjudged, can_sort, name_unjudged, check_judgment,
  check_judgments, validate_verdicts, unknown_claim, duplicate_verdict, illegal_verdict,
}

pub bind_valid {ℓ κ} :
    {A : Type ℓ} {B : Type κ} (m : Checked A) (f : A → Checked B) {b : B}
    → (m >>= f) ≡ valid b
    → (a : A) × (m ≡ valid a) × (f a ≡ valid b)
bind_valid (valid a) f h = (a, refl, h)
bind_valid (invalid e) f h = cc
bind_valid crashed f h = cc

pub required {ℓ} :
    {B : Type ℓ} (b : Bool) (e : Invalid) (k : Checked B) {x : B}
    → (require b e >> k) ≡ valid x
    → (b ≡ true) × (k ≡ valid x)
required true e k h = (refl, h)
required false e k h = cc

pub then_branch :
    {A : Type 0} (b : Bool) (x y : A) {z : A} → b ≡ true → (if b then x else y) ≡ z → x ≡ z
then_branch true x y e h = h
then_branch false x y e h = cc e

pub else_branch :
    {A : Type 0} (b : Bool) (x y : A) {z : A} → b ≡ false → (if b then x else y) ≡ z → y ≡ z
else_branch true x y e h = cc e
else_branch false x y e h = h

require-true : (b : Bool) (e : Invalid) (u : Unit {0}) → require b e ≡ valid u → b ≡ true
require-true true e u h = refl
require-true false e u h = cc

both : (a b : Bool) → (a && b) ≡ true → (a ≡ true) × (b ≡ true)
both true true h = (refl, refl)
both true false h = cc
both false b h = cc

pub valid_injective {ℓ} : {A : Type ℓ} (a b : A) → valid a ≡ valid b → a ≡ b
valid_injective a b h = cc

is_false : (b : Bool) → not b ≡ true → b ≡ false
is_false b h = ground arith

module _ {N : Type 0} where
  abbrev pub ids_of : Items N → List (Value N)
  ids_of nil = []
  ids_of (item (object verdict) rest) = id_of verdict ∷ ids_of rest
  ids_of (item _ rest) = ids_of rest

module _ {N : Type 0} (same : Value N → Value N → Bool) where
  -- How often a value stands in a list.
  abbrev pub tally : List (Value N) → Value N → ℕ
  tally [] k = 0
  tally (x ∷ l) k = if same x k then suc (tally l k) else tally l k

  -- A verdict on a claim that is there, and of a word that the claim's status allows.
  pub record IsLegal (table : List (Value N × Option (Value N))) (verdict : Fields N) : Type 0 where
    pub status : String
    pub allowed : List String
    pub has_status : status_of same (id_of verdict) table ≡ some (some (text status))
    pub allows : verdicts_of status ≡ some allowed
    pub is_allowed : is_verdict allowed (get "verdict" verdict) ≡ true

  unfoldable pub AllLegal : List (Value N × Option (Value N)) → Items N → Type 0
  AllLegal table nil = Unit
  AllLegal table (item (object verdict) rest) = IsLegal table verdict × AllLegal table rest
  AllLegal table (item _ rest) = ⊥

  -- Each claim of the table has one verdict.
  unfoldable pub AllOnce : List (Value N × Option (Value N)) → List (Value N) → Type 0
  AllOnce [] ids = Unit
  AllOnce ((k, status) ∷ table) ids = (tally ids k ≡ 1) × AllOnce table ids

  unfoldable IsDistinct : List (Value N) → Type 0
  IsDistinct [] = Unit
  IsDistinct (x ∷ l) = (among same l x ≡ false) × IsDistinct l

  -- The verdicts against the claims.
  pub record JudgedOnce (claims : List (Fields N)) (verdicts : Items N) : Type 0 where
    pub table : List (Value N × Option (Value N))
    pub is_table : status_by_id same claims ≡ valid table
    pub once : AllOnce table (ids_of verdicts)
    pub legal : AllLegal table verdicts

  -- What a run of the loop adds to the ids that were seen.
  record Run (table : List (Value N × Option (Value N))) (seen : List (Value N))
      (verdicts : Items N) (out : List (Value N)) : Type 0 where
    adds : (k : Value N) → tally out k ≡ tally seen k + tally (ids_of verdicts) k
    distinct : IsDistinct out
    legal : AllLegal table verdicts

  allowed-IsLegal :
      (table : List (Value N × Option (Value N))) (verdict : Fields N) (s : String)
      (o : Option (List String)) (u : Unit {0})
      → status_of same (id_of verdict) table ≡ some (some (text s))
      → verdicts_of s ≡ o
      → check_allowed o (get "verdict" verdict) ≡ valid u
      → IsLegal table verdict
  allowed-IsLegal table verdict s none u h e c = cc
  allowed-IsLegal table verdict s (some allowed) u h e c = record {
    status = s;
    allowed = allowed;
    has_status = h;
    allows = e;
    is_allowed = require-true (is_verdict allowed (get "verdict" verdict)) illegal_verdict u c;
  }

  check_legal-IsLegal :
      (table : List (Value N × Option (Value N))) (verdict : Fields N)
      (o : Option (Option (Value N))) (u : Unit {0})
      → status_of same (id_of verdict) table ≡ o
      → check_legal o (get "verdict" verdict) ≡ valid u
      → IsLegal table verdict
  check_legal-IsLegal table verdict none u e h = cc
  check_legal-IsLegal table verdict (some (some (text s))) u e h =
      allowed-IsLegal table verdict s (verdicts_of s) u e refl h
  check_legal-IsLegal table verdict (some none) u e h = cc
  check_legal-IsLegal table verdict (some (some null)) u e h = cc
  check_legal-IsLegal table verdict (some (some (boolean b))) u e h = cc
  check_legal-IsLegal table verdict (some (some (number n))) u e h = cc
  check_legal-IsLegal table verdict (some (some (array items))) u e h = cc
  check_legal-IsLegal table verdict (some (some (object fields))) u e h = cc

  check_verdicts-Run :
      (table : List (Value N × Option (Value N))) (seen : List (Value N)) (verdicts : Items N)
      (out : List (Value N))
      → IsDistinct seen
      → check_verdicts same table seen verdicts ≡ valid out
      → Run table seen verdicts out
  unfolding check_verdicts AllLegal IsDistinct
  check_verdicts-Run table seen nil out d h =
      subst (λ (l : List (Value N)). Run table seen nil l) (valid_injective seen out h)
        (record { adds = λ k. omega arith; distinct = d; legal = tt })
  check_verdicts-Run table seen (item (object verdict) rest) out d h =
      let a = bind_valid (hashed (id_of verdict)) _ h in
      let b = required (is_known (status_of same (id_of verdict) table)) unknown_claim _ a.2 in
      let c = required (not (among same seen (id_of verdict))) duplicate_verdict _ b.1 in
      let e =
        bind_valid (check_legal (status_of same (id_of verdict) table) (get "verdict" verdict)) _
          c.1 in
      let r =
        check_verdicts-Run table (id_of verdict ∷ seen) rest out
          (is_false (among same seen (id_of verdict)) c.0, d) e.2 in
      record {
        adds = λ k. ground (arith, r.adds k);
        distinct = r.distinct;
        legal = (
          check_legal-IsLegal table verdict (status_of same (id_of verdict) table) e.0 refl e.1,
          r.legal,
        );
      }
  check_verdicts-Run table seen (item null rest) out d h = cc
  check_verdicts-Run table seen (item (boolean b) rest) out d h = cc
  check_verdicts-Run table seen (item (number n) rest) out d h = cc
  check_verdicts-Run table seen (item (text s) rest) out d h = cc
  check_verdicts-Run table seen (item (array items) rest) out d h = cc

  same_tally-AllOnce :
      (table : List (Value N × Option (Value N))) (out ids : List (Value N))
      → ((k : Value N) → tally out k ≡ tally ids k)
      → AllOnce table out
      → AllOnce table ids
  unfolding AllOnce
  same_tally-AllOnce [] out ids e h = tt
  same_tally-AllOnce ((k, status) ∷ table) out ids e h =
      (sym (e k) ∙ h.0, same_tally-AllOnce table out ids e h.1)

  among-tally : (l : List (Value N)) (k : Value N) → among same l k ≡ true → 1 ≤ tally l k
  among-tally [] k h = cc
  among-tally (x ∷ l) k h = ground (arith, among-tally l k)

  module _ (symmetric : (a b : Value N) → same a b ≡ true → same b a ≡ true)
      (transitive : (a b c : Value N) → same a b ≡ true → same b c ≡ true → same a c ≡ true) where
    tally_zero :
        (l : List (Value N)) (x k : Value N)
        → among same l x ≡ false
        → same x k ≡ true
        → tally l k ≡ 0
    tally_zero [] x k d h = refl
    tally_zero (y ∷ l) x k d h = ground (arith, tally_zero l x k, transitive y k x, symmetric x k)

    tally_le : (l : List (Value N)) (k : Value N) → IsDistinct l → tally l k ≤ 1
    unfolding IsDistinct
    tally_le [] k d = omega arith
    tally_le (x ∷ l) k d = elim (Bool-cases (same x k)) [
      | inl e ↦ rw e (rw (tally_zero l x k d.0 e) (omega arith))
      | inr e ↦ rw e (tally_le l k d.1)
    ]

    all_judged-AllOnce :
        (table : List (Value N × Option (Value N))) (ids : List (Value N))
        → IsDistinct ids
        → all_judged same table ids ≡ true
        → AllOnce table ids
    unfolding AllOnce
    all_judged-AllOnce [] ids d h = tt
    all_judged-AllOnce ((k, status) ∷ table) ids d h = (
      omega (
        arith,
        among-tally ids k (both (among same ids k) (all_judged same table ids) h).0,
        tally_le ids k d,
      ),
      all_judged-AllOnce table ids d (both (among same ids k) (all_judged same table ids) h).1,
    )

    judged_all :
        {B : Type 0} (b : Bool) (ids : List (Value N)) (k : Checked B) {x : B}
        → (refuse_unjudged b ids >> k) ≡ valid x
        → (b ≡ true) × (k ≡ valid x)
    judged_all true ids k h = (refl, h)
    judged_all false ids k h = absurd (never_named (can_sort ids) k h)
      where
        never_named :
            {B : Type 0} (s : Bool) (k : Checked B) {x : B} → (name_unjudged s >> k) ≡ valid x → ⊥
        never_named true k h = cc h
        never_named false k h = cc h

    check_judgment-JudgedOnce :
        (claims : List (Fields N)) (verdicts out : Items N)
        → check_judgment same claims verdicts ≡ valid out
        → JudgedOnce claims out
    unfolding check_judgment IsDistinct
    check_judgment-JudgedOnce claims verdicts out h =
        let a = bind_valid (status_by_id same claims) _ h in
        let b = bind_valid (check_verdicts same a.0 [] verdicts) _ a.2 in
        let c =
          judged_all (all_judged same a.0 b.0) (unjudged_ids same a.0 b.0) (valid verdicts) b.2 in
        let r = check_verdicts-Run a.0 [] verdicts b.0 tt b.1 in
        subst (JudgedOnce claims) (valid_injective verdicts out c.1) (record {
          table = a.0;
          is_table = a.1;
          once =
              same_tally-AllOnce a.0 b.0 (ids_of verdicts) (λ k. omega (arith, r.adds k))
                (all_judged-AllOnce a.0 b.0 r.distinct c.0);
          legal = r.legal;
        })

    check_judgments-JudgedOnce :
        (claims : List (Fields N)) (o : Option (Value N)) (out : Items N)
        → check_judgments same claims o ≡ valid out
        → JudgedOnce claims out
    check_judgments-JudgedOnce claims none out h = cc
    check_judgments-JudgedOnce claims (some (array verdicts)) out h =
        check_judgment-JudgedOnce claims verdicts out h
    check_judgments-JudgedOnce claims (some null) out h = cc
    check_judgments-JudgedOnce claims (some (boolean b)) out h = cc
    check_judgments-JudgedOnce claims (some (number n)) out h = cc
    check_judgments-JudgedOnce claims (some (text s)) out h = cc
    check_judgments-JudgedOnce claims (some (object fields)) out h = cc

    -- Where `==` on ids is symmetric and transitive, verdicts that are accepted judge each of the
    -- claims exactly once, each with a word that the status of the claim with its id allows, and
    -- nothing else.
    pub validate_verdicts-JudgedOnce :
        (claims : List (Fields N)) (answer : Fields N) (verdicts : Items N)
        → validate_verdicts same claims answer ≡ valid verdicts
        → JudgedOnce claims verdicts
    unfolding validate_verdicts
    validate_verdicts-JudgedOnce claims answer verdicts h =
        check_judgments-JudgedOnce claims (get "verdicts" answer) verdicts h
