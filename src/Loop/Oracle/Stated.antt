-- ===== src/Loop/Oracle/Stated.antt =====
-- Rulings that say something, and their classes (the oracle of treasury/randomized_loop.py).
use treasury_intent_controll.Base.{
  Bool, true, false, not, ◌||◌, String, ◌<>◌, List, [], ◌∷◌, Option, none, some, ◌==◌, starts_with,
  contains, flag_if, ◌or_else◌, if◌then◌else◌, if_both, ◌≡◌, refl, sym, ◌∙◌, eq-false, arith,
}
use text.Mathlib.TextLemmas.{cons-append}
use treasury_intent_controll.Loop.{classes, tags, tagged, untagged, bucket}
use treasury_intent_controll.Loop.Oracle.{
  Judgment, Score, pass, fail, unevaluable, Ruling, failed_as, check_judgment, join_names, Scored,
  unscored, failing, add_score, scored_ruling, settle, refuse_or,
}

-- One of the thirteen.
pub record IsClass (s : String) : Type 0 where
  pub listed : contains classes s ≡ true

-- A success, or a reason that says something.
pub record IsStated (r : Ruling) : Type 0 where
  pub stated :
      (r.terminal == "ACHIEVED" || r.terminal == "SHADOW_RECORDED" || not (r.reason == "")) ≡ true

tagged-IsClass : (reason rest : String) → IsClass rest → IsClass (tagged reason tags rest)
unfolding tagged
tagged-IsClass reason rest h =
    if_both IsClass (starts_with reason "unevaluable:absent-key") (record { listed = refl })
      (if_both IsClass (starts_with reason "unevaluable:unattested-spec") (record { listed = refl })
        (if_both IsClass (starts_with reason "unevaluable:invalid-posture")
          (record { listed = refl })
          (if_both IsClass (starts_with reason "unevaluable:empty-criteria")
            (record { listed = refl })
            (if_both IsClass (starts_with reason "unevaluable:invalid-volatility")
              (record { listed = refl })
              (if_both IsClass (starts_with reason "unevaluable:human-judgment")
                (record { listed = refl }) h)))))

by_reason-IsClass :
    (terminal reason : String) → (reason == "") ≡ false → IsClass (untagged terminal reason)
unfolding untagged
by_reason-IsClass terminal reason e =
    if_both IsClass (starts_with reason "unevaluable:") (record { listed = refl })
      (rw e (record { listed = refl }))

negated : (b : Bool) → not b ≡ true → b ≡ false
negated b e = ground arith

-- A ruling that says something falls into one of the thirteen classes.
pub bucket-IsClass : (r : Ruling) → IsStated r → IsClass (bucket r.terminal r.reason)
unfolding bucket
bucket-IsClass r h = by_tests (r.terminal == "ACHIEVED") (r.terminal == "SHADOW_RECORDED") h.stated
  where
    by_tests :
        (a b : Bool)
        → (a || b || not (r.reason == "")) ≡ true
        → IsClass (
            if a
            then "ACHIEVED"
            else if b
            then "SHADOW_RECORDED"
            else if r.reason == "idempotency-collision"
            then "idempotency-collision"
            else if starts_with r.reason "volatile-recheck:"
            then "volatile-recheck"
            else if starts_with r.reason "revoked:"
            then "revoked"
            else tagged r.reason tags (untagged r.terminal r.reason))
    by_tests true b e = record { listed = refl }
    by_tests false true e = record { listed = refl }
    by_tests false false e =
        if_both IsClass (r.reason == "idempotency-collision") (record { listed = refl })
          (if_both IsClass (starts_with r.reason "volatile-recheck:") (record { listed = refl })
            (if_both IsClass (starts_with r.reason "revoked:") (record { listed = refl })
              (tagged-IsClass r.reason (untagged r.terminal r.reason)
                (by_reason-IsClass r.terminal r.reason (negated (r.reason == "") e)))))

abbrev pub AllStated : Option Ruling → Type 0
AllStated none = Unit
AllStated (some r) = IsStated r

pub failed_as-IsStated : (reason : String) → (reason == "") ≡ false → IsStated (failed_as reason)
failed_as-IsStated reason e = record { stated = rw e refl }

-- A text behind one that is not empty is not empty.
pub nonempty_append : (s t : String) → (s == "") ≡ false → ((s <> t) == "") ≡ false
nonempty_append String.[] t e = cc e
nonempty_append (String.◌∷◌ c s) t e =
    eq-false (String.◌∷◌ c s <> t) "" (λ q. cc (sym (cons-append c s t) ∙ q))

pub front-IsStated :
    (front name : String) → (front == "") ≡ false → IsStated (failed_as (front <> name))
front-IsStated front name e = failed_as-IsStated (front <> name) (nonempty_append front name e)

pub flag_if-AllStated : (b : Bool) (r : Ruling) → IsStated r → AllStated (flag_if b r)
flag_if-AllStated true r h = h
flag_if-AllStated false r h = tt

pub or_else-AllStated : (a b : Option Ruling) → AllStated a → AllStated b → AllStated (a or_else b)
or_else-AllStated none b h k = k
or_else-AllStated (some r) b h k = h

pub check_judgment-AllStated : (names : List Judgment) → AllStated (check_judgment names)
unfolding check_judgment
check_judgment-AllStated [] = tt
check_judgment-AllStated (n ∷ names) = front-IsStated "unevaluable:human-judgment:" n.name refl

abbrev AllNonempty : List String → Type 0
AllNonempty [] = Unit
AllNonempty (n ∷ names) = ((n == "") ≡ false) × AllNonempty names

join_names-nonempty :
    (n : String) (names : List String) → (n == "") ≡ false → (join_names (n ∷ names) == "") ≡ false
unfolding join_names
join_names-nonempty n [] h = h
join_names-nonempty n (m ∷ names) h = nonempty_append n _ h

abbrev pub NamesFailed : Scored → Type 0
NamesFailed (unscored n) = Unit
NamesFailed (failing names) = AllNonempty names

pub scored_ruling-AllStated : (s : Scored) → NamesFailed s → AllStated (scored_ruling s)
unfolding scored_ruling
scored_ruling-AllStated (unscored n) h = front-IsStated "unevaluable:" n refl
scored_ruling-AllStated (failing []) h = tt
scored_ruling-AllStated (failing (n ∷ names)) h =
    failed_as-IsStated (join_names (n ∷ names)) (join_names-nonempty n names h.0)

pub add_score-NamesFailed :
    (v : Score) (n : String) (rest : Scored)
    → (n == "") ≡ false
    → NamesFailed rest
    → NamesFailed (add_score v n rest)
add_score-NamesFailed pass n rest e h = h
add_score-NamesFailed unevaluable n rest e h = tt
add_score-NamesFailed fail n (unscored m) e h = tt
add_score-NamesFailed fail n (failing l) e h = (e, h)

record EndsStated (x : Ruling × List String) : Type 0 where
  pub ends : IsStated x.0

pub settle-IsStated :
    (posture key : String) (reserved : List String) → IsStated (settle posture key reserved).0
unfolding settle
settle-IsStated posture key reserved =
    (if_both EndsStated (posture == "shadow") (record { ends = record { stated = refl } })
      (if_both EndsStated (contains reserved key) (record { ends = record { stated = refl } })
        (record { ends = record { stated = refl } }))).ends

pub refuse_or-IsStated :
    (o : Option Ruling) (reserved : List String) (x : Ruling × List String)
    → AllStated o
    → IsStated x.0
    → IsStated (refuse_or o reserved x).0
refuse_or-IsStated none reserved x h k = k
refuse_or-IsStated (some r) reserved x h k = h
