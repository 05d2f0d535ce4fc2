-- ===== src/Loop/Agreement.antt =====
-- The loop's classifier (treasury/randomized_loop.py) beside the declarant's.
use treasury_intent_controll.Base.{
  String, false, not, List, [], ◌∷◌, ◌==◌, eq_iff, starts_with, ◌≡◌, refl, ◌↔◌, inl, inr,
  if◌then◌else◌, if_both, Bool-cases, eq-clash,
}
use treasury_intent_controll.Declare.{classify, proceed}
use treasury_intent_controll.Declare.Classify.{classify-proceed_iff}
use treasury_intent_controll.Loop.{tags, tagged, untagged, bucket}

-- A class that is not the one of an authorization.
record Denying (s : String) : Type 0 where
  differs : (s == "ACHIEVED") ≡ false

abbrev AllDenying : List String → Type 0
AllDenying [] = Unit
AllDenying (s ∷ l) = Denying s × AllDenying l

tagged-Denying :
    (reason : String) (l : List String) (rest : String)
    → AllDenying l
    → Denying rest
    → Denying (tagged reason l rest)
unfolding tagged
tagged-Denying reason [] rest h k = k
tagged-Denying reason (tag ∷ l) rest h k =
    if_both Denying (starts_with reason tag) h.0 (tagged-Denying reason l rest h.1 k)

tags-AllDenying : AllDenying tags
tags-AllDenying = (
  record { differs = refl },
  (
    record { differs = refl },
    (
      record { differs = refl },
      (record { differs = refl }, (record { differs = refl }, (record { differs = refl }, tt))),
    ),
  ),
)

untagged-Denying : (terminal reason : String) → Denying (untagged terminal reason)
unfolding untagged
untagged-Denying terminal reason =
    if_both Denying (starts_with reason "unevaluable:") (record { differs = refl })
      (if_both Denying (not (reason == "")) (record { differs = refl })
        (record { differs = eq-clash "UNKNOWN:" "ACHIEVED" terminal refl }))

other_terminal-Denying :
    (terminal reason : String)
    → Denying (
        if terminal == "SHADOW_RECORDED"
        then "SHADOW_RECORDED"
        else if reason == "idempotency-collision"
        then "idempotency-collision"
        else if starts_with reason "volatile-recheck:"
        then "volatile-recheck"
        else if starts_with reason "revoked:"
        then "revoked"
        else tagged reason tags (untagged terminal reason))
other_terminal-Denying terminal reason =
    if_both Denying (terminal == "SHADOW_RECORDED") (record { differs = refl })
      (if_both Denying (reason == "idempotency-collision") (record { differs = refl })
        (if_both Denying (starts_with reason "volatile-recheck:") (record { differs = refl })
          (if_both Denying (starts_with reason "revoked:") (record { differs = refl })
            (tagged-Denying reason tags (untagged terminal reason) tags-AllDenying
              (untagged-Denying terminal reason)))))

bucket-achieved : (t r : String) → (bucket t r ≡ "ACHIEVED") ↔ (t ≡ "ACHIEVED")
unfolding bucket
bucket-achieved t r = elim (Bool-cases (t == "ACHIEVED")) [
  | inl b ↦ rw b (λ e. (eq_iff t "ACHIEVED").0 b, λ e. refl)
  | inr b ↦ rw b (
    λ e. cc ((other_terminal-Denying t r).differs, (eq_iff _ "ACHIEVED").1 e),
    λ e. cc (b, (eq_iff t "ACHIEVED").1 e),
  )
]

-- The loop counts a terminal and a reason as ACHIEVED exactly when the declarant classifies them as
-- PROCEED.
pub bucket-proceed_iff : (t r : String) → (bucket t r ≡ "ACHIEVED") ↔ ((classify t r).0 ≡ proceed)
bucket-proceed_iff t r =
    let b = bucket-achieved t r in
    let c = classify-proceed_iff t r in (λ e. c.1 (b.0 e), λ e. b.1 (c.0 e))
