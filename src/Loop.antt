-- ===== src/Loop.antt =====
-- The classifier of treasury/randomized_loop.py: the class that a terminal and a reason are counted in.
pub mod Agreement
pub mod Draws
pub mod Numerals
pub mod Oracle
pub mod Plan
pub mod Proxy
pub mod Run
pub mod Tests
pub mod Worlds
use treasury_intent_controll.Base.{
  String, ◌<>◌, Bool, true, false, not, List, [], ◌∷◌, Option, none, some, ◌==◌, starts_with,
  if◌then◌else◌,
}

-- The terminal possibilities that a run has to show.
abbrev pub classes : List String
classes =
    "ACHIEVED" ∷ "SHADOW_RECORDED" ∷ "idempotency-collision" ∷ "policy-denied"
    ∷ "unevaluable:unattested-spec" ∷ "revoked" ∷ "unevaluable:invalid-posture"
    ∷ "unevaluable:empty-criteria" ∷ "unevaluable:invalid-volatility" ∷ "unevaluable:human-judgment"
    ∷ "unevaluable:criterion" ∷ "volatile-recheck" ∷ "unevaluable:absent-key" ∷ []

-- The tags that are looked for, in their order.
abbrev pub tags : List String
tags =
    "unevaluable:absent-key" ∷ "unevaluable:unattested-spec" ∷ "unevaluable:invalid-posture"
    ∷ "unevaluable:empty-criteria" ∷ "unevaluable:invalid-volatility" ∷ "unevaluable:human-judgment"
    ∷ []

-- The first tag that the reason starts with, or what is said when none fits.
unfoldable pub tagged : String → List String → String → String
tagged reason [] rest = rest
tagged reason (tag ∷ others) rest =
    let later = tagged reason others rest in if starts_with reason tag then tag else later

-- The tests behind the tags.
unfoldable pub untagged : String → String → String
untagged terminal reason =
    if starts_with reason "unevaluable:"
    then "unevaluable:criterion"
    else if not (reason == "")
    then "policy-denied"
    else "UNKNOWN:" <> terminal

unfoldable pub bucket : String → String → String
unfolding tagged untagged
bucket terminal reason =
    if terminal == "ACHIEVED"
    then "ACHIEVED"
    else if terminal == "SHADOW_RECORDED"
    then "SHADOW_RECORDED"
    else if reason == "idempotency-collision"
    then "idempotency-collision"
    else if starts_with reason "volatile-recheck:"
    then "volatile-recheck"
    else if starts_with reason "revoked:"
    then "revoked"
    else tagged reason tags (untagged terminal reason)
