-- ===== src/Scorer/Verdicts.antt =====
-- When `ml_evaluate` (core/scorer/src/scorer/app.py) answers PASS or FAIL.
use treasury_intent_controll.Base.{
  String, Bool, true, false, not, ◌&&◌, ◌||◌, Option, none, some, ◌≡◌, refl, ◌↔◌, ◌⊎◌, inl, inr,
  ◌==◌, if◌then◌else◌, Bool-cases, arith,
}
use treasury_intent_controll.Scorer.{
  Tried, returned, threw, EvalRequest, EvalResponse, pass, fail, is_given, basis_text, FactSource,
  ArtifactResolver, null_resolver, verifying, Clearance, cleared, not_verified, crashed, verdict_of,
  ask, clearance, annotate, evaluate, score, after_clearance, ml_evaluate, no_resolver, incomplete,
  configured, resolver_from_env,
}

-- Nothing to verify, nobody to ask, or the resolver's True.
abbrev pub IsAllowed : ArtifactResolver → Option String → Option String → Type 0
IsAllowed null_resolver rule spec = Unit
IsAllowed (verifying verify) rule spec =
    ((is_given rule || is_given spec) ≡ false) ⊎ (verify rule spec ≡ returned true)

abbrev IsCleared : Clearance → Type 0
IsCleared (cleared note) = Unit
IsCleared _ = ⊥

verdict_iff : (t : Tried Bool) → IsCleared (verdict_of t) ↔ (t ≡ returned true)
unfolding verdict_of
verdict_iff (returned true) = (λ h. refl, λ h. tt)
verdict_iff (returned false) = (λ h. absurd h, λ h. cc h)
verdict_iff (threw name) = (λ h. absurd h, λ h. cc h)

clearance_iff :
    (resolver : ArtifactResolver) (rule spec : Option String)
    → IsCleared (clearance resolver rule spec) ↔ IsAllowed resolver rule spec
unfolding clearance ask
clearance_iff null_resolver rule spec = elim (Bool-cases (is_given rule || is_given spec)) [
  | inl e ↦ rw e (λ h. tt, λ h. tt)
  | inr e ↦ rw e (λ h. tt, λ h. tt)
]
clearance_iff (verifying verify) rule spec = elim (Bool-cases (is_given rule || is_given spec)) [
  | inl e ↦ rw e (
    λ h. inr ((verdict_iff (verify rule spec)).0 h),
    λ h. elim h [ inl q ↦ cc q | inr q ↦ (verdict_iff (verify rule spec)).1 q ],
  )
  | inr e ↦ rw e (λ h. inl refl, λ h. tt)
]

annotate-result : (note : String) (resp : EvalResponse) → (annotate note resp).result ≡ resp.result
unfolding annotate
annotate-result note resp = elim (Bool-cases (note == "")) [ inl e ↦ rw e | inr e ↦ rw e ]

module _ {F : Type 0} (at_least : F → F → Bool) (two_decimals : F → String) where
  -- The source had a fact, and the comparison with the threshold came out so.
  abbrev pub Compares : EvalRequest F → Bool → Tried (Option F) → Type 0
  Compares req b (returned (some fact)) = at_least fact req.threshold ≡ b
  Compares req b _ = ⊥

  evaluate_iff :
      (req : EvalRequest F) (o : Option F)
      → (((evaluate at_least two_decimals req o).result ≡ pass) ↔ Compares req true (returned o))
        × (((evaluate at_least two_decimals req o).result ≡ fail) ↔ Compares req false (returned o))
  unfolding evaluate
  evaluate_iff req none = ((λ h. cc h, λ h. absurd h), (λ h. cc h, λ h. absurd h))
  evaluate_iff req (some fact) = elim (Bool-cases (at_least fact req.threshold)) [
    | inl e ↦ rw e ((λ h. refl, λ h. refl), (λ h. cc h, λ h. cc h))
    | inr e ↦ rw e ((λ h. cc h, λ h. cc h), (λ h. refl, λ h. refl))
  ]

  score_iff :
      (req : EvalRequest F) (note : String) (t : Tried (Option F))
      → (((score at_least two_decimals req note t).result ≡ pass) ↔ Compares req true t)
        × (((score at_least two_decimals req note t).result ≡ fail) ↔ Compares req false t)
  unfolding score
  score_iff req note (threw name) = ((λ h. cc h, λ h. absurd h), (λ h. cc h, λ h. absurd h))
  score_iff req note (returned o) =
      rw (annotate-result note (evaluate at_least two_decimals req o)) (evaluate_iff req o)

  decided_iff :
      (facts : FactSource F) (req : EvalRequest F) (c : Clearance)
      → (((after_clearance at_least two_decimals facts req c).result ≡ pass)
          ↔ (IsCleared c × Compares req true (facts req.criterion req.intent_id)))
        × (((after_clearance at_least two_decimals facts req c).result ≡ fail)
            ↔ (IsCleared c × Compares req false (facts req.criterion req.intent_id)))
  unfolding after_clearance
  decided_iff facts req (cleared note) =
      let s = score_iff req note (facts req.criterion req.intent_id) in
      ((λ h. (tt, s.0.0 h), λ h. s.0.1 h.1), (λ h. (tt, s.1.0 h), λ h. s.1.1 h.1))
  decided_iff facts req not_verified = ((λ h. cc h, λ h. absurd h.0), (λ h. cc h, λ h. absurd h.0))
  decided_iff facts req (crashed name) =
      ((λ h. cc h, λ h. absurd h.0), (λ h. cc h, λ h. absurd h.0))

  -- An evaluation answers PASS exactly when the artifacts allow it and the source returns a fact
  -- that reaches the threshold, and FAIL exactly when they allow it and the source returns a fact
  -- that does not.
  pub ml_evaluate-decided_iff :
      (facts : FactSource F) (resolver : ArtifactResolver) (req : EvalRequest F)
      → (((ml_evaluate at_least two_decimals facts resolver req).result ≡ pass) ↔ (
          IsAllowed resolver req.rule_artifact_hash req.intent_spec_hash
          × Compares req true (facts req.criterion req.intent_id)))
        × (((ml_evaluate at_least two_decimals facts resolver req).result ≡ fail) ↔ (
            IsAllowed resolver req.rule_artifact_hash req.intent_spec_hash
            × Compares req false (facts req.criterion req.intent_id)))
  unfolding ml_evaluate
  ml_evaluate-decided_iff facts resolver req =
      let c = clearance_iff resolver req.rule_artifact_hash req.intent_spec_hash in
      let d =
        decided_iff facts req (clearance resolver req.rule_artifact_hash req.intent_spec_hash) in
      (
        (λ h. (c.0 (d.0.0 h).0, (d.0.0 h).1), λ h. d.0.1 (c.1 h.0, h.1)),
        (λ h. (c.0 (d.1.0 h).0, (d.1.0 h).1), λ h. d.1.1 (c.1 h.0, h.1)),
      )

-- The service boots with a verifying resolver exactly when all three settings are given, and without
-- one exactly when none is.
pub resolver_from_env_iff :
    (dir inputs at : Option String)
    → ((resolver_from_env dir inputs at
          ≡ configured (basis_text dir) (basis_text inputs) (basis_text at))
        ↔ ((is_given dir ≡ true) × (is_given inputs ≡ true) × (is_given at ≡ true)))
      × ((resolver_from_env dir inputs at ≡ no_resolver)
          ↔ ((is_given dir ≡ false) × (is_given inputs ≡ false) × (is_given at ≡ false)))
unfolding resolver_from_env
resolver_from_env_iff dir inputs at = by_tests (is_given dir) (is_given inputs) (is_given at)
  where
    by_tests :
        (a b c : Bool)
        → (((if not (a || b || c)
                then no_resolver
                else if not (a && b && c)
                then incomplete
                else configured (basis_text dir) (basis_text inputs) (basis_text at))
              ≡ configured (basis_text dir) (basis_text inputs) (basis_text at))
            ↔ ((a ≡ true) × (b ≡ true) × (c ≡ true)))
          × (((if not (a || b || c)
                  then no_resolver
                  else if not (a && b && c)
                  then incomplete
                  else configured (basis_text dir) (basis_text inputs) (basis_text at))
                ≡ no_resolver)
              ↔ ((a ≡ false) × (b ≡ false) × (c ≡ false)))
    by_tests a b c = ground arith
