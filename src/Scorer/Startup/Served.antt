-- ===== src/Scorer/Startup/Served.antt =====
-- What a served PASS rests on: the environment that the scorer was started with
-- (core/scorer/src/scorer/__main__.py with app.py, facts.py and resolver.py).
use treasury_intent_controll.Base.{
  String, Bool, true, Option, none, some, ◌≡◌, refl, sym, subst, ◌↔◌,
}
use treasury_intent_controll.Scorer.{
  Tried, returned, threw, EvalRequest, pass, resolver_from_env, ml_evaluate,
}
use treasury_intent_controll.Scorer.Verdicts.{Compares, ml_evaluate-decided_iff}
use treasury_intent_controll.Scorer.Startup.{
  started, or_fail, bind_started, started_injective, FactsJson, facts_from_env, fact_source, Host,
  boot_resolver, artifact_resolver, ServedApp, env_or, main,
}
use treasury_intent_controll.Scorer.Startup.Facts.{NamesFact, facts_from_env-NamesFact}
use treasury_intent_controll.Scorer.Startup.Vouched.{IsVouched, boot_resolver-IsVouched}

module _ {V F : Type 0} (at_least : F → F → Bool) (loads : String → Option (FactsJson V))
    (to_float : V → Option F) where
  -- The environment gives a fact for the criterion, and it reaches the threshold.
  pub record Supports (env : String → Option String) (req : EvalRequest F) : Type 0 where
    pub fact : F
    pub names : NamesFact loads to_float (env "SCORER_FACTS_JSON") req.criterion fact
    pub reaches : at_least fact req.threshold ≡ true

module _ {F I : Type 0} (host : Host I) where
  -- No resolver is configured, or the request carries no hash, or its hashes verify.
  abbrev pub Vouched : (String → Option String) → EvalRequest F → Type 0
  Vouched env req =
      IsVouched host (env "SCORER_ARTIFACT_DIR") (env "SCORER_ATLAS_INPUTS_DIR")
        (env "SCORER_EXPORTED_AT_UNIX") req.rule_artifact_hash req.intent_spec_hash

module _ {V F I : Type 0} (at_least : F → F → Bool) (two_decimals : F → String)
    (loads : String → Option (FactsJson V)) (to_float : V → Option F) (host : Host I) where
  Compares-iff :
      (req : EvalRequest F) (t : Tried (Option F))
      → Compares at_least two_decimals req true t
        ↔ ((fact : F) × (t ≡ returned (some fact)) × (at_least fact req.threshold ≡ true))
  Compares-iff req (returned (some fact)) = (
    λ h. (fact, refl, h),
    λ h. subst (λ u. Compares at_least two_decimals req true u) (sym h.1) h.2,
  )
  Compares-iff req (returned none) = (λ h. absurd h, λ h. cc h.1)
  Compares-iff req (threw name) = (λ h. absurd h, λ h. cc h.1)

  -- A scorer that was started from an environment answers PASS exactly where the facts of the
  -- environment give the criterion a number that reaches the threshold, and either none of the three
  -- resolver settings is given, or the request carries no hash, or all three are given and the
  -- resolver that they describe answers True on the hashes.
  pub main-served_pass_iff :
      (env : String → Option String) (server : ServedApp F I)
      → main loads to_float host env ≡ started server
      → (req : EvalRequest F)
      → ((ml_evaluate at_least two_decimals server.facts server.resolver req).result ≡ pass)
        ↔ (Supports at_least loads to_float env req × Vouched host env req)
  unfolding main
  main-served_pass_iff env server h req =
      let f = bind_started (facts_from_env loads to_float (env "SCORER_FACTS_JSON")) _ h in
      let r =
        bind_started
          (boot_resolver host (
            resolver_from_env (env "SCORER_ARTIFACT_DIR") (env "SCORER_ATLAS_INPUTS_DIR")
              (env "SCORER_EXPORTED_AT_UNIX")))
          _ f.2 in
      let p = bind_started (or_fail (host.int (env_or "8000" (env "SCORER_PORT")))) _ r.2 in
      let facts = fact_source f.0 in
      let resolver = artifact_resolver host r.0 in
      let decided = ml_evaluate-decided_iff at_least two_decimals facts resolver req in
      let compares = Compares-iff req (facts req.criterion req.intent_id) in
      let names = facts_from_env-NamesFact loads to_float _ f.0 f.1 req.criterion req.intent_id in
      let vouched =
        boot_resolver-IsVouched host _ _ _ r.0 r.1 req.rule_artifact_hash req.intent_spec_hash in
      subst
        (λ s.
          ((ml_evaluate at_least two_decimals s.facts s.resolver req).result ≡ pass)
          ↔ (Supports at_least loads to_float env req × Vouched host env req))
        (started_injective _ server p.2)
        (
          λ e.
              let d = decided.0.0 e in
              let c = compares.0 d.1 in
              (record { fact = c.0; names = (names c.0).0 c.1; reaches = c.2 }, vouched.0 d.0),
          λ w.
              decided.0.1
                (vouched.1 w.1, compares.1 (w.0.fact, (names w.0.fact).1 w.0.names, w.0.reaches)),
        )
