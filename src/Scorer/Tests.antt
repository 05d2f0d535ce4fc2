-- ===== src/Scorer/Tests.antt =====
-- A concrete scorer, and the theorems on core/scorer/src/scorer at it.
use treasury_intent_controll.Base.{
  ℕ, String, Bool, true, false, leb, List, [], ◌∷◌, Option, none, some, ◌==◌, if◌then◌else◌, ◌≡◌,
  refl, ◌↔◌, eq_iff, ◌≢◌, arith, inl, lookup,
}
use treasury_intent_controll.Json.Text.{Bytes}
use treasury_intent_controll.Scorer.{
  Tried, returned, EvalRequest, pass, fail, FactSource, static_facts, verifying, null_resolver,
  ml_evaluate,
}
use treasury_intent_controll.Scorer.Resolver.{Decoded, artifact, Outcome, verify}
use treasury_intent_controll.Scorer.Resolver.Evidence.{Evidenced, verify-Evidenced}
use treasury_intent_controll.Scorer.Verdicts.{IsAllowed, Compares, ml_evaluate-decided_iff}
use treasury_intent_controll.Scorer.Startup.{
  FactsJson, object, Host, KeArtifactResolver, verify_with, ServedApp, started, main,
}
use treasury_intent_controll.Scorer.Startup.Served.{Supports, Vouched, main-served_pass_iff}

abbrev at_least : ℕ → ℕ → Bool
at_least a b = leb b a

abbrev two_decimals : ℕ → String
two_decimals n = "1.00"

abbrev request : EvalRequest ℕ
request = record {
  intent_id = "ab";
  criterion = "limit";
  threshold = 5;
  phase = "score";
  volatility = "static";
  rule_artifact_hash = none;
  intent_spec_hash = some "aa";
}

abbrev same_text : String → String
same_text s = s

abbrev decode : Bytes → Decoded
decode b = artifact "aa"

abbrev judge : Bytes → Tried Outcome
judge b = returned (record { verdict = some "verified"; content_hash = some "aa" })

abbrev files : List Bytes
files = (1 ∷ []) ∷ []

abbrev facts : FactSource ℕ
facts = static_facts (("limit", 7) ∷ [])

accepted : verify same_text decode judge files none (some "aa") ≡ returned true
unfolding verify
accepted = refl

ml_evaluate-decided_iff_example :
    (((ml_evaluate at_least two_decimals facts
          (verifying (verify same_text decode judge files))
          request).result
        ≡ pass)
      ↔ (IsAllowed (verifying (verify same_text decode judge files)) none (some "aa")
          × Compares at_least two_decimals request true (facts "limit" "ab")))
    × (((ml_evaluate at_least two_decimals facts
            (verifying (verify same_text decode judge files))
            request).result
          ≡ fail)
        ↔ (IsAllowed (verifying (verify same_text decode judge files)) none (some "aa")
            × Compares at_least two_decimals request false (facts "limit" "ab")))
ml_evaluate-decided_iff_example =
    ml_evaluate-decided_iff at_least two_decimals facts
      (verifying (verify same_text decode judge files)) request

abbrev host : Host ℕ
host = record {
  read_text = λ dir name. some name;
  has_wheel = true;
  int = λ s. some 7;
  store = λ dir. files;
  lower = same_text;
  from_bytes = decode;
  verify_artifact = λ kew keydir context policy registry at. judge kew;
}

abbrev env : String → Option String
env name = if name == "SCORER_HOST" then none else if name == "SCORER_PORT" then none else some "s"

abbrev loads : String → Option (FactsJson ℕ)
loads raw = some (object (("limit", 7) ∷ []))

abbrev number : ℕ → Option ℕ
number n = some n

abbrev resolver : KeArtifactResolver ℕ
resolver = record {
  artifact_dir = "s";
  keydir_json = "keydir.json";
  context_json = "context.json";
  policy_json = "policy.json";
  registry_json = "registry.json";
  exported_at = 7;
}

abbrev server : ServedApp ℕ ℕ
server = record {
  facts = facts;
  resolver = verifying (verify_with host resolver);
  host_name = "127.0.0.1";
  port = 7;
}

main_starts : main loads number host env ≡ started server
unfolding main
main_starts = refl

main-served_pass_iff_example :
    ((ml_evaluate at_least two_decimals facts
        (verifying (verify_with host resolver))
        request).result
      ≡ pass)
    ↔ (Supports at_least loads number env request × Vouched host env request)
main-served_pass_iff_example =
    main-served_pass_iff at_least two_decimals loads number host env server main_starts request

given : ◌≢◌ {A = String} "aa" ""
given = ground (arith, eq_iff "aa" "")

verify-Evidenced_example : Evidenced same_text decode judge files "aa"
verify-Evidenced_example =
    verify-Evidenced same_text decode judge files (some "aa") none "aa" given (inl refl)
      (unfold verify in refl)

skipped : ml_evaluate at_least two_decimals facts null_resolver request ≡ record {
  result = pass;
  basis = some "resolver=null: verification skipped; limit=1.00 >= 1.00";
}
unfolding ml_evaluate static_facts lookup
skipped = refl
