-- ===== src/Reporting/Tests.antt =====
-- A concrete report, and the theorems on reporting_adapter.py at it.
use treasury_intent_controll.Base.{
  count, true, false, String, List, [], ◌∷◌, some, ◌≡◌, refl, sym, ◌∙◌, ap, ◌≤◌, ◌↔◌, lookup, codes,
  sort_items,
}
use treasury_intent_controll.Json.Text.{Bytes, quoted, escaped, escape}
use treasury_intent_controll.Json.Objects.{dumps_items, dumps_more}
use treasury_intent_controll.Declare.Request.{derive_key}
use treasury_intent_controll.Client.Tests.{granting, granting_reserves}
use treasury_intent_controll.Reporting.{
  ReportIdentity, keyed, canonical_identity, report_key, check_field, check_dropped, collect,
}
use treasury_intent_controll.Reporting.Verbatim.{is_stripped}
use treasury_intent_controll.Reporting.Dates.{
  Date, is_iso_date, iso_codes, is_real_date, is_iso_date_iff, days_in_month,
}
use treasury_intent_controll.Reporting.Identity.{canonical_identity_injective, keyed_injective}
use treasury_intent_controll.Reporting.Reconcile.{
  KeyedRecord, Reconciliation, achieved_keys, logged_keys, reconcile,
}
use treasury_intent_controll.Reporting.Reconcile.Bijection.{Bijective, reconcile-Bijective}
use treasury_intent_controll.Reporting.Keys.{report_key_injective}
use treasury_intent_controll.Reporting.Submit.{one, Job, gate_batch, gate_submission}
use treasury_intent_controll.Reporting.Submit.AtMostOnce.{LogsKey, count-gate_batch-le}
use treasury_intent_controll.Reporting.Submit.Refusals.{IsExplained, gate_submission-IsExplained}

abbrev digest : Bytes → String
digest b = "00ff"

abbrev composed : String → String
composed s = s

abbrev report : ReportIdentity
report = record {
  reporting_entity = "LEI-A";
  uti = "UTI-1";
  action_type = "VALU";
  rule_set = "EMIR";
  on_behalf_of = "";
  as_of = "2026-08-01";
  event_ref = "";
  prior_ref = "";
}

abbrev report_bytes : Bytes
report_bytes =
    codes
      "{\"action_type\":\"VALU\",\"as_of\":\"2026-08-01\",\"on_behalf_of\":\"\",\"reporting_entity\":\"LEI-A\",\"rule_set\":\"EMIR\",\"uti\":\"UTI-1\"}"

report_keyed : canonical_identity composed report ≡ keyed report_bytes
unfolding canonical_identity check_field collect check_dropped is_stripped is_iso_date days_in_month
    dumps_items dumps_more quoted escaped escape lookup sort_items
report_keyed = refl

canonical_identity_injective_example : report ≡ report
canonical_identity_injective_example =
    canonical_identity_injective composed report report report_bytes report_keyed report_keyed

abbrev key : String
key = "per-actor:run-7:report-submit:00ff"

report_key_runs : report_key composed digest report "per-actor" "run-7" ≡ keyed key
unfolding report_key derive_key
report_key_runs = rw report_keyed refl

report_key_injective_example : report ≡ report
report_key_injective_example =
    report_key_injective composed digest "per-actor" "run-7" report report key
      (λ a b h k e. keyed_injective a b (sym h ∙ k)) report_key_runs report_key_runs

abbrev job : Job (Unit {0}) (List String)
job = record { identity = report; nonce = "n1"; submit = λ log. (some tt, key ∷ log) }

job_logs : LogsKey composed digest granting granting_reserves (one "1111") "per-actor" "run-7" job
job_logs k log h = ap (λ (j : String). j ∷ log) (keyed_injective key k (sym report_key_runs ∙ h))

count-gate_batch-le_example :
    count key
      (gate_batch composed digest granting
        (one "1111")
        "per-actor"
        "run-7"
        (job ∷ job ∷ [])
        false
        []).2
    ≤ 1
count-gate_batch-le_example =
    count-gate_batch-le composed digest granting granting_reserves (one "1111") "per-actor" "run-7"
      (job ∷ job ∷ []) false key (job_logs, (job_logs, tt))

gate_submission-IsExplained_example :
    IsExplained composed digest granting
      (one "1111")
      "per-actor"
      "run-7"
      job
      true
      []
      (gate_submission composed digest granting (one "1111") "per-actor" "run-7" job true [])
gate_submission-IsExplained_example =
    gate_submission-IsExplained composed digest granting (one "1111") "per-actor" "run-7" job true
      []

is_iso_date_iff_example : (is_iso_date "2026-13-45" ≡ true) ↔ (
    (t : Date) × (iso_codes t ≡ codes "2026-13-45")
    × (t.year ≤ 9999)
    × (is_real_date t.year t.month t.day ≡ true))
is_iso_date_iff_example = is_iso_date_iff "2026-13-45"

abbrev feed_records : List KeyedRecord
feed_records =
    record { type = "ACHIEVED"; idempotency_key = key }
    ∷ record { type = "DECLARED"; idempotency_key = key }
    ∷ record { type = "ACHIEVED"; idempotency_key = "per-actor:run-8:report-submit:00ff" }
    ∷ []

abbrev balanced : Reconciliation
balanced = record {
  matched = key ∷ [];
  achieved_without_submission = [];
  submissions_without_achieved = [];
  duplicate_submissions = [];
  duplicate_achieved = [];
}

reconcile_runs :
    reconcile composed digest "per-actor" "run-7" feed_records (report ∷ []) ≡ keyed balanced
unfolding reconcile lookup
reconcile_runs = rw report_key_runs refl

reconcile-Bijective_example :
    (keys : List String) × (logged_keys composed digest "per-actor" "run-7" (report ∷ [])
      ≡ keyed keys)
    × Bijective (achieved_keys "per-actor:run-7:report-submit:" feed_records) keys
reconcile-Bijective_example =
    reconcile-Bijective composed digest "per-actor" "run-7" feed_records (report ∷ []) balanced
      reconcile_runs refl
