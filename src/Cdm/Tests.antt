-- ===== src/Cdm/Tests.antt =====
-- Runs of the CDM bridge (declarant/pydeclarant/cdm_adapter.py) on concrete steps.
use treasury_intent_controll.Base.{
  ◌↔◌, ℕ, Bool, false, String, List, [], ◌∷◌, none, some, lookup, ◌≡◌, refl, eqb,
}
use treasury_intent_controll.Json.Value.{
  Value, null, text, Fields, end, field, get, object, one_item, one_field,
}
use treasury_intent_controll.Json.Text.{Bytes}
use treasury_intent_controll.Declare.Request.{first_chars}
use treasury_intent_controll.Client.Tests.{granting}
use treasury_intent_controll.Reporting.{ReportIdentity, action_types}
use treasury_intent_controll.Reporting.Submit.{one}
use treasury_intent_controll.Cdm.{
  bridged, ◌>>=◌, keyed_fields, identity_from_workflow_step, utis, first_identifier, resolve_action,
  event_of, trade_states, state_utis, utis_of, befores_of, report_if,
}
use treasury_intent_controll.Cdm.Emit.{workflow_step_for, identifiers, trade_state}
use treasury_intent_controll.Cdm.Keyed.{IsKeyed, IsKeyable, identity_from_workflow_step-IsKeyed_iff}
use treasury_intent_controll.Cdm.RoundTrip.{
  report_of, identity_from_workflow_step-workflow_step_for,
}
use treasury_intent_controll.Cdm.Gate.{EventCall, gate_cdm_event}
use treasury_intent_controll.Cdm.Gate.Explained.{IsTold, gate_cdm_event-IsTold}

-- Numbers that are natural, with the text of any value that is no text left to one word.
abbrev is_zero : ℕ → Bool
is_zero n = eqb n 0

abbrev shown : Value ℕ → String
shown v = "None"

abbrev correction : ReportIdentity
correction = record {
  reporting_entity = "LEI-A";
  uti = "UTI-1";
  action_type = "CORR";
  rule_set = "EMIR";
  on_behalf_of = "";
  as_of = "";
  event_ref = "";
  prior_ref = "";
}

identity_from_workflow_step-workflow_step_for_example :
    (workflow_step_for {N = ℕ} correction "k-1" "FAILED" "balance" "2026-08-01T10:00:00Z" "ev-0"
      >>= λ step. identity_from_workflow_step is_zero shown step "LEI-A" "EMIR" (some "CORR") "")
    ≡ bridged (
        report_of "CORR"
          ("event_ref" ∷ "prior_ref" ∷ [])
          "LEI-A"
          "EMIR"
          ""
          "UTI-1"
          "2026-08-01"
          "k-1"
          "ev-0")
unfolding lookup first_chars
identity_from_workflow_step-workflow_step_for_example =
    identity_from_workflow_step-workflow_step_for is_zero shown correction "k-1" "FAILED" "balance"
      "2026-08-01T10:00:00Z" "ev-0" ("event_ref" ∷ "prior_ref" ∷ []) refl refl refl refl refl

-- A new trade, as a CDM desk proposes it.
abbrev new_trade : Fields ℕ
new_trade = field "action" (text "New") (
    field "eventIdentifier" (identifiers "ev-1") (
      field "proposedEvent"
        (object (
          field "intent" (text "ContractFormation") (
            field "eventDate" (text "2026-08-01")
              (field "instruction" (one_item (one_field "before" (trade_state "UTI-1"))) end))))
        end))

abbrev new_report : ReportIdentity
new_report = record {
  reporting_entity = "LEI-A";
  uti = "UTI-1";
  action_type = "NEWT";
  rule_set = "EMIR";
  on_behalf_of = "";
  as_of = "";
  event_ref = "";
  prior_ref = "";
}

new_trade_reads :
    identity_from_workflow_step is_zero shown new_trade "LEI-A" "EMIR" none "" ≡ bridged new_report
unfolding identity_from_workflow_step utis first_identifier resolve_action event_of trade_states
    state_utis utis_of befores_of report_if get lookup
new_trade_reads = refl

identity_from_workflow_step-IsKeyed_iff_example :
    IsKeyed (λ s. s) new_report
    ↔ IsKeyable (λ s. s) new_report (keyed_fields (lookup "NEWT" action_types))
identity_from_workflow_step-IsKeyed_iff_example =
    identity_from_workflow_step-IsKeyed_iff is_zero shown (λ s. s) new_trade "LEI-A" "EMIR" none ""
      new_report new_trade_reads

abbrev call : EventCall ℕ (Unit {0}) (List String)
call = record {
  step = new_trade;
  submit = λ log. (some tt, "sent" ∷ log);
  reporting_entity = "LEI-A";
  rule_set = "EMIR";
  action_type = none;
  qualifier = some (λ step. some "ContractFormation");
  timestamp_utc = "2026-08-01T10:00:00Z";
  nonce = "n1";
}

abbrev digest : Bytes → String
digest b = "00ff"

abbrev composed : String → String
composed s = s

gate_cdm_event-IsTold_example :
    IsTold is_zero shown composed digest granting (one "1111") "per-actor" "run-7" call false [] (
      gate_cdm_event is_zero shown composed digest granting
        (one "1111")
        "per-actor"
        "run-7"
        call
        false
        [])
gate_cdm_event-IsTold_example =
    gate_cdm_event-IsTold is_zero shown composed digest granting (one "1111") "per-actor" "run-7"
      call false []

-- A null identifier is read as a text.
null_identifier :
    ◌≡◌ {A = String}
      (first_identifier is_zero shown
        (one_item (one_field "assignedIdentifier" (one_item (one_field "identifier" null)))))
      "None"
unfolding first_identifier get
null_identifier = refl
