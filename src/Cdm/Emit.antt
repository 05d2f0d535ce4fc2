-- ===== src/Cdm/Emit.antt =====
-- `workflow_step_for` (declarant/pydeclarant/cdm_adapter.py): a CDM workflow step for an outcome.
use treasury_intent_controll.Base.{
  Bool, true, false, String, ◌<>◌, Option, none, some, ◌==◌, lookup, if◌then◌else◌,
}
use treasury_intent_controll.Json.Value.{
  Value, boolean, text, object, Fields, end, field, one_item, one_field,
}
use treasury_intent_controll.Reporting.{ReportIdentity}
use treasury_intent_controll.Declare.Request.{first_chars}
use treasury_intent_controll.Cdm.{uti_type, cdm_action_for, Bridged, bridged, refused, no_mapping}

-- `[{"assignedIdentifier": [{"identifier": value}]}]`.
abbrev pub identifiers : {N : Type 0} → String → Value N
identifiers value =
    one_item (one_field "assignedIdentifier" (one_item (one_field "identifier" (text value))))

abbrev pub trade_state : {N : Type 0} → String → Value N
trade_state uti = one_field "trade" (
    one_field "tradeIdentifier" (
      one_item (
        object (
          field "identifierType" (text uti_type)
            (field "assignedIdentifier" (one_item (one_field "identifier" (text uti))) end)))))

-- The fields that depend on the outcome.
abbrev pub outcome_if : {N : Type 0} → Bool → String → String → String → String → Fields N
outcome_if true uti event_date outcome reason =
    field "businessEvent"
      (object
        (field "eventDate" (text event_date) (field "after" (one_item (trade_state uti)) end)))
      end
outcome_if false uti event_date outcome reason = field "rejected" (boolean true) (
    field "proposedEvent"
      (object (
        field "eventDate" (text event_date)
          (field "instruction" (one_item (one_field "before" (trade_state uti))) end)))
      (field "messageInformation"
        (one_field "messageId"
          (text (if reason == "" then outcome else outcome <> (":" <> reason))))
        end))

abbrev pub previous_if : {N : Type 0} → Bool → String → Fields N → Fields N
previous_if true previous rest = rest
previous_if false previous rest =
    field "previousWorkflowStep" (one_field "eventIdentifier" (identifiers previous)) rest

abbrev pub event_date_of : ReportIdentity → String → String
event_date_of r timestamp = if r.as_of == "" then first_chars 10 timestamp else r.as_of

-- The emitted step, by whether there is no previous reference and whether the outcome is ACHIEVED.
abbrev pub step_if :
    {N : Type 0}
    → Bool
    → Bool
    → String
    → String
    → String
    → String
    → String
    → String
    → String
    → String
    → Fields N
step_if first achieved action uti event_date key outcome reason timestamp previous =
    field "action" (text action) (
      field "timestamp"
        (one_item (
          object (
            field "dateTime" (text timestamp)
              (field "qualification" (text "eventCreationDateTime") end))))
        (field "eventIdentifier" (identifiers key)
          (previous_if first previous (outcome_if achieved uti event_date outcome reason))))

abbrev pub emitted :
    {N : Type 0}
    → Option String
    → ReportIdentity
    → String
    → String
    → String
    → String
    → String
    → Bridged (Fields N)
emitted none r key outcome reason timestamp previous = refused no_mapping
emitted (some action) r key outcome reason timestamp previous = bridged (
    step_if (previous == "") (outcome == "ACHIEVED") action r.uti (event_date_of r timestamp) key
      outcome reason timestamp previous)

unfoldable pub workflow_step_for :
    {N : Type 0} → ReportIdentity → String → String → String → String → String → Bridged (Fields N)
unfolding lookup
workflow_step_for r key outcome reason timestamp previous =
    emitted (lookup r.action_type cdm_action_for) r key outcome reason timestamp previous
