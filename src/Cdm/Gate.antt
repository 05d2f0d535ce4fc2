-- ===== src/Cdm/Gate.antt =====
-- `gate_cdm_event` (declarant/pydeclarant/cdm_adapter.py): one CDM step through the gate.
pub mod Explained
use treasury_intent_controll.Base.{Bool, not, String, Option, none, some, ◌==◌}
use treasury_intent_controll.Json.Value.{Value, null, Fields, get}
use treasury_intent_controll.Json.Text.{Bytes}
use treasury_intent_controll.Declare.{class_name}
use treasury_intent_controll.Client.{Gate, Fault}
use treasury_intent_controll.Reporting.{
  ReportIdentity, Keyed, keyed, unkeyable, Unkeyable, report_key,
}
use treasury_intent_controll.Reporting.Submit.{
  SpecMapping, Ending, submitted, not_keyable, no_spec, gate_refused, client_raised, submit_raised,
  Job, gate_submission,
}
use treasury_intent_controll.Cdm.{
  Bridged, bridged, refused, crashed, ◌>>=◌, ◌>>◌, Cause, refuse_if, unqualifiable, not_as_declared,
  shown, event_of, identity_from_workflow_step,
}
use treasury_intent_controll.Cdm.Emit.{workflow_step_for}

-- The arguments of one call, with the nonce that it draws. A qualifier answers with an event's name.
pub record EventCall (N A W : Type 0) : Type 0 where
  pub step : Fields N
  pub submit : W → Option A × W
  pub reporting_entity : String
  pub rule_set : String
  pub action_type : Option String
  pub qualifier : Option (Fields N → Option String)
  pub timestamp_utc : String
  pub nonce : String

-- The step that is returned, or the exception that leaves the call.
pub data Emission (N : Type 0) : Type 0 where
  stepped : Fields N → Emission N
  bridge_refused : Cause → Emission N
  bridge_crashed : Emission N
  report_unkeyable : Unkeyable → Emission N
  no_mapping_for_spec : Emission N
  client_exception : Fault → Emission N
  submit_exception : Emission N

abbrev pub emission_of : {N : Type 0} → Bridged (Fields N) → Emission N
emission_of (bridged fields) = stepped fields
emission_of (refused c) = bridge_refused c
emission_of crashed = bridge_crashed

abbrev pub after_submission :
    {N A : Type 0} → ReportIdentity → String → String → Ending A → Emission N
after_submission r key timestamp (submitted a) =
    emission_of (workflow_step_for r key "ACHIEVED" "" timestamp r.prior_ref)
after_submission r key timestamp (gate_refused e) =
    emission_of (workflow_step_for r key (class_name e.class_) e.reason timestamp r.prior_ref)
after_submission r key timestamp (not_keyable cause) = report_unkeyable cause
after_submission r key timestamp no_spec = no_mapping_for_spec
after_submission r key timestamp (client_raised fault) = client_exception fault
after_submission r key timestamp submit_raised = submit_exception

-- `intent` and what it qualifies as, both as text.
abbrev pub compare_intent : Option String → String → Bridged (Unit {0})
compare_intent none declared = refused unqualifiable
compare_intent (some qualified) declared = refuse_if (not (declared == qualified)) not_as_declared

abbrev pub job_of : {N A W : Type 0} → EventCall N A W → ReportIdentity → Job A W
job_of c r = record { identity = r; nonce = c.nonce; submit = c.submit }

module _ {N : Type 0} (is_zero : N → Bool) (repr : Value N → String) where
  -- `str` of the declared intent, "None" where there is none.
  abbrev pub declared_text : Option (Value N) → String
  declared_text none = repr null
  declared_text (some v) = shown is_zero repr v

  unfoldable pub check_qualified : Fields N → Option (Fields N → Option String) → Bridged (Unit {0})
  unfolding get
  check_qualified step none = bridged tt
  check_qualified step (some qualifier) = do
    event ← event_of is_zero repr step
    compare_intent (qualifier step) (declared_text (get "intent" event))

  -- The identity that is declared, unless the step is refused before.
  unfoldable pub declared_identity : {A W : Type 0} → EventCall N A W → Bridged ReportIdentity
  declared_identity c = do
    identity ←
        identity_from_workflow_step is_zero repr c.step c.reporting_entity c.rule_set c.action_type
          ""
    check_qualified c.step c.qualifier >> bridged identity

module _ {N A W : Type 0} (is_zero : N → Bool) (repr : Value N → String) (nfc : String → String)
    (sha256 : Bytes → String) (G : Gate) (spec : SpecMapping) (scope run_id : String) where
  unfoldable pub gate_identity :
      EventCall N A W → ReportIdentity → Keyed String → G.State → W → Emission N × G.State × W
  gate_identity c r (unkeyable cause) s w = (report_unkeyable cause, s, w)
  gate_identity c r (keyed key) s w =
      let (e, s', w') = gate_submission nfc sha256 G spec scope run_id (job_of c r) s w in
      (after_submission r key c.timestamp_utc e, s', w')

  unfoldable pub gate_declared :
      EventCall N A W → Bridged ReportIdentity → G.State → W → Emission N × G.State × W
  unfolding gate_identity
  gate_declared c (refused cause) s w = (bridge_refused cause, s, w)
  gate_declared c crashed s w = (bridge_crashed, s, w)
  gate_declared c (bridged r) s w = gate_identity c r (report_key nfc sha256 r scope run_id) s w

  unfoldable pub gate_cdm_event : EventCall N A W → G.State → W → Emission N × G.State × W
  unfolding gate_declared declared_identity
  gate_cdm_event c s w = gate_declared c (declared_identity is_zero repr c) s w
