-- ===== src/Cdm/Gate/Explained.antt =====
-- What a call of `gate_cdm_event` (declarant/pydeclarant/cdm_adapter.py) has done to the world.
use treasury_intent_controll.Base.{
  Bool, true, false, String, Option, none, some, ◌==◌, lookup, ◌≡◌, refl, ◌∙◌, ap, ◌≢◌, ◌⊎◌, inl,
  inr,
}
use treasury_intent_controll.Json.Value.{Value, boolean, Fields, get}
use treasury_intent_controll.Json.Text.{Bytes}
use treasury_intent_controll.Declare.{
  class_name, Class, proceed, shadow_recorded, policy_denied, sdk_bug, spec_unattested, spec_defect,
  human_judgment, unevaluable, revoked, fact_drift, already_reserved, indeterminate, unknown,
  already_achieved,
}
use treasury_intent_controll.Client.{Gate}
use treasury_intent_controll.Reporting.{
  ReportIdentity, action_types, Keyed, keyed, unkeyable, report_key,
}
use treasury_intent_controll.Reporting.Submit.{
  SpecMapping, Ending, submitted, not_keyable, no_spec, gate_refused, client_raised, submit_raised,
  gate_submission,
}
use treasury_intent_controll.Reporting.Submit.Refusals.{Cleared, Told, gate_submission-Told}
use treasury_intent_controll.Cdm.{
  Bridged, bridged, refused, crashed, identity_from_workflow_step, cdm_action_for,
}
use treasury_intent_controll.Cdm.Emit.{workflow_step_for, emitted, step_if, event_date_of}
use treasury_intent_controll.Cdm.Read.{
  identity_from_workflow_step-HasKeys, bind_bridged, bridged_injective,
}
use treasury_intent_controll.Cdm.RoundTrip.{mapping_none}
use treasury_intent_controll.Cdm.Gate.{
  EventCall, Emission, stepped, bridge_refused, bridge_crashed, report_unkeyable,
  no_mapping_for_spec, client_exception, submit_exception, emission_of, after_submission, job_of,
  check_qualified, declared_identity, gate_identity, gate_declared, gate_cdm_event,
}

-- The record of an ACHIEVED submission, and of a report that was not submitted.
pub record IsAchievedStep {N : Type 0} (fields : Fields N) : Type 0 where
  pub not_rejected : get "rejected" fields ≡ none
  pub not_proposed : get "proposedEvent" fields ≡ none

pub record IsRejectedStep {N : Type 0} (fields : Fields N) : Type 0 where
  pub is_rejected : get "rejected" fields ≡ some (boolean true)
  pub no_event : get "businessEvent" fields ≡ none

step_if-IsAchievedStep :
    {N : Type 0} (first : Bool) (action uti date key outcome reason timestamp previous : String)
    → IsAchievedStep {N = N}
        (step_if first true action uti date key outcome reason timestamp previous)
unfolding get
step_if-IsAchievedStep true action uti date key outcome reason timestamp previous = record {
  not_rejected = refl;
  not_proposed = refl;
}
step_if-IsAchievedStep false action uti date key outcome reason timestamp previous = record {
  not_rejected = refl;
  not_proposed = refl;
}

step_if-IsRejectedStep :
    {N : Type 0} (first : Bool) (action uti date key outcome reason timestamp previous : String)
    → IsRejectedStep {N = N}
        (step_if first false action uti date key outcome reason timestamp previous)
unfolding get
step_if-IsRejectedStep true action uti date key outcome reason timestamp previous = record {
  is_rejected = refl;
  no_event = refl;
}
step_if-IsRejectedStep false action uti date key outcome reason timestamp previous = record {
  is_rejected = refl;
  no_event = refl;
}

-- No class is spelled like the terminal ACHIEVED.
class_name-differs : (c : Class) → (class_name c == "ACHIEVED") ≡ false
unfolding class_name
class_name-differs proceed = refl
class_name-differs shadow_recorded = refl
class_name-differs policy_denied = refl
class_name-differs sdk_bug = refl
class_name-differs spec_unattested = refl
class_name-differs spec_defect = refl
class_name-differs human_judgment = refl
class_name-differs unevaluable = refl
class_name-differs revoked = refl
class_name-differs fact_drift = refl
class_name-differs already_reserved = refl
class_name-differs indeterminate = refl
class_name-differs unknown = refl
class_name-differs already_achieved = refl

module _ {N A W : Type 0} (is_zero : N → Bool) (repr : Value N → String) (nfc : String → String)
    (sha256 : Bytes → String) (G : Gate) (spec : SpecMapping) (scope run_id : String) where
  -- What stands behind a step that says the report was submitted.
  pub record Submits (c : EventCall N A W) (s : G.State) : Type 0 where
    pub identity : ReportIdentity
    pub is_declared : declared_identity is_zero repr c ≡ bridged identity
    pub is_cleared : Cleared nfc sha256 G spec scope run_id (job_of c identity) s

  -- An ending says what it did to the world.
  unfoldable pub IsTold : EventCall N A W → G.State → W → Emission N × G.State × W → Type 0
  IsTold c s w (stepped fields, s', w') =
      (IsAchievedStep fields × Submits c s) ⊎ (IsRejectedStep fields × (w' ≡ w))
  IsTold c s w (submit_exception, s', w') = Submits c s
  IsTold c s w (bridge_refused cause, s', w') = w' ≡ w
  IsTold c s w (bridge_crashed, s', w') = w' ≡ w
  IsTold c s w (report_unkeyable cause, s', w') = w' ≡ w
  IsTold c s w (no_mapping_for_spec, s', w') = w' ≡ w
  IsTold c s w (client_exception fault, s', w') = w' ≡ w

  submitted_step :
      (c : EventCall N A W) (r : ReportIdentity) (key : String) (s s' : G.State) (w w' : W)
      (mapping : Option String)
      → mapping ≢ none
      → declared_identity is_zero repr c ≡ bridged r
      → Cleared nfc sha256 G spec scope run_id (job_of c r) s
      → IsTold c s w
          (emission_of (emitted mapping r key "ACHIEVED" "" c.timestamp_utc r.prior_ref), s', w')
  unfolding IsTold
  submitted_step c r key s s' w w' none m d h = absurd (m refl)
  submitted_step c r key s s' w w' (some action) m d h = inl (
    step_if-IsAchievedStep (r.prior_ref == "") action r.uti (event_date_of r c.timestamp_utc) key
        "ACHIEVED" "" c.timestamp_utc r.prior_ref,
    record { identity = r; is_declared = d; is_cleared = h },
  )

  refused_step :
      (c : EventCall N A W) (r : ReportIdentity) (key class reason : String) (s s' : G.State)
      (w w' : W) (mapping : Option String)
      → (class == "ACHIEVED") ≡ false
      → mapping ≢ none
      → w' ≡ w
      → IsTold c s w
          (emission_of (emitted mapping r key class reason c.timestamp_utc r.prior_ref), s', w')
  unfolding IsTold
  refused_step c r key class reason s s' w w' none q m h = absurd (m refl)
  refused_step c r key class reason s s' w w' (some action) q m h = inr (
    rw q (
        step_if-IsRejectedStep (r.prior_ref == "") action r.uti (event_date_of r c.timestamp_utc)
          key class reason c.timestamp_utc r.prior_ref),
    h,
  )

  -- The steps of a call whose action type has a CDM action.
  answered_step :
      (c : EventCall N A W) (r : ReportIdentity) (key : String) (s s' : G.State) (w w' : W)
      (e : Ending A)
      → (lookup r.action_type cdm_action_for ≢ none)
      → declared_identity is_zero repr c ≡ bridged r
      → Told nfc sha256 G spec scope run_id (job_of c r) s w (e, s', w')
      → IsTold c s w (after_submission r key c.timestamp_utc e, s', w')
  unfolding IsTold Told workflow_step_for
  answered_step c r key s s' w w' (submitted a) m d h =
      submitted_step c r key s s' w w' (lookup r.action_type cdm_action_for) m d h
  answered_step c r key s s' w w' (gate_refused e) m d h =
      refused_step c r key (class_name e.class_) e.reason s s' w w'
        (lookup r.action_type cdm_action_for) (class_name-differs e.class_) m h
  answered_step c r key s s' w w' (not_keyable cause) m d h = h
  answered_step c r key s s' w w' no_spec m d h = h
  answered_step c r key s s' w w' (client_raised fault) m d h = h
  answered_step c r key s s' w w' submit_raised m d h = record {
    identity = r;
    is_declared = d;
    is_cleared = h;
  }

  declared_mapping :
      (c : EventCall N A W) (r : ReportIdentity)
      → declared_identity is_zero repr c ≡ bridged r
      → lookup r.action_type cdm_action_for ≢ none
  unfolding declared_identity
  declared_mapping c r d m =
      let a =
        bind_bridged
          (identity_from_workflow_step is_zero repr c.step c.reporting_entity c.rule_set
            c.action_type "")
          _ d in
      let b = bind_bridged (check_qualified is_zero repr c.step c.qualifier) _ a.2 in
      let e : a.0 ≡ r = bridged_injective a.0 r b.2 in
      let known =
        identity_from_workflow_step-HasKeys is_zero repr c.step c.reporting_entity c.rule_set
          c.action_type "" a.0 a.1 in
      let absent : lookup a.0.action_type action_types ≡ none =
        mapping_none a.0.action_type
          (ap (λ (q : ReportIdentity). lookup q.action_type cdm_action_for) e ∙ m) in
      cc (known.action, absent)

  gate_identity-IsTold :
      (c : EventCall N A W) (r : ReportIdentity) (k : Keyed String) (s : G.State) (w : W)
      → declared_identity is_zero repr c ≡ bridged r
      → IsTold c s w (gate_identity is_zero repr nfc sha256 G spec scope run_id c r k s w)
  unfolding gate_identity IsTold
  gate_identity-IsTold c r (unkeyable cause) s w d = refl
  gate_identity-IsTold c r (keyed key) s w d =
      let x = gate_submission nfc sha256 G spec scope run_id (job_of c r) s w in
      answered_step c r key s x.1 w x.2 x.0 (declared_mapping c r d) d
        (gate_submission-Told nfc sha256 G spec scope run_id (job_of c r) s w)

  gate_declared-IsTold :
      (c : EventCall N A W) (d : Bridged ReportIdentity) (s : G.State) (w : W)
      → declared_identity is_zero repr c ≡ d
      → IsTold c s w (gate_declared is_zero repr nfc sha256 G spec scope run_id c d s w)
  unfolding gate_declared IsTold
  gate_declared-IsTold c (refused cause) s w e = refl
  gate_declared-IsTold c crashed s w e = refl
  gate_declared-IsTold c (bridged r) s w e =
      gate_identity-IsTold c r (report_key nfc sha256 r scope run_id) s w e

  -- A call of gate_cdm_event says what it did: a returned step is either an achieved one, and then
  -- the declared report was cleared by the gate, or one marked rejected and without a business
  -- event, and then the world is as before; a call that raised left the world alone unless it was
  -- `submit` that raised, and then the report was cleared.
  pub gate_cdm_event-IsTold :
      (c : EventCall N A W) (s : G.State) (w : W)
      → IsTold c s w (gate_cdm_event is_zero repr nfc sha256 G spec scope run_id c s w)
  unfolding gate_cdm_event
  gate_cdm_event-IsTold c s w = gate_declared-IsTold c (declared_identity is_zero repr c) s w refl
