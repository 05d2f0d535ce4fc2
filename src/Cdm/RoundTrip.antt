-- ===== src/Cdm/RoundTrip.antt =====
-- Reading an emitted step back (declarant/pydeclarant/cdm_adapter.py).
use treasury_intent_controll.Base.{
  Bool, true, false, ◌&&◌, String, List, [], ◌∷◌, Option, none, some, ◌==◌, eq_iff, lookup,
  contains, ◌≡◌, refl, ◌∙◌, ap, subst, arith,
}
use treasury_intent_controll.Json.Value.{Value, text}
use treasury_intent_controll.Reporting.{ReportIdentity, action_types}
use treasury_intent_controll.Cdm.{
  cdm_action_for, report_if, refuse_if, no_event, known_action, ◌>>◌, single, shown_or_empty, given,
  add_uti, merge, bridged, ◌>>=◌, if_keyed, utis, identity_from_workflow_step,
}
use treasury_intent_controll.Cdm.Emit.{step_if, event_date_of, workflow_step_for, emitted}

abbrev prior_if : Bool → String → String
prior_if true previous = ""
prior_if false previous = previous

bridged_eq : {A : Type 0} (a b : A) → bridged a ≡ bridged b → a ≡ b
bridged_eq a b h = cc

-- A report under its key: the fields that its action type keys on, from the step.
abbrev pub report_of :
    String
    → List String
    → String
    → String
    → String
    → String
    → String
    → String
    → String
    → ReportIdentity
report_of action extra entity rules on_behalf uti date key previous = record {
  reporting_entity = entity;
  uti = uti;
  action_type = action;
  rule_set = rules;
  on_behalf_of = on_behalf;
  as_of = if_keyed extra "as_of" date;
  event_ref = if_keyed extra "event_ref" key;
  prior_ref = if_keyed extra "prior_ref" previous;
}

add_uti_fresh : (uti : String) → (uti == "") ≡ false → add_uti uti [] ≡ uti ∷ []
add_uti_fresh uti u = rw u refl

merge_one : (uti : String) → (uti == "") ≡ false → merge (add_uti uti []) [] ≡ uti ∷ []
merge_one uti u = ap (λ l. merge l []) (add_uti_fresh uti u) ∙ add_uti_fresh uti u

and_false : (b : Bool) → (b && false) ≡ false
and_false true = refl
and_false false = refl

report_if-keyed :
    (action entity rules on_behalf uti date key prior : String) (extra : List String)
    → lookup action action_types ≡ some extra
    → (date == "") ≡ false
    → (contains extra "prior_ref" && prior == "") ≡ false
    → report_if entity rules on_behalf uti key action prior date
      ≡ bridged (report_of action extra entity rules on_behalf uti date key prior)
unfolding report_if
report_if-keyed action entity rules on_behalf uti date key prior extra e d p =
    rw e (rw p (rw d (rw (and_false (contains extra "as_of")) refl)))

-- What is left of the reading once the step has given up its parts.
read_lem :
    (found : List String) (as_of prior action uti date key entity rules on_behalf : String)
    (extra : List String)
    → found ≡ uti ∷ []
    → as_of ≡ date
    → lookup action action_types ≡ some extra
    → (key == "") ≡ false
    → (date == "") ≡ false
    → (contains extra "prior_ref" && prior == "") ≡ false
    → (single found >>= λ u.
        refuse_if (key == "") no_event
        >> (known_action action (lookup action action_types) >>= λ a.
            report_if entity rules on_behalf u key a prior as_of))
      ≡ bridged (report_of action extra entity rules on_behalf uti date key prior)
read_lem found as_of prior action uti date key entity rules on_behalf extra f a e k d p = rw f (
    rw a
      (rw k (rw e (report_if-keyed action entity rules on_behalf uti date key prior extra e d p))))

module _ {N : Type 0} (is_zero : N → Bool) (repr : Value N → String) where
  step_if-utis :
      (first achieved : Bool) (cdm uti date key outcome reason timestamp previous : String)
      → (uti == "") ≡ false
      → utis is_zero repr
          (step_if first achieved cdm uti date key outcome reason timestamp previous)
        ≡ bridged (uti ∷ [])
  unfolding utis
  step_if-utis true true cdm uti date key outcome reason timestamp previous u =
      ap bridged (merge_one uti u)
  step_if-utis true false cdm uti date key outcome reason timestamp previous u =
      ap bridged (merge_one uti u)
  step_if-utis false true cdm uti date key outcome reason timestamp previous u =
      ap bridged (merge_one uti u)
  step_if-utis false false cdm uti date key outcome reason timestamp previous u =
      ap bridged (merge_one uti u)

  shown_date :
      (date : String)
      → (date == "") ≡ false
      → shown_or_empty is_zero repr (given is_zero repr (some (text date))) ≡ date
  shown_date date d = rw d refl

  step_if-report :
      (first achieved : Bool)
      (action cdm uti date key outcome reason timestamp previous entity rules on_behalf : String)
      (extra : List String)
      → lookup action action_types ≡ some extra
      → (uti == "") ≡ false
      → (key == "") ≡ false
      → (date == "") ≡ false
      → (contains extra "prior_ref" && prior_if first previous == "") ≡ false
      → identity_from_workflow_step is_zero repr
          (step_if first achieved cdm uti date key outcome reason timestamp previous)
          entity
          rules
          (some action)
          on_behalf
        ≡ bridged
            (report_of action extra entity rules on_behalf uti date key (prior_if first previous))
  unfolding identity_from_workflow_step
  step_if-report true true action cdm uti date key outcome reason timestamp previous entity rules
        on_behalf extra e u k d p =
      read_lem (merge (add_uti uti []) [])
        (shown_or_empty is_zero repr (given is_zero repr (some (text date)))) "" action uti date key
        entity rules on_behalf extra (merge_one uti u) (shown_date date d) e k d p
  step_if-report true false action cdm uti date key outcome reason timestamp previous entity rules
        on_behalf extra e u k d p =
      read_lem (merge (add_uti uti []) [])
        (shown_or_empty is_zero repr (given is_zero repr (some (text date)))) "" action uti date key
        entity rules on_behalf extra (merge_one uti u) (shown_date date d) e k d p
  step_if-report false true action cdm uti date key outcome reason timestamp previous entity rules
        on_behalf extra e u k d p =
      read_lem (merge (add_uti uti []) [])
        (shown_or_empty is_zero repr (given is_zero repr (some (text date)))) previous action uti
        date key entity rules on_behalf extra (merge_one uti u) (shown_date date d) e k d p
  step_if-report false false action cdm uti date key outcome reason timestamp previous entity rules
        on_behalf extra e u k d p =
      read_lem (merge (add_uti uti []) [])
        (shown_or_empty is_zero repr (given is_zero repr (some (text date)))) previous action uti
        date key entity rules on_behalf extra (merge_one uti u) (shown_date date d) e k d p

prior_if_lem : (previous : String) → prior_if (previous == "") previous ≡ previous
prior_if_lem previous = ground (arith, eq_iff previous "")

pub mapping_none :
    (action : String) → lookup action cdm_action_for ≡ none → lookup action action_types ≡ none
unfolding lookup
mapping_none action = ground arith

module _ {N : Type 0} (is_zero : N → Bool) (repr : Value N → String) where
  emitted-read :
      (r : ReportIdentity) (mapping : Option String)
      (key outcome reason timestamp previous : String) (extra : List String)
      → lookup r.action_type cdm_action_for ≡ mapping
      → lookup r.action_type action_types ≡ some extra
      → (r.uti == "") ≡ false
      → (key == "") ≡ false
      → (event_date_of r timestamp == "") ≡ false
      → (contains extra "prior_ref" && previous == "") ≡ false
      → (emitted {N = N} mapping r key outcome reason timestamp previous >>= λ step.
          identity_from_workflow_step is_zero repr step r.reporting_entity r.rule_set
            (some r.action_type)
            r.on_behalf_of)
        ≡ bridged (
            report_of r.action_type extra r.reporting_entity r.rule_set r.on_behalf_of r.uti
              (event_date_of r timestamp)
              key
              previous)
  emitted-read r none key outcome reason timestamp previous extra m e u k d p =
      cc (mapping_none r.action_type m)
  emitted-read r (some cdm) key outcome reason timestamp previous extra m e u k d p =
      subst
        (λ prior.
          identity_from_workflow_step is_zero repr
            (step_if (previous == "") (outcome == "ACHIEVED") cdm r.uti (event_date_of r timestamp)
              key outcome reason timestamp previous)
            r.reporting_entity r.rule_set (some r.action_type) r.on_behalf_of
          ≡ bridged (
              report_of r.action_type extra r.reporting_entity r.rule_set r.on_behalf_of r.uti
                (event_date_of r timestamp) key prior))
        (prior_if_lem previous)
        (step_if-report is_zero repr (previous == "") (outcome == "ACHIEVED") r.action_type cdm
          r.uti (event_date_of r timestamp) key outcome reason timestamp previous r.reporting_entity
          r.rule_set r.on_behalf_of extra e u k d
          (ap (λ prior. contains extra "prior_ref" && prior == "") (prior_if_lem previous) ∙ p))

-- An emitted step whose action type, identifier, key, date and, where the type keys on one,
-- previous reference are present is read back as the report it was emitted for, keyed on the
-- fields of its action type, whatever the outcome was.
pub identity_from_workflow_step-workflow_step_for :
    {N : Type 0} (is_zero : N → Bool) (repr : Value N → String) (r : ReportIdentity)
    (key outcome reason timestamp previous : String) (extra : List String)
    → lookup r.action_type action_types ≡ some extra
    → (r.uti == "") ≡ false
    → (key == "") ≡ false
    → (event_date_of r timestamp == "") ≡ false
    → (contains extra "prior_ref" && previous == "") ≡ false
    → (workflow_step_for {N = N} r key outcome reason timestamp previous >>= λ step.
        identity_from_workflow_step is_zero repr step r.reporting_entity r.rule_set
          (some r.action_type)
          r.on_behalf_of)
      ≡ bridged (
          report_of r.action_type extra r.reporting_entity r.rule_set r.on_behalf_of r.uti
            (event_date_of r timestamp)
            key
            previous)
unfolding workflow_step_for
identity_from_workflow_step-workflow_step_for is_zero repr r key outcome reason timestamp previous
      extra e u k d p =
    emitted-read is_zero repr r (lookup r.action_type cdm_action_for) key outcome reason timestamp
      previous extra refl e u k d p
