-- ===== src/Reporting/Submit/Refusals.antt =====
-- When `gate_submission` (declarant/pydeclarant/reporting_adapter.py) lets `submit` touch the world.
use treasury_intent_controll.Base.{String, Option, none, some, ◌≡◌, refl, ◌⊎◌, inl, inr}
use treasury_intent_controll.Json.Text.{Bytes}
use treasury_intent_controll.Declare.Request.{marshal_request, derive_key}
use treasury_intent_controll.Client.{Gate, Result, Attempt, done, raised, declare}
use treasury_intent_controll.Gating.{Gated, authorized, refused, require_fresh_proceed}
use treasury_intent_controll.Gating.Fresh.{Authorizes, AchievedReply, declare-Authorizes_iff}
use treasury_intent_controll.Reporting.{Keyed, keyed, unkeyable, canonical_identity, tool_name}
use treasury_intent_controll.Reporting.Submit.{
  SpecMapping, spec_hash_for, Ending, submitted, not_keyable, no_spec, gate_refused, client_raised,
  submit_raised, ended, Job, run_submit, after_declare, request_for, declare_job, with_spec,
  with_payload, gate_submission,
}

module _ {A W : Type 0} (nfc : String → String) (sha256 : Bytes → String) (G : Gate)
    (spec : SpecMapping) (scope run_id : String) where
  -- What stands behind a submission: the identity is keyable, the action type has a spec, and the
  -- service answered ACHIEVED to the request declared under the report's key.
  pub record Cleared (job : Job A W) (s : G.State) : Type 0 where
    pub payload : Bytes
    pub hash : String
    pub is_keyed : canonical_identity nfc job.identity ≡ keyed payload
    pub has_spec : spec_hash_for spec job.identity.action_type ≡ some hash
    pub achieved :
        AchievedReply
          (G.post s (
            marshal_request (
              request_for scope
                (derive_key sha256 scope run_id tool_name payload)
                job.nonce
                hash))).0

  -- The world after a call: the one before, or one that a cleared submission made.
  abbrev pub IsExplained : Job A W → G.State → W → Ending A × G.State × W → Type 0
  IsExplained job s w x = (x.2 ≡ w) ⊎ Cleared job s

  -- How a call ended says what it did to the world: nothing, unless `submit` ran, and that only for
  -- a cleared submission.
  unfoldable pub Told : Job A W → G.State → W → Ending A × G.State × W → Type 0
  Told job s w (submitted a, s', w') = Cleared job s
  Told job s w (submit_raised, s', w') = Cleared job s
  Told job s w (not_keyable e, s', w') = w' ≡ w
  Told job s w (no_spec, s', w') = w' ≡ w
  Told job s w (gate_refused e, s', w') = w' ≡ w
  Told job s w (client_raised fault, s', w') = w' ≡ w

  Told-IsExplained :
      (job : Job A W) (s : G.State) (w : W) (e : Ending A) (s' : G.State) (w' : W)
      → Told job s w (e, s', w')
      → IsExplained job s w (e, s', w')
  unfolding Told
  Told-IsExplained job s w (submitted a) s' w' h = inr h
  Told-IsExplained job s w submit_raised s' w' h = inr h
  Told-IsExplained job s w (not_keyable e) s' w' h = inl h
  Told-IsExplained job s w no_spec s' w' h = inl h
  Told-IsExplained job s w (gate_refused e) s' w' h = inl h
  Told-IsExplained job s w (client_raised fault) s' w' h = inl h

  ended-Told :
      (job : Job A W) (key seed : String) (o : Option A) (s s' : G.State) (w' w : W)
      → Cleared job s
      → Told job s w (ended sha256 key seed o, s', w')
  unfolding Told
  ended-Told job key seed none s s' w' w h = h
  ended-Told job key seed (some a) s s' w' w h = h

  run_submit-Told :
      (job : Job A W) (key seed : String) (g : Gated (Unit {0})) (s s' : G.State) (w : W)
      → (g ≡ authorized tt → Cleared job s)
      → Told job s w (run_submit nfc sha256 G spec scope run_id job key seed g s' w)
  unfolding run_submit Told
  run_submit-Told job key seed (refused e) s s' w h = refl
  run_submit-Told job key seed (authorized _) s s' w h =
      ended-Told job key seed (job.submit w).0 s s' (job.submit w).1 w (h refl)

  after_declare-Told :
      (job : Job A W) (key seed : String) (a : Attempt Result) (s s' : G.State) (w : W)
      → (Authorizes a → Cleared job s)
      → Told job s w (after_declare nfc sha256 G spec scope run_id job key seed a s' w)
  unfolding after_declare Told
  after_declare-Told job key seed (done res) s s' w h =
      run_submit-Told job key seed (require_fresh_proceed res) s s' w h
  after_declare-Told job key seed (raised fault) s s' w h = refl

  with_spec-Told :
      (job : Job A W) (payload : Bytes) (o : Option String) (s : G.State) (w : W)
      → canonical_identity nfc job.identity ≡ keyed payload
      → spec_hash_for spec job.identity.action_type ≡ o
      → Told job s w (with_spec nfc sha256 G spec scope run_id job payload o s w)
  unfolding with_spec declare_job Told
  with_spec-Told job payload none s w e q = refl
  with_spec-Told job payload (some hash) s w e q =
      let key = derive_key sha256 scope run_id tool_name payload in
      let r = request_for scope key job.nonce hash in
      after_declare-Told job key r.episode_seed (declare sha256 G r s).0 s (declare sha256 G r s).1
        w
        (λ a. record {
          payload = payload;
          hash = hash;
          is_keyed = e;
          has_spec = q;
          achieved = (declare-Authorizes_iff sha256 G r s).0 a;
        })

  with_payload-Told :
      (job : Job A W) (p : Keyed Bytes) (s : G.State) (w : W)
      → canonical_identity nfc job.identity ≡ p
      → Told job s w (with_payload nfc sha256 G spec scope run_id job p s w)
  unfolding with_payload Told
  with_payload-Told job (unkeyable cause) s w e = refl
  with_payload-Told job (keyed payload) s w e =
      with_spec-Told job payload (spec_hash_for spec job.identity.action_type) s w e refl

  pub gate_submission-Told :
      (job : Job A W) (s : G.State) (w : W)
      → Told job s w (gate_submission nfc sha256 G spec scope run_id job s w)
  unfolding gate_submission
  gate_submission-Told job s w =
      with_payload-Told job (canonical_identity nfc job.identity) s w refl

  -- A call of `gate_submission` leaves the caller's world as it was, or the report is keyable, its
  -- action type has a spec hash and the service answered ACHIEVED to the request declared under the
  -- report's key.
  pub gate_submission-IsExplained :
      (job : Job A W) (s : G.State) (w : W)
      → IsExplained job s w (gate_submission nfc sha256 G spec scope run_id job s w)
  gate_submission-IsExplained job s w =
      let x = gate_submission nfc sha256 G spec scope run_id job s w in
      Told-IsExplained job s w x.0 x.1 x.2 (gate_submission-Told job s w)
