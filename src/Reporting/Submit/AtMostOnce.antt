-- ===== src/Reporting/Submit/AtMostOnce.antt =====
-- How often `gate_batch` (declarant/pydeclarant/reporting_adapter.py) runs the `submit` of one report
-- key, over a service that reserves keys.
use treasury_intent_controll.Base.{
  suc, ◌≤◌, Bool, true, false, String, List, [], ◌∷◌, Option, none, some, ◌≡◌, refl, sym, ap, subst,
  ◌⊎◌, inl, inr, ◌==◌, eq_iff, eq_refl, Bool-cases, count, arith,
}
use treasury_intent_controll.Json.Text.{Bytes}
use treasury_intent_controll.Declare.Request.{Request, derive_key}
use treasury_intent_controll.Client.{Gate, Result, Attempt, done, raised, declare}
use treasury_intent_controll.Client.Reserves.{Reserves, declare_keeps, declare_reserves}
use treasury_intent_controll.Gating.{Gated, authorized, refused, require_fresh_proceed}
use treasury_intent_controll.Gating.Fresh.{Authorizes}
use treasury_intent_controll.Reporting.{
  ReportIdentity, Keyed, keyed, unkeyable, canonical_identity, report_key, tool_name,
}
use treasury_intent_controll.Reporting.Submit.{
  SpecMapping, spec_hash_for, Ending, Job, run_submit, after_declare, request_for, declare_job,
  with_spec, with_payload, gate_submission, batch_more, gate_batch, propagates,
}

module _ (G : Gate) (L : Reserves G) where
  -- Each key stands in the log at most once, and then it is reserved.
  abbrev pub IsCovered : G.State → List String → Type 0
  IsCovered s log = (k : String) → (count k log ≡ 0) ⊎ ((count k log ≡ 1) × (L.reserved s k ≡ true))

  covered_free :
      (s : G.State) (log : List String) (k : String)
      → IsCovered s log
      → L.reserved s k ≡ false
      → count k log ≡ 0
  covered_free s log k h f = elim (h k) [ inl z ↦ z | inr o ↦ cc (o.1, f) ]

  IsCovered-later :
      (s s' : G.State) (log : List String)
      → ((k : String) → L.reserved s k ≡ true → L.reserved s' k ≡ true)
      → IsCovered s log
      → IsCovered s' log
  IsCovered-later s s' log keep h k = elim (h k) [ inl z ↦ inl z | inr o ↦ inr (o.0, keep k o.1) ]

  IsCovered-logged :
      (s' : G.State) (key : String) (log : List String)
      → IsCovered s' log
      → count key log ≡ 0
      → L.reserved s' key ≡ true
      → IsCovered s' (key ∷ log)
  IsCovered-logged s' key log h z r k = elim (Bool-cases (key == k)) [
    | inl e ↦
        subst
          (λ (j : String).
            (count j (key ∷ log) ≡ 0) ⊎ ((count j (key ∷ log) ≡ 1) × (L.reserved s' j ≡ true)))
          ((eq_iff key k).0 e) (inr (rw (eq_refl key) (ap suc z), r))
    | inr e ↦ rw e (h k)
  ]

  -- After a declaration that lets its call run, the log may take the key.
  declare-IsCovered :
      (sha256 : Bytes → String) (r : Request) (s : G.State) (log : List String)
      → IsCovered s log
      → Authorizes (declare sha256 G r s).0
      → IsCovered (declare sha256 G r s).1 (r.idempotency_key ∷ log)
  declare-IsCovered sha256 r s log h a =
      let held = declare_reserves sha256 G L r s a in
      IsCovered-logged (declare sha256 G r s).1 r.idempotency_key log
        (IsCovered-later s (declare sha256 G r s).1 log (λ k. declare_keeps sha256 G L r k s) h)
        (covered_free s log r.idempotency_key h held.0) held.1

  at_most_once : (s : G.State) (log : List String) (k : String) → IsCovered s log → count k log ≤ 1
  at_most_once s log k h = elim (h k) [ inl z ↦ omega arith | inr o ↦ omega (arith, o.0) ]

keyed_report :
    (nfc : String → String) (sha256 : Bytes → String) (scope run_id : String)
    (identity : ReportIdentity) (payload : Bytes)
    → canonical_identity nfc identity ≡ keyed payload
    → report_key nfc sha256 identity scope run_id
      ≡ keyed (derive_key sha256 scope run_id tool_name payload)
unfolding report_key
keyed_report nfc sha256 scope run_id identity payload e = rw e

module _ {A : Type 0} (nfc : String → String) (sha256 : Bytes → String) (G : Gate) (L : Reserves G)
    (spec : SpecMapping) (scope run_id : String) where
  -- A `submit` that writes the report's key into the log each time it runs, whether it then returns
  -- or raises.
  abbrev pub LogsKey : Job A (List String) → Type 0
  LogsKey job =
      (key : String) (log : List String)
      → report_key nfc sha256 job.identity scope run_id ≡ keyed key
      → (job.submit log).1 ≡ key ∷ log

  abbrev pub AllLog : List (Job A (List String)) → Type 0
  AllLog [] = Unit
  AllLog (job ∷ jobs) = LogsKey job × AllLog jobs

  -- The world after a call: the log is covered by the reservations.
  record Safe (x : Ending A × G.State × List String) : Type 0 where
    safe : IsCovered G L x.1 x.2

  run_submit-Safe :
      (job : Job A (List String)) (key seed : String) (g : Gated (Unit {0})) (s : G.State)
      (log : List String)
      → IsCovered G L s log
      → (g ≡ authorized tt → (job.submit log).1 ≡ key ∷ log)
      → (g ≡ authorized tt → IsCovered G L s (key ∷ log))
      → Safe (run_submit nfc sha256 G spec scope run_id job key seed g s log)
  unfolding run_submit
  run_submit-Safe job key seed (refused e) s log h logs free = record { safe = h }
  run_submit-Safe job key seed (authorized tt) s log h logs free = record {
    safe = subst (λ (w : List String). IsCovered G L s w) (sym (logs refl)) (free refl);
  }

  after_declare-Safe :
      (job : Job A (List String)) (key seed : String) (a : Attempt Result) (s : G.State)
      (log : List String)
      → IsCovered G L s log
      → (job.submit log).1 ≡ key ∷ log
      → (Authorizes a → IsCovered G L s (key ∷ log))
      → Safe (after_declare nfc sha256 G spec scope run_id job key seed a s log)
  unfolding after_declare
  after_declare-Safe job key seed (done res) s log h logs free =
      run_submit-Safe job key seed (require_fresh_proceed res) s log h (λ e. logs) free
  after_declare-Safe job key seed (raised fault) s log h logs free = record { safe = h }

  declare_job-Safe :
      (job : Job A (List String)) (payload : Bytes) (hash : String) (s : G.State)
      (log : List String)
      → LogsKey job
      → canonical_identity nfc job.identity ≡ keyed payload
      → IsCovered G L s log
      → Safe (declare_job nfc sha256 G spec scope run_id job payload hash s log)
  unfolding declare_job
  declare_job-Safe job payload hash s log logs e h =
      let key = derive_key sha256 scope run_id tool_name payload in
      let r = request_for scope key job.nonce hash in
      after_declare-Safe job key r.episode_seed (declare sha256 G r s).0 (declare sha256 G r s).1
        log
        (IsCovered-later G L s (declare sha256 G r s).1 log (λ k. declare_keeps sha256 G L r k s) h)
        (logs key log (keyed_report nfc sha256 scope run_id job.identity payload e))
        (declare-IsCovered G L sha256 r s log h)

  with_spec-Safe :
      (job : Job A (List String)) (payload : Bytes) (o : Option String) (s : G.State)
      (log : List String)
      → LogsKey job
      → canonical_identity nfc job.identity ≡ keyed payload
      → IsCovered G L s log
      → Safe (with_spec nfc sha256 G spec scope run_id job payload o s log)
  unfolding with_spec
  with_spec-Safe job payload none s log logs e h = record { safe = h }
  with_spec-Safe job payload (some hash) s log logs e h =
      declare_job-Safe job payload hash s log logs e h

  with_payload-Safe :
      (job : Job A (List String)) (p : Keyed Bytes) (s : G.State) (log : List String)
      → LogsKey job
      → canonical_identity nfc job.identity ≡ p
      → IsCovered G L s log
      → Safe (with_payload nfc sha256 G spec scope run_id job p s log)
  unfolding with_payload
  with_payload-Safe job (unkeyable cause) s log logs e h = record { safe = h }
  with_payload-Safe job (keyed payload) s log logs e h =
      with_spec-Safe job payload (spec_hash_for spec job.identity.action_type) s log logs e h

  gate_submission-Safe :
      (job : Job A (List String)) (s : G.State) (log : List String)
      → LogsKey job
      → IsCovered G L s log
      → Safe (gate_submission nfc sha256 G spec scope run_id job s log)
  unfolding gate_submission
  gate_submission-Safe job s log logs h =
      with_payload-Safe job (canonical_identity nfc job.identity) s log logs refl h

  batch_more_safe :
      (b : Bool) (outcome : ReportIdentity × Ending A) (s : G.State) (log : List String)
      (rest : Option (List (ReportIdentity × Ending A)) × G.State × List String)
      → IsCovered G L s log
      → IsCovered G L rest.1 rest.2
      → IsCovered G L (batch_more b outcome s log rest).1 (batch_more b outcome s log rest).2
  unfolding batch_more
  batch_more_safe true outcome s log rest h k = h
  batch_more_safe false outcome s log rest h k = k

  -- What a batch leaves, whether it ran through or an exception stopped it.
  gate_batch-IsCovered :
      (jobs : List (Job A (List String))) (s : G.State) (log : List String)
      → AllLog jobs
      → IsCovered G L s log
      → IsCovered G L
          (gate_batch nfc sha256 G spec scope run_id jobs s log).1
          (gate_batch nfc sha256 G spec scope run_id jobs s log).2
  unfolding gate_batch
  gate_batch-IsCovered [] s log logs h = h
  gate_batch-IsCovered (job ∷ jobs) s log logs h =
      let x = gate_submission nfc sha256 G spec scope run_id job s log in
      let safe = (gate_submission-Safe job s log logs.0 h).safe in
      batch_more_safe (propagates x.0) (job.identity, x.0) x.1 x.2
        (gate_batch nfc sha256 G spec scope run_id jobs x.1 x.2) safe
        (gate_batch-IsCovered jobs x.1 x.2 logs.1 safe)

  -- Over a service that reserves keys, and with jobs whose `submit` logs its report key each time
  -- it runs, a batch from an empty log submits every key at most once, whatever the jobs, their
  -- duplicates and the answers are, also when an exception stops the batch.
  pub count-gate_batch-le :
      (jobs : List (Job A (List String))) (s : G.State) (k : String)
      → AllLog jobs
      → count k (gate_batch nfc sha256 G spec scope run_id jobs s []).2 ≤ 1
  count-gate_batch-le jobs s k logs =
      at_most_once G L (gate_batch nfc sha256 G spec scope run_id jobs s []).1
        (gate_batch nfc sha256 G spec scope run_id jobs s []).2 k
        (gate_batch-IsCovered jobs s [] logs (λ j. inl refl))
