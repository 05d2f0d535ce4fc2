-- ===== src/Verifier/Sound.antt =====
-- What `verify_intent` (verifier/pyverifier/verify.py) attests when it answers VERIFIED.
use treasury_intent_controll.Base.{
  ℕ, suc, Bool, true, false, not, ◌&&◌, String, List, [], ◌∷◌, Option, none, some, ◌==◌, eq_iff,
  eqb, eqb_iff, ltb, ◌≡◌, refl, ◌≢◌, ◌↔◌, ◌⊎◌, inl, inr, arith, ◌or_else◌, chain, must_hold,
  must_equal, must_differ,
}
use treasury_intent_controll.Json.Text.{Bytes}
use treasury_intent_controll.Verifier.Encoding.{encode}
use treasury_intent_controll.Verifier.{
  verified, refuted, Reason, Finding, Record, is_trace, is_terminal, is_known, find_if,
  sequence_reason, check_sequence, check_declared, check_types, last_of, check_placement,
  check_last, count_achieved, check_achieved, check_trace, events_of, conclude, trajectory_hash,
  check_hash, check_all, verify_sorted, verify_intent, sort_records,
}

-- The sequence numbers count up from `i`.
abbrev pub Numbered : ℕ → List Record → Type 0
Numbered i [] = Unit
Numbered i (r ∷ srt) = (r.intent_seq ≡ i) × Numbered (suc i) srt

abbrev pub AllKnown : List Record → Type 0
AllKnown [] = Unit
AllKnown (r ∷ srt) = (is_known r.type ≡ true) × AllKnown srt

-- No record but the last carries a hash.
abbrev pub AllBare : Record → List Record → Type 0
AllBare r [] = Unit
AllBare r (x ∷ srt) = (r.trajectory_hash ≡ "") × AllBare x srt

-- A sound history of one intent, in the order of its sequence numbers.
abbrev pub Sound : (Bytes → String) → String → Record → List Record → Type 0
Sound sha256 intent_id first others =
    let last = last_of first others in
    let achieved = count_achieved (first ∷ others) in
    Numbered 0 (first ∷ others)
    × (((first.type ≡ "DECLARED") × (first.detail ≡ intent_id))
        × (AllKnown (first ∷ others)
            × (AllBare first others
                × (((last.trajectory_hash ≢ "") × (is_terminal last.type ≡ true))
                    × (((achieved ≡ 0) ⊎ ((achieved ≡ 1) × (last.type ≡ "ACHIEVED")))
                        × (((is_trace last.type ≡ false)
                              ⊎ ((last.idempotency_key ≢ "") × (last.intent_spec_hash ≢ "")))
                            × (sha256 (encode (events_of (first ∷ others)))
                                ≡ last.trajectory_hash)))))))

check_sequence_iff :
    (i previous : ℕ) (srt : List Record) → (check_sequence i previous srt ≡ none) ↔ Numbered i srt
unfolding check_sequence
check_sequence_iff i previous [] = (λ e. tt, λ e. refl)
check_sequence_iff i previous (r ∷ srt) =
    let head = must_hold (eqb r.intent_seq i) (refuted, sequence_reason i previous r.intent_seq) in
    let number = eqb_iff r.intent_seq i in
    chain (find_if (not (eqb r.intent_seq i)) refuted (sequence_reason i previous r.intent_seq))
      (check_sequence (suc i) r.intent_seq srt) (λ e. number.0 (head.0 e), λ e. head.1 (number.1 e))
      (check_sequence_iff (suc i) r.intent_seq srt)

check_types_iff : (srt : List Record) → (check_types srt ≡ none) ↔ AllKnown srt
unfolding check_types
check_types_iff [] = (λ e. tt, λ e. refl)
check_types_iff (r ∷ srt) = chain _ _ (must_hold (is_known r.type) _) (check_types_iff srt)

check_placement_iff :
    (r : Record) (srt : List Record) → (check_placement r srt ≡ none) ↔ AllBare r srt
unfolding check_placement
check_placement_iff r [] = (λ e. tt, λ e. refl)
check_placement_iff r (x ∷ srt) =
    chain _ _ (must_equal r.trajectory_hash "" _) (check_placement_iff x srt)

check_achieved_iff :
    (n : ℕ) (last : Record)
    → (check_achieved n last ≡ none) ↔ ((n ≡ 0) ⊎ ((n ≡ 1) × (last.type ≡ "ACHIEVED")))
unfolding check_achieved
check_achieved_iff n last = by_test n (last.type == "ACHIEVED") (eq_iff last.type "ACHIEVED")
  where
    by_test :
        {P : Type 0} (n : ℕ) (b : Bool)
        → (b ≡ true) ↔ P
        → ((find_if (ltb 1 n) refuted Reason.duplicate_achieved
              or_else find_if (eqb n 1 && not b) refuted Reason.achieved_not_terminal)
            ≡ none)
          ↔ ((n ≡ 0) ⊎ ((n ≡ 1) × P))
    by_test n b h = ground arith

check_trace_iff :
    (last : Record)
    → (check_trace last ≡ none) ↔ (
        (is_trace last.type ≡ false) ⊎ ((last.idempotency_key ≢ "") × (last.intent_spec_hash ≢ "")))
unfolding check_trace
check_trace_iff last =
    by_test (is_trace last.type) (last.idempotency_key == "") (last.intent_spec_hash == "")
      (must_differ last.idempotency_key ""
        (refuted, Reason.trace_field_missing last.type "idempotency_key"))
      (must_differ last.intent_spec_hash ""
        (refuted, Reason.trace_field_missing last.type "intent_spec_hash"))
  where
    by_test :
        {P Q : Type 0} (t a b : Bool)
        → (find_if a refuted (Reason.trace_field_missing last.type "idempotency_key") ≡ none) ↔ P
        → (find_if b refuted (Reason.trace_field_missing last.type "intent_spec_hash") ≡ none) ↔ Q
        → ((find_if (t && a) refuted (Reason.trace_field_missing last.type "idempotency_key")
              or_else find_if
                  (t && b)
                  refuted
                  (Reason.trace_field_missing last.type "intent_spec_hash"))
            ≡ none)
          ↔ ((t ≡ false) ⊎ (P × Q))
    by_test false a b h k = (λ e. inl refl, λ e. refl)
    by_test true a b h k =
        let c = chain (find_if a refuted _) (find_if b refuted _) h k in
        (λ e. inr (c.0 e), λ s. elim s [ inl q ↦ cc q | inr p ↦ c.1 p ])

conclude_iff : (o : Option Finding) → (conclude o ≡ verified) ↔ (o ≡ none)
unfolding conclude
conclude_iff none = (λ e. refl, λ e. refl)
conclude_iff (some f) = (λ e. cc e, λ e. cc e)

-- There is a record, and the sorted records are a sound history.
abbrev pub IsSound : (Bytes → String) → String → List Record → Type 0
IsSound sha256 intent_id [] = ⊥
IsSound sha256 intent_id (first ∷ others) = Sound sha256 intent_id first others

check_declared_iff :
    (intent_id : String) (first : Record)
    → (check_declared intent_id first ≡ none)
      ↔ ((first.type ≡ "DECLARED") × (first.detail ≡ intent_id))
unfolding check_declared
check_declared_iff intent_id first =
    chain _ _ (must_equal first.type "DECLARED" _) (must_equal first.detail intent_id _)

check_last_iff :
    (last : Record)
    → (check_last last ≡ none) ↔ ((last.trajectory_hash ≢ "") × (is_terminal last.type ≡ true))
unfolding check_last
check_last_iff last =
    chain _ _ (must_differ last.trajectory_hash "" _) (must_hold (is_terminal last.type) _)

module _ (sha256 : Bytes → String) where
  check_hash_iff :
      (committed : String) (srt : List Record)
      → (check_hash sha256 committed srt ≡ none) ↔ (sha256 (encode (events_of srt)) ≡ committed)
  unfolding check_hash trajectory_hash
  check_hash_iff committed srt = must_equal (sha256 (encode (events_of srt))) committed _

  check_all_iff :
      (intent_id : String) (first : Record) (others : List Record)
      → (check_all sha256 intent_id first others ≡ none) ↔ Sound sha256 intent_id first others
  unfolding check_all
  check_all_iff intent_id first others =
      let last = last_of first others in
      let srt = first ∷ others in
      chain (check_sequence 0 0 srt) _ (check_sequence_iff 0 0 srt) (
        chain (check_declared intent_id first) _ (check_declared_iff intent_id first) (
          chain (check_types srt) _ (check_types_iff srt) (
            chain (check_placement first others) _ (check_placement_iff first others) (
              chain (check_last last) _ (check_last_iff last) (
                chain (check_achieved (count_achieved srt) last) _
                  (check_achieved_iff (count_achieved srt) last)
                  (chain (check_trace last) _ (check_trace_iff last)
                    (check_hash_iff last.trajectory_hash srt)))))))

  sorted_iff :
      (intent_id : String) (srt : List Record)
      → (verify_sorted sha256 intent_id srt ≡ verified) ↔ IsSound sha256 intent_id srt
  unfolding verify_sorted
  sorted_iff intent_id [] = (λ e. cc e, λ e. absurd e)
  sorted_iff intent_id (first ∷ others) =
      let c = conclude_iff (check_all sha256 intent_id first others) in
      let s = check_all_iff intent_id first others in (λ e. s.0 (c.0 e), λ e. c.1 (s.1 e))

  -- An intent is VERIFIED exactly when its records, by sequence number, count up from 0 without gap or
  -- duplicate, start with a DECLARED that names the intent, have known types, carry one hash, on the
  -- last record, which is terminal, have at most one ACHIEVED, which is then the last, carry a key and
  -- a spec hash where the last is a trace, and hash to what the last record commits to.
  pub verify_intent-verified_iff :
      (intent_id : String) (recs : List Record)
      → (verify_intent sha256 intent_id recs ≡ verified)
        ↔ IsSound sha256 intent_id (sort_records recs)
  unfolding verify_intent
  verify_intent-verified_iff intent_id recs = sorted_iff intent_id (sort_records recs)
