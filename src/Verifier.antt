-- ===== src/Verifier.antt =====
-- verifier/pyverifier/verify.py: the checks of one intent's records, and the encoding that the
-- trajectory hash commits to. A verdict comes with the reason that is printed after it.
pub mod Commitment
pub mod Main
pub mod Encoding
pub mod Sound
pub mod Feed
pub mod Tests
use treasury_intent_controll.Base.{
  flag_if, ◌or_else◌, ℕ, suc, zero, Bool, true, false, not, ◌&&◌, ◌||◌, String, List, [], ◌∷◌,
  Option, none, some, ◌==◌, eqb, ltb, if◌then◌else◌,
}
use treasury_intent_controll.Json.Text.{Bytes}
use treasury_intent_controll.Verifier.Encoding.{Event, encode}

pub data Failure : Type 0 where
  refuted unverifiable : Failure

-- The closed reason vocabulary, with what each reason names.
pub data Reason : Type 0 where
  empty missing_declared declared_detail_mismatch no_terminal_hash : Reason
  duplicate_achieved achieved_not_terminal hash_mismatch no_record : Reason
  unparseable_line bad_record intent_seq_dup hash_on_nonterminal : ℕ → Reason
  seq_gap intent_seq_gap : ℕ → ℕ → Reason
  duplicate_achieved_key unknown_event_type terminal_type : String → Reason
  trace_field_missing : String → String → Reason

abbrev pub Finding : Type 0
Finding = Failure × Reason

-- VERIFIED, which comes with no reason, or a finding.
pub data Verdict : Type 0 where
  verified : Verdict
  found : Finding → Verdict

-- A record that has passed the shape check. An optional text that is absent reads as "".
pub record Record : Type 0 where
  pub seq : ℕ
  pub intent_seq : ℕ
  pub intent_id : String
  pub type : String
  pub detail : String
  pub idempotency_key : String
  pub intent_spec_hash : String
  pub trajectory_hash : String

abbrev pub is_trace : String → Bool
is_trace t = t == "ACHIEVED" || t == "SHADOW_RECORDED"

abbrev pub is_terminal : String → Bool
is_terminal t =
    is_trace t || t == "FAILED" || t == "FAILED_AT_DISPATCH" || t == "UNEVALUABLE" || t == "REVOKED"

abbrev pub is_known : String → Bool
is_known t =
    is_terminal t
    || t == "DECLARED"
    || t == "RESOLVING"
    || t == "ACTIVE"
    || t == "VERIFYING"
    || t == "SCORED"
    || t == "RECHECK"
    || t == "IDEMPOTENCY_RESERVED"

-- `sorted` by intent_seq, which is stable.
unfoldable pub insert_record : Record → List Record → List Record
insert_record r [] = r ∷ []
insert_record r (x ∷ srt) =
    if ltb x.intent_seq r.intent_seq then x ∷ insert_record r srt else r ∷ x ∷ srt

unfoldable pub sort_records : List Record → List Record
unfolding insert_record
sort_records [] = []
sort_records (r ∷ recs) = insert_record r (sort_records recs)

-- A check that fails returns; the first finding wins.
abbrev pub find_if : Bool → Failure → Reason → Option Finding
find_if b v r = flag_if b (v, r)

abbrev pub sequence_reason : ℕ → ℕ → ℕ → Reason
sequence_reason i previous seq =
    if ltb 0 i && eqb seq previous then intent_seq_dup seq else intent_seq_gap seq i

-- `srt` from position `i` on, behind a record with the sequence number `previous`.
unfoldable pub check_sequence : ℕ → ℕ → List Record → Option Finding
check_sequence i previous [] = none
check_sequence i previous (r ∷ srt) =
    find_if (not (eqb r.intent_seq i)) refuted (sequence_reason i previous r.intent_seq)
    or_else check_sequence (suc i) r.intent_seq srt

unfoldable pub check_declared : String → Record → Option Finding
check_declared intent_id first =
    find_if (not (first.type == "DECLARED")) refuted missing_declared
    or_else find_if (not (first.detail == intent_id)) refuted declared_detail_mismatch

unfoldable pub check_types : List Record → Option Finding
check_types [] = none
check_types (r ∷ srt) =
    find_if (not (is_known r.type)) unverifiable (unknown_event_type r.type) or_else check_types srt

-- `srt[-1]` of a first record and the others.
abbrev pub last_of : Record → List Record → Record
last_of r [] = r
last_of r (x ∷ srt) = last_of x srt

-- `srt[:-1]`.
unfoldable pub check_placement : Record → List Record → Option Finding
check_placement r [] = none
check_placement r (x ∷ srt) =
    find_if (not (r.trajectory_hash == "")) refuted (hash_on_nonterminal r.intent_seq)
    or_else check_placement x srt

unfoldable pub check_last : Record → Option Finding
check_last last =
    find_if (last.trajectory_hash == "") unverifiable no_terminal_hash
    or_else find_if (not (is_terminal last.type)) refuted (terminal_type last.type)

abbrev pub count_achieved : List Record → ℕ
count_achieved [] = 0
count_achieved (r ∷ srt) = let n = count_achieved srt in if r.type == "ACHIEVED" then suc n else n

unfoldable pub check_achieved : ℕ → Record → Option Finding
check_achieved achieved last =
    find_if (ltb 1 achieved) refuted duplicate_achieved
    or_else find_if (eqb achieved 1 && not (last.type == "ACHIEVED")) refuted achieved_not_terminal

unfoldable pub check_trace : Record → Option Finding
check_trace last =
    find_if (is_trace last.type && last.idempotency_key == "") refuted
      (trace_field_missing last.type "idempotency_key")
    or_else find_if (is_trace last.type && last.intent_spec_hash == "") refuted
        (trace_field_missing last.type "intent_spec_hash")

abbrev pub event_of : Record → Event
event_of r = record { intent_seq = r.intent_seq; type = r.type; detail = r.detail }

abbrev pub events_of : List Record → List Event
events_of [] = []
events_of (r ∷ srt) = event_of r ∷ events_of srt

unfoldable pub conclude : Option Finding → Verdict
conclude none = verified
conclude (some f) = found f

module _ (sha256 : Bytes → String) where
  unfoldable pub trajectory_hash : List Record → String
  unfolding encode
  trajectory_hash srt = sha256 (encode (events_of srt))

  unfoldable pub check_hash : String → List Record → Option Finding
  unfolding trajectory_hash
  check_hash committed srt = find_if (not (trajectory_hash srt == committed)) refuted hash_mismatch

  -- The checks in their fixed order.
  unfoldable pub check_all : String → Record → List Record → Option Finding
  unfolding check_sequence check_declared check_types check_placement check_last check_achieved
      check_trace check_hash
  check_all intent_id first others =
      let last = last_of first others in
      check_sequence 0 0 (first ∷ others)
      or_else check_declared intent_id first
      or_else check_types (first ∷ others)
      or_else check_placement first others
      or_else check_last last
      or_else check_achieved (count_achieved (first ∷ others)) last
      or_else check_trace last
      or_else check_hash last.trajectory_hash (first ∷ others)

  -- On no records `srt[0]` would raise; `verify` groups none such.
  unfoldable pub verify_sorted : String → List Record → Verdict
  unfolding check_all conclude
  verify_sorted intent_id [] = found (unverifiable, no_record)
  verify_sorted intent_id (first ∷ others) = conclude (check_all intent_id first others)

  unfoldable pub verify_intent : String → List Record → Verdict
  unfolding verify_sorted sort_records
  verify_intent intent_id recs = verify_sorted intent_id (sort_records recs)
