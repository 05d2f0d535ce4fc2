-- ===== src/Verifier/Feed.antt =====
-- verifier/pyverifier/verify.py: parse_feed and verify, the checks across the whole feed. `json.loads`
-- is a parameter, from a line's code points to what it decodes to.
pub mod Report
use treasury_intent_controll.Base.{
  contains, ℕ, suc, zero, Bool, true, false, not, ◌&&◌, ◌||◌, String, List, [], ◌∷◌, ◌++◌, Option,
  none, some, ◌==◌, eqb, leb, lookup, if◌then◌else◌,
}
use treasury_intent_controll.Json.Text.{Bytes}
use treasury_intent_controll.Verifier.{
  Failure, refuted, unverifiable, Reason, Finding, Verdict, verified, found, Record,
  unparseable_line, bad_record, seq_gap, duplicate_achieved_key, verify_intent,
}

-- A decoded JSON value, as the shape check tells values apart.
pub data Value : Type 0 where
  text : String → Value
  natural negative : ℕ → Value
  boolean : Bool → Value
  other : Value

pub data Loaded : Type 0 where
  object : List (String × Value) → Loaded
  not_object : Loaded

infixl 5 ◌>>=◌
abbrev ◌>>=◌ {ℓ κ} : {A : Type ℓ} {B : Type κ} → Option A → (A → Option B) → Option B
none >>= f = none
some a >>= f = f a

-- An integer of at least `low`; a boolean is none.
unfoldable pub read_integer : ℕ → Option Value → Option ℕ
read_integer low (some (natural n)) = if leb low n then some n else none
read_integer low _ = none

-- A text that is there and not empty.
unfoldable pub read_name : Option Value → Option String
read_name (some (text s)) = if s == "" then none else some s
read_name _ = none

unfoldable pub read_optional : Option Value → Option String
read_optional none = some ""
read_optional (some (text s)) = some s
read_optional (some _) = none

-- `_shape_ok`, with the record that a shape-valid object is read as.
unfoldable pub shape_ok : Loaded → Option Record
unfolding read_integer read_name read_optional lookup
shape_ok not_object = none
shape_ok (object fields) = do
  seq ← read_integer 1 (lookup "seq" fields)
  intent_seq ← read_integer 0 (lookup "intent_seq" fields)
  intent_id ← read_name (lookup "intent_id" fields)
  type ← read_name (lookup "type" fields)
  detail ← read_optional (lookup "detail" fields)
  key ← read_optional (lookup "idempotency_key" fields)
  artifact_hash ← read_optional (lookup "rule_artifact_hash" fields)
  spec_hash ← read_optional (lookup "intent_spec_hash" fields)
  hash ← read_optional (lookup "trajectory_hash" fields)
  some (record {
    seq = seq;
    intent_seq = intent_seq;
    intent_id = intent_id;
    type = type;
    detail = detail;
    idempotency_key = key;
    intent_spec_hash = spec_hash;
    trajectory_hash = hash;
  })

abbrev pub push_code : ℕ → List Bytes → List Bytes
push_code c [] = (c ∷ []) ∷ []
push_code c (line ∷ lines) = (c ∷ line) ∷ lines

-- `split("\n")`.
unfoldable pub split_lines : Bytes → List Bytes
split_lines [] = [] ∷ []
split_lines (c ∷ s) =
    let lines = split_lines s in if eqb c b'\n' then [] ∷ lines else push_code c lines

abbrev pub put_code : ℕ → Bytes → Bytes
put_code c [] = if eqb c b'\n' || eqb c b'\r' then [] else c ∷ []
put_code c (x ∷ s) = c ∷ x ∷ s

-- `rstrip("\r\n")`.
unfoldable pub rstrip : Bytes → Bytes
rstrip [] = []
rstrip (c ∷ s) = put_code c (rstrip s)

pub data Line : Type 0 where
  empty_line unparseable misshapen : Line
  shaped : Record → Line

abbrev pub with_shape : Option Record → Line
with_shape none = misshapen
with_shape (some r) = shaped r

abbrev pub loaded_line : Option Loaded → Line
loaded_line none = unparseable
loaded_line (some l) = with_shape (shape_ok l)

abbrev pub is_empty {ℓ} : {A : Type ℓ} → List A → Bool
is_empty [] = true
is_empty (x ∷ l) = false

abbrev pub Parsed : Type 0
Parsed = List Record × List Finding

-- A torn last line is tolerated.
unfoldable pub add_line : Bool → ℕ → Line → Parsed → Parsed
add_line torn_tail lineno empty_line rest = rest
add_line true lineno unparseable rest = rest
add_line false lineno unparseable rest = (rest.0, (unverifiable, unparseable_line lineno) ∷ rest.1)
add_line torn_tail lineno misshapen rest = (rest.0, (refuted, bad_record lineno) ∷ rest.1)
add_line torn_tail lineno (shaped r) rest = (r ∷ rest.0, rest.1)

-- The first break of the global sequence, and what it reports.
unfoldable pub find_seq_gap : ℕ → List Record → List Finding
find_seq_gap i [] = []
find_seq_gap i (r ∷ recs) =
    let later = find_seq_gap (suc i) recs in
    if eqb r.seq i then later else (refuted, seq_gap r.seq i) ∷ []

abbrev pub duplicate_finding : Bool → String → List Finding → List Finding
duplicate_finding true key rest = (refuted, duplicate_achieved_key key) ∷ rest
duplicate_finding false key rest = rest

-- Whether a record takes an idempotency key.
abbrev pub takes_key : Record → Bool
takes_key r = r.type == "ACHIEVED" && not (r.idempotency_key == "")

unfoldable pub find_duplicates : List String → List Record → List Finding
find_duplicates seen [] = []
find_duplicates seen (r ∷ recs) =
    let skipped = find_duplicates seen recs in
    let taken = find_duplicates (r.idempotency_key ∷ seen) recs in
    if takes_key r
    then duplicate_finding (contains seen r.idempotency_key) r.idempotency_key taken
    else skipped

abbrev pub empty_finding : List Record → List Finding
empty_finding [] = (unverifiable, Reason.empty) ∷ []
empty_finding (r ∷ recs) = []

abbrev pub Groups : Type 0
Groups = List (String × List Record)

-- `by_intent.setdefault(id, []).append(r)`.
unfoldable pub append_to : Record → Groups → Groups
append_to r [] = (r.intent_id, r ∷ []) ∷ []
append_to r ((id, recs) ∷ groups) =
    let later = append_to r groups in
    if id == r.intent_id then (id, recs ++ (r ∷ [])) ∷ groups else (id, recs) ∷ later

unfoldable pub group_records : Groups → List Record → Groups
unfolding append_to
group_records groups [] = groups
group_records groups (r ∷ recs) = group_records (append_to r groups) recs

-- The overall verdict so far; none is VERIFIED.
unfoldable pub worse : Option Failure → Failure → Option Failure
worse overall refuted = some refuted
worse (some refuted) unverifiable = some refuted
worse _ unverifiable = some unverifiable

unfoldable pub worst_finding : Option Failure → List Finding → Option Failure
unfolding worse
worst_finding overall [] = overall
worst_finding overall (f ∷ findings) = worst_finding (worse overall f.0) findings

abbrev pub worse_verdict : Option Failure → Verdict → Option Failure
worse_verdict overall verified = overall
worse_verdict overall (found f) = worse overall f.0

unfoldable pub worst_verdict : Option Failure → List (String × Verdict) → Option Failure
unfolding worse
worst_verdict overall [] = overall
worst_verdict overall (x ∷ intents) = worst_verdict (worse_verdict overall x.1) intents

pub record FeedReport : Type 0 where
  pub feed : List Finding
  pub intents : List (String × Verdict)
  pub overall : Option Failure

module _ (loads : Bytes → Option Loaded) (sha256 : Bytes → String) where
  unfoldable pub read_line : Bytes → Line
  unfolding rstrip shape_ok
  read_line line =
      let trimmed = rstrip line in
      if is_empty trimmed then empty_line else loaded_line (loads trimmed)

  unfoldable pub parse_lines : ℕ → List Bytes → Parsed
  unfolding add_line read_line
  parse_lines lineno [] = ([], [])
  parse_lines lineno (line ∷ lines) =
      add_line (is_empty lines) lineno (read_line line) (parse_lines (suc lineno) lines)

  -- From the code points of the decoded file.
  unfoldable pub parse_feed : Bytes → Parsed
  unfolding parse_lines split_lines
  parse_feed raw = parse_lines 1 (split_lines raw)

  unfoldable pub verify_groups : Groups → List (String × Verdict)
  unfolding verify_intent
  verify_groups [] = []
  verify_groups ((id, recs) ∷ groups) = (id, verify_intent sha256 id recs) ∷ verify_groups groups

  unfoldable pub feed_findings : Parsed → List Finding
  unfolding find_seq_gap find_duplicates
  feed_findings (recs, findings) =
      findings ++ (empty_finding recs ++ (find_seq_gap 1 recs ++ find_duplicates [] recs))

  unfoldable pub report : Parsed → FeedReport
  unfolding feed_findings verify_groups group_records worst_finding worst_verdict
  report parsed =
      let feed = feed_findings parsed in
      let intents = verify_groups (group_records [] parsed.0) in
      record {
        feed = feed;
        intents = intents;
        overall = worst_verdict (worst_finding none feed) intents;
      }

  unfoldable pub verify : Bytes → FeedReport
  unfolding report parse_feed
  verify raw = report (parse_feed raw)
