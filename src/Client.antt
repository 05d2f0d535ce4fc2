-- ===== src/Client.antt =====
-- declarant/pydeclarant/client.py over an abstract gate service. The service keeps a state of its
-- own; a POST and a GET each answer and move it on. The HTTP library and the JSON decoder are seen
-- through what they hand back: a status with a decoded body, or the exception that was raised.
pub mod Decision
pub mod Position
pub mod Calls
pub mod Reserves
pub mod Double
pub mod Poll
pub mod Tests
use treasury_intent_controll.Base.{
  ℕ, Bool, true, false, not, String, List, [], ◌∷◌, Option, none, some, ◌==◌, eqb, ltb,
  if◌then◌else◌,
}
use treasury_intent_controll.Json.Text.{Bytes}
use treasury_intent_controll.Declare.{
  Class, sdk_bug, unknown, indeterminate, Classified, FeedRecord, classify, classify_feed_record,
  get_text,
}
use treasury_intent_controll.Declare.Request.{Request, marshal_request, intent_id}

-- A decoded terminal: the two fields that are read, where present.
pub record Terminal : Type 0 where
  pub terminal : Option String
  pub reason : Option String

-- The body of a 200 answer to the declaration.
pub data TerminalBody : Type 0 where
  not_json not_object : TerminalBody
  decoded : Terminal → TerminalBody

-- `_OPENER.open` on the POST: a response, an HTTPError (a declined redirect too), or another
-- exception of the transport.
pub data PostReply : Type 0 where
  answered : ℕ → TerminalBody → PostReply
  http_error : ℕ → PostReply
  unreachable : PostReply

-- The body of an answer to the feed GET; `events` may be absent.
pub data FeedBody : Type 0 where
  not_json not_object : FeedBody
  events : Option (List FeedRecord) → FeedBody

-- `_OPENER.open` on the GET and the reading of its body: a response, an HTTPError, a URLError or
-- OSError, or an `http.client.HTTPException`, which is neither.
pub data FeedReply : Type 0 where
  answered : ℕ → FeedBody → FeedReply
  http_error : ℕ → FeedReply
  unreachable malformed : FeedReply

-- Exceptions, by what the callers' handlers tell apart.
pub data Fault : Type 0 where
  transport_fault protocol_fault decode_fault attribute_fault : Fault
  runtime_fault : ℕ → Fault

pub data Attempt {ℓ} (A : Type ℓ) : Type ℓ where
  done : A → Attempt A
  raised : Fault → Attempt A

pub record Gate : Type 1 where
  pub State : Type 0
  pub post : State → Bytes → PostReply × State
  pub get_feed : State → String → FeedReply × State

pub record Result : Type 0 where
  pub http_status : ℕ
  pub terminal : Option Terminal
  pub class_ : Class
  pub same_key_retry_safe : Bool
  pub feed_consulted : Bool
  pub feed_records : List FeedRecord

-- `Result(http_status=…, class_=…, same_key_retry_safe=…)`.
abbrev pub bare_result : ℕ → Class → Bool → Result
bare_result status cls safe = record {
  http_status = status;
  terminal = none;
  class_ = cls;
  same_key_retry_safe = safe;
  feed_consulted = false;
  feed_records = [];
}

unfoldable pub read_feed_body : FeedBody → Attempt (List FeedRecord)
read_feed_body not_json = raised decode_fault
read_feed_body not_object = raised attribute_fault
read_feed_body (events none) = done []
read_feed_body (events (some recs)) = done recs

-- `_get_json` and `intent_events` on what came back.
unfoldable pub read_events : FeedReply → Attempt (List FeedRecord)
unfolding read_feed_body
read_events (FeedReply.answered status body) =
    if eqb status 200 then read_feed_body body else raised (runtime_fault status)
read_events (FeedReply.http_error status) = raised (runtime_fault status)
read_events FeedReply.unreachable = raised transport_fault
read_events FeedReply.malformed = raised protocol_fault

-- `a > b` on `rec.get("intent_seq", -inf)`.
abbrev pub seq_gt : Option ℕ → Option ℕ → Bool
seq_gt none _ = false
seq_gt (some a) none = true
seq_gt (some a) (some b) = ltb b a

-- The loop of `terminal_position`.
unfoldable pub best_record : FeedRecord → List FeedRecord → FeedRecord
best_record best [] = best
best_record best (rec ∷ recs) =
    best_record (if seq_gt rec.intent_seq best.intent_seq then rec else best) recs

unfoldable pub committed : FeedRecord → Option FeedRecord
committed best = if get_text best.trajectory_hash == "" then none else some best

unfoldable pub terminal_position : List FeedRecord → Option FeedRecord
unfolding best_record committed
terminal_position [] = none
terminal_position (rec ∷ recs) = committed (best_record rec (rec ∷ recs))

-- The end of `declare`: the records that the consult returned decide, or nothing does.
unfoldable pub decide_position : ℕ → List FeedRecord → Option FeedRecord → Result
decide_position status recs none = record (bare_result status indeterminate false) {
  feed_consulted = true;
  feed_records = recs;
}
decide_position status recs (some term) =
    let (cls, safe) = classify_feed_record term in
    record (bare_result status cls safe) { feed_consulted = true; feed_records = recs }

-- The consult's exceptions that are caught leave INDETERMINATE; the others go on.
unfoldable pub decide_feed : ℕ → Attempt (List FeedRecord) → Attempt Result
unfolding decide_position
decide_feed status (done recs) = done (decide_position status recs (terminal_position recs))
decide_feed status (raised transport_fault) = done (bare_result status indeterminate false)
decide_feed status (raised (runtime_fault code)) = done (bare_result status indeterminate false)
decide_feed status (raised protocol_fault) = raised protocol_fault
decide_feed status (raised decode_fault) = raised decode_fault
decide_feed status (raised attribute_fault) = raised attribute_fault

-- A 200 answer.
unfoldable pub decide_terminal : TerminalBody → Attempt Result
decide_terminal not_json = done (bare_result 200 unknown false)
decide_terminal not_object = raised attribute_fault
decide_terminal (decoded t) =
    let (cls, safe) = classify (get_text t.terminal) (get_text t.reason) in
    done (record (bare_result 200 cls safe) { terminal = some t })

module _ (sha256 : Bytes → String) (G : Gate) where
  -- The 500 edge, and any other unexpected status.
  unfoldable pub consult : ℕ → String → G.State → Attempt Result × G.State
  unfolding decide_feed read_events
  consult status seed s =
      let (reply, s') = G.get_feed s (intent_id sha256 seed) in
      (decide_feed status (read_events reply), s')

  unfoldable pub unexpected : ℕ → String → G.State → Attempt Result × G.State
  unfolding consult
  unexpected status seed s =
      if eqb status 400 then (done (bare_result 400 sdk_bug true), s) else consult status seed s

  unfoldable pub after_post : Request → PostReply → G.State → Attempt Result × G.State
  unfolding unexpected decide_terminal
  after_post r (answered status body) s =
      if eqb status 200 then (decide_terminal body, s) else unexpected status r.episode_seed s
  after_post r (http_error status) s = unexpected status r.episode_seed s
  after_post r unreachable s = (raised transport_fault, s)

  unfoldable pub declare : Request → G.State → Attempt Result × G.State
  unfolding after_post
  declare r s = let (reply, s') = G.post s (marshal_request r) in after_post r reply s'
