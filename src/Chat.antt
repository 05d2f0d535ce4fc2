-- ===== src/Chat.antt =====
-- The event stream of tic-concept-chat/server.py: the reply as it comes in, and the skeptic's pass
-- behind it. The model's stream is a parameter; a payload is an event here, not its JSON line.
pub mod Protocol
pub mod Told
pub mod Judged
pub mod Context
pub mod Tests
use treasury_intent_controll.Base.{
  ℕ, suc, String, ◌<>◌, List, [], ◌∷◌, ◌++◌, Option, none, some, ◌==◌, if◌then◌else◌,
}
use treasury_intent_controll.Json.Value.{Value, text, object, Items, nil, item, Fields, get}
use treasury_intent_controll.Loop.Numerals.{show}
use treasury_intent_controll.Skeptic.{Invalid, Checked, valid, invalid, crashed, ◌>>=◌}
use treasury_intent_controll.Skeptic.Lanes.{
  ReplyBlock, or_empty, Lanes, render_reply, extract_claims, judge_claims,
}

pub data Delta : Type 0 where
  thinking_delta text_delta : String → Delta
  citations_delta : Option String → Option String → Delta
  other_delta : Delta

pub data ApiEvent : Type 0 where
  content_block_delta : Delta → ApiEvent
  other_event : ApiEvent

pub record Usage : Type 0 where
  pub input_tokens : ℕ
  pub output_tokens : ℕ
  pub cache_creation_input_tokens : ℕ
  pub cache_read_input_tokens : ℕ

pub record Final : Type 0 where
  pub content : List ReplyBlock
  pub usage : Usage

-- What the client raises; another exception has its type's name and its text.
pub data ApiError : Type 0 where
  rate_limited unauthorized unreachable : ApiError
  status_error : ℕ → String → ApiError
  other_error : String → String → ApiError

abbrev pub error_message : ApiError → String
error_message rate_limited = "Rate limited - wait a moment and retry."
error_message unauthorized = "Auth failed - set ANTHROPIC_API_KEY or run `ant auth login`."
error_message (status_error code message) = "API error " <> (show code <> (": " <> message))
error_message unreachable = "Network error reaching the API."
error_message (other_error type message) = type <> (": " <> message)

-- How the model's stream ends: with its final message, with an error before that message, with one
-- behind it but before `done` is sent, or with one behind `done`, as the stream is closed.
pub data Ending : Type 0 where
  finished : Final → Ending
  failed : ApiError → Ending
  marred broken_off : Final → ApiError → Ending

-- `final`, as it stands behind the handlers.
abbrev pub final_of : Ending → Option Final
final_of (finished final) = some final
final_of (failed e) = none
final_of (marred final e) = some final
final_of (broken_off final e) = some final

pub record Stream : Type 0 where
  pub events : List ApiEvent
  pub ending : Ending

-- The payloads. `skeptic_error` has the ValueError's cause, or `none` for another exception, in place
-- of its text.
pub data Event (N : Type 0) : Type 0 where
  thinking reply_text : String → Event N
  citation : String → String → Event N
  done : Usage → Event N
  error : String → Event N
  skeptic_claims : List (Fields N) → Event N
  skeptic_verdict : Value N → Value N → Event N
  skeptic_done : List (String × ℕ) → Event N
  skeptic_error : Option Invalid → Event N

-- `counts[key] = counts.get(key, 0) + 1`.
unfoldable pub count_verdict : String → List (String × ℕ) → List (String × ℕ)
count_verdict key [] = (key, 1) ∷ []
count_verdict key ((k, n) ∷ counts) =
    if k == key then (k, suc n) ∷ counts else (k, n) ∷ count_verdict key counts

module _ {N : Type 0} where
  abbrev pub delta_events : Delta → List (Event N) → List (Event N)
  delta_events (thinking_delta s) rest = thinking s ∷ rest
  delta_events (text_delta s) rest = reply_text s ∷ rest
  delta_events (citations_delta title cited) rest =
      citation (or_empty title) (or_empty cited) ∷ rest
  delta_events other_delta rest = rest

  -- The events of the reply, in front of the rest.
  unfoldable pub relay : List ApiEvent → List (Event N) → List (Event N)
  relay [] rest = rest
  relay (content_block_delta delta ∷ events) rest = delta_events delta (relay events rest)
  relay (other_event ∷ events) rest = relay events rest

  -- The loop over the verdicts, with the counts so far: a verdict that has no id or verdict, or one
  -- that is no text, raises. An accepted verdict is a text.
  unfoldable pub verdict_events : List (String × ℕ) → Items N → List (Event N)
  verdict_events counts nil = skeptic_done counts ∷ []
  verdict_events counts (item (object v) rest) = elim (get "verdict" v) [
    | some (text verdict) ↦ elim (get "id" v) [
      | none ↦ skeptic_error none ∷ []
      | some id ↦
          skeptic_verdict id (text verdict) ∷ verdict_events (count_verdict verdict counts) rest
    ]
    | _ ↦ skeptic_error none ∷ []
  ]
  verdict_events counts (item _ rest) = skeptic_error none ∷ []

  abbrev pub judged_events : Checked (Items N) → List (Event N)
  judged_events (valid verdicts) = verdict_events [] verdicts
  judged_events (invalid e) = skeptic_error (some e) ∷ []
  judged_events crashed = skeptic_error none ∷ []

-- The server's configuration: the lanes, the mode of the judgment and the documents.
pub record Server (N : Type 0) : Type 0 where
  pub lanes : Lanes N
  pub mode : String
  pub docs : List (String × String)

module _ {N : Type 0} (server : Server N) where
  abbrev pub judge : List ReplyBlock → List (Fields N) → Checked (Items N)
  judge content claims =
      judge_claims server.lanes claims server.mode (some (render_reply content)) (some server.docs)

  abbrev pub extracted_events : List ReplyBlock → Checked (List (Fields N)) → List (Event N)
  extracted_events content (valid claims) =
      skeptic_claims claims ∷ judged_events (judge content claims)
  extracted_events content (invalid e) = skeptic_error (some e) ∷ []
  extracted_events content crashed = skeptic_error none ∷ []

  unfoldable pub skeptic_pass : List ReplyBlock → List (Event N)
  skeptic_pass content = extracted_events content (extract_claims server.lanes content)

  -- `if final is not None`.
  abbrev pub final_events : Option Final → List (Event N)
  final_events none = []
  final_events (some final) = skeptic_pass final.content

  -- What is sent between the reply and the skeptic's pass.
  abbrev pub closing_events : Ending → List (Event N)
  closing_events (finished final) = done final.usage ∷ []
  closing_events (failed e) = error (error_message e) ∷ []
  closing_events (marred final e) = error (error_message e) ∷ []
  closing_events (broken_off final e) = done final.usage ∷ error (error_message e) ∷ []

  abbrev pub ending_events : Ending → List (Event N)
  ending_events ending = closing_events ending ++ final_events (final_of ending)

  -- The reply to messages that the documents were put into.
  unfoldable pub stream_reply : Stream → List (Event N)
  stream_reply stream = relay stream.events (ending_events stream.ending)
