-- ===== src/Client/Double.antt =====
-- declarant/pydeclarant/_gate_double.py: the scripted gate, as a Gate. Reading a field of a posted body
-- is a parameter. The path of a feed GET is seen through the intent id that it carries.
pub mod Reserving
use treasury_intent_controll.Base.{
  ℕ, Bool, true, false, ◌&&◌, ◌||◌, String, List, [], ◌∷◌, ◌++◌, Option, none, some, ◌==◌, leb, ltb,
  lookup, if◌then◌else◌,
}
use treasury_intent_controll.Json.Text.{Bytes}
use treasury_intent_controll.Declare.{FeedRecord}
use treasury_intent_controll.Declare.Request.{intent_id}
use treasury_intent_controll.Client.{Gate, TerminalBody, PostReply, FeedReply, FeedBody}
use treasury_intent_controll.Client.Calls.{Call, posted, fetched}

-- What a test writes: the feeds by intent id, the feed of the last posted intent, and the switch.
pub record Options : Type 0 where
  pub feeds : List (String × List FeedRecord)
  pub own_feed : Option (List FeedRecord)
  pub key_aware : Bool

-- What the handler changes. A key is absent where the body has none.
pub record Script : Type 0 where
  pub declare_responses : List (ℕ × TerminalBody)
  pub reserved : List (Option String)
  pub calls : List Call

abbrev pub collision_body : TerminalBody
collision_body =
    TerminalBody.decoded
      (record { terminal = some "FAILED_AT_DISPATCH"; reason = some "idempotency-collision" })

-- A status outside of 2xx comes back as an HTTPError.
abbrev pub reply_with : ℕ → TerminalBody → PostReply
reply_with status body =
    if leb 200 status && ltb status 300
    then PostReply.answered status body
    else PostReply.http_error status

-- `key in reserved`.
abbrev pub same_key : Option String → Option String → Bool
same_key none none = true
same_key (some k) (some j) = k == j
same_key _ _ = false

abbrev pub is_reserved : List (Option String) → Option String → Bool
is_reserved [] key = false
is_reserved (k ∷ keys) key = same_key k key || is_reserved keys key

-- `declare_responses.pop(0)`; where there is none, the handler raises and no answer is sent.
unfoldable pub pop_response : Script → PostReply × Script
pop_response s = elim s.declare_responses [
  | [] ↦ (PostReply.unreachable, s)
  | response ∷ rest ↦ (reply_with response.0 response.1, record s { declare_responses = rest })
]

abbrev pub reserve : Script → Option String → Script
reserve s key = record s { reserved = s.reserved ++ (key ∷ []) }

unfoldable pub post_key : Script → Option String → PostReply × Script
unfolding pop_response
post_key s key =
    if is_reserved s.reserved key
    then (reply_with 200 collision_body, s)
    else pop_response (reserve s key)

-- The body of the last POST.
unfoldable pub last_post : List Call → Option Bytes → Option Bytes
last_post [] body = body
last_post (posted b ∷ calls) body = last_post calls (some b)
last_post (fetched id ∷ calls) body = last_post calls body

abbrev pub events_or_none : Option (List FeedRecord) → List FeedRecord
events_or_none none = []
events_or_none (some events) = events

module _ (sha256 : Bytes → String) (key_of : Bytes → Option String) (seed_of : Bytes → String)
    (o : Options) where
  unfoldable pub do_post : Script → Bytes → PostReply × Script
  unfolding post_key pop_response
  do_post s body =
      let logged = record s { calls = s.calls ++ (posted body ∷ []) } in
      if o.key_aware then post_key logged (key_of body) else pop_response logged

  abbrev pub own_id : Option Bytes → String
  own_id none = ""
  own_id (some body) = intent_id sha256 (seed_of body)

  abbrev pub own_events : Option (List FeedRecord) → String → Option Bytes → List FeedRecord
  own_events none id body = events_or_none (lookup id o.feeds)
  own_events (some events) id body =
      if id == own_id body then events else events_or_none (lookup id o.feeds)

  unfoldable pub do_get : Script → String → FeedReply × Script
  unfolding last_post lookup
  do_get s id =
      let logged = record s { calls = s.calls ++ (fetched id ∷ []) } in
      (
        FeedReply.answered 200
            (FeedBody.events (some (own_events o.own_feed id (last_post logged.calls none)))),
        logged,
      )

  abbrev pub double : Gate
  double = record { State = Script; post = do_post; get_feed = do_get }
