-- ===== src/Client/Poll.antt =====
-- `poll_achieved` of declarant/pydeclarant/client.py over a service that pages its ACHIEVED records.
use treasury_intent_controll.Base.{
  ℕ, List, [], ◌∷◌, Option, none, some, eqb, if◌then◌else◌, ◌≡◌, refl,
}
use treasury_intent_controll.Declare.{FeedRecord}
use treasury_intent_controll.Client.{
  Attempt, done, raised, transport_fault, decode_fault, attribute_fault, runtime_fault,
}

-- The body of an answer to the page GET: the records and the next cursor, where present.
pub data PageBody : Type 0 where
  not_json not_object : PageBody
  page : Option (List FeedRecord) → Option ℕ → PageBody

pub data PageReply : Type 0 where
  answered : ℕ → PageBody → PageReply
  http_error : ℕ → PageReply
  unreachable : PageReply

abbrev pub events_or_empty : Option (List FeedRecord) → List FeedRecord
events_or_empty none = []
events_or_empty (some recs) = recs

abbrev pub next_or : ℕ → Option ℕ → ℕ
next_or since none = since
next_or since (some next) = next

unfoldable pub read_page_body : ℕ → PageBody → Attempt (List FeedRecord × ℕ)
read_page_body since not_json = raised decode_fault
read_page_body since not_object = raised attribute_fault
read_page_body since (page recs next) = done (events_or_empty recs, next_or since next)

-- `_get_json`, and the two fields that are read of what it returns.
unfoldable pub read_page : ℕ → PageReply → Attempt (List FeedRecord × ℕ)
unfolding read_page_body
read_page since (answered status body) =
    if eqb status 200 then read_page_body since body else raised (runtime_fault status)
read_page since (http_error status) = raised (runtime_fault status)
read_page since unreachable = raised transport_fault

-- `get_page` is the GET of "/v2/events?since=…&type=ACHIEVED".
unfoldable pub poll_achieved :
    {State : Type 0}
    → (State → ℕ → PageReply × State)
    → ℕ
    → State
    → Attempt (List FeedRecord × ℕ) × State
unfolding read_page
poll_achieved get_page since s = let (reply, s') = get_page s since in (read_page since reply, s')

abbrev achieved : FeedRecord
achieved = record {
  intent_seq = some 6;
  type = some "ACHIEVED";
  detail = none;
  trajectory_hash = some "th";
}

poll_runs :
    poll_achieved
      (λ (s : ℕ) since. (answered 200 (page (some (achieved ∷ [])) (some 9)), since))
      4
      0
    ≡ (done (achieved ∷ [], 9), 4)
unfolding poll_achieved
poll_runs = refl

no_cursor_runs :
    poll_achieved (λ (s : ℕ) since. (answered 200 (page none none), s)) 4 0 ≡ (done ([], 4), 0)
unfolding poll_achieved
no_cursor_runs = refl
