-- ===== src/Chat/Tests.antt =====
-- A stream of tic-concept-chat/server.py with one claim, the quotes of its skeptic's windows, and the
-- documents in front of a turn.
use treasury_intent_controll.Base.{
  ℕ, ◌-◌, ◌≤◌, codes, Bool, ◌||◌, String, List, [], ◌∷◌, some, eqb, lookup, ◌≡◌, refl,
}
use treasury_intent_controll.Json.Value.{
  Value, text, array, object, Items, nil, item, Fields, end, field, get,
}
use treasury_intent_controll.Skeptic.{
  valid, bad_mode, tool_input, validate_claims, check_claims, check_citation, id_of,
  validate_verdicts, check_judgment, check_verdicts, status_by_id, status_of,
}
use treasury_intent_controll.Skeptic.Tests.{
  same, same_symmetric, same_transitive, claim, verdict, answer,
}
use treasury_intent_controll.Skeptic.Locate.{
  Codes, find, is_prefix, split, search_words, match_words, skip_word, locate, line_start, line_end,
  window_start, window_end, window, length,
}
use treasury_intent_controll.Skeptic.Locate.Bounds.{IsSnapped, locate-IsSnapped}
use treasury_intent_controll.Skeptic.Lanes.{Lanes, doc_windows, extract_claims, judge_claims}
use treasury_intent_controll.Skeptic.Lanes.Windows.{AllQuoted, doc_windows-AllQuoted}
use treasury_intent_controll.Chat.{
  text_delta, content_block_delta, other_event, rate_limited, unreachable, finished, failed, marred,
  Stream, Event, reply_text, done, error, skeptic_claims, skeptic_verdict, skeptic_done,
  skeptic_error, relay, verdict_events, count_verdict, Server, skeptic_pass, stream_reply, Usage,
}
use treasury_intent_controll.Chat.Protocol.{replying, closed, follow, stream_reply-closed}
use treasury_intent_controll.Chat.Told.{done_counts}
use treasury_intent_controll.Chat.Judged.{IsEquality, IsJudged, stream_reply-IsJudged}
use treasury_intent_controll.Chat.Context.{document_block, cached}

abbrev is_blank : ℕ → Bool
is_blank c = eqb c 32 || eqb c 10

abbrev lanes : Lanes ℕ
lanes = record {
  worker = λ prompt. some (
      record {
        type = some "tool_use";
        name = "record_claims";
        input = field "claims" (array (item (object claim) nil)) end;
      }
      ∷ []);
  judgment = λ prompt. some (
      record { type = some "tool_use"; name = "record_verdicts"; input = answer (item verdict nil) }
      ∷ []);
  worker_prompt = "Transcribe";
  judgment_prompt = "Judge";
  judgment_prompt_window = "Judge";
  dumps = λ claims. "[]";
  dumps_windows = λ windows. "{}";
  is_space = is_blank;
  is_zero = λ n. eqb n 0;
  same = same;
}

abbrev server : Server ℕ
server = record { lanes = lanes; mode = "excerpt"; docs = [] }

abbrev usage : Usage
usage = record {
  input_tokens = 3;
  output_tokens = 2;
  cache_creation_input_tokens = 0;
  cache_read_input_tokens = 0;
}

abbrev stream : Stream
stream = record {
  events = other_event ∷ content_block_delta (text_delta "Yes.") ∷ [];
  ending = finished (record {
    content = record { type = some "text"; text = "Yes."; citations = [] } ∷ [];
    usage = usage;
  });
}

abbrev sent : List (Event ℕ)
sent =
    reply_text "Yes."
    ∷ done usage
    ∷ skeptic_claims (claim ∷ [])
    ∷ skeptic_verdict (text "c1") (text "marked-inference")
    ∷ skeptic_done (("marked-inference", 1) ∷ [])
    ∷ []

stream_reply_runs : stream_reply server stream ≡ sent
unfolding stream_reply relay skeptic_pass verdict_events count_verdict extract_claims judge_claims
    tool_input validate_claims check_claims check_citation id_of validate_verdicts check_judgment
    check_verdicts status_by_id status_of get
stream_reply_runs = refl

failed_runs :
    stream_reply server (record { events = []; ending = failed rate_limited })
    ≡ error "Rate limited - wait a moment and retry." ∷ []
unfolding stream_reply relay
failed_runs = refl

-- An error behind the final message does not stop the skeptic's pass.
marred_runs :
    stream_reply
      (record { lanes = server.lanes; mode = "none"; docs = [] })
      (record { events = []; ending = marred (record { content = []; usage = usage }) unreachable })
    ≡ error "Network error reaching the API."
      ∷ skeptic_claims (claim ∷ [])
      ∷ skeptic_error (some bad_mode)
      ∷ []
unfolding stream_reply relay skeptic_pass extract_claims judge_claims tool_input validate_claims
    check_claims check_citation id_of get
marred_runs = refl

stream_reply-closed_example : follow replying (stream_reply server stream) ≡ some closed
stream_reply-closed_example = stream_reply-closed server stream

same-IsEquality : IsEquality same
same-IsEquality = record { symmetric = same_symmetric; transitive = same_transitive }

stream_done : done_counts (stream_reply server stream) ≡ some (("marked-inference", 1) ∷ [])
unfolding done_counts
stream_done = rw stream_reply_runs refl

stream_reply-IsJudged_example :
    IsJudged server stream (stream_reply server stream) (("marked-inference", 1) ∷ [])
stream_reply-IsJudged_example =
    stream_reply-IsJudged server stream (("marked-inference", 1) ∷ []) same-IsEquality stream_done

abbrev cited : Fields ℕ
cited = field "id" (text "c1") (
    field "status" (text "cited") (
      field "citation"
        (object (field "title" (text "README.md") (field "cited_text" (text "no one") end))) end))

abbrev docs : List (String × String)
docs = ("README.md", "a\nno  one\nb") ∷ []

abbrev windows : List (Value ℕ × Codes)
windows = (text "c1", 110 ∷ 111 ∷ 32 ∷ 32 ∷ 111 ∷ 110 ∷ 101 ∷ []) ∷ []

windows_run : doc_windows is_blank 0 docs (cited ∷ claim ∷ []) ≡ valid windows
unfolding doc_windows get lookup locate find is_prefix split search_words match_words skip_word
    line_start line_end
windows_run = refl

doc_windows-AllQuoted_example : AllQuoted is_blank 0 docs (cited ∷ claim ∷ []) windows
doc_windows-AllQuoted_example =
    doc_windows-AllQuoted is_blank 0 docs (cited ∷ claim ∷ []) windows refl windows_run

abbrev turn : String → Value ℕ → Fields ℕ
turn role content = field "role" (text role) (field "content" content end)

abbrev blocks : Items ℕ
blocks = item (object (cached (document_block "README.md" "a"))) nil

abbrev question : Value ℕ
question = object (field "type" (text "text") (field "text" (text "Why?") end))

abbrev later : List (Fields ℕ)
later = turn "assistant" (text "Because.") ∷ []

abbrev injected : List (Fields ℕ)
injected =
    turn "user"
      (array (item (object (cached (document_block "README.md" "a"))) (item question nil)))
    ∷ later

-- The quote of that claim, in its document.
abbrev doc : Codes
doc = codes "a\nno  one\nb"

located_runs : locate is_blank doc (codes "no one") ≡ some (2, 9)
unfolding locate find is_prefix split search_words match_words skip_word
located_runs = refl

locate-IsSnapped_example :
    IsSnapped doc 0 2 9 (window_start 0 doc 2) (window_end 0 doc 9)
    × (length (window 0 doc (2, 9)) ≤ window_end 0 doc 9 - window_start 0 doc 2)
locate-IsSnapped_example = locate-IsSnapped is_blank doc (codes "no one") 0 2 9 located_runs
