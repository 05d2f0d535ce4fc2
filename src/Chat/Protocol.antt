-- ===== src/Chat/Protocol.antt =====
-- The order of the events that tic-concept-chat/server.py sends.
use treasury_intent_controll.Base.{ℕ, String, List, [], ◌∷◌, Option, none, some, ◌≡◌, refl, ◌∙◌}
use treasury_intent_controll.Json.Value.{
  Value, null, boolean, number, text, array, object, Items, nil, item, Fields, get,
}
use treasury_intent_controll.Skeptic.{Checked, Invalid, valid, invalid, crashed}
use treasury_intent_controll.Skeptic.Lanes.{ReplyBlock, extract_claims}
use treasury_intent_controll.Chat.{
  thinking_delta, text_delta, citations_delta, other_delta, ApiEvent, content_block_delta,
  other_event, Ending, finished, failed, marred, broken_off, Stream, Event, thinking, reply_text,
  citation, done, error, skeptic_claims, skeptic_verdict, skeptic_done, skeptic_error, relay,
  count_verdict, verdict_events, judged_events, Server, judge, extracted_events, skeptic_pass,
  ending_events, stream_reply,
}

-- Where a stream is: in the reply, behind `done`, behind an error that came in place of `done` or
-- behind `done`, behind the claims, at its end.
pub data Phase : Type 0 where
  replying delivered erred cut_off judging closed : Phase

-- The phase that a stream ends in: behind an error where there is no final message, and otherwise at
-- the end of the skeptic's pass.
abbrev pub last_phase : Ending → Phase
last_phase (finished final) = closed
last_phase (failed e) = erred
last_phase (marred final e) = closed
last_phase (broken_off final e) = closed

module _ {N : Type 0} where
  -- The event that a phase allows, and the phase after it.
  abbrev pub advance : Phase → Event N → Option Phase
  advance replying (thinking s) = some replying
  advance replying (reply_text s) = some replying
  advance replying (citation title cited) = some replying
  advance replying (done usage) = some delivered
  advance replying (error message) = some erred
  advance delivered (skeptic_claims claims) = some judging
  advance delivered (skeptic_error e) = some closed
  advance delivered (error message) = some cut_off
  advance erred (skeptic_claims claims) = some judging
  advance erred (skeptic_error e) = some closed
  advance cut_off (skeptic_claims claims) = some judging
  advance cut_off (skeptic_error e) = some closed
  advance judging (skeptic_verdict id verdict) = some judging
  advance judging (skeptic_done counts) = some closed
  advance judging (skeptic_error e) = some closed
  advance _ _ = none

  unfoldable pub follow : Phase → List (Event N) → Option Phase
  follow phase [] = some phase
  follow phase (e ∷ events) = elim (advance phase e) [
    | none ↦ none
    | some next ↦ follow next events
  ]

  follow-next :
      (phase : Phase) (e : Event N) (next : Phase) (events : List (Event N))
      → advance phase e ≡ some next
      → follow phase (e ∷ events) ≡ follow next events
  unfolding follow
  follow-next phase e next events h = rw (follow, h) refl

  verdict_events-closed :
      (counts : List (String × ℕ)) (verdicts : Items N)
      → follow judging (verdict_events counts verdicts) ≡ some closed
  unfolding follow verdict_events
  verdict_events-closed counts nil = refl
  verdict_events-closed counts (item null rest) = refl
  verdict_events-closed counts (item (boolean b) rest) = refl
  verdict_events-closed counts (item (number n) rest) = refl
  verdict_events-closed counts (item (text s) rest) = refl
  verdict_events-closed counts (item (array items) rest) = refl
  verdict_events-closed counts (item (object v) rest) =
      by_verdict (get "verdict" v) (get "id" v)
        (λ word. verdict_events-closed (count_verdict word counts) rest)
    where
      by_verdict :
          (o i : Option (Value N))
          → ((word : String)
              → follow judging (verdict_events (count_verdict word counts) rest) ≡ some closed)
          → follow judging (elim o [
            | some (text word) ↦ elim i [
              | none ↦ skeptic_error none ∷ []
              | some id ↦
                  skeptic_verdict id (text word) ∷ verdict_events (count_verdict word counts) rest
            ]
            | _ ↦ skeptic_error none ∷ []
          ])
            ≡ some closed
      by_verdict (some (text word)) (some id) ih = ih word
      by_verdict (some (text word)) none ih = refl
      by_verdict none i ih = refl
      by_verdict (some null) i ih = refl
      by_verdict (some (boolean b)) i ih = refl
      by_verdict (some (number n)) i ih = refl
      by_verdict (some (array items)) i ih = refl
      by_verdict (some (object fields)) i ih = refl

  judged_events-closed : (r : Checked (Items N)) → follow judging (judged_events r) ≡ some closed
  unfolding follow
  judged_events-closed (valid verdicts) = verdict_events-closed [] verdicts
  judged_events-closed (invalid e) = refl
  judged_events-closed crashed = refl

  -- The reply's events leave the stream in the reply.
  relay-follow :
      (events : List ApiEvent) (rest : List (Event N))
      → follow replying (relay events rest) ≡ follow replying rest
  unfolding follow relay
  relay-follow [] rest = refl
  relay-follow (other_event ∷ events) rest = relay-follow events rest
  relay-follow (content_block_delta (thinking_delta s) ∷ events) rest = relay-follow events rest
  relay-follow (content_block_delta (text_delta s) ∷ events) rest = relay-follow events rest
  relay-follow (content_block_delta (citations_delta t c) ∷ events) rest = relay-follow events rest
  relay-follow (content_block_delta other_delta ∷ events) rest = relay-follow events rest

module _ {N : Type 0} (server : Server N) where
  -- A phase in which the skeptic's pass may begin.
  abbrev TakesPass : Phase → Type 0
  TakesPass phase =
      ((claims : List (Fields N)) → advance {N = N} phase (skeptic_claims claims) ≡ some judging)
      × ((e : Option Invalid) → advance {N = N} phase (skeptic_error e) ≡ some closed)

  extracted_events-closed :
      (phase : Phase) (content : List ReplyBlock) (r : Checked (List (Fields N)))
      → TakesPass phase
      → follow phase (extracted_events server content r) ≡ some closed
  unfolding follow
  extracted_events-closed phase content (valid claims) t =
      follow-next phase (skeptic_claims claims) judging _ (t.0 claims)
      ∙ judged_events-closed (judge server content claims)
  extracted_events-closed phase content (invalid e) t =
      follow-next phase (skeptic_error (some e)) closed [] (t.1 (some e))
  extracted_events-closed phase content crashed t =
      follow-next phase (skeptic_error none) closed [] (t.1 none)

  skeptic_pass-closed :
      (phase : Phase) (content : List ReplyBlock)
      → TakesPass phase
      → follow phase (skeptic_pass server content) ≡ some closed
  unfolding skeptic_pass
  skeptic_pass-closed phase content t =
      extracted_events-closed phase content (extract_claims server.lanes content) t

  ending_events-follow :
      (ending : Ending) → follow replying (ending_events server ending) ≡ some (last_phase ending)
  unfolding follow
  ending_events-follow (finished final) =
      skeptic_pass-closed delivered final.content (λ claims. refl, λ e. refl)
  ending_events-follow (failed e) = refl
  ending_events-follow (marred final e) =
      skeptic_pass-closed erred final.content (λ claims. refl, λ e. refl)
  ending_events-follow (broken_off final e) =
      skeptic_pass-closed cut_off final.content (λ claims. refl, λ e. refl)

  -- Every stream follows the protocol to its end: the events of the reply; then `done`, or an error
  -- in its place, or `done` and an error behind it; then, exactly where the final message had come
  -- in, the skeptic's pass, which ends with one skeptic_error, or with one skeptic_done behind the
  -- claims and the verdicts; nothing comes after the end.
  pub stream_reply-closed :
      (stream : Stream)
      → follow replying (stream_reply server stream) ≡ some (last_phase stream.ending)
  unfolding stream_reply
  stream_reply-closed stream =
      relay-follow stream.events (ending_events server stream.ending)
      ∙ ending_events-follow stream.ending
