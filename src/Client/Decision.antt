-- ===== src/Client/Decision.antt =====
-- `Client.declare` (declarant/pydeclarant/client.py): the class and the retry position it returns.
use treasury_intent_controll.Base.{
  ℕ, List, Option, none, some, ◌≡◌, refl, eqb, if_both, String, ◌==◌, ◌||◌, ◌<>◌, starts_with,
}
use treasury_intent_controll.Json.Text.{Bytes}
use treasury_intent_controll.Declare.{
  FeedRecord, classify, classify_feed_record, classify_record, classify_unevaluable_record,
  get_text, Classified,
}
use treasury_intent_controll.Declare.Classify.{retry_safe_class, classify-retry_safe}
use treasury_intent_controll.Declare.Request.{Request, marshal_request, intent_id}
use treasury_intent_controll.Client.{
  Gate, Result, Attempt, done, raised, transport_fault, protocol_fault, decode_fault,
  attribute_fault, runtime_fault, PostReply, TerminalBody, terminal_position, decide_position,
  decide_feed, decide_terminal, unexpected, after_post, declare, read_events,
}

-- The retry position agrees with the class.
record Consistent (c : Classified) : Type 0 where
  agrees : c.1 ≡ retry_safe_class c.0

failed-Consistent : (r : String) → Consistent (classify "FAILED" r)
failed-Consistent r = record { agrees = classify-retry_safe "FAILED" r }

unevaluable-Consistent : (d : String) → Consistent (classify_unevaluable_record d)
unfolding classify_unevaluable_record
unevaluable-Consistent d = if_both Consistent (d == "absent-key") (failed-Consistent _) (
    if_both Consistent (starts_with d "unattested-spec:") (failed-Consistent _) (
      if_both Consistent (starts_with d "invalid-posture:") (failed-Consistent _) (
        if_both Consistent (starts_with d "empty-criteria:") (failed-Consistent _)
          (failed-Consistent _))))

record-Consistent : (t d : String) → Consistent (classify_record t d)
unfolding classify_record
record-Consistent t d =
    if_both Consistent
      (t == "ACHIEVED" || t == "SHADOW_RECORDED" || t == "FAILED" || t == "FAILED_AT_DISPATCH")
      (record { agrees = classify-retry_safe t d })
      (if_both Consistent (t == "UNEVALUABLE") (unevaluable-Consistent d) (
        if_both Consistent (t == "REVOKED") (failed-Consistent ("revoked:" <> d))
          (record { agrees = refl })))

feed_record-Consistent : (rec : FeedRecord) → Consistent (classify_feed_record rec)
unfolding classify_feed_record
feed_record-Consistent rec = record-Consistent (get_text rec.type) (get_text rec.detail)

-- A result, where there is one, has the retry position of its class.
abbrev pub RetryAgrees : Attempt Result → Type 0
RetryAgrees (done res) = res.same_key_retry_safe ≡ retry_safe_class res.class_
RetryAgrees (raised fault) = Unit

position_agrees :
    (status : ℕ) (recs : List FeedRecord) (o : Option FeedRecord)
    → RetryAgrees (done (decide_position status recs o))
unfolding decide_position
position_agrees status recs none = refl
position_agrees status recs (some term) = (feed_record-Consistent term).agrees

feed_agrees : (status : ℕ) (a : Attempt (List FeedRecord)) → RetryAgrees (decide_feed status a)
unfolding decide_feed
feed_agrees status (done recs) = position_agrees status recs (terminal_position recs)
feed_agrees status (raised transport_fault) = refl
feed_agrees status (raised (runtime_fault code)) = refl
feed_agrees status (raised protocol_fault) = tt
feed_agrees status (raised decode_fault) = tt
feed_agrees status (raised attribute_fault) = tt

terminal_agrees : (body : TerminalBody) → RetryAgrees (decide_terminal body)
unfolding decide_terminal
terminal_agrees TerminalBody.not_json = refl
terminal_agrees TerminalBody.not_object = tt
terminal_agrees (TerminalBody.decoded t) =
    classify-retry_safe (get_text t.terminal) (get_text t.reason)

module _ (sha256 : Bytes → String) (G : Gate) where
  -- A call that ended, in one branch of the source or another.
  record CallAgrees (x : Attempt Result × G.State) : Type 0 where
    kept : RetryAgrees x.0

  unexpected_agrees :
      (status : ℕ) (seed : String) (s : G.State) → CallAgrees (unexpected sha256 G status seed s)
  unfolding unexpected
  unexpected_agrees status seed s =
      if_both CallAgrees (eqb status 400) (record { kept = refl })
        (record {
          kept = feed_agrees status (read_events (G.get_feed s (intent_id sha256 seed)).0);
        })

  after_post_agrees :
      (r : Request) (reply : PostReply) (s : G.State) → CallAgrees (after_post sha256 G r reply s)
  unfolding after_post
  after_post_agrees r (PostReply.answered status body) s =
      if_both CallAgrees (eqb status 200) (record { kept = terminal_agrees body })
        (unexpected_agrees status r.episode_seed s)
  after_post_agrees r (PostReply.http_error status) s = unexpected_agrees status r.episode_seed s
  after_post_agrees r PostReply.unreachable s = record { kept = tt }

  -- Whatever the service answers, the retry position that `declare` returns is that of its class.
  pub declare-RetryAgrees : (r : Request) (s : G.State) → RetryAgrees (declare sha256 G r s).0
  unfolding declare
  declare-RetryAgrees r s =
      let (reply, s') = G.post s (marshal_request r) in (after_post_agrees r reply s').kept
