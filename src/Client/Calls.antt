-- ===== src/Client/Calls.antt =====
-- The calls that one `declare` makes, in order (declarant/pydeclarant/client.py).
use treasury_intent_controll.Base.{
  ℕ, Bool, false, List, [], ◌∷◌, ◌++◌, ◌≡◌, eqb, String, if◌then◌else◌, Bool-cases, inl, inr, ◌||◌,
  not, sym, ◌∙◌,
}
use mathlib.Core.List.{append_assoc, append-nil}
use treasury_intent_controll.Json.Text.{Bytes}
use treasury_intent_controll.Declare.Request.{Request, marshal_request, intent_id}
use treasury_intent_controll.Client.{Gate, PostReply, unexpected, after_post, declare}

pub data Call : Type 0 where
  posted : Bytes → Call
  fetched : String → Call

-- The same service, with the calls that it has served so far.
abbrev pub traced : Gate → Gate
traced G = record {
  State = G.State × List Call;
  post = λ s body. ((G.post s.0 body).0, ((G.post s.0 body).1, s.1 ++ (posted body ∷ [])));
  get_feed = λ s id. ((G.get_feed s.0 id).0, ((G.get_feed s.0 id).1, s.1 ++ (fetched id ∷ [])));
}

-- The answers after which the feed is read: neither 200 nor 400, and not a fault of the transport.
abbrev pub needs_feed : PostReply → Bool
needs_feed (PostReply.answered status body) = not (eqb status 200 || eqb status 400)
needs_feed (PostReply.http_error status) = not (eqb status 400)
needs_feed PostReply.unreachable = false

module _ (sha256 : Bytes → String) (G : Gate) where
  abbrev pub feed_calls : Request → PostReply → List Call
  feed_calls r reply =
      if needs_feed reply then fetched (intent_id sha256 r.episode_seed) ∷ [] else []

  -- The state that `unexpected` leaves, as the log sees it.
  unexpected_calls :
      (status : ℕ) (seed : String) (s : G.State) (log : List Call)
      → (unexpected sha256 (traced G) status seed (s, log)).1.1
        ≡ log ++ (if eqb status 400 then [] else fetched (intent_id sha256 seed) ∷ [])
  unfolding unexpected
  unexpected_calls status seed s log = elim (Bool-cases (eqb status 400)) [
    | inl e ↦ rw e (sym (append-nil log))
    | inr e ↦ rw e
  ]

  after_post_calls :
      (r : Request) (reply : PostReply) (s : G.State) (log : List Call)
      → (after_post sha256 (traced G) r reply (s, log)).1.1 ≡ log ++ feed_calls r reply
  unfolding after_post
  after_post_calls r (PostReply.answered status body) s log = elim (Bool-cases (eqb status 200)) [
    | inl e ↦ rw e (sym (append-nil log))
    | inr e ↦ elim (Bool-cases (eqb status 400)) [
      | inl b ↦ rw (e, b) (sym (append-nil log))
      | inr b ↦ rw (e, b)
    ]
  ]
  after_post_calls r (PostReply.http_error status) s log = elim (Bool-cases (eqb status 400)) [
    | inl b ↦ rw b (sym (append-nil log))
    | inr b ↦ rw b
  ]
  after_post_calls r PostReply.unreachable s log = sym (append-nil log)

  -- One `declare` makes one POST, of the marshalled request, and after it one feed GET for the
  -- request's own intent exactly when the answer is neither 200 nor 400 nor a transport fault.
  pub declare-feed_calls :
      (r : Request) (s : G.State) (log : List Call)
      → (declare sha256 (traced G) r (s, log)).1.1
        ≡ log ++ (posted (marshal_request r) ∷ feed_calls r (G.post s (marshal_request r)).0)
  unfolding declare
  declare-feed_calls r s log =
      let (reply, s') = G.post s (marshal_request r) in
      after_post_calls r reply s' (log ++ (posted (marshal_request r) ∷ []))
      ∙ append_assoc log (posted (marshal_request r) ∷ []) (feed_calls r reply)
