-- ===== src/Gating/Fresh.antt =====
-- When the shared refusal core lets a call through: client.py's `declare`, then gating.py's
-- `require_fresh_proceed`.
use treasury_intent_controll.Base.{
  ℕ, true, false, List, String, Option, none, some, ◌≡◌, refl, ◌≢◌, ◌↔◌, inl, inr, sym, subst, eqb,
  eqb_iff, arith, if_both, Bool-cases,
}
use treasury_intent_controll.Json.Text.{Bytes}
use treasury_intent_controll.Declare.{
  Class, proceed, already_achieved, get_text, classify, FeedRecord, sdk_bug, unknown, indeterminate,
}
use treasury_intent_controll.Declare.Classify.{classify-proceed_iff}
use treasury_intent_controll.Declare.Request.{Request, marshal_request, intent_id}
use treasury_intent_controll.Client.{
  Gate, Result, bare_result, Terminal, TerminalBody, PostReply, Attempt, done, raised,
  transport_fault, protocol_fault, decode_fault, attribute_fault, runtime_fault, decide_terminal,
  decide_feed, decide_position, terminal_position, unexpected, after_post, declare, read_events,
}
use treasury_intent_controll.Gating.{
  authorized, refused, IntentRefused, require_fresh_proceed, is_proceed,
}

-- The adapters' guard on what `declare` returned.
abbrev pub Authorizes : Attempt Result → Type 0
Authorizes (done res) = require_fresh_proceed res ≡ authorized tt
Authorizes (raised fault) = ⊥

-- A 200 answer with a decoded terminal ACHIEVED.
abbrev pub AchievedReply : PostReply → Type 0
AchievedReply (PostReply.answered status (TerminalBody.decoded t)) =
    (status ≡ 200) × (get_text t.terminal ≡ "ACHIEVED")
AchievedReply _ = ⊥

is_proceed_iff : (c : Class) → (is_proceed c ≡ true) ↔ (c ≡ proceed)
is_proceed_iff c = ground arith

-- A result without a terminal never passes.
no_terminal : (res : Result) → res.terminal ≡ none → require_fresh_proceed res ≡ authorized tt → ⊥
unfolding require_fresh_proceed
no_terminal res h e = ground arith

position_terminal :
    (status : ℕ) (recs : List FeedRecord) (o : Option FeedRecord)
    → (decide_position status recs o).terminal ≡ none
unfolding decide_position
position_terminal status recs none = refl
position_terminal status recs (some rec) = refl

feed_refuses : (status : ℕ) (a : Attempt (List FeedRecord)) → Authorizes (decide_feed status a) → ⊥
unfolding decide_feed
feed_refuses status (done recs) h =
    no_terminal (decide_position status recs (terminal_position recs))
      (position_terminal status recs (terminal_position recs)) h
feed_refuses status (raised transport_fault) h =
    no_terminal (bare_result status indeterminate false) refl h
feed_refuses status (raised (runtime_fault code)) h =
    no_terminal (bare_result status indeterminate false) refl h
feed_refuses status (raised protocol_fault) h = h
feed_refuses status (raised decode_fault) h = h
feed_refuses status (raised attribute_fault) h = h

-- What a 200 answer with a decoded terminal becomes.
abbrev terminal_result : Terminal → Result
terminal_result t =
    record (bare_result 200 (classify (get_text t.terminal) (get_text t.reason)).0
      (classify (get_text t.terminal) (get_text t.reason)).1) { terminal = some t }

terminal_result_iff :
    (t : Terminal)
    → (require_fresh_proceed (terminal_result t) ≡ authorized tt)
      ↔ (get_text t.terminal ≡ "ACHIEVED")
unfolding require_fresh_proceed
terminal_result_iff t =
    ground (arith, classify-proceed_iff (get_text t.terminal) (get_text t.reason))

decoded_iff :
    (body : TerminalBody)
    → Authorizes (decide_terminal body) ↔ AchievedReply (PostReply.answered 200 body)
unfolding decide_terminal
decoded_iff TerminalBody.not_json =
    (λ h. absurd (no_terminal (bare_result 200 unknown false) refl h), λ h. absurd h)
decoded_iff TerminalBody.not_object = (λ h. absurd h, λ h. absurd h)
decoded_iff (TerminalBody.decoded t) =
    (λ h. (refl, (terminal_result_iff t).0 h), λ h. (terminal_result_iff t).1 h.1)

other_status :
    (status : ℕ) (body : TerminalBody)
    → eqb status 200 ≡ false
    → AchievedReply (PostReply.answered status body)
    → ⊥
other_status status TerminalBody.not_json e h = h
other_status status TerminalBody.not_object e h = h
other_status status (TerminalBody.decoded t) e h = cc (e, (eqb_iff status 200).1 h.0)

module _ (sha256 : Bytes → String) (G : Gate) where
  -- A call that does not let the tool run.
  record Denies (x : Attempt Result × G.State) : Type 0 where
    denies : Authorizes x.0 → ⊥

  unexpected-Denies :
      (status : ℕ) (seed : String) (s : G.State) → Denies (unexpected sha256 G status seed s)
  unfolding unexpected
  unexpected-Denies status seed s =
      if_both Denies (eqb status 400)
        (record { denies = no_terminal (bare_result 400 sdk_bug true) refl })
        (record {
          denies = feed_refuses status (read_events (G.get_feed s (intent_id sha256 seed)).0);
        })

  answered_iff :
      (r : Request) (status : ℕ) (body : TerminalBody) (s : G.State)
      → Authorizes (after_post sha256 G r (PostReply.answered status body) s).0
        ↔ AchievedReply (PostReply.answered status body)
  unfolding after_post
  answered_iff r status body s = elim (Bool-cases (eqb status 200)) [
    | inl e ↦ rw e (
        subst (λ n. Authorizes (decide_terminal body) ↔ AchievedReply (PostReply.answered n body))
          (sym ((eqb_iff status 200).0 e)) (decoded_iff body))
    | inr e ↦ rw e (
      λ h. absurd ((unexpected-Denies status r.episode_seed s).denies h),
      λ h. absurd (other_status status body e h),
    )
  ]

  after_post_iff :
      (r : Request) (reply : PostReply) (s : G.State)
      → Authorizes (after_post sha256 G r reply s).0 ↔ AchievedReply reply
  unfolding after_post
  after_post_iff r (PostReply.answered status body) s = answered_iff r status body s
  after_post_iff r (PostReply.http_error status) s =
      (λ h. (unexpected-Denies status r.episode_seed s).denies h, λ h. absurd h)
  after_post_iff r PostReply.unreachable s = (λ h. h, λ h. h)

  -- The guard passes the outcome of `declare` exactly when the answer to that POST is a 200 with a
  -- decoded terminal ACHIEVED; no fault, other status or feed record makes it pass.
  pub declare-Authorizes_iff :
      (r : Request) (s : G.State)
      → Authorizes (declare sha256 G r s).0 ↔ AchievedReply (G.post s (marshal_request r)).0
  unfolding declare
  declare-Authorizes_iff r s =
      let (reply, s') = G.post s (marshal_request r) in after_post_iff r reply s'

-- Every refusal carries a class other than PROCEED, and the class ALREADY_ACHIEVED is raised
-- exactly for a PROCEED that was not fresh.
pub refusal_class :
    (res : Result) (refusal : IntentRefused)
    → res.class_ ≢ already_achieved
    → require_fresh_proceed res ≡ refused refusal
    → (refusal.class_ ≢ proceed) × ((refusal.class_ ≡ already_achieved) ↔ (res.class_ ≡ proceed))
unfolding require_fresh_proceed
refusal_class res refusal h e = ground arith
