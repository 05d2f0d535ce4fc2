-- ===== src/Client/Tests.antt =====
-- A concrete service, and the theorems on client.py and gating.py at it.
use treasury_intent_controll.Base.{
  ℕ, Bool, true, false, String, List, [], ◌∷◌, ◌++◌, Option, none, some, ◌≡◌, refl, ◌≢◌, ◌↔◌,
  eq_iff,
}
use treasury_intent_controll.Json.Text.{Bytes}
use treasury_intent_controll.Declare.{FeedRecord}
use treasury_intent_controll.Declare.Request.{Request, marshal_request}
use treasury_intent_controll.Client.{
  Gate, TerminalBody, PostReply, FeedReply, FeedBody, declare, terminal_position, best_record,
  committed,
}
use treasury_intent_controll.Client.Position.{Among, NonePast, terminal_position-NonePast}
use treasury_intent_controll.Client.Calls.{posted, traced, feed_calls, declare-feed_calls}
use treasury_intent_controll.Client.Double.{Options, Script, do_post}
use treasury_intent_controll.Client.Double.Reserving.{Reserved, do_post-Reserved}
use treasury_intent_controll.Client.Reserves.{Reserves}
use treasury_intent_controll.Gating.Fresh.{Authorizes, AchievedReply, declare-Authorizes_iff}

abbrev digest : Bytes → String
digest b = "00ff00ff00ff00ff00ff"

abbrev terminal_reply : String → String → PostReply
terminal_reply terminal reason =
    PostReply.answered 200
      (TerminalBody.decoded (record { terminal = some terminal; reason = some reason }))

abbrev feed_record : ℕ → String → Option String → FeedRecord
feed_record seq type hash = record {
  intent_seq = some seq;
  type = some type;
  detail = some "";
  trajectory_hash = hash;
}

-- It grants the first declaration that it gets, and no later one.
abbrev granting_reply : Bool → PostReply
granting_reply true = terminal_reply "FAILED_AT_DISPATCH" "idempotency-collision"
granting_reply false = terminal_reply "ACHIEVED" ""

abbrev pub granting : Gate
granting = record {
  State = Bool;
  post = λ s body. (granting_reply s, true);
  get_feed = λ s id. (FeedReply.answered 200 (FeedBody.events none), s);
}

pub not_granted : (s : Bool) → AchievedReply (granting_reply s) → s ≡ false
not_granted true h = absurd (ne_by_test h.1)
  where
    ne_by_test : ◌≡◌ {A = String} "FAILED_AT_DISPATCH" "ACHIEVED" → ⊥
    ne_by_test e = let t = (eq_iff "FAILED_AT_DISPATCH" "ACHIEVED").1 e in cc t
not_granted false h = refl

abbrev pub granting_reserves : Reserves granting
granting_reserves = record {
  reserved = λ s k. s;
  fresh = λ s r h. not_granted s h;
  taken = λ s r h. refl;
  post_keeps = λ s body k h. refl;
  get_keeps = λ s id k h. h;
}

abbrev request : Request
request = record {
  episode_seed = "episode-1";
  idempotency_key = "per-actor:run-7";
  rule_artifact_hash = "";
  intent_spec_hash = "1111";
  idempotency_scope = "per-actor";
  spec_envelope = none;
}

declare-Authorizes_iff_example :
    Authorizes (declare digest granting request false).0
    ↔ AchievedReply (terminal_reply "ACHIEVED" "")
declare-Authorizes_iff_example = declare-Authorizes_iff digest granting request false

declare-feed_calls_example :
    (declare digest (traced granting) request (false, [])).1.1
    ≡ []
      ++ (posted (marshal_request request)
          ∷ feed_calls digest granting request (terminal_reply "ACHIEVED" ""))
declare-feed_calls_example = declare-feed_calls digest granting request false []

abbrev feed : List FeedRecord
feed =
    feed_record 0 "DECLARED" none
    ∷ feed_record 2 "ACHIEVED" (some "ab")
    ∷ feed_record 1 "ACTIVE" none
    ∷ []

terminal_position-NonePast_example :
    Among (feed_record 2 "ACHIEVED" (some "ab")) feed
    × NonePast (feed_record 2 "ACHIEVED" (some "ab")) feed
    × (◌≢◌ {A = String} "ab" "")
terminal_position-NonePast_example =
    terminal_position-NonePast feed (feed_record 2 "ACHIEVED" (some "ab"))
      (unfold terminal_position best_record committed in refl)

-- A test that scripts one ACHIEVED, with the key awareness on; every body has one key.
abbrev aware_options : Options
aware_options = record { feeds = []; own_feed = none; key_aware = true }

abbrev one_response : Script
one_response = record {
  declare_responses =
      (200, TerminalBody.decoded (record { terminal = some "ACHIEVED"; reason = some "" })) ∷ [];
  reserved = [];
  calls = [];
}

do_post-Reserved_example : Reserved one_response (some "k") (
    do_post digest
      (λ body. some "k")
      (λ body. "seed")
      aware_options
      one_response
      (marshal_request request))
do_post-Reserved_example =
    do_post-Reserved digest (λ body. some "k") (λ body. "seed") aware_options refl one_response
      (marshal_request request)
