-- ===== src/Client/Reserves.antt =====
-- What the declarant relies on in the gate service: a key that has been granted is not granted again.
use treasury_intent_controll.Base.{ℕ, Bool, true, false, String, ◌≡◌, eqb, if_both}
use treasury_intent_controll.Json.Text.{Bytes}
use treasury_intent_controll.Declare.Request.{Request, marshal_request, intent_id}
use treasury_intent_controll.Client.{
  Gate, Result, Attempt, PostReply, unexpected, after_post, declare,
}
use treasury_intent_controll.Gating.Fresh.{Authorizes, AchievedReply, declare-Authorizes_iff}

pub record Reserves (G : Gate) : Type 0 where
  pub reserved : G.State → String → Bool
  -- An ACHIEVED is answered for a key that was free, and takes it.
  pub fresh :
      (s : G.State) (r : Request)
      → AchievedReply (G.post s (marshal_request r)).0
      → reserved s r.idempotency_key ≡ false
  pub taken :
      (s : G.State) (r : Request)
      → AchievedReply (G.post s (marshal_request r)).0
      → reserved (G.post s (marshal_request r)).1 r.idempotency_key ≡ true
  -- Reservations do not expire.
  pub post_keeps :
      (s : G.State) (body : Bytes) (k : String)
      → reserved s k ≡ true
      → reserved (G.post s body).1 k ≡ true
  pub get_keeps :
      (s : G.State) (id k : String) → reserved s k ≡ true → reserved (G.get_feed s id).1 k ≡ true

module _ (sha256 : Bytes → String) (G : Gate) (L : Reserves G) where
  -- The key is reserved in the state that a call leaves.
  record Holds (k : String) (x : Attempt Result × G.State) : Type 0 where
    holds : L.reserved x.1 k ≡ true

  unexpected-Holds :
      (status : ℕ) (seed k : String) (s : G.State)
      → L.reserved s k ≡ true
      → Holds k (unexpected sha256 G status seed s)
  unfolding unexpected
  unexpected-Holds status seed k s h =
      if_both (Holds k) (eqb status 400) (record { holds = h })
        (record { holds = L.get_keeps s (intent_id sha256 seed) k h })

  after_post-Holds :
      (r : Request) (reply : PostReply) (k : String) (s : G.State)
      → L.reserved s k ≡ true
      → Holds k (after_post sha256 G r reply s)
  unfolding after_post
  after_post-Holds r (PostReply.answered status body) k s h =
      if_both (Holds k) (eqb status 200) (record { holds = h })
        (unexpected-Holds status r.episode_seed k s h)
  after_post-Holds r (PostReply.http_error status) k s h =
      unexpected-Holds status r.episode_seed k s h
  after_post-Holds r PostReply.unreachable k s h = record { holds = h }

  declare_after_post :
      (r : Request) (k : String) (s : G.State)
      → L.reserved (G.post s (marshal_request r)).1 k ≡ true
      → L.reserved (declare sha256 G r s).1 k ≡ true
  unfolding declare
  declare_after_post r k s h =
      let (reply, s') = G.post s (marshal_request r) in (after_post-Holds r reply k s' h).holds

  pub declare_keeps :
      (r : Request) (k : String) (s : G.State)
      → L.reserved s k ≡ true
      → L.reserved (declare sha256 G r s).1 k ≡ true
  declare_keeps r k s h = declare_after_post r k s (L.post_keeps s (marshal_request r) k h)

  -- Over a service that reserves keys, a declaration that the guard passes found its key free and
  -- leaves it reserved.
  pub declare_reserves :
      (r : Request) (s : G.State)
      → Authorizes (declare sha256 G r s).0
      → (L.reserved s r.idempotency_key ≡ false)
        × (L.reserved (declare sha256 G r s).1 r.idempotency_key ≡ true)
  declare_reserves r s h =
      let achieved = (declare-Authorizes_iff sha256 G r s).0 h in
      (L.fresh s r achieved, declare_after_post r r.idempotency_key s (L.taken s r achieved))
