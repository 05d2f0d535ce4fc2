-- ===== src/Client/Double/Reserving.antt =====
-- The key-aware double (declarant/pydeclarant/_gate_double.py) as a service that reserves keys.
use treasury_intent_controll.Base.{
  ℕ, true, false, String, List, [], ◌∷◌, ◌++◌, Option, none, some, eq_iff, eq_refl, ◌≡◌, refl, sym,
  subst, Bool-cases, inl, inr, arith,
}
use treasury_intent_controll.Json.Text.{Bytes}
use treasury_intent_controll.Declare.Request.{Request, marshal_request}
use treasury_intent_controll.Client.{TerminalBody, PostReply}
use treasury_intent_controll.Client.Calls.{posted}
use treasury_intent_controll.Client.Reserves.{Reserves}
use treasury_intent_controll.Client.Double.{
  Options, Script, collision_body, reply_with, same_key, is_reserved, pop_response, reserve,
  post_key, do_post, do_get, double,
}
use treasury_intent_controll.Gating.Fresh.{AchievedReply}

same_key_refl : (key : Option String) → same_key key key ≡ true
same_key_refl none = refl
same_key_refl (some k) = eq_refl k

reserved_last :
    (keys : List (Option String)) (key : Option String)
    → is_reserved (keys ++ (key ∷ [])) key ≡ true
reserved_last [] key = rw (same_key_refl key) refl
reserved_last (k ∷ keys) key = ground (arith, reserved_last keys key)

reserved_before :
    (keys more : List (Option String)) (key : Option String)
    → is_reserved keys key ≡ true
    → is_reserved (keys ++ more) key ≡ true
reserved_before [] more key h = cc
reserved_before (k ∷ keys) more key h = ground (arith, reserved_before keys more key)

popped :
    (s : Script) (l : List (ℕ × TerminalBody))
    → s.declare_responses ≡ l
    → (pop_response s).1.reserved ≡ s.reserved
unfolding pop_response
popped s [] e = rw (pop_response, e) refl
popped s (response ∷ rest) e = rw (pop_response, e) refl

no_grant : AchievedReply (reply_with 200 collision_body) → ⊥
no_grant h = let t = (eq_iff "FAILED_AT_DISPATCH" "ACHIEVED").1 h.1 in cc t

-- What a key-aware POST does to the reservations.
pub record Reserved (s : Script) (key : Option String) (x : PostReply × Script) : Type 0 where
  pub fresh : AchievedReply x.0 → is_reserved s.reserved key ≡ false
  pub taken : is_reserved x.1.reserved key ≡ true
  pub keeps :
      (j : Option String) → is_reserved s.reserved j ≡ true → is_reserved x.1.reserved j ≡ true

post_key-Reserved : (s : Script) (key : Option String) → Reserved s key (post_key s key)
unfolding post_key
post_key-Reserved s key = elim (Bool-cases (is_reserved s.reserved key)) [
  | inl e ↦ rw e (record { fresh = λ h. absurd (no_grant h); taken = e; keeps = λ j h. h })
  | inr e ↦
      let p = popped (reserve s key) s.declare_responses refl in
      rw e (record {
        fresh = λ h. e;
        taken =
            subst (λ (l : List (Option String)). is_reserved l key ≡ true) (sym p)
              (reserved_last s.reserved key);
        keeps = λ j h.
            subst (λ (l : List (Option String)). is_reserved l j ≡ true) (sym p)
              (reserved_before s.reserved (key ∷ []) j h);
      })
]

module _ (sha256 : Bytes → String) (key_of : Bytes → Option String) (seed_of : Bytes → String)
    (o : Options) (aware : o.key_aware ≡ true) where
  -- A POST to the key-aware double, whatever it is scripted to answer, is answered ACHIEVED only
  -- where the key of the body was not reserved; it leaves that key reserved, and every key that was.
  pub do_post-Reserved :
      (s : Script) (body : Bytes)
      → Reserved s (key_of body) (do_post sha256 key_of seed_of o s body)
  unfolding do_post
  do_post-Reserved s body =
      let x =
        post_key-Reserved (record s { calls = s.calls ++ (posted body ∷ []) }) (key_of body) in
      rw aware (record { fresh = x.fresh; taken = x.taken; keeps = x.keeps })

  pub get_reserved :
      (s : Script) (id : String) → (do_get sha256 key_of seed_of o s id).1.reserved ≡ s.reserved
  unfolding do_get
  get_reserved s id = refl

module _ (sha256 : Bytes → String) (key_of : Bytes → Option String) (seed_of : Bytes → String)
    (o : Options) (aware : o.key_aware ≡ true)
    (reads : (r : Request) → key_of (marshal_request r) ≡ some r.idempotency_key) where
  -- What a client relies on in the gate holds of the double.
  abbrev pub double_reserves : Reserves (double sha256 key_of seed_of o)
  double_reserves = record {
    reserved = λ s k. is_reserved s.reserved (some k);
    fresh = λ s r h.
        subst (λ (q : Option String). is_reserved s.reserved q ≡ false) (reads r)
          ((do_post-Reserved sha256 key_of seed_of o aware s (marshal_request r)).fresh h);
    taken = λ s r h.
        subst
          (λ (q : Option String).
            is_reserved (do_post sha256 key_of seed_of o s (marshal_request r)).1.reserved q ≡ true)
          (reads r) ((do_post-Reserved sha256 key_of seed_of o aware s (marshal_request r)).taken);
    post_keeps =
        λ s body k h. (do_post-Reserved sha256 key_of seed_of o aware s body).keeps (some k) h;
    get_keeps = λ s id k h.
        subst (λ (l : List (Option String)). is_reserved l (some k) ≡ true)
          (sym (get_reserved sha256 key_of seed_of o aware s id)) h;
  }
