-- ===== src/Verifier/Commitment.antt =====
-- What the hash of a terminal record commits to (verifier/pyverifier/verify.py).
use treasury_intent_controll.Base.{String, List, [], ◌∷◌, ◌≡◌, sym, ◌∙◌, ap}
use treasury_intent_controll.Json.Text.{Bytes}
use treasury_intent_controll.Verifier.{
  Record, verified, last_of, event_of, events_of, sort_records, verify_intent,
}
use treasury_intent_controll.Verifier.Encoding.{Event, encode}
use treasury_intent_controll.Verifier.Encoding.Unique.{encode_injective}
use treasury_intent_controll.Verifier.Sound.{IsSound, verify_intent-verified_iff}

-- The hash that the last record carries, in the order of the sequence numbers.
abbrev pub committed_hash : List Record → String
committed_hash [] = ""
committed_hash (first ∷ others) = (last_of first others).trajectory_hash

first_detail : (e f : Event) (h k : List Event) → (e ∷ h) ≡ (f ∷ k) → e.detail ≡ f.detail
first_detail e f h k q = ap (λ l. detail_of e.detail l) q
  where
    detail_of : String → List Event → String
    detail_of default [] = default
    detail_of default (x ∷ l) = x.detail

module _ (sha256 : Bytes → String) where
  sound-same_history :
      (intent_a intent_b : String) (a b : List Record)
      → IsSound sha256 intent_a a
      → IsSound sha256 intent_b b
      → (sha256 (encode (events_of a)) ≡ sha256 (encode (events_of b))
          → encode (events_of a) ≡ encode (events_of b))
      → committed_hash a ≡ committed_hash b
      → (intent_a ≡ intent_b) × (events_of a ≡ events_of b)
  sound-same_history intent_a intent_b [] b s t fair h = absurd s
  sound-same_history intent_a intent_b (x ∷ a) [] s t fair h = absurd t
  sound-same_history intent_a intent_b (x ∷ a) (y ∷ b) s t fair h =
      let same =
        encode_injective (events_of (x ∷ a)) (events_of (y ∷ b))
          (fair (s.1.1.1.1.1.1.1 ∙ (h ∙ sym t.1.1.1.1.1.1.1))) in
      (
        sym s.1.0.1
            ∙ (first_detail (event_of x) (event_of y) (events_of a) (events_of b) same ∙ t.1.0.1),
        same,
      )

  -- Two VERIFIED intents whose terminal records carry one hash are one intent with one history: the
  -- sequence numbers, types and details of all its records, in order. Where the digest does not
  -- collide on the bytes of the two histories.
  pub verify_intent-same_history :
      (intent_a intent_b : String) (a b : List Record)
      → verify_intent sha256 intent_a a ≡ verified
      → verify_intent sha256 intent_b b ≡ verified
      → (sha256 (encode (events_of (sort_records a))) ≡ sha256 (encode (events_of (sort_records b)))
          → encode (events_of (sort_records a)) ≡ encode (events_of (sort_records b)))
      → committed_hash (sort_records a) ≡ committed_hash (sort_records b)
      → (intent_a ≡ intent_b) × (events_of (sort_records a) ≡ events_of (sort_records b))
  verify_intent-same_history intent_a intent_b a b v w fair h =
      sound-same_history intent_a intent_b (sort_records a) (sort_records b)
        ((verify_intent-verified_iff sha256 intent_a a).0 v)
        ((verify_intent-verified_iff sha256 intent_b b).0 w) fair h
