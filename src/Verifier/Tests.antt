-- ===== src/Verifier/Tests.antt =====
-- A concrete feed, and the theorems on verifier/pyverifier/verify.py at it.
use treasury_intent_controll.Base.{
  ℕ, Bool, eqb, ◌==◌, if◌then◌else◌, String, [], ◌∷◌, Option, none, some, ◌≡◌, refl, ◌↔◌, codes,
}
use treasury_intent_controll.Json.Text.{Bytes}
use treasury_intent_controll.Verifier.{
  events_of, refuted, seq_gap, hash_mismatch, found, Record, verified, verify_intent, sort_records,
}
use treasury_intent_controll.Verifier.Sound.{IsSound, verify_intent-verified_iff}
use treasury_intent_controll.Verifier.Feed.{Loaded, object, text, natural}
use treasury_intent_controll.Verifier.Main.{main, render, ReadsClean, main-ReadsClean}
use treasury_intent_controll.Verifier.Commitment.{verify_intent-same_history}

abbrev digest : Bytes → String
digest b = "ff"

abbrev declared : Record
declared = record {
  seq = 1;
  intent_seq = 0;
  intent_id = "a1";
  type = "DECLARED";
  detail = "a1";
  idempotency_key = "";
  intent_spec_hash = "";
  trajectory_hash = "";
}

abbrev achieved : Record
achieved = record {
  seq = 2;
  intent_seq = 1;
  intent_id = "a1";
  type = "ACHIEVED";
  detail = "";
  idempotency_key = "k";
  intent_spec_hash = "s";
  trajectory_hash = "ff";
}

sound_runs : verify_intent digest "a1" (achieved ∷ declared ∷ []) ≡ verified
unfolding verify_intent
sound_runs = refl

verify_intent-verified_iff_example :
    (verify_intent digest "a1" (achieved ∷ declared ∷ []) ≡ verified)
    ↔ IsSound digest "a1" (sort_records (achieved ∷ declared ∷ []))
verify_intent-verified_iff_example =
    verify_intent-verified_iff digest "a1" (achieved ∷ declared ∷ [])

-- A decoder that knows one line.
abbrev loads : Bytes → Option Loaded
loads [] = none
loads (c ∷ s) = some (
    object (
      ("seq", natural 1)
      ∷ ("intent_seq", natural 0)
      ∷ ("intent_id", text "a1")
      ∷ ("type", text "DECLARED")
      ∷ ("detail", text "a1")
      ∷ []))

abbrev is_blank : ℕ → Bool
is_blank c = eqb c 32

-- One file, of one line.
abbrev read : String → Option Bytes
read path = if path == "events.jsonl" then some (codes "{}\n") else none

main-ReadsClean_example :
    ((main is_blank loads digest read ("verify.py" ∷ "events.jsonl" ∷ [])).status ≡ 0)
    ↔ ReadsClean is_blank loads digest read ("verify.py" ∷ "events.jsonl" ∷ [])
main-ReadsClean_example =
    main-ReadsClean is_blank loads digest read ("verify.py" ∷ "events.jsonl" ∷ [])

unreadable_runs : (main is_blank loads digest read ("verify.py" ∷ "other" ∷ [])).status ≡ 2
unfolding main
unreadable_runs = refl

render_runs :
    render is_blank (record {
      feed = (refuted, seq_gap 3 2) ∷ [];
      intents = ("a1", verified) ∷ ("b", found (refuted, hash_mismatch)) ∷ [];
      overall = some refuted;
    })
    ≡ "feed REFUTED seq-gap:3:2\nintent a1 VERIFIED\nintent b REFUTED hash-mismatch\nRESULT: REFUTED intents=2 verified=1 refuted=1 unverifiable=0\n"
unfolding render
render_runs = refl

-- The same records in the order of the feed.
in_order_runs : verify_intent digest "a1" (declared ∷ achieved ∷ []) ≡ verified
unfolding verify_intent
in_order_runs = refl

verify_intent-same_history_example :
    (◌≡◌ {A = String} "a1" "a1")
    × (events_of (sort_records (achieved ∷ declared ∷ []))
        ≡ events_of (sort_records (declared ∷ achieved ∷ [])))
verify_intent-same_history_example =
    verify_intent-same_history digest "a1" "a1" (achieved ∷ declared ∷ [])
      (declared ∷ achieved ∷ []) sound_runs in_order_runs (λ e. unfold sort_records in refl)
      (unfold sort_records in refl)
