-- ===== src/Chat/Judged.antt =====
-- What a stream of tic-concept-chat/server.py that ends with skeptic_done says.
use treasury_intent_controll.Base.{
  ℕ, Bool, true, String, List, [], ◌∷◌, Option, some, ◌==◌, contains, ◌≡◌, refl, sym, ◌∙◌, ap,
  subst, inl, inr, Bool-cases,
}
use treasury_intent_controll.Json.Value.{Value, Items, nil, Fields}
use treasury_intent_controll.Skeptic.{
  Checked, valid, invalid, crashed, judgment_contexts, status_by_id, tool_input, bad_mode,
}
use treasury_intent_controll.Skeptic.Judged.{
  JudgedOnce, AllOnce, AllLegal, bind_valid, required, then_branch, else_branch, valid_injective,
  validate_verdicts-JudgedOnce,
}
use treasury_intent_controll.Skeptic.Lanes.{
  Lanes, extract_claims, answered, judge_with, judge_some, judge_claims, window_prompt,
}
use treasury_intent_controll.Chat.{
  Final, Ending, finished, failed, marred, broken_off, final_of, Stream, Event, Server, judge,
  extracted_events, skeptic_pass, ending_events, stream_reply,
}
use treasury_intent_controll.Chat.Told.{
  done_counts, told_verdicts, pairs_of, Tells, judged_events-valid, relay-done_counts,
  relay-told_verdicts,
}

-- `==` on ids is symmetric and transitive.
pub record IsEquality {N : Type 0} (same : Value N → Value N → Bool) : Type 0 where
  pub symmetric : (a b : Value N) → same a b ≡ true → same b a ≡ true
  pub transitive : (a b c : Value N) → same a b ≡ true → same b c ≡ true → same a c ≡ true

module _ {N : Type 0} (lanes : Lanes N) (law : IsEquality lanes.same) where
  judge_with-JudgedOnce :
      (claims : List (Fields N)) (content : String) (verdicts : Items N)
      → judge_with lanes claims content ≡ valid verdicts
      → JudgedOnce lanes.same claims verdicts
  judge_with-JudgedOnce claims content verdicts h =
      let r = bind_valid (answered (lanes.judgment content)) _ h in
      let a = bind_valid (tool_input "record_verdicts" r.0) _ r.2 in
      validate_verdicts-JudgedOnce lanes.same law.symmetric law.transitive claims a.0 verdicts a.2

  none_judged : JudgedOnce lanes.same [] nil
  unfolding status_by_id AllOnce AllLegal
  none_judged = record { table = []; is_table = refl; once = tt; legal = tt }

  judge_some-JudgedOnce :
      (mode : String) (reply : Option String) (docs : Option (List (String × String)))
      (claims : List (Fields N)) (verdicts : Items N)
      → judge_some lanes mode reply docs claims ≡ valid verdicts
      → JudgedOnce lanes.same claims verdicts
  judge_some-JudgedOnce mode reply docs [] verdicts h =
      subst (λ v. JudgedOnce lanes.same [] v) (valid_injective nil verdicts h) none_judged
  judge_some-JudgedOnce mode reply docs (claim ∷ claims) verdicts h =
      elim (Bool-cases (mode == "window")) [
        | inl e ↦
            let w =
              bind_valid (window_prompt lanes (claim ∷ claims) reply docs) _
                (then_branch _ _ _ e h) in
            judge_with-JudgedOnce (claim ∷ claims) w.0 verdicts w.2
        | inr e ↦ judge_with-JudgedOnce (claim ∷ claims) _ verdicts (else_branch _ _ _ e h)
      ]

  -- Verdicts that the judgment lane returns judge each claim exactly once.
  pub judge_claims-JudgedOnce :
      (claims : List (Fields N)) (mode : String) (reply : Option String)
      (docs : Option (List (String × String))) (verdicts : Items N)
      → judge_claims lanes claims mode reply docs ≡ valid verdicts
      → JudgedOnce lanes.same claims verdicts
  unfolding judge_claims
  judge_claims-JudgedOnce claims mode reply docs verdicts h =
      judge_some-JudgedOnce mode reply docs claims verdicts
        (required (contains judgment_contexts mode) bad_mode
          (judge_some lanes mode reply docs claims) h).1

module _ {N : Type 0} (server : Server N) where
  -- What the events of a stream that ends with skeptic_done rest on.
  pub record IsJudged (stream : Stream) (events : List (Event N)) (counts : List (String × ℕ))
      : Type 0 where
    pub final : Final
    pub claims : List (Fields N)
    pub verdicts : Items N
    pub delivered : final_of stream.ending ≡ some final
    pub extracted : extract_claims server.lanes final.content ≡ valid claims
    pub judged : JudgedOnce server.lanes.same claims verdicts
    pub told : Tells [] events (pairs_of verdicts) counts

  extracted_events-IsJudged :
      (final : Final) (stream : Stream) (r : Checked (List (Fields N))) (counts : List (String × ℕ))
      → IsEquality server.lanes.same
      → final_of stream.ending ≡ some final
      → extract_claims server.lanes final.content ≡ r
      → done_counts (extracted_events server final.content r) ≡ some counts
      → IsJudged stream (extracted_events server final.content r) counts
  unfolding done_counts told_verdicts
  extracted_events-IsJudged final stream (invalid e) counts law d x h = cc h
  extracted_events-IsJudged final stream crashed counts law d x h = cc h
  extracted_events-IsJudged final stream (valid claims) counts law d x h =
      let w = judged_events-valid (judge server final.content claims) counts h in
      record {
        final = final;
        claims = claims;
        verdicts = w.0;
        delivered = d;
        extracted = x;
        judged = judge_claims-JudgedOnce server.lanes law claims server.mode _ _ w.0 w.1;
        told = record { all_told = w.2.all_told; counted = w.2.counted };
      }

  told_in :
      (stream : Stream) (events others : List (Event N)) (counts : List (String × ℕ))
      → told_verdicts others ≡ told_verdicts events
      → IsJudged stream events counts
      → IsJudged stream others counts
  told_in stream events others counts e j = record {
    final = j.final;
    claims = j.claims;
    verdicts = j.verdicts;
    delivered = j.delivered;
    extracted = j.extracted;
    judged = j.judged;
    told = record { all_told = e ∙ j.told.all_told; counted = j.told.counted };
  }

  skeptic_pass-IsJudged :
      (final : Final) (stream : Stream) (counts : List (String × ℕ))
      → IsEquality server.lanes.same
      → final_of stream.ending ≡ some final
      → done_counts (skeptic_pass server final.content) ≡ some counts
      → IsJudged stream (skeptic_pass server final.content) counts
  unfolding skeptic_pass
  skeptic_pass-IsJudged final stream counts law d h =
      extracted_events-IsJudged final stream (extract_claims server.lanes final.content) counts law
        d refl h

  ending_events-IsJudged :
      (stream : Stream) (ending : Ending) (counts : List (String × ℕ))
      → IsEquality server.lanes.same
      → stream.ending ≡ ending
      → done_counts (ending_events server ending) ≡ some counts
      → IsJudged stream (ending_events server ending) counts
  unfolding done_counts told_verdicts
  ending_events-IsJudged stream (failed e) counts law d h = cc h
  ending_events-IsJudged stream (finished final) counts law d h =
      told_in stream _ _ counts refl
        (skeptic_pass-IsJudged final stream counts law (ap (λ x. final_of x) d) h)
  ending_events-IsJudged stream (marred final e) counts law d h =
      told_in stream _ _ counts refl
        (skeptic_pass-IsJudged final stream counts law (ap (λ x. final_of x) d) h)
  ending_events-IsJudged stream (broken_off final e) counts law d h =
      told_in stream _ _ counts refl
        (skeptic_pass-IsJudged final stream counts law (ap (λ x. final_of x) d) h)

  -- A stream with a skeptic_done has its final message, and its verdict events are those of
  -- verdicts that judge each claim extracted from the reply exactly once, with a word that the
  -- claim's status allows; the counts of the skeptic_done are the numbers of the verdict events
  -- with each word. Where `==` on ids is symmetric and transitive.
  pub stream_reply-IsJudged :
      (stream : Stream) (counts : List (String × ℕ))
      → IsEquality server.lanes.same
      → done_counts (stream_reply server stream) ≡ some counts
      → IsJudged stream (stream_reply server stream) counts
  unfolding stream_reply
  stream_reply-IsJudged stream counts law h =
      told_in stream (ending_events server stream.ending) _ counts
        (relay-told_verdicts stream.events (ending_events server stream.ending))
        (ending_events-IsJudged stream stream.ending counts law refl
          (sym (relay-done_counts stream.events (ending_events server stream.ending)) ∙ h))
