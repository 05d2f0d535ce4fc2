-- ===== src/Chat/Told.antt =====
-- The verdicts and the counts that the events of a stream tell (tic-concept-chat/server.py).
use treasury_intent_controll.Base.{
  ℕ, suc, ◌+◌, Bool, true, false, String, List, [], ◌∷◌, Option, none, some, ◌==◌, eq_iff,
  if◌then◌else◌, ◌≡◌, refl, sym, ◌∙◌, ap, arith,
}
use treasury_intent_controll.Json.Value.{
  Value, null, boolean, number, text, array, object, Items, nil, item, get,
}
use treasury_intent_controll.Skeptic.{Checked, valid, invalid, crashed}
use treasury_intent_controll.Chat.{
  thinking_delta, text_delta, citations_delta, other_delta, ApiEvent, content_block_delta,
  other_event, Event, skeptic_verdict, skeptic_done, skeptic_error, relay, count_verdict,
  verdict_events, judged_events,
}

module _ {N : Type 0} where
  -- The counts of a skeptic_done.
  unfoldable pub done_counts : List (Event N) → Option (List (String × ℕ))
  done_counts [] = none
  done_counts (skeptic_done counts ∷ events) = some counts
  done_counts (_ ∷ events) = done_counts events

  -- The verdicts that are sent, each with its id.
  unfoldable pub told_verdicts : List (Event N) → List (Value N × Value N)
  told_verdicts [] = []
  told_verdicts (skeptic_verdict id verdict ∷ events) = (id, verdict) ∷ told_verdicts events
  told_verdicts (_ ∷ events) = told_verdicts events

  -- The ids and the words of the judge's verdicts.
  abbrev pub pair_of :
      Option (Value N) → Option (Value N) → List (Value N × Value N) → List (Value N × Value N)
  pair_of (some id) (some verdict) rest = (id, verdict) ∷ rest
  pair_of _ _ rest = rest

  unfoldable pub pairs_of : Items N → List (Value N × Value N)
  pairs_of nil = []
  pairs_of (item (object v) rest) = pair_of (get "id" v) (get "verdict" v) (pairs_of rest)
  pairs_of (item _ rest) = pairs_of rest

  -- How often a word stands among the verdicts.
  abbrev pub count_word : String → List (Value N × Value N) → ℕ
  count_word word [] = 0
  count_word word ((id, text w) ∷ pairs) =
      if w == word then suc (count_word word pairs) else count_word word pairs
  count_word word (_ ∷ pairs) = count_word word pairs

abbrev pub get_count : List (String × ℕ) → String → ℕ
get_count [] word = 0
get_count ((k, n) ∷ counts) word = if k == word then n else get_count counts word

count_verdict-get :
    (key word : String) (counts : List (String × ℕ))
    → get_count (count_verdict key counts) word
      ≡ (if key == word then suc (get_count counts word) else get_count counts word)
unfolding count_verdict
count_verdict-get key word [] = refl
count_verdict-get key word ((k, n) ∷ counts) =
    ground (arith, eq_iff k key, eq_iff k word, eq_iff key word, count_verdict-get key word counts)

same_counts : (a b : List (String × ℕ)) → some a ≡ some b → a ≡ b
same_counts a b h = cc

count_split : (b : Bool) (m n : ℕ) → (if b then suc m else m) + n ≡ m + (if b then suc n else n)
count_split true m n = omega arith
count_split false m n = refl

module _ {N : Type 0} where
  -- The verdicts that are sent are these, and the counts are theirs, added to those before.
  pub record Tells (counts : List (String × ℕ)) (events : List (Event N))
      (pairs : List (Value N × Value N)) (out : List (String × ℕ)) : Type 0 where
    pub all_told : told_verdicts events ≡ pairs
    pub counted :
        (word : String) → get_count out word ≡ get_count counts word + count_word word pairs

  next-Tells :
      (counts out : List (String × ℕ)) (events : List (Event N)) (pairs : List (Value N × Value N))
      (id : Value N) (word : String)
      → Tells (count_verdict word counts) events pairs out
      → Tells counts (skeptic_verdict id (text word) ∷ events) ((id, text word) ∷ pairs) out
  unfolding told_verdicts
  next-Tells counts out events pairs id word t = record {
    all_told = ap (λ l. (id, text word) ∷ l) t.all_told;
    counted = λ w.
        t.counted w
        ∙ (ap (λ n. n + count_word w pairs) (count_verdict-get word w counts)
            ∙ count_split (word == w) (get_count counts w) (count_word w pairs));
  }

  verdict_events-Tells :
      (counts out : List (String × ℕ)) (verdicts : Items N)
      → done_counts (verdict_events counts verdicts) ≡ some out
      → Tells counts (verdict_events counts verdicts) (pairs_of verdicts) out
  unfolding done_counts verdict_events told_verdicts pairs_of
  verdict_events-Tells counts out nil h = record {
    all_told = refl;
    counted = λ word. ap (λ c. get_count c word) (sym (same_counts counts out h)) ∙ omega arith;
  }
  verdict_events-Tells counts out (item null rest) h = cc h
  verdict_events-Tells counts out (item (boolean b) rest) h = cc h
  verdict_events-Tells counts out (item (number n) rest) h = cc h
  verdict_events-Tells counts out (item (text s) rest) h = cc h
  verdict_events-Tells counts out (item (array items) rest) h = cc h
  verdict_events-Tells counts out (item (object v) rest) h =
      by_verdict (get "verdict" v) (get "id" v)
        (λ word k. verdict_events-Tells (count_verdict word counts) out rest k) h
    where
      by_verdict :
          (o i : Option (Value N))
          → ((word : String)
              → done_counts (verdict_events (count_verdict word counts) rest) ≡ some out
              → Tells
                  (count_verdict word counts)
                  (verdict_events (count_verdict word counts) rest)
                  (pairs_of rest)
                  out)
          → done_counts (elim o [
            | some (text word) ↦ elim i [
              | none ↦ skeptic_error none ∷ []
              | some id ↦
                  skeptic_verdict id (text word) ∷ verdict_events (count_verdict word counts) rest
            ]
            | _ ↦ skeptic_error none ∷ []
          ])
            ≡ some out
          → Tells counts
              (elim o [
                | some (text word) ↦ elim i [
                  | none ↦ skeptic_error none ∷ []
                  | some id ↦
                      skeptic_verdict id (text word)
                      ∷ verdict_events (count_verdict word counts) rest
                ]
                | _ ↦ skeptic_error none ∷ []
              ])
              (pair_of i o (pairs_of rest))
              out
      by_verdict (some (text word)) (some id) ih h =
          next-Tells counts out (verdict_events (count_verdict word counts) rest) (pairs_of rest) id
            word (ih word h)
      by_verdict (some (text word)) none ih h = cc h
      by_verdict none i ih h = cc h
      by_verdict (some null) i ih h = cc h
      by_verdict (some (boolean b)) i ih h = cc h
      by_verdict (some (number n)) i ih h = cc h
      by_verdict (some (array items)) i ih h = cc h
      by_verdict (some (object fields)) i ih h = cc h

  pub judged_events-valid :
      (r : Checked (Items N)) (out : List (String × ℕ))
      → done_counts (judged_events r) ≡ some out
      → (verdicts : Items N) × (r ≡ valid verdicts)
        × Tells [] (judged_events r) (pairs_of verdicts) out
  unfolding done_counts
  judged_events-valid (valid verdicts) out h =
      (verdicts, refl, verdict_events-Tells [] out verdicts h)
  judged_events-valid (invalid e) out h = cc h
  judged_events-valid crashed out h = cc h

  pub relay-done_counts :
      (events : List ApiEvent) (rest : List (Event N))
      → done_counts (relay events rest) ≡ done_counts rest
  unfolding done_counts relay
  relay-done_counts [] rest = refl
  relay-done_counts (other_event ∷ events) rest = relay-done_counts events rest
  relay-done_counts (content_block_delta (thinking_delta s) ∷ events) rest =
      relay-done_counts events rest
  relay-done_counts (content_block_delta (text_delta s) ∷ events) rest =
      relay-done_counts events rest
  relay-done_counts (content_block_delta (citations_delta t c) ∷ events) rest =
      relay-done_counts events rest
  relay-done_counts (content_block_delta other_delta ∷ events) rest = relay-done_counts events rest

  pub relay-told_verdicts :
      (events : List ApiEvent) (rest : List (Event N))
      → told_verdicts (relay events rest) ≡ told_verdicts rest
  unfolding told_verdicts relay
  relay-told_verdicts [] rest = refl
  relay-told_verdicts (other_event ∷ events) rest = relay-told_verdicts events rest
  relay-told_verdicts (content_block_delta (thinking_delta s) ∷ events) rest =
      relay-told_verdicts events rest
  relay-told_verdicts (content_block_delta (text_delta s) ∷ events) rest =
      relay-told_verdicts events rest
  relay-told_verdicts (content_block_delta (citations_delta t c) ∷ events) rest =
      relay-told_verdicts events rest
  relay-told_verdicts (content_block_delta other_delta ∷ events) rest =
      relay-told_verdicts events rest
