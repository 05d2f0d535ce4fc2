-- ===== src/Reporting/Reconcile.antt =====
-- `reconcile` (declarant/pydeclarant/reporting_adapter.py): the feed's ACHIEVED records against the
-- log of submissions, by report key.
pub mod Bijection
use treasury_intent_controll.Base.{
  ℕ, suc, Bool, true, false, ◌&&◌, String, ◌<>◌, List, [], ◌∷◌, Option, none, some, ◌==◌,
  starts_with, eqb, ltb, lookup, text_lt, if◌then◌else◌,
}
use treasury_intent_controll.Json.Text.{Bytes}
use treasury_intent_controll.Reporting.{
  ReportIdentity, Keyed, keyed, unkeyable, ◌>>=◌, report_key, tool_name,
}

-- The two fields of a feed record that are read; an absent one reads as "".
pub record KeyedRecord : Type 0 where
  pub type : String
  pub idempotency_key : String

-- A dictionary of counts, in insertion order.
abbrev pub Tally : Type 0
Tally = List (String × ℕ)

-- `d[key] = d.get(key, 0) + 1`.
unfoldable pub bump : String → Tally → Tally
bump key [] = (key, 1) ∷ []
bump key ((k, n) ∷ d) =
    let later = bump key d in if k == key then (k, suc n) ∷ d else (k, n) ∷ later

unfoldable pub tally : Tally → List String → Tally
unfolding bump
tally d [] = d
tally d (key ∷ keys) = tally (bump key d) keys

abbrev pub in_run : String → KeyedRecord → Bool
in_run prefix rec = rec.type == "ACHIEVED" && starts_with rec.idempotency_key prefix

-- The keys of the records that count.
unfoldable pub achieved_keys : String → List KeyedRecord → List String
achieved_keys prefix [] = []
achieved_keys prefix (rec ∷ recs) =
    let rest = achieved_keys prefix recs in
    if in_run prefix rec then rec.idempotency_key ∷ rest else rest

abbrev pub holds : Option ℕ → Bool
holds none = false
holds (some n) = true

abbrev pub is_one : Option ℕ → Bool
is_one none = false
is_one (some n) = eqb n 1

-- The keys of the first dictionary that the second lacks.
unfoldable pub lacking : Tally → Tally → List String
lacking [] other = []
lacking ((k, n) ∷ d) other =
    let rest = lacking d other in if holds (lookup k other) then rest else k ∷ rest

unfoldable pub repeated : Tally → List String
repeated [] = []
repeated ((k, n) ∷ d) = let rest = repeated d in if ltb 1 n then k ∷ rest else rest

unfoldable pub matching : Tally → Tally → List String
matching [] other = []
matching ((k, n) ∷ d) other =
    let rest = matching d other in if eqb n 1 && is_one (lookup k other) then k ∷ rest else rest

unfoldable pub insert_text : String → List String → List String
insert_text s [] = s ∷ []
insert_text s (t ∷ l) = let rest = insert_text s l in if text_lt t s then t ∷ rest else s ∷ t ∷ l

-- `sorted`.
unfoldable pub sort_texts : List String → List String
unfolding insert_text
sort_texts [] = []
sort_texts (s ∷ l) = insert_text s (sort_texts l)

pub record Reconciliation : Type 0 where
  pub matched : List String
  pub achieved_without_submission : List String
  pub submissions_without_achieved : List String
  pub duplicate_submissions : List String
  pub duplicate_achieved : List String

abbrev pub is_nil : List String → Bool
is_nil [] = true
is_nil (s ∷ l) = false

-- The property `ok`.
abbrev pub ok : Reconciliation → Bool
ok r =
    is_nil r.achieved_without_submission
    && is_nil r.submissions_without_achieved
    && is_nil r.duplicate_submissions
    && is_nil r.duplicate_achieved

unfoldable pub compare_tallies : Tally → Tally → Reconciliation
unfolding matching lacking repeated sort_texts
compare_tallies achieved logged = record {
  matched = sort_texts (matching achieved logged);
  achieved_without_submission = sort_texts (lacking achieved logged);
  submissions_without_achieved = sort_texts (lacking logged achieved);
  duplicate_submissions = sort_texts (repeated logged);
  duplicate_achieved = sort_texts (repeated achieved);
}

module _ (nfc : String → String) (sha256 : Bytes → String) (scope run_id : String) where
  -- The keys of the log, or the first identity that cannot be keyed.
  unfoldable pub logged_keys : List ReportIdentity → Keyed (List String)
  logged_keys [] = keyed []
  logged_keys (identity ∷ submissions) = do
    key ← report_key nfc sha256 identity scope run_id
    keys ← logged_keys submissions
    keyed (key ∷ keys)

  unfoldable pub reconcile : List KeyedRecord → List ReportIdentity → Keyed Reconciliation
  unfolding logged_keys achieved_keys tally compare_tallies
  reconcile achieved_records submissions = do
    keys ← logged_keys submissions
    keyed (
        compare_tallies
          (tally [] (
            achieved_keys (scope <> (":" <> (run_id <> (":" <> (tool_name <> ":")))))
              achieved_records))
          (tally [] keys))
