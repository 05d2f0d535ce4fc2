-- ===== src/Loop/Run/Verdict.antt =====
-- When a run passes (treasury/randomized_loop.py).
use treasury_intent_controll.Base.{false, String, List, [], ◌∷◌, Option, ◌≡◌}
use treasury_intent_controll.Loop.Draws.{length}
use treasury_intent_controll.Loop.Oracle.{Prediction}
use treasury_intent_controll.Loop.Run.{
  Observed, mismatches, FeedEvent, among, achieved_keys, expected_achieved, Verification,
}

-- No key stands twice.
abbrev pub AreDistinct : List (Option String) → Type 0
AreDistinct [] = Unit
AreDistinct (k ∷ keys) = (among keys k ≡ false) × AreDistinct keys

-- Both verifiers succeed, with the same output.
pub record TwinsAgree (go_v py_v : Verification) : Type 0 where
  pub go_ok : go_v.returncode ≡ 0
  pub py_ok : py_v.returncode ≡ 0
  pub same : go_v.stdout ≡ py_v.stdout

-- What a run has to show.
pub record Passes (expected : List Prediction) (actual : List Observed) (events : List FeedEvent)
    (go_v py_v : Verification) : Type 0 where
  pub matches : mismatches expected actual ≡ []
  pub as_many : length (achieved_keys events) ≡ expected_achieved expected
  pub distinct : AreDistinct (achieved_keys events)
  pub twins : TwinsAgree go_v py_v
