-- ===== src/Loop/Proxy.antt =====
-- `FaultProxy` (treasury/randomized_loop.py): the handler that stands between the gate and the scorer.
-- A request is decoded, or absent where it does not parse; the scorer's answer is its status and the
-- result in its body, or absent where it cannot be reached.
pub mod Scores
use treasury_intent_controll.Base.{
  ℕ, ◌&&◌, String, List, [], ◌∷◌, ◌++◌, Option, none, some, ◌==◌, contains, if◌then◌else◌,
}
use treasury_intent_controll.Scorer.{EvalRequest, Verdict}

-- `proxy.calls`: intent, criterion and phase.
abbrev pub Call : Type 0
Call = String × String × String

pub data Response : Type 0 where
  outage_injected : Response
  scored : ℕ → Verdict → Response

abbrev pub forwarded : Option (ℕ × Verdict) → Response
forwarded none = scored 200 Verdict.unevaluable
forwarded (some answer) = scored answer.0 answer.1

unfoldable pub respond : List String → List String → Option (ℕ × Verdict) → Call → Response
respond outage drift answer call =
    if contains outage call.0
    then outage_injected
    else if contains drift call.0 && call.2 == "dispatch"
    then scored 200 Verdict.fail
    else forwarded answer

module _ {F : Type 0} where
  abbrev pub call_of : Option (EvalRequest F) → Call
  call_of none = ("", "", "")
  call_of (some req) = (req.intent_id, req.criterion, req.phase)

  unfoldable pub do_post :
      List String
      → List String
      → (Option (EvalRequest F) → Option (ℕ × Verdict))
      → Option (EvalRequest F)
      → List Call
      → Response × List Call
  unfolding respond
  do_post outage drift upstream req calls =
      (respond outage drift (upstream req) (call_of req), calls ++ (call_of req ∷ []))
