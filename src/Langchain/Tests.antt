-- ===== src/Langchain/Tests.antt =====
-- Runs of the LangChain adapter (declarant/pydeclarant/langchain_adapter.py) on a concrete tool.
use treasury_intent_controll.Base.{ℕ, false, String, List, [], ◌∷◌, some}
use treasury_intent_controll.Json.Value.{number, Fields}
use treasury_intent_controll.Json.Text.{Bytes}
use treasury_intent_controll.Client.Tests.{granting}
use treasury_intent_controll.Langchain.{scalar, no_more, argument, Invocation, gated}
use treasury_intent_controll.Langchain.Cleared.{Told, gated-Told}

abbrev dumps : Fields ℕ → Bytes
dumps fields = []

abbrev digest : Bytes → String
digest b = "00ff"

abbrev transfer : Invocation ℕ (Unit {0}) (List String)
transfer = record {
  is_positional = false;
  kwargs = argument "amount" (scalar (number 500)) no_more;
  nonce = "n1";
  invoke = λ log. (some tt, "moved" ∷ log);
}

gated-Told_example :
    Told dumps digest granting "transfer" "1111" "per-actor" "run-7" transfer false []
      (gated dumps digest granting "transfer" "1111" "per-actor" "run-7" transfer false [])
gated-Told_example =
    gated-Told dumps digest granting "transfer" "1111" "per-actor" "run-7" transfer false []
