-- ===== src/Mcp.antt =====
-- declarant/pydeclarant/mcp_adapter.py: tool calls of an MCP server through the gate. The arguments
-- are made canonical from the tool's own callable, or from its JSON schema.
pub mod Schema
pub mod Canonical
pub mod Call
pub mod References
pub mod Resolved
pub mod Defaults
pub mod Cleared
pub mod Tests
use treasury_intent_controll.Base.{ℕ, String, List}

-- Why the arguments are not canonical: `_Unkeyable`. A place is the path of the argument.
pub data Step : Type 0 where
  at_name : String → Step
  at_index : ℕ → Step

pub data Trouble : Type 0 where
  ref_cycle ref_unresolved : String → Trouble
  ref_no_text unreadable_signature not_valid : Trouble
  required_missing default_unknown : List Step → Trouble

-- A value, an `_Unkeyable`, or another exception (TypeError, OverflowError, RecursionError).
-- `unfinished` is a loop that ran out of its rounds.
pub data Canon {ℓ} (A : Type ℓ) : Type ℓ where
  canonical : A → Canon A
  unkeyable : Trouble → Canon A
  crashed unfinished : Canon A

infixl 5 ◌>>=◌
abbrev pub ◌>>=◌ {ℓ κ} : {A : Type ℓ} {B : Type κ} → Canon A → (A → Canon B) → Canon B
canonical a >>= f = f a
unkeyable t >>= f = unkeyable t
crashed >>= f = crashed
unfinished >>= f = unfinished
