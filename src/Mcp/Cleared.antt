-- ===== src/Mcp/Cleared.antt =====
-- What a call of `_gate_call` (declarant/pydeclarant/mcp_adapter.py) has done to the world.
use treasury_intent_controll.Base.{
  Bool, true, String, List, Option, none, some, ◌≡◌, refl, ◌⊎◌, inl, inr, Bool-cases,
}
use treasury_intent_controll.Json.Value.{Value, Fields}
use treasury_intent_controll.Json.Text.{Bytes}
use treasury_intent_controll.Declare.Request.{marshal_request, derive_key}
use treasury_intent_controll.Client.{Gate, Result, Attempt, done, raised, declare}
use treasury_intent_controll.Gating.{Gated, authorized, refused, require_fresh_proceed}
use treasury_intent_controll.Gating.Fresh.{Authorizes, AchievedReply, declare-Authorizes_iff}
use treasury_intent_controll.Reporting.Submit.{request_for}
use treasury_intent_controll.Mcp.{Canon, canonical, unkeyable, crashed, unfinished}
use treasury_intent_controll.Mcp.Call.{
  ModelFields, Tool, CallEnding, returned, tool_raised, unreadable_schema, escaped, not_canonical,
  not_authorized, client_raised, ToolCall, result_of, is_ungated, canonical_args, run_tool,
  if_authorized, if_declared, if_canonical, if_readable, gate_call,
}

module _ {N O A W : Type 0} (tier2_args : Bool → Fields N → Value N → Canon (Fields N))
    (validate : ModelFields O → Fields N → Option (Fields N)) (dumps : Fields N → Bytes)
    (sha256 : Bytes → String) (G : Gate) (get_tool : String → Option (Tool N O))
    (intent_spec_hash scope run_id : String) (tools : Option (List String))
    (strict_args : Bool) where
  -- What stands behind a gated run: the tool is there, its arguments are canonical, and the service
  -- answered ACHIEVED to the request declared under their key.
  pub record Cleared (c : ToolCall N A W) (s : G.State) : Type 0 where
    pub tool : Tool N O
    pub payload : Bytes
    pub is_known : get_tool c.name ≡ some tool
    pub is_canonical :
        canonical_args tier2_args validate dumps strict_args c.arguments tool ≡ canonical payload
    pub achieved :
        AchievedReply
          (G.post s (
            marshal_request (
              request_for scope
                (derive_key sha256 scope run_id c.name payload)
                c.nonce
                intent_spec_hash))).0

  -- A call outside the gated set, or a cleared one.
  abbrev pub MayRun : ToolCall N A W → G.State → Type 0
  MayRun c s = (is_ungated tools c.name ≡ true) ⊎ Cleared c s

  -- The ending says what was done: the tool ran, or it did not; a refusal that comes before the
  -- declaration left the gate alone too.
  unfoldable pub Told : ToolCall N A W → G.State → W → CallEnding A × G.State × W → Type 0
  Told c s w (returned a, s', w') = MayRun c s
  Told c s w (tool_raised, s', w') = MayRun c s
  Told c s w (unreadable_schema, s', w') = (s' ≡ s) × (w' ≡ w)
  Told c s w (not_canonical t, s', w') = (s' ≡ s) × (w' ≡ w)
  Told c s w (escaped, s', w') = (s' ≡ s) × (w' ≡ w)
  Told c s w (not_authorized message, s', w') = w' ≡ w
  Told c s w (client_raised fault, s', w') = w' ≡ w

  result_of-Told :
      (c : ToolCall N A W) (o : Option A) (s s' : G.State) (w w' : W)
      → MayRun c s
      → Told c s w (result_of o, s', w')
  unfolding Told
  result_of-Told c none s s' w w' h = h
  result_of-Told c (some a) s s' w w' h = h

  if_authorized-Told :
      (c : ToolCall N A W) (g : Gated (Unit {0})) (s s' : G.State) (w : W)
      → (g ≡ authorized tt → MayRun c s)
      → Told c s w (
          if_authorized tier2_args validate dumps sha256 G get_tool intent_spec_hash scope run_id
            tools strict_args c g s' w)
  unfolding if_authorized Told
  if_authorized-Told c (authorized _) s s' w h =
      result_of-Told c (c.call_next w).0 s s' w (c.call_next w).1 (h refl)
  if_authorized-Told c (refused e) s s' w h = refl

  if_declared-Told :
      (c : ToolCall N A W) (a : Attempt Result) (s s' : G.State) (w : W)
      → (Authorizes a → MayRun c s)
      → Told c s w (
          if_declared tier2_args validate dumps sha256 G get_tool intent_spec_hash scope run_id
            tools strict_args c a s' w)
  unfolding if_declared Told
  if_declared-Told c (done res) s s' w h = if_authorized-Told c (require_fresh_proceed res) s s' w h
  if_declared-Told c (raised fault) s s' w h = refl

  if_canonical-Told :
      (c : ToolCall N A W) (tool : Tool N O) (p : Canon Bytes) (s : G.State) (w : W)
      → get_tool c.name ≡ some tool
      → canonical_args tier2_args validate dumps strict_args c.arguments tool ≡ p
      → Told c s w (
          if_canonical tier2_args validate dumps sha256 G get_tool intent_spec_hash scope run_id
            tools strict_args c p s w)
  unfolding if_canonical Told
  if_canonical-Told c tool (canonical payload) s w k e =
      let r =
        request_for scope (derive_key sha256 scope run_id c.name payload) c.nonce
          intent_spec_hash in
      if_declared-Told c (declare sha256 G r s).0 s (declare sha256 G r s).1 w (λ a. inr (record {
        tool = tool;
        payload = payload;
        is_known = k;
        is_canonical = e;
        achieved = (declare-Authorizes_iff sha256 G r s).0 a;
      }))
  if_canonical-Told c tool (unkeyable t) s w k e = (refl, refl)
  if_canonical-Told c tool crashed s w k e = (refl, refl)
  if_canonical-Told c tool unfinished s w k e = (refl, refl)

  if_readable-Told :
      (c : ToolCall N A W) (o : Option (Tool N O)) (s : G.State) (w : W)
      → get_tool c.name ≡ o
      → Told c s w (
          if_readable tier2_args validate dumps sha256 G get_tool intent_spec_hash scope run_id
            tools strict_args c o s w)
  unfolding if_readable Told
  if_readable-Told c none s w e = (refl, refl)
  if_readable-Told c (some tool) s w e =
      if_canonical-Told c tool
        (canonical_args tier2_args validate dumps strict_args c.arguments tool) s w e refl

  -- A call of _gate_call whose tool ran, to a result or to an exception, was of a tool outside the
  -- gated set, or the gate answered ACHIEVED to the request declared under the key of its canonical
  -- arguments. A call that ended otherwise left the tool's world as it was, and the gate too where
  -- the schema could not be read or the arguments could not be made canonical.
  pub gate_call-Told :
      (c : ToolCall N A W) (s : G.State) (w : W)
      → Told c s w (
          gate_call tier2_args validate dumps sha256 G get_tool intent_spec_hash scope run_id tools
            strict_args c s w)
  unfolding gate_call
  gate_call-Told c s w = elim (Bool-cases (is_ungated tools c.name)) [
    | inl e ↦
        rw e (unfold run_tool in result_of-Told c (c.call_next w).0 s s w (c.call_next w).1 (inl e))
    | inr e ↦ rw e (if_readable-Told c (get_tool c.name) s w refl)
  ]
