-- ===== src/Skeptic/Lanes.antt =====
-- The two lanes of tic-concept-chat/skeptic.py: the extraction of the claims of a reply and the
-- judgment on them. The models are parameters that answer a prompt with blocks, or fail; the texts of
-- the prompts and `json.dumps` are parameters too.
pub mod Windows
use treasury_intent_controll.Base.{
  ℕ, Bool, false, String, ◌<>◌, List, [], ◌∷◌, Option, none, some, ◌==◌, codes, contains, lookup,
  if◌then◌else◌,
}
use treasury_intent_controll.Json.Value.{
  Value, text, array, object, Items, nil, Fields, get, is_text,
}
use treasury_intent_controll.Skeptic.{
  Checked, valid, invalid, crashed, ◌>>=◌, ◌>>◌, require, judgment_contexts, Block, tool_input,
  subscript, hashed, validate_claims, validate_verdicts, unknown_document, quote_not_found,
  no_reply, bad_mode,
}
use treasury_intent_controll.Skeptic.Locate.{Codes, locate, window}

-- A block of the delivered reply, and a citation on it; what is missing or None is `none`.
pub record Citation : Type 0 where
  pub document_title : Option String
  pub cited_text : Option String

pub record ReplyBlock : Type 0 where
  pub type : Option String
  pub text : String
  pub citations : List Citation

abbrev pub or_empty : Option String → String
or_empty none = ""
or_empty (some s) = s

abbrev render_citations : List Citation → String
render_citations [] = ""
render_citations (c ∷ citations) =
    "\n[cites "
    <> (or_empty c.document_title
        <> (": \"" <> (or_empty c.cited_text <> ("\"]\n" <> render_citations citations))))

abbrev is_text_block : Option String → Bool
is_text_block none = false
is_text_block (some type) = type == "text"

unfoldable pub render_reply : List ReplyBlock → String
render_reply [] = ""
render_reply (block ∷ content) =
    let rest = render_reply content in
    if is_text_block block.type
    then block.text <> (render_citations block.citations <> rest)
    else rest

abbrev pub window_radius : ℕ
window_radius = 400

abbrev pub located : Option (ℕ × ℕ) → Checked (ℕ × ℕ)
located none = invalid quote_not_found
located (some span) = valid span

module _ {N : Type 0} where
  -- `value[key]` on a dict; any other value fails.
  abbrev pub part : String → Value N → Checked (Value N)
  part key (object fields) = subscript (get key fields)
  part key _ = crashed

  -- `docs.get(title)`, and the error where it has none.
  abbrev pub document_of : List (String × String) → Value N → Checked String
  document_of docs (text title) = elim (lookup title docs) [
    | none ↦ invalid unknown_document
    | some doc ↦ valid doc
  ]
  document_of docs (array items) = crashed
  document_of docs (object fields) = crashed
  document_of docs _ = invalid unknown_document

  -- `_locate(doc, quote)`: a quote has to be a text.
  abbrev pub locate_value : (ℕ → Bool) → String → Value N → Checked (ℕ × ℕ)
  locate_value is_space doc (text quote) = located (locate is_space (codes doc) (codes quote))
  locate_value is_space doc _ = crashed

  abbrev pub window_of : (ℕ → Bool) → ℕ → List (String × String) → Fields N → Checked Codes
  window_of is_space radius docs claim = do
    citation ← subscript (get "citation" claim)
    title ← part "title" citation
    quote ← part "cited_text" citation
    doc ← document_of docs title
    span ← locate_value is_space doc quote
    valid (window radius (codes doc) span)

  -- The windows, each under the id of its claim. The claims are validated ones, with different ids, so
  -- no key of the source's dict is written twice.
  unfoldable pub doc_windows :
      (ℕ → Bool) → ℕ → List (String × String) → List (Fields N) → Checked (List (Value N × Codes))
  doc_windows is_space radius docs [] = valid []
  doc_windows is_space radius docs (claim ∷ claims) =
      let rest = doc_windows is_space radius docs claims in
      subscript (get "status" claim) >>= λ status.
      if is_text "cited" (some status)
      then window_of is_space radius docs claim >>= (λ w.
        subscript (get "id" claim)
        >>= (λ id. hashed id >> (rest >>= (λ windows. valid ((id, w) ∷ windows)))))
      else rest

  -- A model's answer; a call that raises is `none`.
  abbrev pub answered : Option (List (Block N)) → Checked (List (Block N))
  answered none = crashed
  answered (some blocks) = valid blocks

-- What the lanes are given: `ask` is the call of a model with a prompt.
pub record Lanes (N : Type 0) : Type 0 where
  pub worker : String → Option (List (Block N))
  pub judgment : String → Option (List (Block N))
  pub worker_prompt : String
  pub judgment_prompt : String
  pub judgment_prompt_window : String
  pub dumps : List (Fields N) → String
  pub dumps_windows : List (Value N × Codes) → String
  pub is_space : ℕ → Bool
  pub is_zero : N → Bool
  pub same : Value N → Value N → Bool

module _ {N : Type 0} (lanes : Lanes N) where
  unfoldable pub extract_claims : List ReplyBlock → Checked (List (Fields N))
  unfolding tool_input
  extract_claims content = do
    resp ← answered (lanes.worker (lanes.worker_prompt <> ("\n\n" <> render_reply content)))
    data_ ← tool_input "record_claims" resp
    validate_claims lanes.same lanes.is_zero data_

  abbrev pub judge_with : List (Fields N) → String → Checked (Items N)
  judge_with claims content = do
    resp ← answered (lanes.judgment content)
    answer ← tool_input "record_verdicts" resp
    validate_verdicts lanes.same claims answer

  abbrev pub window_prompt :
      List (Fields N) → Option String → Option (List (String × String)) → Checked String
  window_prompt claims (some reply_text) (some docs) =
      doc_windows lanes.is_space window_radius docs claims >>= λ windows. valid (
        lanes.judgment_prompt_window
        <> ("\n\n"
            <> (lanes.dumps claims
                <> ("\n\nDOC CONTEXT (per cited claim id):\n"
                    <> (lanes.dumps_windows windows <> ("\n\nTHE REPLY:\n" <> reply_text))))))
  window_prompt claims _ _ = invalid no_reply

  abbrev pub judge_some :
      String → Option String → Option (List (String × String)) → List (Fields N) → Checked (Items N)
  judge_some mode reply_text docs [] = valid nil
  judge_some mode reply_text docs (claim ∷ claims) =
      if mode == "window"
      then window_prompt (claim ∷ claims) reply_text docs >>= judge_with (claim ∷ claims)
      else judge_with (claim ∷ claims)
          (lanes.judgment_prompt <> ("\n\n" <> lanes.dumps (claim ∷ claims)))

  unfoldable pub judge_claims :
      List (Fields N) → String → Option String → Option (List (String × String)) → Checked (Items N)
  judge_claims claims mode reply_text docs =
      require (contains judgment_contexts mode) bad_mode >> judge_some mode reply_text docs claims
