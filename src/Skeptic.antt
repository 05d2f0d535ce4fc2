-- ===== src/Skeptic.antt =====
-- tic-concept-chat/skeptic.py: the checks on what the two model lanes answer, on decoded JSON.
pub mod Models
pub mod Locate
pub mod Lanes
pub mod Judged
pub mod Tests
use treasury_intent_controll.Base.{
  Bool, true, false, not, ◌&&◌, ◌||◌, String, List, [], ◌∷◌, Option, none, some, ◌==◌, contains,
  if◌then◌else◌,
}
use treasury_intent_controll.Json.Value.{
  Value, null, text, array, object, Items, nil, item, Fields, get, is_text, truthy, number, boolean,
}

-- The causes of a ValueError.
pub data Invalid : Type 0 where
  no_claims duplicate_claim bad_status no_citation stray_citation : Invalid
  no_verdicts unknown_claim duplicate_verdict illegal_verdict unjudged no_tool_call bad_mode
        no_config :
      Invalid
  unknown_document quote_not_found no_reply : Invalid
  bad_citation : String → Invalid

-- A value, a ValueError (or FileNotFoundError), or another exception.
pub data Checked {ℓ} (A : Type ℓ) : Type ℓ where
  valid : A → Checked A
  invalid : Invalid → Checked A
  crashed : Checked A

infixl 5 ◌>>=◌ ◌>>◌
abbrev pub ◌>>=◌ {ℓ κ} : {A : Type ℓ} {B : Type κ} → Checked A → (A → Checked B) → Checked B
valid a >>= f = f a
invalid e >>= f = invalid e
crashed >>= f = crashed

abbrev pub ◌>>◌ {ℓ} : {B : Type ℓ} → Checked (Unit {0}) → Checked B → Checked B
m >> k = m >>= λ _. k

abbrev pub require : Bool → Invalid → Checked (Unit {0})
require true e = valid tt
require false e = invalid e

abbrev pub judgment_contexts : List String
judgment_contexts = "excerpt" ∷ "window" ∷ []

abbrev pub verdicts_of : String → Option (List String)
verdicts_of status =
    if status == "cited"
    then some ("supported" ∷ "overreach" ∷ [])
    else if status == "uncited"
    then some ("marked-inference" ∷ "unmarked-inference" ∷ [])
    else none

-- One block of a response; a block may have no type.
pub record Block (N : Type 0) : Type 0 where
  pub type : Option String
  pub name : String
  pub input : Fields N

abbrev pub is_tool_use : Option String → Bool
is_tool_use none = false
is_tool_use (some type) = type == "tool_use"

unfoldable pub tool_input : {N : Type 0} → String → List (Block N) → Checked (Fields N)
tool_input tool_name [] = invalid no_tool_call
tool_input tool_name (block ∷ blocks) =
    if is_tool_use block.type && block.name == tool_name
    then valid block.input
    else tool_input tool_name blocks

module _ {N : Type 0} where
  abbrev pub mode_of : Option (Value N) → Checked String
  mode_of (some (text mode)) =
      if contains judgment_contexts mode then valid mode else invalid bad_mode
  mode_of _ = invalid bad_mode

  -- The file, decoded; `none` where it is not there.
  unfoldable pub load_judgment_context : Option (Value N) → Checked String
  unfolding get
  load_judgment_context none = invalid no_config
  load_judgment_context (some (object config)) = mode_of (get "judgment_context" config)
  load_judgment_context (some _) = invalid bad_mode

  -- `c.get(key)`, where a key that is not there is None.
  abbrev pub or_null : Option (Value N) → Value N
  or_null none = null
  or_null (some v) = v

  unfoldable pub id_of : Fields N → Value N
  unfolding get
  id_of fields = or_null (get "id" fields)

  abbrev pub is_hashable : Value N → Bool
  is_hashable (array items) = false
  is_hashable (object fields) = false
  is_hashable _ = true

  abbrev pub hashed : Value N → Checked (Unit {0})
  hashed v = if is_hashable v then valid tt else crashed

  abbrev pub is_filled : Option (Value N) → Bool
  is_filled (some (text s)) = not (s == "")
  is_filled _ = false

  abbrev pub check_parts : Value N → Checked (Unit {0})
  check_parts (object citation) = do
    require (is_filled (get "title" citation)) (bad_citation "title")
    require (is_filled (get "cited_text" citation)) (bad_citation "cited_text")
  check_parts _ = crashed

  abbrev pub is_none : Value N → Bool
  is_none null = true
  is_none _ = false

  -- `is_zero` is the truth test on numbers.
  unfoldable pub check_citation : (N → Bool) → Fields N → Checked (Unit {0})
  unfolding get
  check_citation is_zero claim =
      let citation = or_null (get "citation" claim) in
      if is_text "cited" (get "status" claim)
      then require (truthy is_zero citation) no_citation >> check_parts citation
      else require (is_none citation) stray_citation

  abbrev pub is_status : Option (Value N) → Bool
  is_status v = is_text "cited" v || is_text "uncited" v

  -- The status of a claim, as the key of VERDICTS_BY_STATUS.
  abbrev pub status_text : Option (Value N) → Checked String
  status_text (some (text s)) = valid s
  status_text _ = crashed

  abbrev pub subscript : Option (Value N) → Checked (Value N)
  subscript none = crashed
  subscript (some v) = valid v

  -- `verdict in VERDICTS_BY_STATUS[status]`.
  abbrev pub is_verdict : List String → Option (Value N) → Bool
  is_verdict allowed (some (text verdict)) = contains allowed verdict
  is_verdict allowed _ = false

  abbrev pub check_allowed : Option (List String) → Option (Value N) → Checked (Unit {0})
  check_allowed none verdict = crashed
  check_allowed (some allowed) verdict = require (is_verdict allowed verdict) illegal_verdict

  abbrev pub check_legal : Option (Option (Value N)) → Option (Value N) → Checked (Unit {0})
  check_legal none verdict = invalid unknown_claim
  check_legal (some status) verdict = do
    s ← status_text status
    check_allowed (verdicts_of s) verdict

  abbrev pub is_known : Option (Option (Value N)) → Bool
  is_known none = false
  is_known (some status) = true

abbrev pub name_unjudged : Bool → Checked (Unit {0})
name_unjudged true = invalid unjudged
name_unjudged false = crashed

module _ {N : Type 0} where
  abbrev all_texts : List (Value N) → Bool
  all_texts [] = true
  all_texts (text s ∷ ids) = all_texts ids
  all_texts (_ ∷ ids) = false

  abbrev all_numbers : List (Value N) → Bool
  all_numbers [] = true
  all_numbers (number n ∷ ids) = all_numbers ids
  all_numbers (boolean b ∷ ids) = all_numbers ids
  all_numbers (_ ∷ ids) = false

  -- Whether `sorted` can compare different hashable values: one alone, texts, or numbers and booleans.
  abbrev pub can_sort : List (Value N) → Bool
  can_sort (id ∷ []) = true
  can_sort ids = all_texts ids || all_numbers ids

  -- `if unjudged: raise ValueError(…)`, whose text puts the ids in order: `sorted` raises a TypeError
  -- on ids that cannot be compared.
  abbrev pub refuse_unjudged : Bool → List (Value N) → Checked (Unit {0})
  refuse_unjudged true ids = valid tt
  refuse_unjudged false ids = name_unjudged (can_sort ids)

-- `same` is `==` on the values that can be hashed.
module _ {N : Type 0} (same : Value N → Value N → Bool) where
  abbrev pub among : List (Value N) → Value N → Bool
  among [] id = false
  among (k ∷ ids) id = same k id || among ids id

  unfoldable pub check_claims : (N → Bool) → List (Value N) → Items N → Checked (List (Fields N))
  unfolding check_citation id_of get
  check_claims is_zero seen nil = valid []
  check_claims is_zero seen (item (object claim) rest) = do
    hashed (id_of claim)
    require (not (among seen (id_of claim))) duplicate_claim
    require (is_status (get "status" claim)) bad_status
    check_citation is_zero claim
    claims ← check_claims is_zero (id_of claim ∷ seen) rest
    valid (claim ∷ claims)
  check_claims is_zero seen (item _ rest) = crashed

  abbrev pub check_list : (N → Bool) → Option (Value N) → Checked (List (Fields N))
  check_list is_zero (some (array items)) = check_claims is_zero [] items
  check_list is_zero _ = invalid no_claims

  -- The claims of the data that is returned.
  unfoldable pub validate_claims : (N → Bool) → Fields N → Checked (List (Fields N))
  unfolding check_claims get
  validate_claims is_zero answer = check_list is_zero (get "claims" answer)

  -- `{c["id"]: c["status"] for c in …}`, with the statuses as they are.
  unfoldable pub status_by_id : List (Fields N) → Checked (List (Value N × Option (Value N)))
  unfolding get
  status_by_id [] = valid []
  status_by_id (claim ∷ claims) = do
    id ← subscript (get "id" claim)
    status ← subscript (get "status" claim)
    hashed id
    table ← status_by_id claims
    valid ((id, some status) ∷ table)

  -- What the dict has under a key: of two entries with one key, the later.
  unfoldable pub status_of : Value N → List (Value N × Option (Value N)) → Option (Option (Value N))
  status_of id [] = none
  status_of id ((k, status) ∷ table) =
      let later = status_of id table in
      elim later [ some s ↦ some s | none ↦ if same k id then some status else none ]

  -- The loop over the verdicts: their ids, in front of those that were seen.
  unfoldable pub check_verdicts :
      List (Value N × Option (Value N)) → List (Value N) → Items N → Checked (List (Value N))
  unfolding status_of id_of get
  check_verdicts table seen nil = valid seen
  check_verdicts table seen (item (object verdict) rest) = do
    hashed (id_of verdict)
    require (is_known (status_of (id_of verdict) table)) unknown_claim
    require (not (among seen (id_of verdict))) duplicate_verdict
    check_legal (status_of (id_of verdict) table) (get "verdict" verdict)
    check_verdicts table (id_of verdict ∷ seen) rest
  check_verdicts table seen (item _ rest) = crashed

  abbrev pub all_judged : List (Value N × Option (Value N)) → List (Value N) → Bool
  all_judged [] seen = true
  all_judged ((id, status) ∷ table) seen = among seen id && all_judged table seen

  abbrev pub unjudged_ids : List (Value N × Option (Value N)) → List (Value N) → List (Value N)
  unjudged_ids [] seen = []
  unjudged_ids ((id, status) ∷ table) seen =
      if among seen id then unjudged_ids table seen else id ∷ unjudged_ids table seen

  -- An accepted list of verdicts.
  unfoldable pub check_judgment : List (Fields N) → Items N → Checked (Items N)
  unfolding status_by_id check_verdicts
  check_judgment claims verdicts = do
    table ← status_by_id claims
    seen ← check_verdicts table [] verdicts
    refuse_unjudged (all_judged table seen) (unjudged_ids table seen)
    valid verdicts

  abbrev pub check_judgments : List (Fields N) → Option (Value N) → Checked (Items N)
  check_judgments claims (some (array verdicts)) = check_judgment claims verdicts
  check_judgments claims _ = invalid no_verdicts

  unfoldable pub validate_verdicts : List (Fields N) → Fields N → Checked (Items N)
  unfolding check_judgment get
  validate_verdicts claims answer = check_judgments claims (get "verdicts" answer)
