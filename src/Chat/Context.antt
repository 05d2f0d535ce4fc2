-- ===== src/Chat/Context.antt =====
-- tic-concept-chat/context.py: the documents as blocks in front of the first turn. Reading a file is a
-- parameter; a call that raises is `none`.
use treasury_intent_controll.Base.{
  Bool, true, false, String, List, [], ◌∷◌, Option, none, some, ◌==◌, if◌then◌else◌, ◌≡◌, refl,
  subst,
}
use treasury_intent_controll.Json.Value.{
  Value, boolean, text, array, object, Items, nil, item, Fields, end, field, get, one_field,
}

abbrev pub doc_names : List String
doc_names = "README.md" ∷ "CONTRACT.md" ∷ []

-- The documents by name, in order; `none` where a file is not there.
unfoldable pub load_from : (String → Option String) → List String → Option (List (String × String))
load_from read [] = some []
load_from read (name ∷ names) = elim (read name) [
  | none ↦ none
  | some doc ↦ elim (load_from read names) [ none ↦ none | some docs ↦ some ((name, doc) ∷ docs) ]
]

abbrev pub load_docs : (String → Option String) → Option (List (String × String))
load_docs read = load_from read doc_names

module _ {N : Type 0} where
  abbrev pub add_field : Fields N → String → Value N → Fields N
  add_field end key v = field key v end
  add_field (field k u rest) key v = field k u (add_field rest key v)

  abbrev pub document_block : String → String → Fields N
  document_block name doc = field "type" (text "document") (
      field "source"
        (object (
          field "type" (text "text")
            (field "media_type" (text "text/plain") (field "data" (text doc) end))))
        (field "title" (text name) (field "citations" (one_field "enabled" (boolean true)) end)))

  abbrev pub cached : Fields N → Fields N
  cached block = add_field block "cache_control" (one_field "type" (text "ephemeral"))

  -- The blocks, with the cache breakpoint on the last; without documents `blocks[-1]` raises.
  unfoldable pub blocks_of : List (String × String) → Option (Items N)
  blocks_of [] = none
  blocks_of ((name, doc) ∷ []) = some (item (object (cached (document_block name doc))) nil)
  blocks_of ((name, doc) ∷ next ∷ docs) = elim (blocks_of (next ∷ docs)) [
    | none ↦ none
    | some blocks ↦ some (item (object (document_block name doc)) blocks)
  ]

  unfoldable pub build_document_blocks : (String → Option String) → Option (Items N)
  build_document_blocks read = elim (load_docs read) [ none ↦ none | some docs ↦ blocks_of docs ]

  -- `blocks + content`.
  abbrev pub append_items : Items N → Items N → Items N
  append_items nil content = content
  append_items (item v blocks) content = item v (append_items blocks content)

  -- `d[key] = v`.
  unfoldable pub set_field : Fields N → String → Value N → Fields N
  set_field end key v = field key v end
  set_field (field k u rest) key v =
      if k == key then field k v rest else field k u (set_field rest key v)

  abbrev key_items : Fields N → Items N
  key_items end = nil
  key_items (field k v rest) = item (text k) (key_items rest)

  abbrev letter_items : String → Items N
  letter_items s = item (object (field "type" (text "text") (field "text" (text s) end))) nil

  -- The content as a list: a text is one block, and of another value `list(…)` is taken.
  abbrev pub content_items : Option (Value N) → Option (Items N)
  content_items (some (text s)) = some (letter_items s)
  content_items (some (array items)) = some items
  content_items (some (object fields)) = some (key_items fields)
  content_items _ = none

  abbrev put_before :
      Items N → Fields N → List (Fields N) → Option (Items N) → Option (List (Fields N))
  put_before blocks first rest none = none
  put_before blocks first rest (some content) =
      some (set_field first "content" (array (append_items blocks content)) ∷ rest)

  unfoldable pub inject_documents : Items N → List (Fields N) → Option (List (Fields N))
  inject_documents blocks [] = some []
  inject_documents blocks (first ∷ rest) =
      put_before blocks first rest (content_items (get "content" first))

  -- The first turn has the documents in front of its content and is otherwise as it was, and so are
  -- the other turns.
  pub record IsInjected (blocks : Items N) (first : Fields N) (rest out : List (Fields N))
      : Type 0 where
    pub turn : Fields N
    pub content : Items N
    pub is_out : out ≡ (turn ∷ rest)
    pub had_content : content_items (get "content" first) ≡ some content
    pub has_documents : get "content" turn ≡ some (array (append_items blocks content))
    pub keeps : (key : String) → ("content" == key) ≡ false → get key turn ≡ get key first

  -- The cache breakpoint of a block.
  abbrev pub has_breakpoint : Value N → Bool
  has_breakpoint (object block) = elim (get "cache_control" block) [ none ↦ false | some v ↦ true ]
  has_breakpoint _ = false

  -- One block for each document, in order and with its title, and a breakpoint on the last alone.
  abbrev pub AreBlocks : List (String × String) → Items N → Type 0
  AreBlocks [] blocks = blocks ≡ nil
  AreBlocks ((name, doc) ∷ docs) nil = ⊥
  AreBlocks ((name, doc) ∷ docs) (item (object block) blocks) =
      (get "title" block ≡ some (text name))
      × ((has_breakpoint (object block) ≡ is_last docs) × AreBlocks docs blocks)
    where
      is_last : List (String × String) → Bool
      is_last [] = true
      is_last (d ∷ docs) = false
  AreBlocks ((name, doc) ∷ docs) (item _ blocks) = ⊥

  same_items : (a b : Items N) → some a ≡ some b → a ≡ b
  same_items a b h = cc

  blocks_of-AreBlocks :
      (docs : List (String × String)) (blocks : Items N)
      → blocks_of docs ≡ some blocks
      → AreBlocks docs blocks
  unfolding blocks_of get
  blocks_of-AreBlocks [] blocks h = cc h
  blocks_of-AreBlocks ((name, doc) ∷ []) blocks h =
      subst (λ b. AreBlocks ((name, doc) ∷ []) b)
        (same_items (item (object (cached (document_block name doc))) nil) blocks h)
        (refl, (refl, refl))
  blocks_of-AreBlocks ((name, doc) ∷ next ∷ docs) blocks h =
      by_rest (blocks_of (next ∷ docs)) (λ b k. blocks_of-AreBlocks (next ∷ docs) b k) h
    where
      by_rest :
          (o : Option (Items N))
          → ((b : Items N) → o ≡ some b → AreBlocks (next ∷ docs) b)
          → elim o [ none ↦ none | some b ↦ some (item (object (document_block name doc)) b) ]
            ≡ some blocks
          → AreBlocks ((name, doc) ∷ next ∷ docs) blocks
      by_rest none ih h = cc h
      by_rest (some b) ih h =
          subst (λ b. AreBlocks ((name, doc) ∷ next ∷ docs) b)
            (same_items (item (object (document_block name doc)) b) blocks h)
            (refl, (refl, ih b refl))
