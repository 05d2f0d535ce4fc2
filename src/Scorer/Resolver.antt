-- ===== src/Scorer/Resolver.antt =====
-- core/scorer/src/scorer/resolver.py: KeArtifactResolver over a directory of files. The wheel's
-- `from_bytes` and `verify_artifact`, under the configured evidence, and `str.lower` are parameters.
pub mod Evidence
use treasury_intent_controll.Base.{
  String, Bool, true, false, ◌&&◌, List, [], ◌∷◌, Option, none, some, ◌==◌, if◌then◌else◌,
}
use treasury_intent_controll.Json.Text.{Bytes}
use treasury_intent_controll.Scorer.{Tried, returned, threw, is_given, basis_text}

-- `from_bytes`: the artifact's hash, the ValueError that is skipped, or another exception.
pub data Decoded : Type 0 where
  artifact : String → Decoded
  not_canonical : Decoded
  broken : String → Decoded

-- The two fields of a verification outcome that are read.
pub record Outcome : Type 0 where
  pub verdict : Option String
  pub content_hash : Option String

-- Newest binding first, as `index[key] = data` overwrites.
abbrev pub Index : Type 0
Index = List (String × Bytes)

unfoldable pub find : String → Index → Option Bytes
find want [] = none
find want ((hash, data_) ∷ index) = if hash == want then some data_ else find want index

-- `[h for h in (rule, spec) if h]`.
unfoldable pub requested_hashes : Option String → Option String → List String
requested_hashes rule spec =
    if is_given rule
    then (if is_given spec then basis_text rule ∷ basis_text spec ∷ [] else basis_text rule ∷ [])
    else (if is_given spec then basis_text spec ∷ [] else [])

module _ (lower : String → String) (from_bytes : Bytes → Decoded)
    (verify_artifact : Bytes → Tried Outcome) where
  unfoldable pub add_file : Bytes → Index → Decoded → Tried Index
  add_file data_ index (artifact hash) = returned ((lower hash, data_) ∷ index)
  add_file data_ index not_canonical = returned index
  add_file data_ index (broken name) = threw name

  -- The loop over the files, in their sorted order.
  unfoldable pub build : List Bytes → Index → Tried Index
  unfolding add_file
  build [] index = returned index
  build (data_ ∷ files) index = elim (add_file data_ index (from_bytes data_)) [
    | returned next ↦ build files next
    | threw name ↦ threw name
  ]

  unfoldable pub is_match : String → Tried Outcome → Tried Bool
  is_match want (returned o) =
      returned (basis_text o.verdict == "verified" && lower (basis_text o.content_hash) == want)
  is_match want (threw name) = threw name

  unfoldable pub check : String → Option Bytes → Tried Bool
  unfolding is_match
  check want none = returned false
  check want (some kew) = is_match want (verify_artifact kew)

  unfoldable pub lookup_in : String → Tried Index → Tried Bool
  unfolding check find
  lookup_in want (returned index) = check want (find want index)
  lookup_in want (threw name) = threw name

  -- `_verified`, with the index that `_store` builds once from files that do not change.
  unfoldable pub verified : List Bytes → String → Tried Bool
  unfolding lookup_in build
  verified files requested = lookup_in (lower requested) (build files [])

  unfoldable pub and_then : Tried Bool → Tried Bool → Tried Bool
  and_then (returned true) next = next
  and_then (returned false) next = returned false
  and_then (threw name) next = threw name

  unfoldable pub all_verified : List Bytes → List String → Tried Bool
  unfolding verified and_then
  all_verified files [] = returned true
  all_verified files (h ∷ hashes) = and_then (verified files h) (all_verified files hashes)

  unfoldable pub verify_requested : List Bytes → List String → Tried Bool
  unfolding all_verified
  verify_requested files [] = returned false
  verify_requested files (h ∷ hashes) = all_verified files (h ∷ hashes)

  unfoldable pub verify : List Bytes → Option String → Option String → Tried Bool
  unfolding verify_requested requested_hashes
  verify files rule spec = verify_requested files (requested_hashes rule spec)
