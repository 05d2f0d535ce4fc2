-- ===== src/Scorer/Resolver/Evidence.antt =====
-- What stands behind a True of `KeArtifactResolver.verify` (core/scorer/src/scorer/resolver.py).
use treasury_intent_controll.Base.{
  String, Bool, true, false, ◌&&◌, ◌||◌, List, [], ◌∷◌, Option, none, some, ◌==◌, eq_iff, ◌≡◌, refl,
  ◌≢◌, ◌⊎◌, inl, inr, if◌then◌else◌, Bool-cases, eq-false, subst, arith,
}
use treasury_intent_controll.Json.Text.{Bytes}
use treasury_intent_controll.Scorer.{Tried, returned, threw, is_given, basis_text}
use treasury_intent_controll.Scorer.Resolver.{
  Decoded, artifact, not_canonical, broken, Outcome, Index, find, requested_hashes, add_file, build,
  is_match, check, lookup_in, verified, and_then, all_verified, verify_requested, verify,
}

-- The file is one of the directory's.
abbrev pub InFiles : Bytes → List Bytes → Type 0
InFiles d [] = ⊥
InFiles d (f ∷ files) = (f ≡ d) ⊎ InFiles d files

returned_eq : {A : Type 0} (a b : A) → returned a ≡ returned b → a ≡ b
returned_eq a b h = cc

some_bytes : (a b : Bytes) → some a ≡ some b → a ≡ b
some_bytes a b h = cc

-- The hash is in the list.
abbrev Mem : String → List String → Type 0
Mem h [] = ⊥
Mem h (x ∷ hashes) = (x ≡ h) ⊎ Mem h hashes

given_text : (h : String) → h ≢ "" → is_given (some h) ≡ true
given_text h n = rw (eq-false h "" n)

requested-Mem :
    (rule spec : Option String) (h : String)
    → h ≢ ""
    → (rule ≡ some h) ⊎ (spec ≡ some h)
    → Mem h (requested_hashes rule spec)
unfolding requested_hashes
requested-Mem rule spec h n (inl e) = rw (e, given_text h n) (by_test (is_given spec))
  where
    by_test : (b : Bool) → Mem h (if b then h ∷ basis_text spec ∷ [] else h ∷ [])
    by_test true = inl refl
    by_test false = inl refl
requested-Mem rule spec h n (inr e) = rw (e, given_text h n) (by_test (is_given rule))
  where
    by_test : (b : Bool) → Mem h (if b then basis_text rule ∷ h ∷ [] else h ∷ [])
    by_test true = inr (inl refl)
    by_test false = inl refl

module _ (lower : String → String) (from_bytes : Bytes → Decoded)
    (verify_artifact : Bytes → Tried Outcome) where
  -- A file of the directory that decodes to an artifact with the wanted hash.
  pub record Stored (files : List Bytes) (want : String) (data_ : Bytes) : Type 0 where
    pub hash : String
    pub in_files : InFiles data_ files
    pub decodes : from_bytes data_ ≡ artifact hash
    pub same : lower hash ≡ want

  -- A stored file whose verdict is "verified" and whose content has the hash asked for.
  pub record Evidenced (files : List Bytes) (requested : String) : Type 0 where
    pub data_ : Bytes
    pub outcome : Outcome
    pub stored : Stored files (lower requested) data_
    pub answer : verify_artifact data_ ≡ returned outcome
    pub verdict : basis_text outcome.verdict ≡ "verified"
    pub content : lower (basis_text outcome.content_hash) ≡ lower requested

  later-Stored :
      (f : Bytes) (files : List Bytes) (want : String) (d : Bytes)
      → Stored files want d
      → Stored (f ∷ files) want d
  later-Stored f files want d s = record {
    hash = s.hash;
    in_files = inr s.in_files;
    decodes = s.decodes;
    same = s.same;
  }

  -- What the index holds after one more file.
  find-added :
      (f : Bytes) (files : List Bytes) (want hash : String) (index : Index) (d : Bytes)
      → from_bytes f ≡ artifact hash
      → find want ((lower hash, f) ∷ index) ≡ some d
      → (find want index ≡ some d) ⊎ Stored (f ∷ files) want d
  unfolding find
  find-added f files want hash index d e h = elim (Bool-cases (lower hash == want)) [
    | inl t ↦
        let q = some_bytes f d (rw t at h) in
        inr (record {
          hash = hash;
          in_files = inl q;
          decodes = subst (λ (b : Bytes). from_bytes b ≡ artifact hash) q e;
          same = (eq_iff (lower hash) want).0 t;
        })
    | inr t ↦ inl (rw t at h)
  ]

  build_step :
      (f : Bytes) (files : List Bytes) (want : String) (index out : Index) (d : Bytes) (c : Decoded)
      → from_bytes f ≡ c
      → ((i : Index)
          → build lower from_bytes verify_artifact files i ≡ returned out
          → (find want i ≡ some d) ⊎ Stored files want d)
      → elim (add_file lower from_bytes verify_artifact f index c) [
        | returned next ↦ build lower from_bytes verify_artifact files next
        | threw name ↦ threw name
      ]
        ≡ returned out
      → (find want index ≡ some d) ⊎ Stored (f ∷ files) want d
  unfolding add_file
  build_step f files want index out d (artifact hash) e rest h =
      elim (rest ((lower hash, f) ∷ index) h) [
        | inl q ↦ find-added f files want hash index d e q
        | inr s ↦ inr (later-Stored f files want d s)
      ]
  build_step f files want index out d not_canonical e rest h = elim (rest index h) [
    | inl q ↦ inl q
    | inr s ↦ inr (later-Stored f files want d s)
  ]
  build_step f files want index out d (broken name) e rest h = cc

  build-Stored :
      (files : List Bytes) (want : String) (index out : Index) (d : Bytes)
      → find want out ≡ some d
      → build lower from_bytes verify_artifact files index ≡ returned out
      → (find want index ≡ some d) ⊎ Stored files want d
  unfolding build
  build-Stored [] want index out d q h = inl (rw (returned_eq index out h) q)
  build-Stored (f ∷ files) want index out d q h =
      build_step f files want index out d (from_bytes f) refl
        (λ i k. build-Stored files want i out d q k) h

  match-Evidenced :
      (files : List Bytes) (h : String) (d : Bytes) (t : Tried Outcome)
      → Stored files (lower h) d
      → verify_artifact d ≡ t
      → is_match lower from_bytes verify_artifact (lower h) t ≡ returned true
      → Evidenced files h
  unfolding is_match
  match-Evidenced files h d (threw name) s e q = cc
  match-Evidenced files h d (returned o) s e q =
      let both =
        both_tests (basis_text o.verdict == "verified")
          (lower (basis_text o.content_hash) == lower h) (returned_eq _ true q) in
      record {
        data_ = d;
        outcome = o;
        stored = s;
        answer = e;
        verdict = (eq_iff (basis_text o.verdict) "verified").0 both.0;
        content = (eq_iff (lower (basis_text o.content_hash)) (lower h)).0 both.1;
      }
    where
      both_tests : (a b : Bool) → (a && b) ≡ true → (a ≡ true) × (b ≡ true)
      both_tests a b e = ground arith

  check-Evidenced :
      (files : List Bytes) (h : String) (o : Option Bytes)
      → ((d : Bytes) → o ≡ some d → Stored files (lower h) d)
      → check lower from_bytes verify_artifact (lower h) o ≡ returned true
      → Evidenced files h
  unfolding check
  check-Evidenced files h none s q = cc
  check-Evidenced files h (some d) s q =
      match-Evidenced files h d (verify_artifact d) (s d refl) refl q

  found-Stored :
      (files : List Bytes) (want : String) (index : Index) (d : Bytes)
      → build lower from_bytes verify_artifact files [] ≡ returned index
      → find want index ≡ some d
      → Stored files want d
  unfolding find
  found-Stored files want index d e q = elim (build-Stored files want [] index d q e) [
    | inl n ↦ absurd (nothing_found want d n)
    | inr s ↦ s
  ]
    where
      nothing_found : (want : String) (d : Bytes) → find want [] ≡ some d → ⊥
      nothing_found want d h = cc

  lookup_in-Evidenced :
      (files : List Bytes) (h : String) (t : Tried Index)
      → build lower from_bytes verify_artifact files [] ≡ t
      → lookup_in lower from_bytes verify_artifact (lower h) t ≡ returned true
      → Evidenced files h
  unfolding lookup_in
  lookup_in-Evidenced files h (threw name) e q = cc
  lookup_in-Evidenced files h (returned index) e q =
      check-Evidenced files h (find (lower h) index)
        (λ d k. found-Stored files (lower h) index d e k) q

  verified-Evidenced :
      (files : List Bytes) (h : String)
      → verified lower from_bytes verify_artifact files h ≡ returned true
      → Evidenced files h
  unfolding verified
  verified-Evidenced files h q =
      lookup_in-Evidenced files h (build lower from_bytes verify_artifact files []) refl q

  both_returned :
      (a b : Tried Bool)
      → and_then lower from_bytes verify_artifact a b ≡ returned true
      → (a ≡ returned true) × (b ≡ returned true)
  unfolding and_then
  both_returned (returned true) b h = (refl, h)
  both_returned (returned false) b h = cc
  both_returned (threw name) b h = cc

  all_verified-Evidenced :
      (files : List Bytes) (hashes : List String) (h : String)
      → Mem h hashes
      → all_verified lower from_bytes verify_artifact files hashes ≡ returned true
      → Evidenced files h
  unfolding all_verified
  all_verified-Evidenced files [] h m q = absurd m
  all_verified-Evidenced files (x ∷ hashes) h m q =
      let b =
        both_returned (verified lower from_bytes verify_artifact files x)
          (all_verified lower from_bytes verify_artifact files hashes) q in
      elim m [
        | inl e ↦ subst (λ (y : String). Evidenced files y) e (verified-Evidenced files x b.0)
        | inr n ↦ all_verified-Evidenced files hashes h n b.1
      ]

  verify_requested-Evidenced :
      (files : List Bytes) (hashes : List String) (h : String)
      → Mem h hashes
      → verify_requested lower from_bytes verify_artifact files hashes ≡ returned true
      → Evidenced files h
  unfolding verify_requested
  verify_requested-Evidenced files [] h m q = cc
  verify_requested-Evidenced files (x ∷ hashes) h m q =
      all_verified-Evidenced files (x ∷ hashes) h m q

  -- When `verify` answers True, each hash that was asked for has a file in the directory that decodes
  -- to it, whose verdict is "verified" and whose content re-addresses to it, up to letter case.
  pub verify-Evidenced :
      (files : List Bytes) (rule spec : Option String) (h : String)
      → h ≢ ""
      → (rule ≡ some h) ⊎ (spec ≡ some h)
      → verify lower from_bytes verify_artifact files rule spec ≡ returned true
      → Evidenced files h
  unfolding verify
  verify-Evidenced files rule spec h n o q =
      verify_requested-Evidenced files (requested_hashes rule spec) h
        (requested-Mem rule spec h n o) q

  -- `verify` never answers True when no hash was asked for.
  pub verify-given :
      (files : List Bytes) (rule spec : Option String)
      → verify lower from_bytes verify_artifact files rule spec ≡ returned true
      → (is_given rule || is_given spec) ≡ true
  unfolding verify requested_hashes verify_requested
  verify-given files rule spec q = elim (Bool-cases (is_given rule)) [
    | inl e ↦ rw e
    | inr e ↦ elim (Bool-cases (is_given spec)) [ inl k ↦ rw (e, k) | inr k ↦ cc (rw (e, k) at q) ]
  ]
