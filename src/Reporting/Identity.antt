-- ===== src/Reporting/Identity.antt =====
-- Reading the bytes of `canonical_identity` (declarant/pydeclarant/reporting_adapter.py) back.
use treasury_intent_controll.Base.{
  contains, Bool, true, false, not, ◌&&◌, ◌||◌, String, List, [], ◌∷◌, ◌++◌, Option, none, some,
  ◌==◌, ◌≡◌, refl, ap, sym, subst, ◌∙◌, lookup, sort_items, lookup-sort_items, if◌then◌else◌, arith,
  eq_iff, Bool-cases, inl, inr,
}
use treasury_intent_controll.Json.Text.{Bytes}
use treasury_intent_controll.Json.Objects.{TextItems, dumps_items, dumps_items_injective}
use treasury_intent_controll.Reporting.Dates.{is_iso_date}
use treasury_intent_controll.Reporting.Verbatim.{is_stripped}
use treasury_intent_controll.Reporting.{
  ReportIdentity, field, Unkeyable, Keyed, keyed, unkeyable, ◌>>=◌, ◌>>◌, refuse_if, base_keyed,
  discriminators, action_types, absent, not_stripped, not_nfc, not_keyed, bad_date, check_field,
  collect, check_dropped, canonical_fields, with_extra, canonical_identity,
}

pub bind_keyed {ℓ κ} :
    {A : Type ℓ} {B : Type κ} (m : Keyed A) (f : A → Keyed B) {b : B}
    → (m >>= f) ≡ keyed b
    → (a : A) × (m ≡ keyed a) × (f a ≡ keyed b)
bind_keyed (keyed a) f h = (a, refl, h)
bind_keyed (unkeyable e) f h = cc

pub not_refused {ℓ} :
    {B : Type ℓ} (b : Bool) (e : Unkeyable) (k : Keyed B) {x : B}
    → (refuse_if b e >> k) ≡ keyed x
    → (b ≡ false) × (k ≡ keyed x)
not_refused true e k h = cc
not_refused false e k h = (refl, h)

pub keyed_injective {ℓ} : {A : Type ℓ} (a b : A) → keyed a ≡ keyed b → a ≡ b
keyed_injective a b h = cc

three_refusals :
    (a b c : Bool) (e f g : Unkeyable) (w v : String)
    → (refuse_if a e >> (refuse_if b f >> (refuse_if c g >> keyed w))) ≡ keyed v
    → w ≡ v
three_refusals a b c e f g w v h =
    let x = not_refused a e (refuse_if b f >> (refuse_if c g >> keyed w)) h in
    let y = not_refused b f (refuse_if c g >> keyed w) x.1 in
    let z = not_refused c g (keyed w) y.1 in keyed_injective w v z.1

-- One more binding in front.
lookup_step :
    (r : ReportIdentity) (name k : String) (names : List String) (o : Option String)
    → o ≡ (if contains names k then some (field r k) else none)
    → (if name == k then some (field r name) else o)
      ≡ (if name == k || contains names k then some (field r k) else none)
lookup_step r name k names o h = elim (Bool-cases (name == k)) [
  | inl e ↦ rw e (ap (λ (n : String). some (field r n)) ((eq_iff name k).0 e))
  | inr e ↦ rw e h
]

module _ (nfc : String → String) where
  -- A keyed value is the field, unchanged.
  check_field-field :
      (r : ReportIdentity) (name v : String) → check_field nfc r name ≡ keyed v → field r name ≡ v
  unfolding check_field
  check_field-field r name v h =
      three_refusals (not (name == "on_behalf_of") && field r name == "")
        (not (is_stripped (field r name))) (not (nfc (field r name) == field r name)) (absent name)
        (not_stripped name) (not_nfc name) (field r name) v h

  -- What `collect` binds each name to.
  abbrev binding : ReportIdentity → List String → String → Option String
  binding r names k = if contains names k then some (field r k) else none

  -- The payload binds each keyed name to its field, and nothing else.
  collect-lookup :
      (r : ReportIdentity) (names : List String) (p : TextItems) (k : String)
      → collect nfc r names ≡ keyed p
      → lookup k p ≡ binding r names k
  unfolding collect lookup
  collect-lookup r [] p k h =
      subst (λ (q : TextItems). lookup k q ≡ none) (keyed_injective [] p h) refl
  collect-lookup r (name ∷ names) p k h =
      let a = bind_keyed (check_field nfc r name) _ h in
      let b = bind_keyed (collect nfc r names) _ a.2 in
      subst (λ (q : TextItems). lookup k q ≡ binding r (name ∷ names) k)
        (keyed_injective ((name, a.0) ∷ b.0) p b.2)
        (subst
          (λ (v : String).
            (if name == k then some v else lookup k b.0) ≡ binding r (name ∷ names) k)
          (check_field-field r name a.0 a.1)
          (lookup_step r name k names (lookup k b.0) (collect-lookup r names b.0 k b.1)))

-- A discriminator that the action type does not key on is empty.
dropped_here :
    (r : ReportIdentity) (names : List String) (name k : String)
    → (not (contains names name) && not (field r name == "")) ≡ false
    → (name == k) ≡ true
    → contains names k ≡ false
    → field r k ≡ ""
dropped_here r names name k h e n =
    subst (λ (m : String). (contains names m ≡ false) → field r m ≡ "") ((eq_iff name k).0 e)
      (λ c.
        (eq_iff (field r name) "").0 (only_empty (contains names name) (field r name == "") h c))
      n
  where
    only_empty : (c d : Bool) → (not c && not d) ≡ false → c ≡ false → d ≡ true
    only_empty c d h k = ground arith

or_right : (a b : Bool) → (a || b) ≡ true → a ≡ false → b ≡ true
or_right a b h k = ground arith

check_dropped-empty :
    (r : ReportIdentity) (names rest : List String) (k : String)
    → check_dropped r names rest ≡ keyed tt
    → contains rest k ≡ true
    → contains names k ≡ false
    → field r k ≡ ""
unfolding check_dropped
check_dropped-empty r names [] k h m n = cc
check_dropped-empty r names (name ∷ rest) k h m n =
    let a =
      not_refused (not (contains names name) && not (field r name == "")) (not_keyed name)
        (check_dropped r names rest) h in
    elim (Bool-cases (name == k)) [
      | inl e ↦ dropped_here r names name k a.0 e n
      | inr e ↦
          check_dropped-empty r names rest k a.1 (or_right (name == k) (contains rest k) m e) n
    ]

-- What an identity that was keyed is known to satisfy.
record Canonical (r : ReportIdentity) (names : List String) (bytes : Bytes) : Type 0 where
  payload : TextItems
  binds : (k : String) → lookup k payload ≡ (if contains names k then some (field r k) else none)
  drops :
      (k : String) → contains discriminators k ≡ true → contains names k ≡ false → field r k ≡ ""
  written : dumps_items (sort_items payload) [] ≡ bytes

unit_eq : (u : Unit {0}) → u ≡ tt
unit_eq u = refl

canonical_fields-Canonical :
    (nfc : String → String) (r : ReportIdentity) (names : List String) (bytes : Bytes)
    → canonical_fields nfc r names ≡ keyed bytes
    → Canonical r names bytes
unfolding canonical_fields
canonical_fields-Canonical nfc r names bytes h =
    let a = bind_keyed (collect nfc r names) _ h in
    let b = bind_keyed (check_dropped r names discriminators) _ a.2 in
    let c =
      not_refused (contains names "as_of" && not (is_iso_date r.as_of)) bad_date
        (keyed (dumps_items (sort_items a.0) [])) b.2 in
    record {
      payload = a.0;
      binds = λ k. collect-lookup nfc r names a.0 k a.1;
      drops = λ k. check_dropped-empty r names discriminators k b.1;
      written = keyed_injective (dumps_items (sort_items a.0) []) bytes c.1;
    }

-- Two identities with the same bytes agree on what their payloads bind.
same_binding :
    (r q : ReportIdentity) (names others : List String) (bytes : Bytes) (k : String)
    → Canonical r names bytes
    → Canonical q others bytes
    → (if contains names k then some (field r k) else none)
      ≡ (if contains others k then some (field q k) else none)
same_binding r q names others bytes k x y =
    let items =
      (dumps_items_injective (sort_items x.payload) (sort_items y.payload) [] []
        (x.written ∙ sym y.written)).0 in
    sym (x.binds k)
    ∙ sym (lookup-sort_items k x.payload)
    ∙ ap (λ (m : TextItems). lookup k m) items
    ∙ lookup-sort_items k y.payload
    ∙ y.binds k

-- The action type is known, and the identity satisfies the rest.
record Accepted (r : ReportIdentity) (bytes : Bytes) : Type 0 where
  extra : List String
  known : lookup r.action_type action_types ≡ some extra
  canonical : Canonical r (base_keyed ++ extra) bytes

with_extra-Accepted :
    (nfc : String → String) (r : ReportIdentity) (bytes : Bytes) (o : Option (List String))
    → lookup r.action_type action_types ≡ o
    → with_extra nfc r o ≡ keyed bytes
    → Accepted r bytes
unfolding with_extra
with_extra-Accepted nfc r bytes none e h = cc
with_extra-Accepted nfc r bytes (some extra) e h = record {
  extra = extra;
  known = e;
  canonical = canonical_fields-Canonical nfc r (base_keyed ++ extra) bytes h;
}

canonical_identity-Accepted :
    (nfc : String → String) (r : ReportIdentity) (bytes : Bytes)
    → canonical_identity nfc r ≡ keyed bytes
    → Accepted r bytes
unfolding canonical_identity
canonical_identity-Accepted nfc r bytes h =
    with_extra-Accepted nfc r bytes (lookup r.action_type action_types) refl h

some_eq : (a b : String) → ◌≡◌ {A = Option String} (some a) (some b) → a ≡ b
some_eq a b h = cc

-- Under one list of keyed names every discriminator agrees.
same_discriminator :
    (r q : ReportIdentity) (names : List String) (bytes : Bytes) (k : String)
    → contains discriminators k ≡ true
    → Canonical r names bytes
    → Canonical q names bytes
    → field r k ≡ field q k
same_discriminator r q names bytes k d x y = elim (Bool-cases (contains names k)) [
  | inl e ↦ some_eq (field r k) (field q k) (
      subst
        (λ (b : Bool).
          (if b then some (field r k) else none) ≡ (if b then some (field q k) else none))
        e (same_binding r q names names bytes k x y))
  | inr e ↦ x.drops k d e ∙ sym (y.drops k d e)
]

module _ (r q : ReportIdentity) (bytes : Bytes) (x : Accepted r bytes) (y : Accepted q bytes) where
  -- A base field, by its name: the test on the names computes.
  base_binding :
      (k : String)
      → (if contains (base_keyed ++ x.extra) k then some (field r k) else none)
        ≡ (if contains (base_keyed ++ y.extra) k then some (field q k) else none)
  base_binding k =
      same_binding r q (base_keyed ++ x.extra) (base_keyed ++ y.extra) bytes k x.canonical
        y.canonical

  same_action : r.action_type ≡ q.action_type
  same_action = some_eq r.action_type q.action_type (base_binding "action_type")

  same_extra : x.extra ≡ y.extra
  same_extra =
      let e = sym x.known ∙ ap (λ (a : String). lookup a action_types) same_action ∙ y.known in cc e

  discriminator_eq : (k : String) → contains discriminators k ≡ true → field r k ≡ field q k
  discriminator_eq k d =
      same_discriminator r q (base_keyed ++ y.extra) bytes k d
        (subst (λ (names : List String). Canonical r (base_keyed ++ names) bytes) same_extra
          x.canonical)
        y.canonical

  same_identity : r ≡ q
  same_identity = λ i. record {
    reporting_entity =
        some_eq r.reporting_entity q.reporting_entity (base_binding "reporting_entity") i;
    uti = some_eq r.uti q.uti (base_binding "uti") i;
    action_type = same_action i;
    rule_set = some_eq r.rule_set q.rule_set (base_binding "rule_set") i;
    on_behalf_of = some_eq r.on_behalf_of q.on_behalf_of (base_binding "on_behalf_of") i;
    as_of = discriminator_eq "as_of" refl i;
    event_ref = discriminator_eq "event_ref" refl i;
    prior_ref = discriminator_eq "prior_ref" refl i;
  }

-- Two report identities that are keyed from the same bytes are the same identity, the fields that
-- are not keyed included.
pub canonical_identity_injective :
    (nfc : String → String) (r q : ReportIdentity) (bytes : Bytes)
    → canonical_identity nfc r ≡ keyed bytes
    → canonical_identity nfc q ≡ keyed bytes
    → r ≡ q
canonical_identity_injective nfc r q bytes h k =
    same_identity r q bytes (canonical_identity-Accepted nfc r bytes h)
      (canonical_identity-Accepted nfc q bytes k)
