-- ===== src/Mcp/Resolved.antt =====
-- The rounds of `_resolve` (declarant/pydeclarant/mcp_adapter.py).
use treasury_intent_controll.Base.{
  ℕ, zero, suc, ◌+◌, ◌<◌, Bool, true, false, String, List, [], ◌∷◌, ◌++◌, Option, none, some, ◌==◌,
  eq_iff, lookup, contains, if◌then◌else◌, ◌≡◌, refl, sym, ◌∙◌, ap, subst, ◌≢◌, inl, inr,
  Bool-cases, arith,
}
use treasury_intent_controll.Json.Value.{
  Value, null, boolean, number, text, array, object, Fields, end, field, get,
}
use treasury_intent_controll.Mcp.{unkeyable, unfinished, ref_cycle}
use treasury_intent_controll.Mcp.Schema.{
  Defs, split, entry, target_of, Turn, stop, go, go_to, turn, resolve_dict, resolve, size, rounds,
}
use treasury_intent_controll.Mcp.References.{
  join, unseen, total, join-split, unseen-le, unseen-lt, total_append, contains_here,
  contains_later, contains_left, contains_right,
}

module _ {N : Type 0} where
  abbrev refs_in : String → Fields N → List String
  refs_in key end = []
  refs_in key (field name v rest) = join ("#" ∷ key ∷ name ∷ []) ∷ refs_in key rest

  -- The references that a schema's definitions can answer.
  abbrev refs_of : Defs N → List String
  refs_of [] = []
  refs_of ((key, section) ∷ defs) = refs_in key section ++ refs_of defs

  refs_in-contains :
      (key name : String) (section : Fields N) (v : Value N)
      → get name section ≡ some v
      → contains (refs_in key section) (join ("#" ∷ key ∷ name ∷ [])) ≡ true
  unfolding get
  refs_in-contains key name end v h = cc
  refs_in-contains key name (field k w rest) v h = elim (Bool-cases (k == name)) [
    | inl e ↦
        contains_here (join ("#" ∷ key ∷ k ∷ [])) (join ("#" ∷ key ∷ name ∷ [])) (refs_in key rest)
          (ap (λ (n : String). join ("#" ∷ key ∷ n ∷ [])) ((eq_iff k name).0 e))
    | inr e ↦
        contains_later (join ("#" ∷ key ∷ k ∷ [])) (join ("#" ∷ key ∷ name ∷ [])) (refs_in key rest)
          (refs_in-contains key name rest v
            (subst (λ (b : Bool). (if b then some w else get name rest) ≡ some v) e h))
  ]

  refs_of-contains :
      (defs : Defs N) (key name : String) (v : Value N)
      → entry name (lookup key defs) ≡ some v
      → contains (refs_of defs) (join ("#" ∷ key ∷ name ∷ [])) ≡ true
  unfolding lookup
  refs_of-contains [] key name v h = cc
  refs_of-contains ((k, section) ∷ defs) key name v h = elim (Bool-cases (k == key)) [
    | inl e ↦ contains_left (refs_in k section) (refs_of defs) (join ("#" ∷ key ∷ name ∷ [])) (
        subst (λ (j : String). contains (refs_in j section) (join ("#" ∷ key ∷ name ∷ [])) ≡ true)
          (sym ((eq_iff k key).0 e))
          (refs_in-contains key name section v (
            subst (λ (b : Bool). entry name (if b then some section else lookup key defs) ≡ some v)
              e h)))
    | inr e ↦ contains_right (refs_in k section) (refs_of defs) (join ("#" ∷ key ∷ name ∷ [])) (
        refs_of-contains defs key name v (
          subst (λ (b : Bool). entry name (if b then some section else lookup key defs) ≡ some v) e
            h))
  ]

  no_target : {v : Value N} → none ≡ some v → ⊥
  no_target h = cc

  target_of-contains :
      (defs : Defs N) (parts : List String) (v : Value N)
      → target_of defs parts ≡ some v
      → contains (refs_of defs) (join parts) ≡ true
  unfolding target_of
  target_of-contains defs [] v h = cc
  target_of-contains defs (root ∷ []) v h = cc
  target_of-contains defs (root ∷ key ∷ []) v h = cc
  target_of-contains defs (root ∷ key ∷ name ∷ []) v h = elim (Bool-cases (root == "#")) [
    | inl e ↦
        subst (λ (r : String). contains (refs_of defs) (join (r ∷ key ∷ name ∷ [])) ≡ true)
          (sym ((eq_iff root "#").0 e))
          (refs_of-contains defs key name v
            (subst (λ (b : Bool). (if b then entry name (lookup key defs) else none) ≡ some v) e h))
    | inr e ↦ absurd (
        no_target
          (subst (λ (b : Bool). (if b then entry name (lookup key defs) else none) ≡ some v) e h))
  ]
  target_of-contains defs (root ∷ key ∷ name ∷ other ∷ parts) v h = cc

  go_to-go :
      (schema next : Fields N) (r ref : String) (t : Option (Value N))
      → go_to schema r t ≡ go ref next
      → (r ≡ ref) × ((v : Value N) × (t ≡ some v))
  go_to-go schema next r ref none h = cc
  go_to-go schema next r ref (some (object target)) h = (cc, (object target, refl))
  go_to-go schema next r ref (some null) h = cc
  go_to-go schema next r ref (some (boolean b)) h = cc
  go_to-go schema next r ref (some (number n)) h = cc
  go_to-go schema next r ref (some (text s)) h = cc
  go_to-go schema next r ref (some (array items)) h = cc

  go_to-stop :
      (schema : Fields N) (r : String) (t : Option (Value N)) → go_to schema r t ≢ stop unfinished
  go_to-stop schema r none h = cc
  go_to-stop schema r (some (object target)) h = cc
  go_to-stop schema r (some null) h = cc
  go_to-stop schema r (some (boolean b)) h = cc
  go_to-stop schema r (some (number n)) h = cc
  go_to-stop schema r (some (text s)) h = cc
  go_to-stop schema r (some (array items)) h = cc

  -- A text that is a reference: a new one, or the end.
  text-go :
      (b : Bool) (defs : Defs N) (schema next : Fields N) (r ref : String)
      → (if b then stop (unkeyable (ref_cycle r)) else go_to schema r (target_of defs (split r)))
        ≡ go ref next
      → (b ≡ false) × (r ≡ ref) × (contains (refs_of defs) ref ≡ true)
  text-go true defs schema next r ref h = cc
  text-go false defs schema next r ref h =
      let x = go_to-go schema next r ref (target_of defs (split r)) h in
      (
        refl,
        x.0,
        subst (λ (q : String). contains (refs_of defs) q ≡ true) (join-split r ∙ x.0)
            (target_of-contains defs (split r) x.1.0 x.1.1),
      )

  -- Another round comes under a reference that is new and that the definitions answer.
  turn-go :
      (defs : Defs N) (seen : List String) (schema next : Fields N) (o : Option (Value N))
      (ref : String)
      → turn defs seen schema o ≡ go ref next
      → (contains seen ref ≡ false) × (contains (refs_of defs) ref ≡ true)
  unfolding turn
  turn-go defs seen schema next none ref h = cc
  turn-go defs seen schema next (some (text r)) ref h =
      let x = text-go (contains seen r) defs schema next r ref h in
      (subst (λ (q : String). contains seen q ≡ false) x.1 x.0, x.2)
  turn-go defs seen schema next (some (array items)) ref h = cc
  turn-go defs seen schema next (some (object fields)) ref h = cc
  turn-go defs seen schema next (some null) ref h = cc
  turn-go defs seen schema next (some (boolean b)) ref h = cc
  turn-go defs seen schema next (some (number n)) ref h = cc

  text-stop :
      (b : Bool) (schema : Fields N) (r : String) (t : Option (Value N))
      → (if b then stop (unkeyable (ref_cycle r)) else go_to schema r t) ≢ stop unfinished
  text-stop true schema r t h = cc
  text-stop false schema r t h = go_to-stop schema r t h

  turn-stop :
      (defs : Defs N) (seen : List String) (schema : Fields N) (o : Option (Value N))
      → turn defs seen schema o ≢ stop unfinished
  unfolding turn
  turn-stop defs seen schema none h = cc
  turn-stop defs seen schema (some (text r)) h =
      text-stop (contains seen r) schema r (target_of defs (split r)) h
  turn-stop defs seen schema (some (array items)) h = cc
  turn-stop defs seen schema (some (object fields)) h = cc
  turn-stop defs seen schema (some null) h = cc
  turn-stop defs seen schema (some (boolean b)) h = cc
  turn-stop defs seen schema (some (number n)) h = cc

  round-Finished :
      (n : ℕ) (defs : Defs N) (seen : List String) (schema : Fields N) (t : Turn N)
      → turn defs seen schema (get "$ref" schema) ≡ t
      → unseen seen (refs_of defs) < suc n
      → ((ref : String) (next : Fields N)
          → unseen (ref ∷ seen) (refs_of defs) < n
          → resolve_dict n defs (ref ∷ seen) next ≢ unfinished)
      → resolve_dict (suc n) defs seen schema ≢ unfinished
  unfolding resolve_dict
  round-Finished n defs seen schema (stop result) e l more =
      rw (resolve_dict, e) (λ h. turn-stop defs seen schema (get "$ref" schema) (e ∙ ap stop h))
  round-Finished n defs seen schema (go ref next) e l more =
      let x = turn-go defs seen schema next (get "$ref" schema) ref e in
      let y = unseen-lt ref seen (refs_of defs) x.0 x.1 in
      rw (resolve_dict, e) (more ref next (omega (arith, y, l)))

  resolve_dict-Finished :
      (n : ℕ) (defs : Defs N) (seen : List String) (schema : Fields N)
      → unseen seen (refs_of defs) < n
      → resolve_dict n defs seen schema ≢ unfinished
  unfolding resolve_dict
  resolve_dict-Finished zero defs seen schema l = absurd (omega arith)
  resolve_dict-Finished (suc n) defs seen schema l =
      round-Finished n defs seen schema (turn defs seen schema (get "$ref" schema)) refl l
        (λ ref next m. resolve_dict-Finished n defs (ref ∷ seen) next m)

  total-refs_in : (key : String) (section : Fields N) → total (refs_in key section) ≡ size section
  unfolding size
  total-refs_in key end = refl
  total-refs_in key (field name v rest) = ap (λ (n : ℕ). suc n) (total-refs_in key rest)

  rounds_lem : (defs : Defs N) → total (refs_of defs) + 2 ≡ rounds defs
  unfolding rounds
  rounds_lem [] = refl
  rounds_lem ((key, section) ∷ defs) = omega (
    arith,
    total_append (refs_in key section) (refs_of defs),
    total-refs_in key section,
    rounds_lem defs,
  )

  -- The loop of _resolve ends, for every schema and every set of definitions, within two rounds
  -- more than there are definitions: a reference that it follows is new and names one of them.
  pub resolve-Finished : (defs : Defs N) (schema : Value N) → resolve defs schema ≢ unfinished
  unfolding resolve
  resolve-Finished defs (object schema) h =
      resolve_dict-Finished (rounds defs) defs [] schema
        (omega (arith, unseen-le (refs_of defs), rounds_lem defs)) h
  resolve-Finished defs null h = cc
  resolve-Finished defs (boolean b) h = cc
  resolve-Finished defs (number n) h = cc
  resolve-Finished defs (text s) h = cc
  resolve-Finished defs (array items) h = cc
