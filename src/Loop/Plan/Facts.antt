-- ===== src/Loop/Plan/Facts.antt =====
-- The facts of a sampled plan (treasury/randomized_loop.py): there is one, and each has a name.
use treasury_intent_controll.Base.{
  ℕ, zero, suc, ◌<◌, ◌≤◌, true, false, String, List, [], ◌∷◌, some, ◌≡◌, refl, ap, subst, inl, inr,
  ◌==◌, contains, lookup, Bool-cases, arith, eq_refl, eq-false,
}
use treasury_intent_controll.Loop.Draws.{Random, IsRandom, length, All, ◌>>=◌, done, drawn}
use treasury_intent_controll.Loop.Draws.Always.{
  Always, All-map, done-Always, then-Always, drawn-Always, each-Always, each-length, both-Always,
  weaken-Always, randint-Always,
}
use treasury_intent_controll.Loop.Worlds.{Floats, known_facts, take, names_of, chance, draw_facts}

abbrev pub IsNamed : String → Type 0
IsNamed name = (name == "") ≡ false

-- Whatever a draw gives.
abbrev pub Any : {A : Type 0} → A → Type 0
Any a = Unit {0}

-- A name, with a fact in the list.
abbrev pub IsFact : {F : Type 0} → List (String × F) → String → Type 0
IsFact {F = F} facts name = IsNamed name × ((fact : F) × (lookup name facts ≡ some fact))

-- What the sampler needs of the facts: one of them, and each with a name.
pub record AreFacts {F : Type 0} (facts : List (String × F)) : Type 0 where
  pub nonempty : 0 < length facts
  pub named : All IsNamed (names_of facts)

pub names_of-length :
    {F : Type 0} (facts : List (String × F)) → length (names_of facts) ≡ length facts
names_of-length [] = refl
names_of-length ((n, v) ∷ facts) = ap suc (names_of-length facts)

module _ {F : Type 0} where
  lookup-more :
      (n : String) (v : F) (facts : List (String × F)) (name : String)
      → (fact : F) × (lookup name facts ≡ some fact)
      → (fact : F) × (lookup name ((n, v) ∷ facts) ≡ some fact)
  unfolding lookup
  lookup-more n v facts name w = elim (Bool-cases (n == name)) [
    | inl e ↦ (v, rw e refl)
    | inr e ↦ (w.0, rw e w.1)
  ]

  found_first :
      (n : String) (v : F) (facts : List (String × F)) → lookup n ((n, v) ∷ facts) ≡ some v
  unfolding lookup
  found_first n v facts = rw (eq_refl n) refl

  pub names_of-IsFact :
      (facts : List (String × F))
      → All IsNamed (names_of facts)
      → All (IsFact facts) (names_of facts)
  names_of-IsFact [] h = tt
  names_of-IsFact ((n, v) ∷ facts) h = (
    (h.0, (v, found_first n v facts)),
    All-map (λ name p. (p.0, lookup-more n v facts name p.1)) (names_of facts)
        (names_of-IsFact facts h.1),
  )

-- A text among the known facts is a name.
known_facts-IsNamed : (name : String) → contains known_facts name ≡ true → IsNamed name
known_facts-IsNamed name h =
    eq-false name ""
      (λ e. absurd (differs (subst (λ (s : String). contains known_facts s ≡ true) e h)))
  where
    differs : contains known_facts "" ≡ true → ⊥
    differs e = cc e

contains-IsNamed :
    (l : List String) → ((name : String) → contains l name ≡ true → IsNamed name) → All IsNamed l
contains-IsNamed [] h = tt
contains-IsNamed (x ∷ l) h =
    (h x (first x l), contains-IsNamed l (λ name e. h name (later x l name e)))
  where
    first : (x : String) (l : List String) → contains (x ∷ l) x ≡ true
    first x l = rw (eq_refl x) refl

    later :
        (x : String) (l : List String) (name : String)
        → contains l name ≡ true
        → contains (x ∷ l) name ≡ true
    later x l name e = ground arith

All-take : (n : ℕ) (l : List String) → All IsNamed l → All IsNamed (take n l)
All-take zero l h = tt
All-take (suc n) [] h = tt
All-take (suc n) (x ∷ l) h = (h.0, All-take n l h.1)

take-nonempty : (n : ℕ) (l : List String) → 0 < n → 0 < length l → 0 < length (take n l)
take-nonempty zero l h k = absurd (impossible h)
  where
    impossible : 0 < 0 → ⊥
    impossible h = omega arith
take-nonempty (suc n) [] h k = k
take-nonempty (suc n) (x ∷ l) h k = ground arith

module _ {S F : Type 0} (rng : Random S F) (floats : Floats F) (law : IsRandom rng) where
  pub drawn-Any : {A : Type 0} (f : S → A × S) → Always {S = S} Any (drawn f)
  drawn-Any f = drawn-Always f (λ s. tt)

  pub chance-Any : (k : ℕ) → Always Any (chance rng floats k)
  unfolding chance
  chance-Any k = then-Always (drawn-Any rng.random) (λ roll t. done-Always _ tt)

  fact-IsNamed :
      (name : String)
      → IsNamed name
      → Always
          (λ (item : String × F). IsNamed item.0)
          (drawn (rng.uniform (floats.hundredths 1000) (floats.hundredths 50000)) >>= λ fact.
            done (name, floats.round2 fact))
  fact-IsNamed name h = then-Always (drawn-Any _) (λ fact t. done-Always _ h)

  names_of-IsNamed :
      (facts : List (String × F))
      → All (λ item. IsNamed item.0) facts
      → All IsNamed (names_of facts)
  names_of-IsNamed [] h = tt
  names_of-IsNamed ((n, v) ∷ facts) h = (h.0, names_of-IsNamed facts h.1)

  pub draw_facts-AreFacts : Always AreFacts (draw_facts rng floats)
  unfolding draw_facts
  draw_facts-AreFacts = then-Always (both-Always shuffle_named shuffle_full) (λ known p.
      then-Always (randint-Always rng law 2 4 (omega arith)) (λ n b.
        weaken-Always
          (λ facts q. record {
            nonempty = longer n known facts b.0 p.1 q.1;
            named = names_of-IsNamed facts q.0;
          })
          (both-Always (each-Always fact-IsNamed (take n known) (All-take n known p.0)) (
            each-length (take n known)
              (λ name. then-Always (drawn-Any _) (λ fact t. done-Always _ tt))))))
    where
      shuffle_named : Always (All IsNamed) (drawn (rng.shuffle known_facts))
      shuffle_named = drawn-Always _ (λ s.
          contains-IsNamed _
            (λ name e. known_facts-IsNamed name (law.shuffle-contains known_facts s name e)))

      shuffle_full : Always (λ (l : List String). length l ≡ 4) (drawn (rng.shuffle known_facts))
      shuffle_full = drawn-Always _ (λ s. law.shuffle-length known_facts s)

      longer :
          (n : ℕ) (known : List String) (facts : List (String × F))
          → 2 ≤ n
          → length known ≡ 4
          → length facts ≡ length (take n known)
          → 0 < length facts
      longer n known facts b e q = rw q (take-nonempty n known (omega arith) (rw e (omega arith)))
