-- ===== src/Loop/Plan/Intents.antt =====
-- The revocations and the intents of a sampled plan (treasury/randomized_loop.py): a revocation names
-- a spec that is not viable, and an intent refers to none or to a spec of the plan.
use treasury_intent_controll.Base.{
  ℕ, zero, suc, ◌-◌, ◌/◌, ◌<◌, ◌≤◌, Bool, true, false, String, ◌<>◌, List, [], ◌∷◌, Option, none,
  some, ◌≡◌, refl, sym, ◌∙◌, ap, subst, inl, inr, ◌⊎◌, ltb, leb, get_elem?, map, if◌then◌else◌,
  Bool-cases, arith,
}
use treasury_intent_controll.Loop.Draws.{
  Random, IsRandom, length, All, IsBelow, ◌>>=◌, done, range, range_from, randrange,
}
use treasury_intent_controll.Loop.Draws.Always.{
  Always, All-get_elem?, done-Always, then-Always, given-Always, each-Always, each-length,
  both-Always, weaken-Always, if-Always, choice-Always, randint-Always, randrange-Always,
  sample-Always,
}
use treasury_intent_controll.Loop.Numerals.{show_padded}
use treasury_intent_controll.Loop.Oracle.{Revocation, Intent}
use treasury_intent_controll.Loop.Plan.{
  set_at, Viable, is_viable, append_option, draw_at, draw_revocation, draw_revocations, key_pool,
  draw_intent, route, route_all, draw_intents,
}
use treasury_intent_controll.Loop.Worlds.{Floats, min, max}
use treasury_intent_controll.Loop.Plan.Facts.{Any, drawn-Any, chance-Any}
use treasury_intent_controll.Loop.Plan.Specs.{All-Any, choice-Any}

-- The spec is one of the first n, and not a viable one.
abbrev pub Spares : Viable → ℕ → Revocation → Type 0
Spares viable n r = (r.spec < n) × (is_viable viable r.spec ≡ false)

abbrev SparesIfAny : Viable → ℕ → Option Revocation → Type 0
SparesIfAny viable n none = Unit
SparesIfAny viable n (some r) = Spares viable n r

-- No spec, or one of the first n.
abbrev pub Refers : ℕ → Intent → Type 0
Refers n it = (it.spec ≡ none) ⊎ ((k : ℕ) × (it.spec ≡ some k) × (k < n))

abbrev RefersTo : ℕ → Option ℕ → Type 0
RefersTo n o = (o ≡ none) ⊎ ((k : ℕ) × (o ≡ some k) × (k < n))

-- Both viable positions are of the first n.
abbrev pub AreViable : ℕ → Viable → Type 0
AreViable n viable = (viable.enforce < n) × (viable.shadow < n)

set_at-All :
    (P : Intent → Type 0) (l : List Intent) (k : ℕ) (x : Intent)
    → All P l
    → P x
    → All P (set_at l k x)
set_at-All P [] k x h p = tt
set_at-All P (y ∷ l) zero x h p = (p, h.1)
set_at-All P (y ∷ l) (suc k) x h p = (h.0, set_at-All P l k x h.1 p)

set_at-length : (l : List Intent) (k : ℕ) (x : Intent) → length (set_at l k x) ≡ length l
set_at-length [] k x = refl
set_at-length (y ∷ l) zero x = refl
set_at-length (y ∷ l) (suc k) x = ap suc (set_at-length l k x)

pub range_from-length : (start n : ℕ) → length (range_from start n) ≡ n
range_from-length start zero = refl
range_from-length start (suc n) = ap suc (range_from-length (suc start) n)

map-length : {A B : Type 0} (f : A → B) (l : List A) → length (map f l) ≡ length l
map-length f [] = refl
map-length f (x ∷ l) = ap suc (map-length f l)

key_pool-nonempty : (n : ℕ) → 0 < length (key_pool n)
key_pool-nonempty n =
    rw
      (map-length (λ i. "pay-" <> show_padded i) (range (max 3 (n / 3)))
        ∙ range_from-length 0 (max 3 (n / 3)))
      (at_least_three (n / 3))
  where
    at_least_three : (m : ℕ) → 0 < max 3 m
    at_least_three m = ground arith

module _ {S F : Type 0} (rng : Random S F) (floats : Floats F) (law : IsRandom rng) where
  draw_at-Any : (n : ℕ) → Always Any (draw_at rng floats n)
  unfolding draw_at
  draw_at-Any n = then-Always (chance-Any rng floats law 50) (λ is_early t.
      if-Always is_early (done-Always 0 tt)
        (weaken-Always (λ k b. tt) (randint-Always rng law 1 (max 1 (n - 1)) (one_le (n - 1)))))
    where
      one_le : (m : ℕ) → 1 ≤ max 1 m
      one_le m = ground arith

  draw_revocation-Spares :
      (viable : Viable) (n_specs n_intents idx : ℕ)
      → idx < n_specs
      → is_viable viable idx ≡ false
      → Always (SparesIfAny viable n_specs) (draw_revocation rng floats n_intents idx)
  unfolding draw_revocation
  draw_revocation-Spares viable n_specs n_intents idx b e =
      then-Always (chance-Any rng floats law 20) (λ is_revoked t.
        if-Always is_revoked
          (then-Always (draw_at-Any n_intents) (λ at t.
            then-Always (choice-Any rng floats law _ _) (λ reason t. done-Always _ (b, e))))
          (done-Always none tt))

  pub draw_revocations-Spares :
      (viable : Viable) (n_specs n_intents : ℕ) (positions : List ℕ)
      → All (IsBelow n_specs) positions
      → Always
          (All (Spares viable n_specs))
          (draw_revocations rng floats viable n_intents positions)
  unfolding draw_revocations
  draw_revocations-Spares viable n_specs n_intents [] h = done-Always [] tt
  draw_revocations-Spares viable n_specs n_intents (idx ∷ positions) h =
      let ih = draw_revocations-Spares viable n_specs n_intents positions h.1 in
      elim (Bool-cases (is_viable viable idx)) [
        | inl e ↦ rw e ih
        | inr e ↦ rw e (
            then-Always (draw_revocation-Spares viable n_specs n_intents idx h.0 e)
              (λ o p. then-Always ih (λ l q. done-Always _ (appended o l p q))))
      ]
    where
      appended :
          (o : Option Revocation) (l : List Revocation)
          → SparesIfAny viable n_specs o
          → All (Spares viable n_specs) l
          → All (Spares viable n_specs) (append_option o l)
      appended none l p q = q
      appended (some r) l p q = (p, q)

  draw_spec_ref-RefersTo :
      (n_specs : ℕ) (is_unattested : Bool)
      → 0 < n_specs
      → Always
          (RefersTo n_specs)
          (if is_unattested then done none else randrange rng n_specs >>= (λ k. done (some k)))
  draw_spec_ref-RefersTo n_specs is_unattested h =
      if-Always is_unattested (done-Always none (inl refl)) (
        then-Always (randrange-Always rng law n_specs h)
          (λ k b. done-Always (some k) (inr (k, refl, b))))

  draw_intent-Refers :
      (n_specs : ℕ) (pool : List String) (i : ℕ)
      → 0 < n_specs
      → 0 < length pool
      → Always (Refers n_specs) (draw_intent rng floats n_specs pool i)
  unfolding draw_intent
  draw_intent-Refers n_specs pool i h k =
      then-Always (chance-Any rng floats law 10) (λ is_unattested t.
        then-Always (draw_spec_ref-RefersTo n_specs is_unattested h) (λ spec p.
          then-Always (chance-Any rng floats law 6) (λ has_no_key t.
            then-Always {P = Any}
              (if-Always has_no_key (done-Always "" tt)
                (choice-Always rng law pool k (All-Any pool)))
              (λ key t. then-Always (drawn-Any rng floats law _) (λ bits t.
                then-Always (chance-Any rng floats law 10) (λ outage t.
                  then-Always (chance-Any rng floats law 15) (λ drift t. done-Always _ p)))))))

  route-Refers :
      (viable : Viable) (n_specs : ℕ) (pool : List String) (shared : String) (n : ℕ) (it : Intent)
      → AreViable n_specs viable
      → 0 < length pool
      → Always (Refers n_specs) (route rng floats viable pool shared n it)
  unfolding route
  route-Refers viable n_specs pool shared n it v k =
      then-Always {P = Any}
        (if-Always (ltb n 2) (done-Always shared tt) (choice-Always rng law pool k (All-Any pool)))
        (λ key t. done-Always _ (inr (_, refl, either (leb 4 n))))
    where
      either : (b : Bool) → (if b then viable.shadow else viable.enforce) < n_specs
      either true = v.1
      either false = v.0

  route_all-Refers :
      (viable : Viable) (n_specs : ℕ) (pool : List String) (shared : String) (n : ℕ)
      (slots : List ℕ) (intents : List Intent)
      → AreViable n_specs viable
      → 0 < length pool
      → All (IsBelow (length intents)) slots
      → All (Refers n_specs) intents
      → Always
          (λ out. All (Refers n_specs) out × (length out ≡ length intents))
          (route_all rng floats viable pool shared n slots intents)
  unfolding route_all
  route_all-Refers viable n_specs pool shared n [] intents v k b h = done-Always intents (h, refl)
  route_all-Refers viable n_specs pool shared n (slot ∷ slots) intents v k b h =
      then-Always (given-Always (get_elem? intents slot) (All-get_elem? intents slot h b.0))
        (λ it p. then-Always (route-Refers viable n_specs pool shared n it v k) (λ routed q.
          let same = set_at-length intents slot routed in
          weaken-Always (λ out w. (w.0, w.1 ∙ same))
            (route_all-Refers viable n_specs pool shared (suc n) slots (set_at intents slot routed)
              v k (subst (λ (m : ℕ). All (IsBelow m) slots) (sym same) b.1)
              (set_at-All (Refers n_specs) intents slot routed h q))))

  pub draw_intents-Refers :
      (viable : Viable) (n_specs n_intents : ℕ)
      → 0 < n_specs
      → AreViable n_specs viable
      → Always
          (λ out. All (Refers n_specs) out × (length out ≡ n_intents))
          (draw_intents rng floats viable n_specs n_intents)
  unfolding draw_intents
  draw_intents-Refers viable n_specs n_intents h v =
      let pool = key_pool-nonempty n_intents in
      then-Always
        (both-Always
          (each-Always (λ i t. draw_intent-Refers n_specs (key_pool n_intents) i h pool)
            (range n_intents) (All-Any (range n_intents)))
          (each-length (range n_intents) (λ i.
            weaken-Always (λ it p. tt) (draw_intent-Refers n_specs (key_pool n_intents) i h pool))))
        (λ intents p.
          then-Always
            (sample-Always rng law (length intents) (min 6 (length intents))
              (min_le (length intents)))
            (λ slots q. then-Always (drawn-Any rng floats law _) (λ bits t.
              weaken-Always (λ out w. (w.0, w.1 ∙ (p.1 ∙ range_from-length 0 n_intents)))
                (route_all-Refers viable n_specs (key_pool n_intents) _ 0 slots intents v pool q.1
                  p.0))))
    where
      min_le : (m : ℕ) → min 6 m ≤ m
      min_le m = ground arith
