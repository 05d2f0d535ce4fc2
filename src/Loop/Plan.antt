-- ===== src/Loop/Plan.antt =====
-- `sample_plan` (treasury/randomized_loop.py): a random world of facts, specs, revocations and
-- intents. The generator, the float operations and SHA-256 are parameters.
pub mod Facts
pub mod Specs
pub mod Intents
pub mod Sound
pub mod Tests
use treasury_intent_controll.Base.{
  ℕ, zero, suc, ◌+◌, ◌-◌, ◌/◌, Bool, false, ◌||◌, String, ◌<>◌, List, [], ◌∷◌, ◌++◌, Option, none,
  some, eqb, ltb, leb, get_elem?, map, if◌then◌else◌,
}
use treasury_intent_controll.Loop.Draws.{
  Random, length, Draw, ◌>>=◌, done, drawn, given, each, range, randint, randrange, choice, sample,
}
use treasury_intent_controll.Loop.Numerals.{show, show_padded}
use treasury_intent_controll.Loop.Oracle.{Spec, Revocation, Intent, Plan}
use treasury_intent_controll.Loop.Worlds.{
  Floats, chance, draw_facts, draw_spec, draw_viable, max, min,
}

-- `l[k] = x`, at a position of the list.
abbrev pub set_at {ℓ} : {A : Type ℓ} → List A → ℕ → A → List A
set_at [] k x = []
set_at (y ∷ l) zero x = x ∷ l
set_at (y ∷ l) (suc k) x = y ∷ set_at l k x

-- The positions of the specs planted for each posture.
pub record Viable : Type 0 where
  pub enforce : ℕ
  pub shadow : ℕ

abbrev pub is_viable : Viable → ℕ → Bool
is_viable viable idx = eqb idx viable.enforce || eqb idx viable.shadow

abbrev pub key_pool : ℕ → List String
key_pool n_intents = map (λ i. "pay-" <> show_padded i) (range (max 3 (n_intents / 3)))

abbrev pub append_option : Option Revocation → List Revocation → List Revocation
append_option none revocations = revocations
append_option (some r) revocations = r ∷ revocations

module _ {S F : Type 0} (rng : Random S F) (floats : Floats F) where
  unfoldable pub draw_at : ℕ → Draw S ℕ
  draw_at n_intents = do
    is_early ← chance rng floats 50
    (if is_early then done 0 else randint rng 1 (max 1 (n_intents - 1)))

  unfoldable pub draw_revocation : ℕ → ℕ → Draw S (Option Revocation)
  draw_revocation n_intents idx = do
    is_revoked ← chance rng floats 20
    (if is_revoked
        then draw_at n_intents >>= (λ at.
          choice rng ("policy-pull" ∷ "counsel-hold" ∷ "rotation" ∷ []) >>= (λ reason.
            done (some (record { spec = idx; at = at; ref = reason <> ("-" <> show idx) }))))
        else done none)

  -- The revocations of the specs from a position on; those of the viable specs are left out.
  unfoldable pub draw_revocations : Viable → ℕ → List ℕ → Draw S (List Revocation)
  draw_revocations viable n_intents [] = done []
  draw_revocations viable n_intents (idx ∷ positions) =
      let rest = draw_revocations viable n_intents positions in
      if is_viable viable idx
      then rest
      else draw_revocation n_intents idx
        >>= (λ revocation. rest >>= (λ revocations. done (append_option revocation revocations)))

  -- An intent at its position; one in ten refers to a hash that nobody attested.
  unfoldable pub draw_intent : ℕ → List String → ℕ → Draw S Intent
  draw_intent n_specs pool i = do
    is_unattested ← chance rng floats 10
    spec ← (if is_unattested then done none else randrange rng n_specs >>= (λ k. done (some k)))
    has_no_key ← chance rng floats 6
    key ← (if has_no_key then done "" else choice rng pool)
    bits ← drawn (rng.getrandbits 32)
    outage ← chance rng floats 10
    drift ← chance rng floats 15
    done (record {
      i = i;
      seed = "rnd-" <> (show i <> ("-" <> show bits));
      spec = spec;
      key = key;
      outage = outage;
      drift = drift;
    })

  -- The n-th slot is routed at a viable spec, with the faults off; the first two share a key.
  unfoldable pub route : Viable → List String → String → ℕ → Intent → Draw S Intent
  route viable pool shared n it = do
    key ← (if ltb n 2 then done shared else choice rng pool)
    done (record {
      i = it.i;
      seed = it.seed;
      spec = some (if leb 4 n then viable.shadow else viable.enforce);
      key = key;
      outage = false;
      drift = false;
    })

  unfoldable pub route_all :
      Viable → List String → String → ℕ → List ℕ → List Intent → Draw S (List Intent)
  route_all viable pool shared n [] intents = done intents
  route_all viable pool shared n (slot ∷ slots) intents = do
    it ← given (get_elem? intents slot)
    routed ← route viable pool shared n it
    route_all viable pool shared (suc n) slots (set_at intents slot routed)

  unfoldable pub draw_intents : Viable → ℕ → ℕ → Draw S (List Intent)
  draw_intents viable n_specs n_intents = do
    intents ← each (draw_intent n_specs (key_pool n_intents)) (range n_intents)
    slots ← sample rng (length intents) (min 6 (length intents))
    bits ← drawn (rng.getrandbits 16)
    route_all viable (key_pool n_intents) ("pay-shared-" <> show bits) 0 slots intents

  -- The plan of these facts and specs, with the two planted specs behind the others.
  unfoldable pub plan_of : List (String × F) → List (Spec F) → Spec F → Spec F → ℕ → Draw S (Plan F)
  plan_of facts specs enforcing recording n_intents = do
    let all_specs = specs ++ (enforcing ∷ recording ∷ [])
    let viable : Viable = record { enforce = length specs; shadow = suc (length specs) }
    revocations ← draw_revocations viable n_intents (range (length all_specs))
    intents ← draw_intents viable (length all_specs) n_intents
    done (record { facts = facts; specs = all_specs; revocations = revocations; intents = intents })

  unfoldable pub sample_plan : (String → String) → ℕ → Draw S (Plan F)
  sample_plan sha256_hex n_intents = do
    facts ← draw_facts rng floats
    n ← randint rng 6 10
    specs ← each (draw_spec rng floats sha256_hex facts) (range n)
    enforcing ← draw_viable rng floats facts "enforce"
    recording ← draw_viable rng floats facts "shadow"
    plan_of facts specs enforcing recording n_intents
