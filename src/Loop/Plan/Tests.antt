-- ===== src/Loop/Plan/Tests.antt =====
-- A generator that counts its draws, and the theorems on `sample_plan` of
-- treasury/randomized_loop.py with it.
use treasury_intent_controll.Base.{
  ℕ, suc, ◌*◌, ◌/◌, ◌%◌, ◌<◌, ◌≤◌, Bool, Option, none, some, ◌≡◌, refl, ltb, leb, arith, lookup,
}
use treasury_intent_controll.Loop.Draws.{
  Random, IsRandom, length, range, ◌>>=◌, done, drawn, each, randint, randrange, choice, sample,
}
use treasury_intent_controll.Loop.Draws.Always.{Always, All-map, range-IsBelow}
use treasury_intent_controll.Loop.Numerals.{show}
use treasury_intent_controll.Loop.Oracle.{Plan}
use treasury_intent_controll.Loop.Plan.{
  draw_at, draw_revocation, draw_revocations, draw_intent, route, route_all, draw_intents, plan_of,
  sample_plan,
}
use treasury_intent_controll.Loop.Worlds.{
  Floats, chance, draw_facts, draw_posture, draw_near, draw_unknown, draw_criterion, draw_criteria,
  draw_judgment, draw_spec, draw_passing, draw_viable,
}
use treasury_intent_controll.Loop.Plan.Intents.{range_from-length}
use treasury_intent_controll.Loop.Plan.Sound.{IsSound, sample_plan-IsSound}

-- The state is the number of draws; positions are the first ones, floats are in hundredths.
abbrev pub counting : Random ℕ ℕ
counting = record {
  random = λ s. (s * 37 % 100, suc s);
  uniform = λ a b s. (a, suc s);
  randint = λ a b s. (a, suc s);
  position = λ n s. (0, suc s);
  shuffle = λ l s. (l, suc s);
  sample = λ n k s. (range k, suc s);
  getrandbits = λ n s. (s, suc s);
}

abbrev pub floats : Floats ℕ
floats = record { hundredths = λ n. n; times = λ a b. a * b / 100; round2 = λ a. a; less = ltb }

abbrev pub at_least : ℕ → ℕ → Bool
at_least a b = leb b a

pub counting-IsRandom : IsRandom counting
counting-IsRandom = record {
  randint-ge = λ a b s h. reflexive a;
  randint-le = λ a b s h. h;
  position-lt = λ n s h. h;
  shuffle-length = λ l s. refl;
  shuffle-contains = λ l s x h. h;
  sample-length = λ n k s h. range_from-length 0 k;
  sample-IsBelow = λ n k s h. All-map (λ i b. below i k n b h) (range k) (range-IsBelow k);
}
  where
    reflexive : (a : ℕ) → a ≤ a
    reflexive a = omega arith

    below : (i k n : ℕ) → i < k → k ≤ n → i < n
    below i k n b h = omega arith

abbrev intents_of : {F : Type 0} → Option (Plan F × ℕ) → ℕ
intents_of none = 0
intents_of (some x) = length x.0.intents

sample_plan_runs : intents_of ((sample_plan counting floats (λ s. s) 4).run 0) ≡ 4
unfolding ◌>>=◌ done drawn each randint randrange choice sample lookup show chance draw_facts
    draw_posture draw_near draw_unknown draw_criterion draw_criteria draw_judgment draw_spec
    draw_passing draw_viable draw_at draw_revocation draw_revocations draw_intent route route_all
    draw_intents plan_of sample_plan
sample_plan_runs = refl

sample_plan-IsSound_example : Always (IsSound at_least 4) (sample_plan counting floats (λ s. s) 4)
sample_plan-IsSound_example =
    sample_plan-IsSound counting floats counting-IsRandom at_least (λ s. s) 4
