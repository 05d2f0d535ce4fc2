-- ===== src/Loop/Draws.antt =====
-- Random draws (treasury/randomized_loop.py): `random.Random` is a parameter, a record of the
-- operations that the driver calls, which pass its state on; a draw that raises is `none`.
pub mod Always
use treasury_intent_controll.Base.{
  ℕ, zero, suc, ◌<◌, ◌≤◌, true, String, List, [], ◌∷◌, Option, none, some, ◌≡◌, leb, ltb, contains,
  get_elem?, if◌then◌else◌,
}

-- The operations of a generator with states S and floats F. `choice`, `randrange` and `sample` are
-- given by the positions that they take.
pub record Random (S F : Type 0) : Type 0 where
  pub random : S → F × S
  pub uniform : F → F → S → F × S
  pub randint : ℕ → ℕ → S → ℕ × S
  pub position : ℕ → S → ℕ × S
  pub shuffle : List String → S → List String × S
  pub sample : ℕ → ℕ → S → List ℕ × S
  pub getrandbits : ℕ → S → ℕ × S

abbrev pub length {ℓ} : {A : Type ℓ} → List A → ℕ
length [] = 0
length (x ∷ l) = suc (length l)

-- What has a predicate at each element.
abbrev pub All {ℓ κ} : {A : Type ℓ} → (A → Type κ) → List A → Type κ
All P [] = Unit
All P (x ∷ l) = P x × All P l

abbrev pub IsBelow : ℕ → ℕ → Type 0
IsBelow n k = k < n

-- What `random` documents: `randint` stays in its bounds, `choice` and `randrange` take a position
-- of the sequence, `shuffle` keeps the length and adds nothing, and `sample` takes as many positions
-- as it is asked for.
pub record IsRandom {S F : Type 0} (r : Random S F) : Type 0 where
  pub randint-ge : (a b : ℕ) (s : S) → a ≤ b → a ≤ (r.randint a b s).0
  pub randint-le : (a b : ℕ) (s : S) → a ≤ b → (r.randint a b s).0 ≤ b
  pub position-lt : (n : ℕ) (s : S) → 0 < n → (r.position n s).0 < n
  pub shuffle-length : (l : List String) (s : S) → length (r.shuffle l s).0 ≡ length l
  pub shuffle-contains :
      (l : List String) (s : S) (x : String)
      → contains (r.shuffle l s).0 x ≡ true
      → contains l x ≡ true
  pub sample-length : (n k : ℕ) (s : S) → k ≤ n → length (r.sample n k s).0 ≡ k
  pub sample-IsBelow : (n k : ℕ) (s : S) → k ≤ n → All (IsBelow n) (r.sample n k s).0

-- A computation that draws from a generator with states S, or raises.
pub record Draw (S A : Type 0) : Type 0 where
  pub run : S → Option (A × S)

infixl 5 ◌>>=◌
unfoldable pub ◌>>=◌ : {S A B : Type 0} → Draw S A → (A → Draw S B) → Draw S B
m >>= f = record { run = λ s. elim (m.run s) [ none ↦ none | some x ↦ (f x.0).run x.1 ] }

module _ {S : Type 0} where
  unfoldable pub done : {A : Type 0} → A → Draw S A
  done a = record { run = λ s. some (a, s) }

  unfoldable pub raised : {A : Type 0} → Draw S A
  raised = record { run = λ s. none }

  unfoldable pub drawn : {A : Type 0} → (S → A × S) → Draw S A
  drawn f = record { run = λ s. some (f s) }

  abbrev pub given : {A : Type 0} → Option A → Draw S A
  given none = raised
  given (some a) = done a

  -- A loop over a list, with the results of its rounds.
  unfoldable pub each : {A B : Type 0} → (A → Draw S B) → List A → Draw S (List B)
  each f [] = done []
  each f (x ∷ l) = do y ← f x; rest ← each f l; done (y ∷ rest)

abbrev pub range_from : ℕ → ℕ → List ℕ
range_from start zero = []
range_from start (suc n) = start ∷ range_from (suc start) n

-- `range(n)`.
abbrev pub range : ℕ → List ℕ
range n = range_from 0 n

module _ {S F : Type 0} (r : Random S F) where
  -- `rng.randint(a, b)`: an empty range raises.
  unfoldable pub randint : ℕ → ℕ → Draw S ℕ
  randint a b = if leb a b then drawn (r.randint a b) else raised

  -- `rng.randrange(n)`.
  unfoldable pub randrange : ℕ → Draw S ℕ
  randrange n = if ltb 0 n then drawn (r.position n) else raised

  -- `rng.choice(l)`: an empty sequence raises.
  unfoldable pub choice : {A : Type 0} → List A → Draw S A
  choice l = randrange (length l) >>= λ k. given (get_elem? l k)

  -- The positions of `rng.sample(l, k)`, for a sequence of n: a larger sample raises.
  unfoldable pub sample : ℕ → ℕ → Draw S (List ℕ)
  sample n k = if leb k n then drawn (r.sample n k) else raised
