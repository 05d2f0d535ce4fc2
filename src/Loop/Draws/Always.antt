-- ===== src/Loop/Draws/Always.antt =====
-- What a draw has whatever the generator answers (treasury/randomized_loop.py): it does not raise,
-- and its result has a property.
use treasury_intent_controll.Base.{
  ℕ, zero, suc, ◌<◌, ◌≤◌, ◌+◌, Bool, true, false, List, [], ◌∷◌, Option, none, some, ◌≡◌, refl, sym,
  ap, subst, leb, ltb, get_elem?, if◌then◌else◌, arith,
}
use treasury_intent_controll.Loop.Draws.{
  Random, IsRandom, length, All, IsBelow, Draw, ◌>>=◌, done, drawn, given, each, range_from, range,
  randint, randrange, choice, sample,
}

-- A result with the property.
abbrev pub Ends : {S A : Type 0} → (A → Type 0) → Option (A × S) → Type 0
Ends P none = ⊥
Ends P (some x) = P x.0

pub record Always {S A : Type 0} (P : A → Type 0) (m : Draw S A) : Type 0 where
  pub ends : (s : S) → Ends P (m.run s)

pub All-map :
    {A : Type 0} {P Q : A → Type 0} (f : (a : A) → P a → Q a) (l : List A) → All P l → All Q l
All-map f [] h = tt
All-map f (x ∷ l) h = (f x h.0, All-map f l h.1)

le→leb : (a b : ℕ) → a ≤ b → leb a b ≡ true
le→leb a b h = ground arith

lt→ltb : (a b : ℕ) → a < b → ltb a b ≡ true
lt→ltb a b h = ground arith

none_below : (k : ℕ) → k < 0 → ⊥
none_below k b = omega arith

pub All-get_elem? :
    {A : Type 0} {P : A → Type 0} (l : List A) (k : ℕ)
    → All P l
    → k < length l
    → (a : A) × (get_elem? l k ≡ some a) × P a
All-get_elem? [] k h b = absurd (none_below k b)
All-get_elem? (x ∷ l) zero h b = (x, refl, h.0)
All-get_elem? (x ∷ l) (suc k) h b = All-get_elem? l k h.1 (ground arith)

module _ {S : Type 0} where
  pub done-Always : {A : Type 0} {P : A → Type 0} (a : A) → P a → Always {S = S} P (done a)
  unfolding done
  done-Always a p = record { ends = λ s. p }

  pub drawn-Always :
      {A : Type 0} {P : A → Type 0} (f : S → A × S) → ((s : S) → P (f s).0) → Always P (drawn f)
  unfolding drawn
  drawn-Always f h = record { ends = h }

  pub then-Always :
      {A B : Type 0} {P : A → Type 0} {Q : B → Type 0} {m : Draw S A} {f : A → Draw S B}
      → Always P m
      → ((a : A) → P a → Always Q (f a))
      → Always Q (m >>= f)
  unfolding ◌>>=◌
  then-Always {A = A} {P = P} {Q = Q} {m = m} {f = f} h k = record {
    ends = λ s. by_result (m.run s) (h.ends s);
  }
    where
      by_result :
          (o : Option (A × S))
          → Ends P o
          → Ends Q (elim o [ none ↦ none | some x ↦ (f x.0).run x.1 ])
      by_result none e = e
      by_result (some x) e = (k x.0 e).ends x.1

  pub given-Always :
      {A : Type 0} {P : A → Type 0} (o : Option A)
      → (a : A) × (o ≡ some a) × P a
      → Always {S = S} P (given o)
  given-Always {A = A} {P = P} o w =
      subst (λ (x : Option A). Always {S = S} P (given x)) (sym w.1) (done-Always w.0 w.2)

  pub each-Always :
      {A B : Type 0} {P : A → Type 0} {Q : B → Type 0} {f : A → Draw S B}
      → ((a : A) → P a → Always Q (f a))
      → (l : List A) → All P l
      → Always (All Q) (each f l)
  unfolding each
  each-Always h [] p = done-Always [] tt
  each-Always h (x ∷ l) p =
      then-Always (h x p.0)
        (λ y q. then-Always (each-Always h l p.1) (λ rest qs. done-Always (y ∷ rest) (q, qs)))

  pub each-length :
      {A B : Type 0} {f : A → Draw S B} (l : List A)
      → ((a : A) → Always (λ (b : B). Unit {0}) (f a))
      → Always (λ (out : List B). length out ≡ length l) (each f l)
  unfolding each
  each-length [] h = done-Always [] refl
  each-length (x ∷ l) h =
      then-Always (h x)
        (λ y q. then-Always (each-length l h) (λ rest e. done-Always (y ∷ rest) (ap suc e)))

  -- A draw has what each of two facts on it say.
  pub both-Always :
      {A : Type 0} {P Q : A → Type 0} {m : Draw S A}
      → Always P m
      → Always Q m
      → Always (λ a. P a × Q a) m
  both-Always {A = A} {P = P} {Q = Q} {m = m} h k = record {
    ends = λ s. by_result (m.run s) (h.ends s) (k.ends s);
  }
    where
      by_result : (o : Option (A × S)) → Ends P o → Ends Q o → Ends (λ a. P a × Q a) o
      by_result none e d = e
      by_result (some x) e d = (e, d)

  pub weaken-Always :
      {A : Type 0} {P Q : A → Type 0} {m : Draw S A}
      → ((a : A) → P a → Q a)
      → Always P m
      → Always Q m
  weaken-Always {A = A} {P = P} {Q = Q} {m = m} f h = record {
    ends = λ s. by_result (m.run s) (h.ends s);
  }
    where
      by_result : (o : Option (A × S)) → Ends P o → Ends Q o
      by_result none e = e
      by_result (some x) e = f x.0 e

  -- Both branches of a test.
  pub if-Always :
      {A : Type 0} {P : A → Type 0} (b : Bool) {m n : Draw S A}
      → Always P m
      → Always P n
      → Always P (if b then m else n)
  if-Always true h k = h
  if-Always false h k = k

range_from-All : (start n : ℕ) → All (λ k. (start ≤ k) × (k < start + n)) (range_from start n)
range_from-All start zero = tt
range_from-All start (suc n) = (
  (ground arith, ground arith),
  All-map (λ k p. (below_start start k p.0, ends_same start n k p.1)) (range_from (suc start) n)
      (range_from-All (suc start) n),
)
  where
    below_start : (a k : ℕ) → suc a ≤ k → a ≤ k
    below_start a k h = omega arith

    ends_same : (a n k : ℕ) → k < suc a + n → k < a + suc n
    ends_same a n k h = omega arith

pub range-IsBelow : (n : ℕ) → All (IsBelow n) (range n)
range-IsBelow n = All-map (λ k p. from_zero n k p.1) (range n) (range_from-All 0 n)
  where
    from_zero : (n k : ℕ) → k < 0 + n → k < n
    from_zero n k h = omega arith

module _ {S F : Type 0} (r : Random S F) (law : IsRandom r) where
  pub randint-Always : (a b : ℕ) → a ≤ b → Always (λ k. (a ≤ k) × (k ≤ b)) (randint r a b)
  unfolding randint drawn
  randint-Always a b h =
      rw (le→leb a b h) (record { ends = λ s. (law.randint-ge a b s h, law.randint-le a b s h) })

  pub randrange-Always : (n : ℕ) → 0 < n → Always (IsBelow n) (randrange r n)
  unfolding randrange drawn
  randrange-Always n h = rw (lt→ltb 0 n h) (record { ends = λ s. law.position-lt n s h })

  pub choice-Always :
      {A : Type 0} {P : A → Type 0} (l : List A) → 0 < length l → All P l → Always P (choice r l)
  unfolding choice
  choice-Always l h p =
      then-Always (randrange-Always (length l) h)
        (λ k b. given-Always (get_elem? l k) (All-get_elem? l k p b))

  pub sample-Always :
      (n k : ℕ) → k ≤ n → Always (λ l. (length l ≡ k) × All (IsBelow n) l) (sample r n k)
  unfolding sample drawn
  sample-Always n k h =
      rw (le→leb k n h)
        (record { ends = λ s. (law.sample-length n k s h, law.sample-IsBelow n k s h) })
