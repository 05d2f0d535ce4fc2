-- ===== src/Json/Objects.antt =====
-- How `json.dumps` writes an object of texts with compact separators.
use treasury_intent_controll.Base.{ℕ, List, [], ◌∷◌, String, ◌≡◌, refl, sym, codes}
use treasury_intent_controll.Json.Text.{Bytes, quoted, escaped, escape}
use treasury_intent_controll.Json.Unambiguous.{quoted_injective}

abbrev pub TextItems : Type 0
TextItems = List (String × String)

unfoldable pub dumps_more : TextItems → Bytes → Bytes
dumps_more [] rest = b'}' ∷ rest
dumps_more ((k, v) ∷ m) rest = b',' ∷ quoted k (b':' ∷ quoted v (dumps_more m rest))

unfoldable pub dumps_items : TextItems → Bytes → Bytes
unfolding dumps_more
dumps_items [] rest = b'{' ∷ b'}' ∷ rest
dumps_items ((k, v) ∷ m) rest = b'{' ∷ quoted k (b':' ∷ quoted v (dumps_more m rest))

-- Behind one byte.
pub rest_eq : (a b : ℕ) (r q : Bytes) → ◌≡◌ {A = Bytes} (a ∷ r) (b ∷ q) → r ≡ q
rest_eq a b r q e = cc

cons_eq :
    (k j v w : String) (l m : TextItems)
    → k ≡ j
    → v ≡ w
    → l ≡ m
    → ◌≡◌ {A = TextItems} ((k, v) ∷ l) ((j, w) ∷ m)
cons_eq k j v w l m p q r = cc

-- One name and value.
pub item_injective :
    (k j v w : String) (r q : Bytes)
    → quoted k (b':' ∷ quoted v r) ≡ quoted j (b':' ∷ quoted w q)
    → (k ≡ j) × (v ≡ w) × (r ≡ q)
item_injective k j v w r q e =
    let (same, rest) = quoted_injective k j (b':' ∷ quoted v r) (b':' ∷ quoted w q) e in
    let (value, more) =
      quoted_injective v w r q (rest_eq b':' b':' (quoted v r) (quoted w q) rest) in
    (same, value, more)

not_closed : (k : String) (r q : Bytes) → b'}' ∷ r ≡ quoted k q → ⊥
unfolding quoted
not_closed k r q e = cc

more_step :
    (k j v w : String) (l m : TextItems) (r q x y : Bytes)
    → (x ≡ y → (l ≡ m) × (r ≡ q))
    → b',' ∷ quoted k (b':' ∷ quoted v x) ≡ b',' ∷ quoted j (b':' ∷ quoted w y)
    → ((k, v) ∷ l ≡ (j, w) ∷ m) × (r ≡ q)
more_step k j v w l m r q x y more e =
    let same = item_injective k j v w x y (rest_eq b',' b',' _ _ e) in
    let rest = more same.2 in (cons_eq k j v w l m same.0 same.1 rest.0, rest.1)

comma_not_closed : (r q : Bytes) → ◌≡◌ {A = Bytes} (b'}' ∷ r) (b',' ∷ q) → ⊥
comma_not_closed r q e = cc

dumps_more_injective :
    (l m : TextItems) (r q : Bytes) → dumps_more l r ≡ dumps_more m q → (l ≡ m) × (r ≡ q)
unfolding dumps_more
dumps_more_injective [] [] r q e = (refl, rest_eq b'}' b'}' r q e)
dumps_more_injective [] ((j, w) ∷ m) r q e = absurd (comma_not_closed r _ e)
dumps_more_injective ((k, v) ∷ l) [] r q e = absurd (comma_not_closed q _ (sym e))
dumps_more_injective ((k, v) ∷ l) ((j, w) ∷ m) r q e =
    more_step k j v w l m r q (dumps_more l r) (dumps_more m q) (dumps_more_injective l m r q) e

-- The bytes of an object determine its items, in order, and what follows.
pub dumps_items_injective :
    (l m : TextItems) (r q : Bytes) → dumps_items l r ≡ dumps_items m q → (l ≡ m) × (r ≡ q)
unfolding dumps_items
dumps_items_injective [] [] r q e = (refl, rest_eq b'}' b'}' r q (rest_eq b'{' b'{' _ _ e))
dumps_items_injective [] ((j, w) ∷ m) r q e = absurd (not_closed j r _ (rest_eq b'{' b'{' _ _ e))
dumps_items_injective ((k, v) ∷ l) [] r q e =
    absurd (not_closed k q _ (sym (rest_eq b'{' b'{' _ _ e)))
dumps_items_injective ((k, v) ∷ l) ((j, w) ∷ m) r q e =
    let same = item_injective k j v w (dumps_more l r) (dumps_more m q) (rest_eq b'{' b'{' _ _ e) in
    let rest = dumps_more_injective l m r q same.2 in
    (cons_eq k j v w l m same.0 same.1 rest.0, rest.1)

dumps_runs : dumps_items (("a", "1") ∷ ("b", "") ∷ []) [] ≡ codes "{\"a\":\"1\",\"b\":\"\"}"
unfolding dumps_items quoted escaped escape
dumps_runs = refl
