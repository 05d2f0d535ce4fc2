-- ===== src/Skeptic/Locate/Bounds.antt =====
-- Where the window around a quote begins and ends (`doc_windows` of tic-concept-chat/skeptic.py).
use treasury_intent_controll.Base.{
  ℕ, zero, suc, ◌+◌, ◌-◌, ◌≤◌, ◌<◌, Bool, true, false, ◌&&◌, [], ◌∷◌, Option, some, eqb, eqb_iff,
  leb, get_elem?, ◌≡◌, refl, sym, ap, subst, ◌⊎◌, inl, inr, Bool-cases, arith,
}
use treasury_intent_controll.Skeptic.Locate.{
  Codes, length, line_start, line_end, window_start, window_end, window, strip_front, strip_back,
  add_back, drop, take, locate,
}
use treasury_intent_controll.Skeptic.Locate.Splits.{Splits-le}
use treasury_intent_controll.Skeptic.Locate.Quoted.{locate-Quotes}

-- A line ends at this position.
abbrev pub IsBreak : Codes → ℕ → Type 0
IsBreak doc i = get_elem? doc i ≡ some b'\n'

abbrev NoBreak : Codes → ℕ → ℕ → Type 0
NoBreak doc from to = (i : ℕ) → from ≤ i → i < to → IsBreak doc i → ⊥

no_newline : (c : ℕ) → eqb c b'\n' ≡ false → ◌≡◌ {A = Option ℕ} (some c) (some b'\n') → ⊥
no_newline c e h = cc (e, (eqb_iff c b'\n').1 (same h))
  where
    same : some c ≡ some b'\n' → c ≡ b'\n'
    same h = cc

is_newline : (c : ℕ) → eqb c b'\n' ≡ true → some c ≡ some b'\n'
is_newline c e = ap (λ x. some x) ((eqb_iff c b'\n').0 e)

later_NoBreak :
    (c : ℕ) (doc : Codes) (from to : ℕ)
    → NoBreak doc from to
    → NoBreak (c ∷ doc) (suc from) (suc to)
later_NoBreak c doc from to h zero a b n = absurd (omega arith)
later_NoBreak c doc from to h (suc i) a b n = h i (omega arith) (omega arith) n

whole_NoBreak :
    (c : ℕ) (doc : Codes) (to : ℕ)
    → eqb c b'\n' ≡ false
    → NoBreak doc 0 to
    → NoBreak (c ∷ doc) 0 (suc to)
whole_NoBreak c doc to e h zero a b n = no_newline c e n
whole_NoBreak c doc to e h (suc i) a b n = h i (omega arith) (omega arith) n

-- What `line_start` returns: the best position so far, or the one behind the last break.
abbrev LastBreak : ℕ → ℕ → ℕ → Codes → ℕ → Type 0
LastBreak at best limit doc r =
    ((r ≡ best) × NoBreak doc 0 limit)
    ⊎ ((i : ℕ) × (i < limit) × IsBreak doc i × (r ≡ at + suc i) × NoBreak doc (suc i) limit)

line_start-LastBreak :
    (at best limit : ℕ) (doc : Codes) → LastBreak at best limit doc (line_start at best limit doc)
unfolding line_start
line_start-LastBreak at best limit [] = inl (refl, λ i a b n. cc n)
line_start-LastBreak at best zero (c ∷ doc) = inl (refl, λ i a b n. absurd (omega arith))
line_start-LastBreak at best (suc limit) (c ∷ doc) = elim (Bool-cases (eqb c b'\n')) [
  | inl e ↦ rw e (elim (line_start-LastBreak (suc at) (suc at) limit doc) [
    | inl p ↦ inr (0, omega arith, is_newline c e, omega arith, later_NoBreak c doc 0 limit p.1)
    | inr p ↦ inr (suc p.0, omega arith, p.2, omega arith, later_NoBreak c doc (suc p.0) limit p.4)
  ])
  | inr e ↦ rw e (elim (line_start-LastBreak (suc at) best limit doc) [
    | inl p ↦ inl (p.0, whole_NoBreak c doc limit e p.1)
    | inr p ↦ inr (suc p.0, omega arith, p.2, omega arith, later_NoBreak c doc (suc p.0) limit p.4)
  ])
]

-- What `line_end` returns: the end of the text, or the first break from a position on.
abbrev FirstBreak : ℕ → ℕ → Codes → ℕ → Type 0
FirstBreak at from doc r =
    ((r ≡ at + length doc) × ((j : ℕ) → from ≤ at + j → IsBreak doc j → ⊥))
    ⊎ ((i : ℕ) × (r ≡ at + i)
        × (i < length doc)
        × (from ≤ at + i)
        × IsBreak doc i
        × ((j : ℕ) → from ≤ at + j → j < i → IsBreak doc j → ⊥))

line_end-FirstBreak : (at from : ℕ) (doc : Codes) → FirstBreak at from doc (line_end at from doc)
unfolding line_end
line_end-FirstBreak at from [] = inl (omega arith, λ j a n. cc n)
line_end-FirstBreak at from (c ∷ doc) = elim (Bool-cases (leb from at && eqb c b'\n')) [
  | inl e ↦ rw e (
      inr (
        0,
        omega arith,
        omega arith,
        reached e,
        is_newline c (second e),
        λ j a b n. absurd (omega arith),
      ))
  | inr e ↦ rw e (further e (line_end-FirstBreak (suc at) from doc))
]
  where
    reached : (leb from at && eqb c b'\n') ≡ true → from ≤ at + 0
    reached e = ground arith

    second : (leb from at && eqb c b'\n') ≡ true → eqb c b'\n' ≡ true
    second e = ground arith

    first_free : (leb from at && eqb c b'\n') ≡ false → from ≤ at + 0 → eqb c b'\n' ≡ false
    first_free e h = ground arith

    none_here :
        (leb from at && eqb c b'\n') ≡ false
        → (j : ℕ) → from ≤ at + j
        → (IsBreak (c ∷ doc) j)
        → (j ≡ 0)
        → ⊥
    none_here e zero a n z = no_newline c (first_free e a) n
    none_here e (suc j) a n z = omega arith

    further :
        {r : ℕ}
        → (leb from at && eqb c b'\n') ≡ false
        → FirstBreak (suc at) from doc r
        → FirstBreak at from (c ∷ doc) r
    further e (inl p) = inl (omega arith, free)
      where
        free : (j : ℕ) → from ≤ at + j → IsBreak (c ∷ doc) j → ⊥
        free zero a n = none_here e 0 a n refl
        free (suc j) a n = p.1 j (omega arith) n
    further e (inr p) = inr (suc p.0, omega arith, omega arith, omega arith, p.4, free)
      where
        free : (j : ℕ) → from ≤ at + j → j < suc p.0 → IsBreak (c ∷ doc) j → ⊥
        free zero a b n = none_here e 0 a n refl
        free (suc j) a b n = p.5 j (omega arith) (omega arith) n

add_back-le : (c : ℕ) (s : Codes) → length (add_back c s) ≤ suc (length s)
add_back-le c [] = ground arith
add_back-le c (d ∷ s) = omega arith

strip_back-le : (s : Codes) → length (strip_back s) ≤ length s
strip_back-le [] = omega arith
strip_back-le (c ∷ s) = omega (arith, add_back-le c (strip_back s), strip_back-le s)

strip_front-le : (s : Codes) → length (strip_front s) ≤ length s
strip_front-le [] = omega arith
strip_front-le (c ∷ s) = ground (arith, strip_front-le s)

take-le : (n : ℕ) (s : Codes) → length (take n s) ≤ n
take-le zero s = omega arith
take-le (suc n) [] = omega arith
take-le (suc n) (c ∷ s) = omega (arith, take-le n s)

-- The window from `start` to `stop`: it lies within the text, around the quote, it reaches as far as
-- the radius or to the text's end, and on to the next line boundary on both sides.
pub record IsSnapped (doc : Codes) (radius at quote_end start stop : ℕ) : Type 0 where
  pub in_order : at ≤ quote_end
  pub reaches_back : start ≤ at - radius
  pub begins_line : (start ≡ 0) ⊎ ((i : ℕ) × (start ≡ suc i) × IsBreak doc i)
  pub no_break_before : NoBreak doc start (at - radius)
  pub ends_behind : quote_end ≤ stop
  pub within : stop ≤ length doc
  pub reaches_on : (quote_end + radius ≤ stop) ⊎ (stop ≡ length doc)
  pub ends_line : (stop ≡ length doc) ⊎ IsBreak doc stop
  pub no_break_behind : NoBreak doc (quote_end + radius) stop

start_side :
    (limit r : ℕ) (doc : Codes)
    → LastBreak 0 0 limit doc r
    → (r ≤ limit) × ((r ≡ 0) ⊎ ((i : ℕ) × (r ≡ suc i) × IsBreak doc i)) × NoBreak doc r limit
start_side limit r doc (inl p) = (omega arith, inl p.0, λ i a b n. p.1 i (omega arith) b n)
start_side limit r doc (inr p) =
    (omega arith, inr (p.0, omega arith, p.2), λ i a b n. p.4 i (omega arith) b n)

end_side :
    (from quote_end r : ℕ) (doc : Codes)
    → quote_end ≤ from
    → quote_end ≤ length doc
    → FirstBreak 0 from doc r
    → (quote_end ≤ r)
      × (r ≤ length doc)
      × ((from ≤ r) ⊎ (r ≡ length doc))
      × ((r ≡ length doc) ⊎ IsBreak doc r)
      × NoBreak doc from r
end_side from quote_end r doc q l (inl p) = (
  omega arith,
  omega arith,
  inr (omega arith),
  inl (omega arith),
  λ i a b n. p.1 i (omega arith) n,
)
end_side from quote_end r doc q l (inr p) = (
  omega arith,
  omega arith,
  inl (omega arith),
  inr (subst (λ k. IsBreak doc k) (sym here) p.4),
  λ i a b n. p.5 i (omega arith) (omega arith) n,
)
  where
    here : r ≡ p.0
    here = omega arith

-- Around a located quote the window runs from the line in which the text `radius` code points before
-- the quote lies, or from the text's start, to the end of the line in which the text `radius` code
-- points behind it lies, or to the text's end; it contains the quote and no more lines than these, it
-- lies within the text, and it is no longer than from the one position to the other.
pub locate-IsSnapped :
    (is_space : ℕ → Bool) (doc quote : Codes) (radius at quote_end : ℕ)
    → locate is_space doc quote ≡ some (at, quote_end)
    → IsSnapped doc radius at quote_end
        (window_start radius doc at)
        (window_end radius doc quote_end)
      × (length (window radius doc (at, quote_end))
          ≤ window_end radius doc quote_end - window_start radius doc at)
locate-IsSnapped is_space doc quote radius at quote_end h =
    let q = locate-Quotes is_space doc quote at quote_end h in
    let s = start_side (at - radius) _ doc (line_start-LastBreak 0 0 (at - radius) doc) in
    let e =
      end_side (quote_end + radius) quote_end _ doc (omega arith)
        (Splits-le doc q.middle at quote_end q.is_split)
        (line_end-FirstBreak 0 (quote_end + radius) doc) in
    let part =
      take (window_end radius doc quote_end - window_start radius doc at)
        (drop (window_start radius doc at) doc) in
    (
      record {
        in_order = ordered (length q.middle) q.is_split.ends;
        reaches_back = s.0;
        begins_line = s.1;
        no_break_before = s.2;
        ends_behind = e.0;
        within = e.1;
        reaches_on = e.2;
        ends_line = e.3;
        no_break_behind = e.4;
      },
      omega (
        arith,
        strip_back-le (strip_front part),
        strip_front-le part,
        take-le (window_end radius doc quote_end - window_start radius doc at)
            (drop (window_start radius doc at) doc),
      ),
    )
  where
    ordered : (m : ℕ) → at + m ≡ quote_end → at ≤ quote_end
    ordered m e = omega arith
