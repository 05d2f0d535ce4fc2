-- ===== src/Reporting/Dates.antt =====
-- `_is_iso_date` (declarant/pydeclarant/reporting_adapter.py) and the dates that texts spell.
use treasury_intent_controll.Base.{
  ℕ, ◌+◌, ◌*◌, ◌-◌, ◌/◌, ◌%◌, ◌≤◌, ◌<◌, Bool, true, false, ◌&&◌, ◌||◌, not, String, List, [], ◌∷◌,
  ◌≡◌, refl, ap, sym, ◌∙◌, ◌↔◌, eqb, leb, codes, codes_injective, if◌then◌else◌, arith,
}

unfoldable pub is_digit : ℕ → Bool
is_digit c = leb 48 c && leb c 57

unfoldable pub is_leap : ℕ → Bool
is_leap y = eqb (y % 4) 0 && (not (eqb (y % 100) 0) || eqb (y % 400) 0)

unfoldable pub days_in_month : ℕ → ℕ → ℕ
unfolding is_leap
days_in_month y m =
    if eqb m 2
    then (if is_leap y then 29 else 28)
    else if eqb m 4 || eqb m 6 || eqb m 9 || eqb m 11
    then 30
    else 31

-- What `date.fromisoformat` asks of the three numbers.
unfoldable pub is_real_date : ℕ → ℕ → ℕ → Bool
is_real_date y m d = leb 1 y && leb 1 m && leb m 12 && leb 1 d && leb d (days_in_month y m)

abbrev pub year_of : ℕ → ℕ → ℕ → ℕ → ℕ
year_of a b c d = (a - 48) * 1000 + (b - 48) * 100 + (c - 48) * 10 + (d - 48)

abbrev pub two_of : ℕ → ℕ → ℕ
two_of a b = (a - 48) * 10 + (b - 48)

-- Ten characters with dashes at 4 and 7, digits elsewhere, and a real date.
unfoldable pub is_iso_codes : List ℕ → Bool
unfolding is_digit is_real_date
is_iso_codes (a ∷ b ∷ c ∷ d ∷ p ∷ e ∷ f ∷ q ∷ g ∷ h ∷ []) =
    eqb p b'-'
    && eqb q b'-'
    && is_digit a
    && is_digit b
    && is_digit c
    && is_digit d
    && is_digit e
    && is_digit f
    && is_digit g
    && is_digit h
    && is_real_date (year_of a b c d) (two_of e f) (two_of g h)
is_iso_codes _ = false

unfoldable pub is_iso_date : String → Bool
unfolding is_iso_codes
is_iso_date s = is_iso_codes (codes s)

date_tests :
    (is_iso_date "2026-08-01" ≡ true)
    × (is_iso_date "2026-13-45" ≡ false)
    × (is_iso_date "20260801" ≡ false)
    × (is_iso_date "2026-W31-6" ≡ false)
    × (is_iso_date "2024-02-29" ≡ true)
    × (is_iso_date "2026-02-29" ≡ false)
unfolding is_iso_date days_in_month
date_tests = (refl, refl, refl, refl, refl, refl)

-- The number that a text of that shape stands for, as year, month and day in one.
pub record Date : Type 0 where
  pub year : ℕ
  pub month : ℕ
  pub day : ℕ

unfoldable pub date_codes : List ℕ → Date
date_codes (a ∷ b ∷ c ∷ d ∷ p ∷ e ∷ f ∷ q ∷ g ∷ h ∷ []) = record {
  year = year_of a b c d;
  month = two_of e f;
  day = two_of g h;
}
date_codes _ = record { year = 0; month = 0; day = 0 }

unfoldable pub date_of : String → Date
unfolding date_codes
date_of s = date_codes (codes s)

-- The spelling of a date.
unfoldable pub iso_codes : Date → List ℕ
iso_codes t =
    (48 + t.year / 1000)
    ∷ (48 + t.year / 100 % 10)
    ∷ (48 + t.year / 10 % 10)
    ∷ (48 + t.year % 10)
    ∷ b'-'
    ∷ (48 + t.month / 10)
    ∷ (48 + t.month % 10)
    ∷ b'-'
    ∷ (48 + t.day / 10)
    ∷ (48 + t.day % 10)
    ∷ []

abbrev Digit : ℕ → Type 0
Digit a = (48 ≤ a) × (a ≤ 57)

Digit-bounds : (a : ℕ) → is_digit a ≡ true → Digit a
unfolding is_digit
Digit-bounds a h = ground arith

year_back :
    (a b c d : ℕ)
    → Digit a
    → Digit b
    → Digit c
    → Digit d
    → (48 + year_of a b c d / 1000 ≡ a)
      × (48 + year_of a b c d / 100 % 10 ≡ b)
      × (48 + year_of a b c d / 10 % 10 ≡ c)
      × (48 + year_of a b c d % 10 ≡ d)
year_back a b c d h i j k = (omega arith, omega arith, omega arith, omega arith)

two_back : (a b : ℕ) → Digit a → Digit b → (48 + two_of a b / 10 ≡ a) × (48 + two_of a b % 10 ≡ b)
two_back a b h i = (omega arith, omega arith)

-- The tests of the shape, as facts.
iso_shape :
    (a b c d p e f q g h : ℕ)
    → is_iso_codes (a ∷ b ∷ c ∷ d ∷ p ∷ e ∷ f ∷ q ∷ g ∷ h ∷ []) ≡ true
    → (p ≡ b'-')
      × (q ≡ b'-')
      × Digit a
      × Digit b
      × Digit c
      × Digit d
      × Digit e
      × Digit f
      × Digit g
      × Digit h
unfolding is_iso_codes
iso_shape a b c d p e f q g h t = ground arith

iso-date_codes : (l : List ℕ) → is_iso_codes l ≡ true → iso_codes (date_codes l) ≡ l
unfolding iso_codes date_codes is_iso_codes
iso-date_codes (a ∷ b ∷ c ∷ d ∷ p ∷ e ∷ f ∷ q ∷ g ∷ h ∷ []) t =
    let shape = iso_shape a b c d p e f q g h t in
    let year = year_back a b c d shape.2 shape.3 shape.4 shape.5 in
    let month = two_back e f shape.6 shape.7 in
    let day = two_back g h shape.8 shape.9 in
    cc (shape.0, shape.1, year.0, year.1, year.2, year.3, month.0, month.1, day.0, day.1)
iso-date_codes l t = cc

-- An accepted text is the one spelling of its date: two accepted texts with one date are equal.
pub is_iso_date-date_of :
    (s t : String) → is_iso_date s ≡ true → is_iso_date t ≡ true → date_of s ≡ date_of t → s ≡ t
unfolding is_iso_date date_of
is_iso_date-date_of s t h k e =
    codes_injective s t
      (sym (iso-date_codes (codes s) h) ∙ ap iso_codes e ∙ iso-date_codes (codes t) k)

days_in_month-le : (y m : ℕ) → days_in_month y m ≤ 31
unfolding days_in_month
days_in_month-le y m = ground arith

-- The bounds that a real date keeps.
real_bounds : (y m d : ℕ) → is_real_date y m d ≡ true → (m ≤ 12) × (d ≤ 31)
unfolding is_real_date
real_bounds y m d h = ground (arith, days_in_month-le y m)

accepted_date :
    (l : List ℕ)
    → is_iso_codes l ≡ true
    → ((date_codes l).year ≤ 9999)
      × (is_real_date (date_codes l).year (date_codes l).month (date_codes l).day ≡ true)
unfolding is_iso_codes date_codes
accepted_date (a ∷ b ∷ c ∷ d ∷ p ∷ e ∷ f ∷ q ∷ g ∷ h ∷ []) t =
    let shape = iso_shape a b c d p e f q g h t in (omega arith, ground arith)
accepted_date l t = cc

year_digits :
    (y : ℕ)
    → y ≤ 9999
    → year_of (48 + y / 1000) (48 + y / 100 % 10) (48 + y / 10 % 10) (48 + y % 10) ≡ y
year_digits y h = omega arith

two_digits : (m : ℕ) → m ≤ 99 → two_of (48 + m / 10) (48 + m % 10) ≡ m
two_digits m h = omega arith

digit_accepted : (n : ℕ) → n < 10 → is_digit (48 + n) ≡ true
unfolding is_digit
digit_accepted n h = ground arith

printed_accepted :
    (t : Date)
    → t.year ≤ 9999
    → is_real_date t.year t.month t.day ≡ true
    → is_iso_codes (iso_codes t) ≡ true
unfolding is_iso_codes iso_codes
printed_accepted t h r =
    let bounds = real_bounds t.year t.month t.day r in
    rw
      (
        digit_accepted (t.year / 1000) (omega arith),
        digit_accepted (t.year / 100 % 10) (omega arith),
        digit_accepted (t.year / 10 % 10) (omega arith),
        digit_accepted (t.year % 10) (omega arith),
        digit_accepted (t.month / 10) (omega arith),
        digit_accepted (t.month % 10) (omega arith),
        digit_accepted (t.day / 10) (omega arith),
        digit_accepted (t.day % 10) (omega arith),
        year_digits t.year h,
        two_digits t.month (omega arith),
        two_digits t.day (omega arith),
      )
      r

-- The accepted date texts are exactly the spellings YYYY-MM-DD of the days of the calendar up to
-- the year 9999.
pub is_iso_date_iff :
    (s : String)
    → (is_iso_date s ≡ true) ↔ (
        (t : Date) × (iso_codes t ≡ codes s)
        × (t.year ≤ 9999)
        × (is_real_date t.year t.month t.day ≡ true))
unfolding is_iso_date
is_iso_date_iff s =
    let l = codes s in
    (
      λ h. (date_codes l, iso-date_codes l h, (accepted_date l h).0, (accepted_date l h).1),
      λ x. rw (← x.1) (printed_accepted x.0 x.2 x.3),
    )
