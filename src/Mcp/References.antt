-- ===== src/Mcp/References.antt =====
-- Texts of references, split at "/" and joined, and the ones among them that were not yet seen
-- (declarant/pydeclarant/mcp_adapter.py).
use treasury_intent_controll.Base.{
  ℕ, suc, ◌+◌, ◌≤◌, ◌<◌, Bool, true, false, String, List, [], ◌∷◌, ◌++◌, ◌==◌, eq_iff, eq_refl, eqb,
  eqb_iff, contains, if◌then◌else◌, ◌≡◌, refl, sym, ◌∙◌, ap, ap₂, subst, ◌≢◌, inl, inr, Bool-cases,
  arith,
}
use Prim.Native.Char.{Char, code}
use package.text.Mathlib.TextEquality.{Char-path}
use treasury_intent_controll.Mcp.Schema.{add_code, split}

-- The text of which these are the parts.
abbrev slash : Char
slash = "/"

abbrev glue : String → String → String
glue String.[] rest = String.◌∷◌ slash rest
glue (String.◌∷◌ c s) rest = String.◌∷◌ c (glue s rest)

abbrev pub join : List String → String
join [] = ""
join (part ∷ []) = part
join (part ∷ other ∷ parts) = glue part (join (other ∷ parts))

join-add_code :
    (c : Char) (parts : List String) → join (add_code c parts) ≡ String.◌∷◌ c (join parts)
join-add_code c [] = refl
join-add_code c (part ∷ []) = refl
join-add_code c (part ∷ other ∷ parts) = refl

join_empty_part :
    (parts : List String) → parts ≢ [] → join (String.[] ∷ parts) ≡ String.◌∷◌ slash (join parts)
join_empty_part [] h = absurd (h refl)
join_empty_part (part ∷ parts) h = refl

add_code_nonempty : (c : Char) (parts : List String) → add_code c parts ≢ []
add_code_nonempty c [] e = cc
add_code_nonempty c (part ∷ parts) e = cc

if_nonempty : (b : Bool) (l m : List String) → l ≢ [] → m ≢ [] → (if b then l else m) ≢ []
if_nonempty true l m x y = x
if_nonempty false l m x y = y

one_nonempty : (part : String) (parts : List String) → (part ∷ parts) ≢ []
one_nonempty part parts e = cc

split_nonempty : (s : String) → split s ≢ []
unfolding split
split_nonempty String.[] = one_nonempty "" []
split_nonempty (String.◌∷◌ c s) =
    if_nonempty (eqb (code c) 47) (String.[] ∷ split s) (add_code c (split s))
      (one_nonempty String.[] (split s)) (add_code_nonempty c (split s))

pub join-split : (s : String) → join (split s) ≡ s
unfolding split
join-split String.[] = refl
join-split (String.◌∷◌ c s) = elim (Bool-cases (eqb (code c) 47)) [
  | inl e ↦ rw e (
      join_empty_part (split s) (split_nonempty s)
      ∙ ap₂ String.◌∷◌ (sym (Char-path c slash ((eqb_iff (code c) 47).0 e))) (join-split s))
  | inr e ↦ rw e (join-add_code c (split s) ∙ ap (λ (t : String). String.◌∷◌ c t) (join-split s))
]

-- How many of the texts are not among those that were seen.
abbrev pub unseen : List String → List String → ℕ
unseen seen [] = 0
unseen seen (u ∷ us) = let rest = unseen seen us in if contains seen u then rest else suc rest

abbrev pub total : List String → ℕ
total [] = 0
total (u ∷ us) = suc (total us)

pub unseen-le : (us : List String) → unseen [] us ≤ total us
unseen-le [] = omega arith
unseen-le (u ∷ us) = ground (arith, unseen-le us)

unseen_mono : (ref : String) (seen us : List String) → unseen (ref ∷ seen) us ≤ unseen seen us
unseen_mono ref seen [] = omega arith
unseen_mono ref seen (u ∷ us) = ground (arith, unseen_mono ref seen us)

unseen_here :
    (u : String) (seen us : List String)
    → contains seen u ≡ false
    → unseen (u ∷ seen) (u ∷ us) < unseen seen (u ∷ us)
unseen_here u seen us f = rw (eq_refl u) (rw f (ground (arith, unseen_mono u seen us)))

pub unseen-lt :
    (ref : String) (seen us : List String)
    → contains seen ref ≡ false
    → contains us ref ≡ true
    → unseen (ref ∷ seen) us < unseen seen us
unseen-lt ref seen [] f t = cc
unseen-lt ref seen (u ∷ us) f t = elim (Bool-cases (u == ref)) [
  | inl e ↦
      subst (λ r. contains seen r ≡ false → unseen (r ∷ seen) (u ∷ us) < unseen seen (u ∷ us))
        ((eq_iff u ref).0 e) (unseen_here u seen us) f
  | inr e ↦ ground (arith, unseen-lt ref seen us f, eq_iff u ref, eq_iff ref u)
]

pub total_append : (l m : List String) → total (l ++ m) ≡ total l + total m
total_append [] m = omega arith
total_append (u ∷ l) m = ground (arith, total_append l m)

pub contains_here : (a b : String) (l : List String) → a ≡ b → contains (a ∷ l) b ≡ true
contains_here a b l e = rw e (rw (eq_refl b) refl)

pub contains_later :
    (a b : String) (l : List String) → contains l b ≡ true → contains (a ∷ l) b ≡ true
contains_later a b l h = ground arith

pub contains_left :
    (l m : List String) (b : String) → contains l b ≡ true → contains (l ++ m) b ≡ true
contains_left [] m b h = cc
contains_left (a ∷ l) m b h = ground (arith, contains_left l m b)

pub contains_right :
    (l m : List String) (b : String) → contains m b ≡ true → contains (l ++ m) b ≡ true
contains_right [] m b h = h
contains_right (a ∷ l) m b h = contains_later a b (l ++ m) (contains_right l m b h)
