-- ===== src/Skeptic/Tests.antt =====
-- Runs of the skeptic's checks (tic-concept-chat/skeptic.py) on concrete answers.
use treasury_intent_controll.Base.{ℕ, Bool, true, false, [], ◌∷◌, ◌==◌, eq_iff, ◌≡◌, refl, sym, ◌∙◌}
use treasury_intent_controll.Json.Value.{
  Value, number, text, array, object, Items, nil, item, Fields, end, field, get,
}
use treasury_intent_controll.Skeptic.{
  valid, invalid, crashed, duplicate_verdict, unjudged, validate_verdicts, check_judgment,
  check_verdicts, status_by_id, status_of, id_of,
}

-- Ids that are texts.
abbrev pub same : Value ℕ → Value ℕ → Bool
same (text s) (text t) = s == t
same _ _ = false

pub same_symmetric : (a b : Value ℕ) → same a b ≡ true → same b a ≡ true
same_symmetric (text s) (text t) h = (eq_iff t s).1 (sym ((eq_iff s t).0 h))
same_symmetric _ _ h = cc

pub same_transitive : (a b c : Value ℕ) → same a b ≡ true → same b c ≡ true → same a c ≡ true
same_transitive (text s) (text t) (text u) h k =
    (eq_iff s u).1 ((eq_iff s t).0 h ∙ (eq_iff t u).0 k)
same_transitive _ _ _ h k = cc

abbrev pub claim : Fields ℕ
claim = field "id" (text "c1") (field "status" (text "uncited") end)

abbrev pub verdict : Value ℕ
verdict = object (field "id" (text "c1") (field "verdict" (text "marked-inference") end))

abbrev pub answer : Items ℕ → Fields ℕ
answer verdicts = field "verdicts" (array verdicts) end

accepted :
    validate_verdicts same (claim ∷ []) (answer (item verdict nil)) ≡ valid (item verdict nil)
unfolding validate_verdicts check_judgment check_verdicts status_by_id status_of id_of get
accepted = refl

judged_twice :
    validate_verdicts same (claim ∷ []) (answer (item verdict (item verdict nil)))
    ≡ invalid duplicate_verdict
unfolding validate_verdicts check_judgment check_verdicts status_by_id status_of id_of get
judged_twice = refl

not_judged : validate_verdicts same (claim ∷ []) (answer nil) ≡ invalid unjudged
unfolding validate_verdicts check_judgment check_verdicts status_by_id status_of id_of get
not_judged = refl

-- Ids of two kinds cannot be put in order.
not_comparable :
    validate_verdicts same
      (claim ∷ field "id" (number 7) (field "status" (text "uncited") end) ∷ [])
      (answer nil)
    ≡ crashed
unfolding validate_verdicts check_judgment check_verdicts status_by_id status_of id_of get
not_comparable = refl
