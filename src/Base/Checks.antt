-- ===== src/Base/Checks.antt =====
-- Checks in a row: the first one that fails decides.
use mathlib.Core.Path.{◌≡◌, refl}
use mathlib.Core.Logic.{◌≢◌, ◌↔◌, inl, inr}
use mathlib.Core.Bool.{Bool, true, false, not}
use mathlib.Core.Option.{Option, none, some}
use Prim.Native.String.{String}
use text.Mathlib.Text.{◌==◌}
use text.Mathlib.TextEquality.{eq_iff}
use treasury_intent_controll.Base.Tests.{Bool-cases}

module _ {ℓ} {F : Type ℓ} where
  abbrev pub flag_if : Bool → F → Option F
  flag_if true f = some f
  flag_if false f = none

  infixr 4 ◌or_else◌
  abbrev pub ◌or_else◌ : Option F → Option F → Option F
  some f or_else next = some f
  none or_else next = next

  -- Two checks in a row find nothing exactly when neither does.
  pub chain {κ} :
      {A B : Type κ} (a b : Option F)
      → (a ≡ none) ↔ A
      → (b ≡ none) ↔ B
      → ((a or_else b) ≡ none) ↔ (A × B)
  chain none b h k = (λ e. (h.0 refl, k.0 e), λ p. k.1 p.1)
  chain (some f) b h k = (λ e. cc e, λ p. h.1 p.0)

  pub must_hold : (b : Bool) (f : F) → (flag_if (not b) f ≡ none) ↔ (b ≡ true)
  must_hold true f = (λ e. refl, λ e. refl)
  must_hold false f = (λ e. cc e, λ e. cc e)

  pub must_equal : (s t : String) (f : F) → (flag_if (not (s == t)) f ≡ none) ↔ (s ≡ t)
  must_equal s t f = (
    λ e. (eq_iff s t).0 ((must_hold (s == t) f).0 e),
    λ e. (must_hold (s == t) f).1 ((eq_iff s t).1 e),
  )

  pub must_differ : (s t : String) (f : F) → (flag_if (s == t) f ≡ none) ↔ (s ≢ t)
  must_differ s t f = elim (Bool-cases (s == t)) [
    | inl b ↦ rw b (λ e. cc e, λ n. absurd (n ((eq_iff s t).0 b)))
    | inr b ↦ rw b (λ e q. cc (b, (eq_iff s t).1 q), λ n. refl)
  ]
