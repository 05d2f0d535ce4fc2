-- ===== src/Declare/Request/Keys.antt =====
-- The parts of `derive_key` (declarant/pydeclarant/declare.py).
use treasury_intent_controll.Base.{
  String, ◌<>◌, ◌≡◌, refl, ap, ap₂, sym, ◌∙◌, false, has_code, arith,
}
use Prim.Native.Char.{Char, code}
use text.Mathlib.TextLemmas.{
  append_cancel_left, cons-append, nil-append, head-eq_of_cons-eq, tail-eq_of_cons-eq,
}
use treasury_intent_controll.Json.Text.{Bytes}
use treasury_intent_controll.Declare.Request.{derive_key}

-- A text that has a colon in front begins with one.
colon_head :
    (u : String) (d : Char) (t x : String) → "" <> (":" <> u) ≡ String.◌∷◌ d t <> x → code d ≡ b':'
colon_head u d t x e = ap code (
    sym (
      head-eq_of_cons-eq
        (sym (cons-append ":" "" u) ∙ sym (nil-append (":" <> u)) ∙ e ∙ cons-append d t x)))

-- Two texts without the character `:` in front of a colon.
split_colon :
    (s t u v : String)
    → has_code b':' s ≡ false
    → has_code b':' t ≡ false
    → s <> (":" <> u) ≡ t <> (":" <> v)
    → (s ≡ t) × (u ≡ v)
split_colon String.[] String.[] u v h k e =
    (refl, append_cancel_left ":" u v (sym (nil-append _) ∙ e ∙ nil-append _))
split_colon String.[] (String.◌∷◌ d t) u v h k e =
    absurd (ground (arith, colon_head u d t (":" <> v) e))
split_colon (String.◌∷◌ c s) String.[] u v h k e =
    absurd (ground (arith, colon_head v c s (":" <> u) (sym e)))
split_colon (String.◌∷◌ c s) (String.◌∷◌ d t) u v h k e =
    let e' = sym (cons-append c s (":" <> u)) ∙ e ∙ cons-append d t (":" <> v) in
    let rest = split_colon s t u v (ground arith) (ground arith) (tail-eq_of_cons-eq e') in
    (ap₂ String.◌∷◌ (head-eq_of_cons-eq e') rest.0, rest.1)

-- With a scope, a run and a tool name that hold no colon, the key determines all three and the
-- digest of the arguments.
pub derive_key_injective :
    (sha256 : Bytes → String) (scope scope' run run' tool tool' : String) (args args' : Bytes)
    → has_code b':' scope ≡ false
    → has_code b':' scope' ≡ false
    → has_code b':' run ≡ false
    → has_code b':' run' ≡ false
    → has_code b':' tool ≡ false
    → has_code b':' tool' ≡ false
    → derive_key sha256 scope run tool args ≡ derive_key sha256 scope' run' tool' args'
    → (scope ≡ scope') × (run ≡ run') × (tool ≡ tool') × (sha256 args ≡ sha256 args')
unfolding derive_key
derive_key_injective sha256 scope scope' run run' tool tool' args args' h h' k k' l l' e =
    let a = split_colon scope scope' _ _ h h' e in
    let b = split_colon run run' _ _ k k' a.1 in
    let c = split_colon tool tool' _ _ l l' b.1 in (a.0, b.0, c.0, c.1)

-- Under one scope, run and tool, whatever their characters, equal keys have equal digests.
pub derive_key-digest :
    (sha256 : Bytes → String) (scope run tool : String) (args args' : Bytes)
    → derive_key sha256 scope run tool args ≡ derive_key sha256 scope run tool args'
    → sha256 args ≡ sha256 args'
unfolding derive_key
derive_key-digest sha256 scope run tool args args' e = append_cancel_left ":" _ _ (
    append_cancel_left tool _ _ (
      append_cancel_left ":" _ _
        (append_cancel_left run _ _ (append_cancel_left ":" _ _ (append_cancel_left scope _ _ e)))))
