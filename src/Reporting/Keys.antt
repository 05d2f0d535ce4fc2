-- ===== src/Reporting/Keys.antt =====
-- `report_key` (declarant/pydeclarant/reporting_adapter.py).
use treasury_intent_controll.Base.{String, ◌≡◌, sym, ◌∙◌, subst}
use treasury_intent_controll.Json.Text.{Bytes}
use treasury_intent_controll.Declare.Request.{derive_key}
use treasury_intent_controll.Declare.Request.Keys.{derive_key-digest}
use treasury_intent_controll.Reporting.{
  ReportIdentity, keyed, canonical_identity, report_key, tool_name,
}
use treasury_intent_controll.Reporting.Identity.{
  canonical_identity_injective, bind_keyed, keyed_injective,
}

-- Under one scope and run, and a digest that does not collide on the bytes of the two identities,
-- two reports with the same key are the same report identity.
pub report_key_injective :
    (nfc : String → String) (sha256 : Bytes → String) (scope run_id : String) (r q : ReportIdentity)
    (key : String)
    → ((a b : Bytes)
        → canonical_identity nfc r ≡ keyed a
        → canonical_identity nfc q ≡ keyed b
        → sha256 a ≡ sha256 b
        → a ≡ b)
    → report_key nfc sha256 r scope run_id ≡ keyed key
    → report_key nfc sha256 q scope run_id ≡ keyed key
    → r ≡ q
unfolding report_key
report_key_injective nfc sha256 scope run_id r q key apart h k =
    let x = bind_keyed (canonical_identity nfc r) _ h in
    let y = bind_keyed (canonical_identity nfc q) _ k in
    let keys =
      keyed_injective (derive_key sha256 scope run_id tool_name x.0) key x.2
      ∙ sym (keyed_injective (derive_key sha256 scope run_id tool_name y.0) key y.2) in
    let same =
      apart x.0 y.0 x.1 y.1 (derive_key-digest sha256 scope run_id tool_name x.0 y.0 keys) in
    canonical_identity_injective nfc r q y.0
      (subst (λ (b : Bytes). canonical_identity nfc r ≡ keyed b) same x.1) y.1
