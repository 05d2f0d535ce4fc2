-- ===== src/Verifier/Encoding.antt =====
-- `trajectory_hash` (verifier/pyverifier/verify.py): each field is written as its length in bytes, a
-- colon, its bytes and a newline.
pub mod Unique
use treasury_intent_controll.Base.{
  ℕ, zero, suc, ◌+◌, ◌/◌, ◌%◌, ltb, if◌then◌else◌, List, [], ◌∷◌, ◌++◌, String, ◌≡◌, refl, codes,
}
use treasury_intent_controll.Base.Utf8.{utf8}
use treasury_intent_controll.Json.Text.{Bytes}

-- What is read of a record: `str(intent_seq)`, the type and the detail.
pub record Event : Type 0 where
  pub intent_seq : ℕ
  pub type : String
  pub detail : String

-- The decimal digits of a number, in front of the rest; more fuel than digits.
unfoldable pub digits : ℕ → ℕ → Bytes → Bytes
digits zero n rest = rest
digits (suc fuel) n rest =
    let more = digits fuel (n / 10) ((48 + n % 10) ∷ rest) in
    if ltb n 10 then (48 + n) ∷ rest else more

-- `str(n)`.
unfoldable pub decimal : ℕ → Bytes
unfolding digits
decimal n = digits (suc n) n []

abbrev pub length {ℓ} : {A : Type ℓ} → List A → ℕ
length [] = 0
length (x ∷ l) = suc (length l)

unfoldable pub write_field : Bytes → Bytes → Bytes
unfolding decimal
write_field b rest = decimal (length b) ++ (b':' ∷ (b ++ (b'\n' ∷ rest)))

unfoldable pub encode : List Event → Bytes
encode [] = []
encode (e ∷ events) =
    write_field (decimal e.intent_seq)
      (write_field (utf8 e.type) (write_field (utf8 e.detail) (encode events)))

encode_runs :
    encode (record { intent_seq = 10; type = "ACTIVE"; detail = "é" } ∷ [])
    ≡ codes "2:10\n6:ACTIVE\n2:" ++ (195 ∷ 169 ∷ 10 ∷ [])
unfolding encode write_field utf8
encode_runs = refl
