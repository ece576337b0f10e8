-- ===== src/Contract/JsonOrBytes.antt =====
-- contract/json_or_bytes.go: a value that is JSON or bytes. `JsonText` is what it uses of
-- encoding/json; nil and an empty slice are one value, which is nil in the program.
pub mod RoundTrip
use workforce.Prelude.{
  ℕ, ◌≡◌, Bool, true, false, ◌&&◌, Option, none, some, List, [], ◌∷◌, length, ltb, leb, ◌==◌,
  nat_eq, if◌then◌else◌,
}
use workforce.Contract.Job.{Bytes}

-- `json.Valid`; what the encoder makes of the text that a `MarshalJSON` returned; `json.Marshal` and
-- `json.Unmarshal` of a `[]byte`.
pub record JsonText : Type 0 where
  pub valid : Bytes → Bool
  pub compact : Bytes → Bytes
  pub marshal_bytes : Bytes → Bytes
  pub unmarshal_bytes : Bytes → Option Bytes

abbrev pub null : Bytes
null = 110 ∷ 117 ∷ 108 ∷ 108 ∷ []

-- `len(data) > 1 && data[0] == '"'`
abbrev pub is_quoted : Bytes → Bool
is_quoted [] = false
is_quoted (b ∷ bs) = leb 1 (length bs) && b == 34

-- Bytes are written as text in base64 between quotes, which reads back, and nil as null.
pub record IsJsonText (T : JsonText) : Type 0 where
  pub nil_null : T.marshal_bytes [] ≡ null
  pub compact_null : T.compact null ≡ null
  pub quotes : (b : ℕ) (bs : Bytes) → is_quoted (T.marshal_bytes (b ∷ bs)) ≡ true
  pub compact_bytes : (r : Bytes) → T.compact (T.marshal_bytes r) ≡ T.marshal_bytes r
  pub unmarshal-marshal :
      (b : ℕ) (bs : Bytes) → T.unmarshal_bytes (T.marshal_bytes (b ∷ bs)) ≡ some (b ∷ bs)

module _ (T : JsonText) where
  unfoldable pub marshal_json : Bytes → Bytes
  marshal_json r = if leb 1 (length r) && T.valid r then r else T.marshal_bytes r

  unfoldable pub unmarshal_json : Bytes → Option Bytes
  unmarshal_json text = if is_quoted text then T.unmarshal_bytes text else some text

  -- What a value is once it was written as JSON and read again.
  unfoldable pub carried : Bytes → Option Bytes
  carried r = unmarshal_json (T.compact (marshal_json r))
