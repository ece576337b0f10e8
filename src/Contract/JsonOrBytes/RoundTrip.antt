-- ===== src/Contract/JsonOrBytes/RoundTrip.antt =====
-- contract/json_or_bytes.go: what becomes of a value that is written as JSON and read again.
use workforce.Prelude.{
  suc, arith, ◌≡◌, refl, true, Option, some, [], ◌∷◌, if◌then◌else◌, Bool-cases, inl, inr, length,
  leb,
}
use workforce.Contract.Job.{Bytes}
use workforce.Contract.JsonOrBytes.{
  JsonText, IsJsonText, null, is_quoted, marshal_json, unmarshal_json, carried,
}

-- What the round trip makes of a value.
abbrev pub round_trip : JsonText → Bytes → Option Bytes
round_trip T [] = some null
round_trip T (b ∷ bs) =
    if T.valid (b ∷ bs)
    then (if is_quoted (T.compact (b ∷ bs))
        then T.unmarshal_bytes (T.compact (b ∷ bs))
        else some (T.compact (b ∷ bs)))
    else some (b ∷ bs)

-- Bytes that are not JSON come back as they were, and JSON that is not a text comes back compacted;
-- nil comes back as the text null, and a JSON text as the bytes that it is the base64 of, with an
-- error if it is not base64.
pub carried-eq-round_trip : (T : JsonText) (r : Bytes) → IsJsonText T → carried T r ≡ round_trip T r
unfolding carried marshal_json unmarshal_json
carried-eq-round_trip T [] law = rw (law.nil_null, law.compact_null) refl
carried-eq-round_trip T (b ∷ bs) law =
    let full : leb 1 (suc (length bs)) ≡ true = ground arith in
    elim (Bool-cases (T.valid (b ∷ bs))) [
      | inl v ↦ rw (full, v) refl
      | inr v ↦
          rw (full, v, law.compact_bytes (b ∷ bs), law.quotes b bs, law.unmarshal-marshal b bs) refl
    ]
