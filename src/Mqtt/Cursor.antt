-- ===== src/Mqtt/Cursor.antt =====
-- `Reader` and `Writer` of src/mqtt.rs. A reader is what it has still to read: its position is the
-- length of the buffer less the length of that. A write gives the octets that it appends.
use heliobridge.Base.{
  ℕ, zero, suc, ◌+◌, ◌*◌, ◌/◌, ◌%◌, Option, none, some, List, [], ◌∷◌, ◌++◌, String, length, take,
  drop, leb, ◌==◌, if◌then◌else◌,
}
use heliobridge.Base.Octets.{be16, word, clamp_u16}
use heliobridge.Base.Text.{is_utf8}
use heliobridge.Base.Results.{Result, ok, err, ◌>>=◌, ◌>>◌, ensure, ok_or}
use heliobridge.Mqtt.{CodecError, truncated, not_utf8, malformed_length}
use Prim.Native.Nat.{bit_and, bit_or}

unfoldable pub read_u8 : List ℕ → Option (ℕ × List ℕ)
read_u8 [] = none
read_u8 (value ∷ rest) = some (value, rest)

unfoldable pub read_u16 : List ℕ → Option (ℕ × List ℕ)
read_u16 (hi ∷ lo ∷ rest) = some (word hi lo, rest)
read_u16 _ = none

-- `Reader::string`
unfoldable pub read_string : List ℕ → Option (List ℕ × List ℕ)
read_string buf = elim (read_u16 buf) [
  | none ↦ none
  | some (len, rest) ↦ if leb len (length rest) then some (take len rest, drop len rest) else none
]

unfoldable pub read_utf8_string : String → List ℕ → Result CodecError (List ℕ × List ℕ)
read_utf8_string field buf = do
  (raw, rest) ← ok_or (read_string buf) (truncated "packet" field)
  ensure (is_utf8 raw) (not_utf8 field)
  ok (raw, rest)

-- The loop of `Reader::varint`, for at most `turns` octets more.
unfoldable pub read_varint_from : ℕ → ℕ → ℕ → List ℕ → Result CodecError (Option (ℕ × List ℕ))
read_varint_from zero value multiplier buf = err malformed_length
read_varint_from (suc turns) value multiplier [] = ok none
read_varint_from (suc turns) value multiplier (octet ∷ rest) =
    let next = value + bit_and octet 0x7f * multiplier in
    let more = read_varint_from turns next (multiplier * 128) rest in
    if bit_and octet 0x80 == 0 then ok (some (next, rest)) else more

unfoldable pub read_varint : List ℕ → Result CodecError (Option (ℕ × List ℕ))
read_varint = read_varint_from 4 0 1

-- `Writer::bytes` and `Writer::string`: the prefix is the length, or the largest word for more.
unfoldable pub write_bytes : List ℕ → List ℕ
write_bytes value = be16 (clamp_u16 (length value)) ++ value

-- The loop of `Writer::varint`, for at most `turns` octets: ten are enough for a `usize`.
unfoldable pub write_varint_for : ℕ → ℕ → List ℕ
write_varint_for zero value = []
write_varint_for (suc turns) value =
    let more = write_varint_for turns (value / 128) in
    if value / 128 == 0 then (value % 128) ∷ [] else bit_or (value % 128) 0x80 ∷ more

unfoldable pub write_varint : ℕ → List ℕ
write_varint = write_varint_for 10
