-- ===== src/Growatt/Frame.antt =====
-- src/growatt/v7/frame.rs: frames, obfuscation and integrity. The CRC-16/MODBUS of the crate `crc`
-- is the parameter `checksum`.
pub mod Transform
pub mod Wire
pub mod New
use Prim.Native.Nat.{bit_xor}
use heliobridge.Base.{
  ◌&&◌, ℕ, ◌+◌, ◌-◌, not, Option, none, some, List, [], ◌∷◌, ◌++◌, length, take, drop, slice?,
  suffix?, replicate, take_while, all, leb, ◌==◌,
}
use heliobridge.Base.Octets.{be16, word_at, u16_max}
use heliobridge.Base.Text.{codes, is_ascii_graphic, is_utf8}
use heliobridge.Base.Results.{Result, ok, ◌>>=◌, ◌>>◌, ensure, ok_or}
use heliobridge.Model.{Raw}
use heliobridge.Growatt.Header.{Header, header_len, v7, peek, to_bytes, length_matches}
use heliobridge.Growatt.MessageType
use heliobridge.Growatt.MessageType.{MessageType}

abbrev pub obfuscation_key : List ℕ
obfuscation_key = codes "Growatt"

abbrev pub device_id_len : ℕ
device_id_len = 30

abbrev pub body_offset : ℕ
body_offset = 38

abbrev pub crc_len : ℕ
crc_len = 2

abbrev pub min_frame_len : ℕ
min_frame_len = 40

abbrev pub default_transaction_id : ℕ
default_transaction_id = 1

pub data FrameError : Type 0 where
  too_short : ℕ → FrameError
  wrong_version : ℕ → FrameError
  -- declared, expected, actual
  bad_length : ℕ → ℕ → ℕ → FrameError
  -- carried, computed
  bad_crc : ℕ → ℕ → FrameError
  bad_device_id : FrameError
  device_id_too_long : ℕ → FrameError

-- `Frame`: the octets without the CRC, deobfuscated, and the device id without its padding.
pub record Frame : Type 0 where
  pub plain : List ℕ
  pub device_id : List ℕ

-- `region.iter_mut().zip(key.iter().cycle())` with `*octet ^= *key`: the last argument is what is
-- left of the key's current turn.
unfoldable pub xor_cycle : List ℕ → List ℕ → List ℕ → List ℕ
xor_cycle key [] turn = []
xor_cycle key (o ∷ os) (k ∷ ks) = bit_xor o k ∷ xor_cycle key os ks
xor_cycle [] (o ∷ os) [] = o ∷ os
xor_cycle (k ∷ ks) (o ∷ os) [] = bit_xor o k ∷ xor_cycle (k ∷ ks) os ks

-- `transform`
unfoldable pub transform : List ℕ → List ℕ
unfolding xor_cycle
transform p = elim (suffix? p header_len) [
  | none ↦ p
  | some region ↦ take header_len p ++ xor_cycle obfuscation_key region obfuscation_key
]

-- `device_id_from`: the checks on the octets before the padding, and the field they are taken from.
unfoldable pub checked_id : List ℕ → Result FrameError (List ℕ)
checked_id trimmed = do
  ensure (not (length trimmed == 0) && all is_ascii_graphic trimmed) bad_device_id
  ensure (is_utf8 trimmed) bad_device_id
  ok trimmed

unfoldable pub device_id_from : List ℕ → Result FrameError (List ℕ)
unfolding checked_id
device_id_from plain = do
  field ← ok_or (slice? plain header_len (header_len + device_id_len)) bad_device_id
  checked_id (take_while (λ b. not (b == 0)) field)

-- `Vec::resize`
unfoldable pub resize : ℕ → ℕ → List ℕ → List ℕ
resize n a xs = take n xs ++ replicate (n - length xs) a

-- `Frame::new`
unfoldable pub new : MessageType → List ℕ → List ℕ → Result FrameError Frame
new message_type device_id body = do
  ensure (leb (length device_id) device_id_len) (device_id_too_long (length device_id))
  ensure (all is_ascii_graphic device_id) bad_device_id
  let total = body_offset + length body + crc_len
  ensure (leb (total - header_len) u16_max) (bad_length 0 total total)
  let header : Header = record {
    transaction_id = default_transaction_id;
    protocol = v7;
    length = total - header_len;
    address = MessageType.address message_type;
    function = MessageType.function message_type;
  }
  ok (record {
    plain = resize body_offset 0 (to_bytes header ++ device_id) ++ body;
    device_id = device_id;
  })

-- `Frame::header`
unfoldable pub header : Frame → Header
header f = elim (peek f.plain) [
  | none ↦ record {
    transaction_id = default_transaction_id;
    protocol = v7;
    length = 0;
    address = 0;
    function = 0;
  }
  | some h ↦ h
]

-- `Frame::message_type`
unfoldable pub message_type : Frame → MessageType
unfolding header
message_type f = MessageType.from_parts (header f).address (header f).function

-- `Frame::body`
unfoldable pub body : Frame → List ℕ
body f = elim (suffix? f.plain body_offset) [ none ↦ [] | some b ↦ b ]

-- `Frame::wire_len`
unfoldable pub wire_len : Frame → ℕ
wire_len f = length f.plain + crc_len

-- `Frame::u16_at` and `Frame::bytes_at`
unfoldable pub u16_at : Frame → ℕ → Option Raw
u16_at f offset = word_at f.plain offset

unfoldable pub bytes_at : Frame → ℕ → ℕ → Option (List ℕ)
bytes_at f offset len = slice? f.plain offset (offset + len)

module _ (checksum : List ℕ → ℕ) where
  -- `Frame::parse`
  unfoldable pub parse : List ℕ → Result FrameError Frame
  parse wire = do
    ensure (leb min_frame_len (length wire)) (too_short (length wire))
    h ← ok_or (peek wire) (too_short (length wire))
    ensure (h.protocol == v7) (wrong_version h.protocol)
    ensure (length_matches h (length wire))
        (bad_length h.length (length wire - header_len) (length wire))
    let split = length wire - crc_len
    let covered = take split wire
    carried ← ok_or (word_at (drop split wire) 0) (too_short (length wire))
    ensure (carried == checksum covered) (bad_crc carried (checksum covered))
    device_id ← device_id_from (transform covered)
    ok (record { plain = transform covered; device_id = device_id })

  -- `Frame::to_wire`
  unfoldable pub to_wire : Frame → List ℕ
  to_wire f = let wire = transform f.plain in wire ++ be16 (checksum wire)
