-- ===== src/Growatt/Decode.antt =====
-- src/growatt/v7/decode.rs: answers, acknowledgements, config writes and settings snapshots. The
-- readings of a telemetry frame are scaled by floating point and are not modelled.
pub mod Config
pub mod Snapshot
pub mod Answers
pub mod Clock
use heliobridge.Base.{
  refl, ◌≡◌, ℕ, zero, suc, ◌+◌, ◌-◌, ◌*◌, Bool, true, false, not, ◌&&◌, ◌||◌, Option, none, some,
  List, [], ◌∷◌, ◌++◌, String, length, get_elem?, slice?, max, leb, ltb, ◌==◌, if◌then◌else◌,
  take_while,
}
use heliobridge.Base.Octets.{word_at}
use heliobridge.Base.Text.Lossy.{from_utf8_lossy, trim_end_nul}
use heliobridge.Base.Results.{Result, ok, err, ◌>>=◌, ◌>>◌, ensure, ok_or}
use heliobridge.Model.{Register, Raw}
use heliobridge.Growatt.MessageType.{
  MessageType, MessageType-discrete, read_single_register, write_single_register,
  write_register_range, config_write, settings_snapshot,
}
use heliobridge.Growatt.Frame
use heliobridge.Growatt.Frame.{Frame, message_type, u16_at, wire_len}
use heliobridge.Growatt.Registers

pub data DecodeError : Type 0 where
  -- expected, actual
  wrong_message_type : MessageType → MessageType → DecodeError
  -- the field, its offset and end, and the octets there are
  truncated : String → ℕ → ℕ → ℕ → DecodeError
  range : Register → Register → DecodeError
  not_ascii : String → ℕ → DecodeError
  mismatched_echo : Register → Register → DecodeError

-- The closures `field`, `at` and `pair` over a body: the word at an offset, or what is missing.
unfoldable pub word_field : List ℕ → ℕ → String → Result DecodeError ℕ
word_field body offset field =
    ok_or (word_at body offset) (truncated field offset (offset + 2) (length body))

-- The closure `octet`
unfoldable pub octet_field : List ℕ → ℕ → String → Result DecodeError ℕ
octet_field body offset field =
    ok_or (get_elem? body offset) (truncated field offset (offset + 1) (length body))

unfoldable pub is_type : MessageType → MessageType → Bool
is_type a b = elim (MessageType-discrete a b) [ yes p ↦ true | no n ↦ false ]

pub is_type_refl : (a : MessageType) → is_type a a ≡ true
unfolding is_type
is_type_refl a =
    elim (MessageType-discrete a a) as (λ d. elim d [ yes p ↦ true | no n ↦ false ] ≡ true) [
      | yes p ↦ refl
      | no n ↦ absurd (n refl)
    ]

pub is_type-eq : (a b : MessageType) → is_type a b ≡ true → a ≡ b
unfolding is_type
is_type-eq a b h =
    (elim (MessageType-discrete a b)
        as (λ d. elim d [ yes p ↦ true | no n ↦ false ] ≡ true → a ≡ b) [
          | yes p ↦ λ _. p
          | no n ↦ λ q. cc
        ])
      h

pub record ReadResponse : Type 0 where
  pub register : Register
  pub raw : Raw

-- `ReadResponse::from_frame`, over the frame's type and body.
unfoldable pub read_body : List ℕ → Result DecodeError ReadResponse
read_body body = do
  register ← word_field body 0 "register"
  echoed ← word_field body 2 "register echo"
  raw ← word_field body 4 "value"
  ensure (register == echoed) (mismatched_echo register echoed)
  ok (record { register = register; raw = raw })

unfoldable pub read_response : Frame → Result DecodeError ReadResponse
read_response f = do
  ensure (is_type (message_type f) read_single_register)
      (wrong_message_type read_single_register (message_type f))
  read_body (Frame.body f)

pub record WriteAck : Type 0 where
  pub start : Register
  pub end : Register
  pub status : ℕ
  pub value : Option Raw

-- `WriteAck::accepted`
unfoldable pub accepted : WriteAck → Bool
accepted a = a.status == 0

-- The two layouts of `WriteAck::from_frame`.
unfoldable pub single_ack : List ℕ → Result DecodeError WriteAck
single_ack body = do
  register ← word_field body 0 "register"
  status ← octet_field body 2 "status"
  value ← word_field body 3 "value"
  ok (record { start = register; end = register; status = status; value = some value })

unfoldable pub range_ack : List ℕ → Result DecodeError WriteAck
range_ack body = do
  start ← word_field body 0 "start register"
  end ← word_field body 2 "end register"
  status ← octet_field body 4 "status"
  ok (record { start = start; end = end; status = status; value = none })

ack_body : MessageType → List ℕ → Result DecodeError WriteAck
ack_body write_single_register body = single_ack body
ack_body write_register_range body = range_ack body
ack_body actual body = err (wrong_message_type write_single_register actual)

-- `WriteAck::from_frame`
unfoldable pub write_ack : Frame → Result DecodeError WriteAck
unfolding ack_body
write_ack f = ack_body (message_type f) (Frame.body f)

-- `WriteAck::from_read_coded`: an acknowledgement under the code of a read, told by its length.
unfoldable pub ack_of_read : List ℕ → Option WriteAck
ack_of_read body =
    if not (length body == 5) then none else elim (single_ack body) [ ok a ↦ some a | err e ↦ none ]

unfoldable pub from_read_coded : Frame → Option WriteAck
from_read_coded f =
    if not (is_type (message_type f) read_single_register) then none else ack_of_read (Frame.body f)

pub record ConfigAssignment : Type 0 where
  pub register : Register
  pub value : List ℕ

-- The loop of `ConfigWrite::from_frame`: `at` is the offset of the next entry.
unfoldable pub config_entries : ℕ → List ℕ → ℕ → Result DecodeError (List ConfigAssignment)
config_entries zero body at = ok []
config_entries (suc count) body at = do
  entry_len ← word_field body at "entry length"
  register ← word_field body (at + 2) "register"
  value_len ← word_field body (at + 4) "value length"
  raw ←
      ok_or (slice? body (at + 6) (at + 6 + value_len))
        (truncated "value" (at + 6) (at + 6 + value_len) (length body))
  rest ← config_entries count body (at + 2 + max entry_len (value_len + 4))
  ok (record { register = register; value = trim_end_nul (from_utf8_lossy raw) } ∷ rest)

-- `ConfigWrite::from_frame`
unfoldable pub config_write_body : List ℕ → Result DecodeError (List ConfigAssignment)
config_write_body body = do count ← word_field body 0 "count"; config_entries count body 2

unfoldable pub config_write_of : Frame → Result DecodeError (List ConfigAssignment)
config_write_of f = do
  ensure (is_type (message_type f) config_write) (wrong_message_type config_write (message_type f))
  config_write_body (Frame.body f)

pub record SettingsSnapshot : Type 0 where
  pub start : Register
  pub end : Register
  pub values : List (Register × Raw)

abbrev pub snapshot_start_offset : ℕ
snapshot_start_offset = 583

abbrev pub snapshot_end_offset : ℕ
snapshot_end_offset = 585

abbrev pub snapshot_block_offset : ℕ
snapshot_block_offset = 587

-- A turn of that loop: a register with no entry is skipped, and so is one past the frame's end.
abbrev pub keep_known :
    Option Registers.HoldingRegister
    → Option Raw
    → Register
    → List (Register × Raw)
    → List (Register × Raw)
keep_known none word register rest = rest
keep_known (some e) none register rest = rest
keep_known (some e) (some raw) register rest = (register, raw) ∷ rest

-- The loop of `SettingsSnapshot::from_frame` over `start..=end`: `count` registers from the
-- `index`-th on, known ones only, as far as the frame reaches.
unfoldable pub snapshot_values : Frame → Register → ℕ → ℕ → List (Register × Raw)
snapshot_values f start zero index = []
snapshot_values f start (suc count) index =
    let rest = snapshot_values f start count (index + 1) in
    keep_known (Registers.lookup (start + index)) (u16_at f (snapshot_block_offset + index * 2))
      (start + index) rest

abbrev pub snapshot_word : Frame → ℕ → String → Result DecodeError ℕ
snapshot_word f offset field =
    ok_or (u16_at f offset) (truncated field offset (offset + 2) (wire_len f))

-- `SettingsSnapshot::from_frame`
unfoldable pub settings_snapshot_of : Frame → Result DecodeError SettingsSnapshot
settings_snapshot_of f = do
  ensure (is_type (message_type f) settings_snapshot)
      (wrong_message_type settings_snapshot (message_type f))
  start ← snapshot_word f snapshot_start_offset "snapshot start"
  end ← snapshot_word f snapshot_end_offset "snapshot end"
  ensure (leb start end) (range start end)
  ok (record { start = start; end = end; values = snapshot_values f start (end - start + 1) 0 })
