-- ===== src/Mqtt.antt =====
-- src/mqtt.rs: the MQTT 3.1.1 packets that the device and the brokers exchange, and their flags.
-- Text is the list of its octets.
pub mod ConnectFlags
pub mod PublishFlags
pub mod Cursor
pub mod Codec
pub mod Varint
pub mod Fuel
pub mod Stream
pub mod RoundTrip
pub mod Bodies
pub mod Flags
use heliobridge.Base.{
  refl, ◌≡◌, ℕ, zero, suc, ◌+◌, ◌*◌, ◌/◌, Bool, true, false, not, Option, none, some, List, String,
  ◌==◌, if◌then◌else◌,
}
use heliobridge.Base.Results.{Result, ok, err}
use Prim.Native.Nat.{bit_and, bit_or}

pub data CodecError : Type 0 where
  -- kind, field
  truncated : String → String → CodecError
  not_utf8 : String → CodecError
  unsupported_type : ℕ → CodecError
  unsupported_qos : ℕ → CodecError
  malformed_length : CodecError
  too_long : ℕ → CodecError

pub data QoS : Type 0 where
  at_most_once at_least_once : QoS

-- `QoS::from_bits` and `QoS::bits`
unfoldable pub qos_from_bits : ℕ → Result CodecError QoS
qos_from_bits zero = ok at_most_once
qos_from_bits (suc zero) = ok at_least_once
qos_from_bits bits = err (unsupported_qos bits)

unfoldable pub qos_bits : QoS → ℕ
qos_bits at_most_once = 0
qos_bits at_least_once = 1

pub record Will : Type 0 where
  pub topic : List ℕ
  pub payload : List ℕ
  pub qos : QoS
  pub retain : Bool

pub record Connect : Type 0 where
  pub protocol_level : ℕ
  pub client_id : List ℕ
  pub username : Option (List ℕ)
  pub password : Option (List ℕ)
  pub keepalive : ℕ
  pub clean_session : Bool
  pub will : Option Will

pub record Publish : Type 0 where
  pub topic : List ℕ
  pub qos : QoS
  pub retain : Bool
  pub dup : Bool
  pub packet_id : Option ℕ
  pub payload : List ℕ

pub record Subscribe : Type 0 where
  pub packet_id : ℕ
  -- the topic filters and the QoS asked for
  pub filters : List (List ℕ × ℕ)

pub data Packet : Type 0 where
  connect : Connect → Packet
  -- session_present, code
  conn_ack : Bool → ℕ → Packet
  publish : Publish → Packet
  pub_ack : ℕ → Packet
  subscribe : Subscribe → Packet
  -- packet_id, granted
  sub_ack : ℕ → List ℕ → Packet
  ping_req ping_resp disconnect : Packet

-- `bits & mask != 0`
unfoldable pub has_bit : ℕ → ℕ → Bool
has_bit bits mask = not (bit_and bits mask == 0)

-- `if test { bits |= mask; }`
unfoldable pub set_bit_if : Bool → ℕ → ℕ → ℕ
set_bit_if test mask bits = if test then bit_or bits mask else bits

abbrev pub is_some : {A : Type 0} → Option A → Bool
is_some none = false
is_some (some a) = true
