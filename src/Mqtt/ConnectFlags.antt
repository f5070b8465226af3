-- ===== src/Mqtt/ConnectFlags.antt =====
-- The octet of CONNECT's flags: `ConnectFlags` of src/mqtt.rs.
use heliobridge.Base.{ℕ, ◌*◌, ◌/◌, Option, none, some}
use heliobridge.Base.Results.{Result}
use heliobridge.Mqtt.{CodecError, QoS, Will, Connect, qos_from_bits, qos_bits, set_bit_if, is_some}
use Prim.Native.Nat.{bit_and, bit_or}

abbrev pub clean_session_mask : ℕ
clean_session_mask = 0x02

abbrev pub will_mask : ℕ
will_mask = 0x04

abbrev pub will_retain_mask : ℕ
will_retain_mask = 0x20

abbrev pub password_mask : ℕ
password_mask = 0x40

abbrev pub username_mask : ℕ
username_mask = 0x80

-- `bits |= WILL; bits |= qos << WILL_QOS_SHIFT; if retain { bits |= WILL_RETAIN; }`
unfoldable pub with_will : Option Will → ℕ → ℕ
with_will none bits = bits
with_will (some w) bits =
    set_bit_if w.retain will_retain_mask (bit_or (bit_or bits will_mask) (qos_bits w.qos * 8))

-- `ConnectFlags::of`
unfoldable pub of : Connect → ℕ
of c = with_will c.will (
    set_bit_if c.clean_session clean_session_mask (
      set_bit_if (is_some c.password) password_mask
        (set_bit_if (is_some c.username) username_mask 0)))

unfoldable pub will_qos : ℕ → Result CodecError QoS
will_qos bits = qos_from_bits (bit_and (bits / 8) 0x03)
