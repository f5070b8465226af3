-- ===== src/Mqtt/PublishFlags.antt =====
-- The flags of a PUBLISH, in the low half of its first octet: `PublishFlags` of src/mqtt.rs.
use heliobridge.Base.{ℕ, ◌*◌, ◌/◌}
use heliobridge.Base.Results.{Result}
use heliobridge.Mqtt.{CodecError, QoS, Publish, qos_from_bits, qos_bits, set_bit_if}
use Prim.Native.Nat.{bit_and}

abbrev pub retain_mask : ℕ
retain_mask = 0x01

abbrev pub dup_mask : ℕ
dup_mask = 0x08

unfoldable pub of : Publish → ℕ
of p = set_bit_if p.dup dup_mask (set_bit_if p.retain retain_mask (qos_bits p.qos * 2))

unfoldable pub qos : ℕ → Result CodecError QoS
qos bits = qos_from_bits (bit_and (bits / 2) 0x03)
