-- ===== src/Tests/Packets.antt =====
-- Packets of src/mqtt.rs and records of src/record.rs on concrete octets.
use heliobridge.Base.{
  refl, ◌≡◌, ℕ, ◌<◌, List, [], ◌∷◌, ◌++◌, some, none, take, length, arith, false,
}
use heliobridge.Base.Octets.{be16, clamp_u16}
use heliobridge.Base.Text.{is_utf8}
use heliobridge.Base.Results.{ok}
use heliobridge.Mqtt.{Packet, publish, at_least_once, set_bit_if, qos_bits}
use heliobridge.Mqtt.PublishFlags
use heliobridge.Mqtt.Cursor.{read_varint, write_varint, write_varint_for, write_bytes}
use heliobridge.Mqtt.Codec.{read_filters, decode, encode, first_and_body, encode_publish}
use heliobridge.Mqtt.Varint.{read_varint-prefix}
use heliobridge.Mqtt.Fuel.{read_filters-fuel}
use heliobridge.Mqtt.RoundTrip.{IsPacket, decode-encode, decode-prefix}
use heliobridge.Mqtt.Stream.{PacketStream, Yields, next_packet, next_packet-encode}
use heliobridge.Recorder
use heliobridge.Recorder.{Record}
use heliobridge.Recorder.RoundTrip.{decode-encode_record}

-- One octet on the topic `s`, to be acknowledged as 7.
abbrev message : Packet
message = publish (record {
  topic = 0x73 ∷ [];
  qos = at_least_once;
  retain = false;
  dup = false;
  packet_id = some 7;
  payload = 5 ∷ [];
})

abbrev octets : List ℕ
octets = 0x32 ∷ (6 ∷ (0 ∷ (1 ∷ (0x73 ∷ (0 ∷ (7 ∷ (5 ∷ [])))))))

encoded : encode message ≡ ok octets
unfolding encode first_and_body encode_publish write_bytes be16 PublishFlags.of write_varint
    set_bit_if write_varint_for qos_bits clamp_u16
encoded = refl

message-IsPacket : IsPacket message
message-IsPacket = ((omega arith, unfold is_utf8 in refl), refl)

decode-encode_example : decode (octets ++ (0xc0 ∷ [])) ≡ ok (some (message, 8))
decode-encode_example = decode-encode message octets (0xc0 ∷ []) message-IsPacket encoded

decode-prefix_example : decode (take 4 octets) ≡ ok none
decode-prefix_example = decode-prefix message octets 4 encoded (omega arith)

-- The message in three reads, with a PINGREQ behind it.
abbrev cut : PacketStream
cut = record {
  buf = 0x32 ∷ (6 ∷ []);
  chunks = (0 ∷ (1 ∷ (0x73 ∷ []))) ∷ ((0 ∷ []) ∷ ((7 ∷ (5 ∷ (0xc0 ∷ []))) ∷ ((0 ∷ []) ∷ [])));
}

next_packet-encode_example : Yields message (0xc0 ∷ (0 ∷ [])) (next_packet 64 cut)
next_packet-encode_example =
    next_packet-encode 64 cut message octets (0xc0 ∷ (0 ∷ [])) message-IsPacket encoded
      (omega arith) (omega arith) refl

long : 1 < length (write_varint 321)
unfolding write_varint write_varint_for
long = omega arith

read_varint-prefix_example : read_varint (take 1 (write_varint 321)) ≡ ok none
read_varint-prefix_example = read_varint-prefix 321 1 (omega arith) long

abbrev recorded : Record
recorded = record { stream = Recorder.inject; micros = 1700000000000000; payload = 1 ∷ (2 ∷ []) }

decode-encode_record_example :
    Recorder.decode (Recorder.encode recorded ++ (0x48 ∷ []))
    ≡ some (recorded, length (Recorder.encode recorded))
decode-encode_record_example = decode-encode_record recorded (0x48 ∷ []) (omega arith) (omega arith)

abbrev filter_octets : List ℕ
filter_octets = 0 ∷ (1 ∷ (0x73 ∷ (1 ∷ [])))

read_filters-fuel_example : read_filters 9 filter_octets ≡ read_filters 4 filter_octets
read_filters-fuel_example = read_filters-fuel 9 filter_octets (omega arith)
