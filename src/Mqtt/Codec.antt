-- ===== src/Mqtt/Codec.antt =====
-- Packets to octets and back: `Packet::decode` and `Packet::encode` of src/mqtt.rs with the bodies
-- of CONNECT, PUBLISH and SUBSCRIBE. The warning on another protocol name is not modelled.
use heliobridge.Base.{
  ℕ, zero, suc, ◌+◌, ◌-◌, ◌/◌, Bool, true, false, Option, none, some, List, [], ◌∷◌, ◌++◌, String,
  length, take, drop, get_elem?, ltb, ◌==◌, if◌then◌else◌,
}
use heliobridge.Base.Octets.{be16}
use heliobridge.Base.Text.{codes, is_utf8}
use heliobridge.Base.Results.{Result, ok, err, ◌>>=◌, ◌>>◌, ensure, ok_or}
use heliobridge.Mqtt.{
  CodecError, truncated, not_utf8, unsupported_type, too_long, QoS, at_most_once, at_least_once,
  Will, Connect, Publish, Subscribe, Packet, connect, conn_ack, publish, pub_ack, subscribe,
  sub_ack, ping_req, ping_resp, disconnect, has_bit,
}
use heliobridge.Mqtt.ConnectFlags
use heliobridge.Mqtt.PublishFlags
use heliobridge.Mqtt.Cursor.{
  read_u8, read_u16, read_string, read_utf8_string, read_varint, write_bytes, write_varint,
}
use Prim.Native.Nat.{bit_and, bit_or}

abbrev pub max_remaining_len : ℕ
max_remaining_len = 268435455

-- A field that is there only if its flag is set.
abbrev pub read_if :
    {A : Type 0}
    → Bool
    → Result CodecError (A × List ℕ)
    → List ℕ
    → Result CodecError (Option A × List ℕ)
read_if false read buf = ok (none, buf)
read_if true read buf = read >>= λ (a, rest). ok (some a, rest)

abbrev pub read_field : String → String → List ℕ → Result CodecError (List ℕ × List ℕ)
read_field kind field buf = ok_or (read_string buf) (truncated kind field)

-- The will of `Connect::decode`
unfoldable pub read_will : ℕ → List ℕ → Result CodecError (Will × List ℕ)
read_will flags buf = do
  (topic, after_topic) ← read_utf8_string "will topic" buf
  (payload, rest) ← read_field "CONNECT" "will message" after_topic
  qos ← ConnectFlags.will_qos flags
  ok (
    record {
      topic = topic;
      payload = payload;
      qos = qos;
      retain = has_bit flags ConnectFlags.will_retain_mask;
    },
    rest,
  )

-- `Connect::decode`
unfoldable pub decode_connect : List ℕ → Result CodecError Connect
decode_connect body = do
  (name, b1) ← read_field "CONNECT" "protocol name" body
  ensure (is_utf8 name) (not_utf8 "protocol name")
  (protocol_level, b2) ← ok_or (read_u8 b1) (truncated "CONNECT" "protocol level")
  (flags, b3) ← ok_or (read_u8 b2) (truncated "CONNECT" "connect flags")
  (keepalive, b4) ← ok_or (read_u16 b3) (truncated "CONNECT" "keepalive")
  (client_id, b5) ← read_utf8_string "client identifier" b4
  (will, b6) ← read_if (has_bit flags ConnectFlags.will_mask) (read_will flags b5) b5
  (username, b7) ←
      read_if (has_bit flags ConnectFlags.username_mask) (read_utf8_string "username" b6) b6
  (password, b8) ←
      read_if (has_bit flags ConnectFlags.password_mask) (read_field "CONNECT" "password" b7) b7
  ok (record {
    protocol_level = protocol_level;
    client_id = client_id;
    username = username;
    password = password;
    keepalive = keepalive;
    clean_session = has_bit flags ConnectFlags.clean_session_mask;
    will = will;
  })

-- `if let Some(value) = field { writer.bytes(value); }`
abbrev pub write_if : Option (List ℕ) → List ℕ
write_if none = []
write_if (some value) = write_bytes value

abbrev pub write_will : Option Will → List ℕ
write_will none = []
write_will (some w) = write_bytes w.topic ++ write_bytes w.payload

abbrev pub protocol_name : List ℕ
protocol_name = codes "MQTT"

-- `Connect::encode_body`
unfoldable pub encode_connect : Connect → List ℕ
encode_connect c =
    write_bytes protocol_name
    ++ (c.protocol_level
        ∷ (ConnectFlags.of c
            ∷ (be16 c.keepalive
                ++ (write_bytes c.client_id
                    ++ (write_will c.will ++ (write_if c.username ++ write_if c.password))))))

-- The packet identifier of `Publish::decode`: there is one unless the message is sent but once.
abbrev pub read_packet_id : QoS → List ℕ → Result CodecError (Option ℕ × List ℕ)
read_packet_id at_most_once buf = ok (none, buf)
read_packet_id at_least_once buf = do
  (id, rest) ← ok_or (read_u16 buf) (truncated "PUBLISH" "packet identifier")
  ok (some id, rest)

-- `Publish::decode`
unfoldable pub decode_publish : List ℕ → ℕ → Result CodecError Publish
decode_publish body flags = do
  qos ← PublishFlags.qos flags
  (topic, b1) ← read_utf8_string "topic" body
  (packet_id, b2) ← read_packet_id qos b1
  ok (record {
    topic = topic;
    qos = qos;
    retain = has_bit flags PublishFlags.retain_mask;
    dup = has_bit flags PublishFlags.dup_mask;
    packet_id = packet_id;
    payload = b2;
  })

abbrev pub write_packet_id : QoS → Option ℕ → List ℕ
write_packet_id at_most_once id = []
write_packet_id at_least_once none = be16 1
write_packet_id at_least_once (some id) = be16 id

-- `Publish::encode_body`
unfoldable pub encode_publish : Publish → List ℕ
encode_publish p = write_bytes p.topic ++ (write_packet_id p.qos p.packet_id ++ p.payload)

-- The loop of `Subscribe::decode`, on fuel: a turn consumes at least three octets.
unfoldable pub read_filters : ℕ → List ℕ → Result CodecError (List (List ℕ × ℕ))
read_filters fuel [] = ok []
read_filters zero (b ∷ buf) = ok []
read_filters (suc fuel) (b ∷ buf) = do
  (filter, b1) ← read_utf8_string "topic filter" (b ∷ buf)
  (qos, b2) ← ok_or (read_u8 b1) (truncated "SUBSCRIBE" "requested QoS")
  rest ← read_filters fuel b2
  ok ((filter, qos) ∷ rest)

-- `Subscribe::decode`
unfoldable pub decode_subscribe : List ℕ → Result CodecError Subscribe
decode_subscribe body = do
  (packet_id, b1) ← ok_or (read_u16 body) (truncated "SUBSCRIBE" "packet identifier")
  filters ← read_filters (length b1) b1
  ok (record { packet_id = packet_id; filters = filters })

abbrev pub write_filters : List (List ℕ × ℕ) → List ℕ
write_filters [] = []
write_filters ((filter, qos) ∷ rest) = write_bytes filter ++ (qos ∷ write_filters rest)

-- `Subscribe::encode_body`
unfoldable pub encode_subscribe : Subscribe → List ℕ
encode_subscribe s = be16 s.packet_id ++ write_filters s.filters

-- `body.first().copied().unwrap_or(0)`
abbrev first_or_zero : List ℕ → ℕ
first_or_zero [] = 0
first_or_zero (b ∷ body) = b

-- The `packet_id_of` of `Packet::decode`
abbrev packet_id_of : String → List ℕ → Result CodecError ℕ
packet_id_of kind body =
    ok_or (read_u16 body) (truncated kind "packet identifier") >>= λ (id, rest). ok id

abbrev decode_conn_ack : List ℕ → Result CodecError Packet
decode_conn_ack body = do
  code ← ok_or (get_elem? body 1) (truncated "CONNACK" "return code")
  ok (conn_ack (has_bit (first_or_zero body) 0x01) code)

-- The match of `Packet::decode` on the packet's type.
unfoldable pub decode_body : ℕ → ℕ → List ℕ → Result CodecError Packet
decode_body kind flags body =
    if kind == 1
    then (decode_connect body >>= λ c. ok (connect c))
    else if kind == 2
    then decode_conn_ack body
    else if kind == 3
    then (decode_publish body flags >>= λ p. ok (publish p))
    else if kind == 4
    then (packet_id_of "PUBACK" body >>= λ id. ok (pub_ack id))
    else if kind == 8
    then (decode_subscribe body >>= λ s. ok (subscribe s))
    else if kind == 9
    then (packet_id_of "SUBACK" body >>= λ id. ok (sub_ack id (drop 2 body)))
    else if kind == 12
    then ok ping_req
    else if kind == 13
    then ok ping_resp
    else if kind == 14
    then ok disconnect
    else err (unsupported_type kind)

-- What `Packet::decode` does once the remaining length is read: `rest` is what follows the header.
unfoldable pub decode_rest : ℕ → ℕ → ℕ → List ℕ → Result CodecError (Option (Packet × ℕ))
decode_rest first header_len remaining rest =
    if ltb (length rest) remaining
    then ok none
    else decode_body (first / 16) (bit_and first 0x0f) (take remaining rest) >>= λ packet.
        ok (some (packet, header_len + remaining))

-- `Packet::decode`
unfoldable pub decode : List ℕ → Result CodecError (Option (Packet × ℕ))
decode [] = ok none
decode (first ∷ buf) = read_varint buf >>= λ v. elim v [
  | none ↦ ok none
  | some (remaining, rest) ↦ decode_rest first (suc (length buf) - length rest) remaining rest
]

abbrev pub from_device : Packet × ℕ → Result CodecError (Option (Packet × ℕ))
from_device (conn_ack session_present code, used) = err (unsupported_type 2)
from_device (sub_ack packet_id granted, used) = err (unsupported_type 9)
from_device (ping_resp, used) = err (unsupported_type 13)
from_device (packet, used) = ok (some (packet, used))

-- `Packet::decode_from_device`
unfoldable pub decode_from_device : List ℕ → Result CodecError (Option (Packet × ℕ))
decode_from_device buf = decode buf >>= λ v. elim v [ none ↦ ok none | some p ↦ from_device p ]

abbrev pub bit : Bool → ℕ
bit false = 0
bit true = 1

-- The first octet and the body of `Packet::encode`.
unfoldable pub first_and_body : Packet → ℕ × List ℕ
first_and_body (conn_ack session_present code) = (0x20, bit session_present ∷ code ∷ [])
first_and_body (pub_ack packet_id) = (0x40, be16 packet_id)
first_and_body (sub_ack packet_id granted) = (0x90, be16 packet_id ++ granted)
first_and_body ping_resp = (0xd0, [])
first_and_body (publish p) = (bit_or 0x30 (PublishFlags.of p), encode_publish p)
first_and_body disconnect = (0xe0, [])
first_and_body ping_req = (0xc0, [])
first_and_body (connect c) = (0x10, encode_connect c)
first_and_body (subscribe s) = (0x82, encode_subscribe s)

-- `Packet::encode`
unfoldable pub encode : Packet → Result CodecError (List ℕ)
encode packet =
    let (first, body) = first_and_body packet in
    if ltb max_remaining_len (length body)
    then err (too_long (length body))
    else ok (first ∷ (write_varint (length body) ++ body))
