-- ===== src/Mqtt/RoundTrip.antt =====
-- What src/mqtt.rs encodes is decoded to the same packet, and not before its last octet is there.
use heliobridge.Base.{
  refl, ◌≡◌, sym, ap, inl, inr, ℕ, zero, suc, ◌+◌, ◌-◌, ◌/◌, ◌<◌, true, false, none, some, List, [],
  ◌∷◌, ◌++◌, length, length-append, length-take, take-append_left, take-append_right, take,
  take-append, ltb, lt→ltb, le→ltb, ltb→lt, arith, Bool-cases,
}
use heliobridge.Base.Octets.{be16}
use heliobridge.Base.Results.{ok, ok-injective}
use heliobridge.Mqtt.{
  Packet, connect, conn_ack, publish, pub_ack, subscribe, sub_ack, ping_req, ping_resp, disconnect,
  has_bit,
}
use heliobridge.Mqtt.Flags.{publish_octet}
use heliobridge.Mqtt.Cursor.{write_varint}
use heliobridge.Mqtt.Varint.{read_varint-write_varint, read_varint-prefix}
use heliobridge.Mqtt.Bodies.{
  IsConnect, IsPublish, IsFilters, read_u16-be16, decode_connect-encode_connect,
  decode_publish-encode_publish, decode_subscribe-encode_subscribe,
}
use heliobridge.Mqtt.Codec.{
  max_remaining_len, decode_body, decode_rest, decode, first_and_body, encode,
}
use Prim.Native.Nat.{bit_and}
use mathlib.Core.List.{append_assoc}

-- A packet whose texts are UTF-8 and, like its other prefixed fields, no longer than 65535 octets,
-- and that has a packet identifier, if it is a PUBLISH, exactly at QoS 1.
abbrev pub IsPacket : Packet → Type 0
IsPacket (connect c) = IsConnect c
IsPacket (publish p) = IsPublish p
IsPacket (subscribe s) = IsFilters s.filters
IsPacket _ = Unit

decode_body-first_and_body :
    (p : Packet)
    → IsPacket p
    → decode_body
        ((first_and_body p).0 / 16)
        (bit_and (first_and_body p).0 0x0f)
        (first_and_body p).1
      ≡ ok p
unfolding decode_body first_and_body
decode_body-first_and_body (connect c) h = rw (decode_connect-encode_connect c h) refl
decode_body-first_and_body (publish p) h =
    let (q, r, d, k) = publish_octet p in rw (k, decode_publish-encode_publish p h) refl
decode_body-first_and_body (subscribe s) h = rw (decode_subscribe-encode_subscribe s h) refl
decode_body-first_and_body (conn_ack true code) h = unfold has_bit in refl
decode_body-first_and_body (conn_ack false code) h = unfold has_bit in refl
decode_body-first_and_body (pub_ack id) h = unfold be16 in rw (read_u16-be16 id []) refl
decode_body-first_and_body (sub_ack id granted) h =
    rw (read_u16-be16 id granted) (unfold be16 in refl)
decode_body-first_and_body ping_req h = refl
decode_body-first_and_body ping_resp h = refl
decode_body-first_and_body disconnect h = refl

-- The octets of a packet.
abbrev framed : ℕ → List ℕ → List ℕ
framed first body = first ∷ (write_varint (length body) ++ body)

decode-framed :
    (first : ℕ) (body rest : List ℕ) (p : Packet)
    → length body < 268435456
    → decode_body (first / 16) (bit_and first 0x0f) body ≡ ok p
    → decode (framed first body ++ rest) ≡ ok (some (p, length (framed first body)))
unfolding decode decode_rest
decode-framed first body rest p l h =
    let v = write_varint (length body) in
    let a = length-append v (body ++ rest) in
    let b = length-append body rest in
    let c = length-append v body in
    let enough : ltb (length (body ++ rest)) (length body) ≡ false = le→ltb _ _ (omega arith) in
    let d = length-append (v ++ body) rest in
    let used : suc (length ((v ++ body) ++ rest)) - length (body ++ rest) + length body
        ≡ suc (length (v ++ body)) =
      omega arith in
    rw
      (
        append_assoc v body rest,
        read_varint-write_varint (length body) (body ++ rest) l,
        enough,
        take-append body rest,
        h,
        used,
      )
      refl

decode-framed_prefix :
    (first : ℕ) (body : List ℕ) (n : ℕ)
    → length body < 268435456
    → n < length (framed first body)
    → decode (take n (framed first body)) ≡ ok none
unfolding decode decode_rest
decode-framed_prefix first body zero l h = refl
decode-framed_prefix first body (suc n) l h =
    let v = write_varint (length body) in
    let a = length-append v body in
    elim (Bool-cases (ltb n (length v))) [
      | inl e ↦
          rw
            (
              take-append_left n v body (ground arith),
              read_varint-prefix (length body) n l (ltb→lt _ _ e),
            )
            refl
      | inr e ↦
          let part = take (n - length v) body in
          let short : ltb (length part) (length body) ≡ true =
            lt→ltb _ _ (ground (arith, length-take (n - length v) body)) in
          rw
            (
              take-append_right n v body (ground arith),
              read_varint-write_varint (length body) part l,
              short,
            )
            refl
    ]

encode-eq_framed :
    (p : Packet) (octets : List ℕ)
    → encode p ≡ ok octets
    → (length (first_and_body p).1 < 268435456)
      × (octets ≡ framed (first_and_body p).0 (first_and_body p).1)
unfolding encode
encode-eq_framed p octets e =
    elim (Bool-cases (ltb max_remaining_len (length (first_and_body p).1))) [
      | inl l ↦ absurd (ground arith)
      | inr l ↦ (ground arith, sym (ok-injective (rw l at e)))
    ]

-- The octets that are encoded for a packet, with any octets after them, decode to that packet and
-- to their number, if the packet's texts and fields fit their prefixes, its texts are UTF-8, and a
-- PUBLISH has an identifier exactly at QoS 1.
pub decode-encode :
    (p : Packet) (octets rest : List ℕ)
    → IsPacket p
    → encode p ≡ ok octets
    → decode (octets ++ rest) ≡ ok (some (p, length octets))
decode-encode p octets rest h e =
    let (l, q) = encode-eq_framed p octets e in
    rw q (decode-framed _ _ rest p l (decode_body-first_and_body p h))

-- A proper prefix of the octets that are encoded for a packet, of whatever fields, decodes to no
-- packet and to no error: the stream is asked for more.
pub decode-prefix :
    (p : Packet) (octets : List ℕ) (n : ℕ)
    → encode p ≡ ok octets
    → n < length octets
    → decode (take n octets) ≡ ok none
decode-prefix p octets n e h =
    let (l, q) = encode-eq_framed p octets e in
    rw q (decode-framed_prefix _ _ n l (omega (arith, ap length q)))
