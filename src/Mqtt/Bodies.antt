-- ===== src/Mqtt/Bodies.antt =====
-- The fields and bodies of src/mqtt.rs, read back from the octets that are written for them.
use heliobridge.Base.{
  refl, ◌≡◌, ap, ℕ, zero, suc, ◌≤◌, Bool, true, false, Option, none, some, List, [], ◌∷◌, ◌++◌,
  String, length, length-append, take-append, drop-append, leb, le→leb, arith,
}
use heliobridge.Base.Octets.{be16, word-be16, clamp_u16}
use heliobridge.Base.Text.{is_utf8}
use heliobridge.Base.Results.{ok, ◌>>=◌, ok_or}
use heliobridge.Mqtt.{
  QoS, at_most_once, at_least_once, Will, Connect, Publish, Subscribe, is_some, truncated,
}
use heliobridge.Mqtt.ConnectFlags
use heliobridge.Mqtt.PublishFlags
use heliobridge.Mqtt.Flags.{IsWill, of-IsFlags, publish_octet}
use heliobridge.Mqtt.Cursor.{read_u8, read_u16, read_string, read_utf8_string, write_bytes}
use heliobridge.Mqtt.Codec.{
  read_if, read_field, read_will, decode_connect, write_if, write_will, protocol_name,
  encode_connect, read_packet_id, decode_publish, write_packet_id, encode_publish, read_filters,
  decode_subscribe, write_filters, encode_subscribe,
}
use Prim.Native.Nat.{bit_and, bit_or}
use mathlib.Core.List.{append_assoc}

-- Octets that a length prefix can announce, and text among them.
abbrev pub IsBlob : List ℕ → Type 0
IsBlob s = length s ≤ 65535

abbrev pub IsText : List ℕ → Type 0
IsText s = IsBlob s × (is_utf8 s ≡ true)

pub read_u16-be16 : (n : ℕ) (rest : List ℕ) → read_u16 (be16 n ++ rest) ≡ some (n, rest)
unfolding read_u16 be16
read_u16-be16 n rest = ap (λ w. some (w, rest)) (word-be16 n)

pub read_string-write_bytes :
    (s rest : List ℕ) → IsBlob s → read_string (write_bytes s ++ rest) ≡ some (s, rest)
unfolding read_string write_bytes read_u16 be16 clamp_u16
read_string-write_bytes s rest h =
    let n = word-be16 (length s) in
    let c : clamp_u16 (length s) ≡ length s = ground arith in
    let l : leb (length s) (length (s ++ rest)) ≡ true =
      le→leb _ _ (omega (arith, length-append s rest)) in
    rw (c, n, l, take-append s rest, drop-append s rest) refl

pub read_utf8_string-write_bytes :
    (field : String) (s rest : List ℕ)
    → IsText s
    → read_utf8_string field (write_bytes s ++ rest) ≡ ok (s, rest)
unfolding read_utf8_string
read_utf8_string-write_bytes field s rest (h, u) = rw (read_string-write_bytes s rest h, u) refl

read_will-write_will :
    (flags : ℕ) (w : Will) (rest : List ℕ)
    → IsWill flags (some w)
    → IsText w.topic
    → IsBlob w.payload
    → read_will flags (write_will (some w) ++ rest) ≡ ok (w, rest)
unfolding read_will
read_will-write_will flags w rest (r, q) t p =
    rw
      (
        append_assoc (write_bytes w.topic) (write_bytes w.payload) rest,
        read_utf8_string-write_bytes "will topic" w.topic (write_bytes w.payload ++ rest) t,
        read_string-write_bytes w.payload rest p,
        q,
        r,
      )
      refl

-- The optional fields of a CONNECT are texts and octets that fit their prefixes.
abbrev pub IsField : (List ℕ → Type 0) → Option (List ℕ) → Type 0
IsField P none = Unit
IsField P (some s) = P s

abbrev pub IsWillText : Option Will → Type 0
IsWillText none = Unit
IsWillText (some w) = IsText w.topic × IsBlob w.payload

abbrev pub IsConnect : Connect → Type 0
IsConnect c =
    IsText c.client_id × IsWillText c.will × IsField IsText c.username × IsField IsBlob c.password

append_nil : {A : Type 0} (xs : List A) → xs ++ [] ≡ xs
append_nil [] = refl
append_nil (x ∷ xs) = ap (λ ys. x ∷ ys) (append_nil xs)

read_will_if :
    (flags : ℕ) (w : Option Will) (rest : List ℕ)
    → IsWill flags w
    → IsWillText w
    → read_if (is_some w) (read_will flags (write_will w ++ rest)) (write_will w ++ rest)
      ≡ ok (w, rest)
read_will_if flags none rest h k = refl
read_will_if flags (some w) rest h (t, p) = rw (read_will-write_will flags w rest h t p) refl

read_text_if :
    (field : String) (o : Option (List ℕ)) (rest : List ℕ)
    → IsField IsText o
    → read_if (is_some o) (read_utf8_string field (write_if o ++ rest)) (write_if o ++ rest)
      ≡ ok (o, rest)
read_text_if field none rest h = refl
read_text_if field (some s) rest h = rw (read_utf8_string-write_bytes field s rest h) refl

read_blob_if :
    (kind field : String) (o : Option (List ℕ))
    → IsField IsBlob o
    → read_if (is_some o) (read_field kind field (write_if o)) (write_if o) ≡ ok (o, [])
read_blob_if kind field none h = refl
read_blob_if kind field (some s) h =
    let e : read_string (write_bytes s) ≡ some (s, []) =
      rw (append_nil (write_bytes s)) at (read_string-write_bytes s [] h) in
    rw e refl

pub decode_connect-encode_connect :
    (c : Connect) → IsConnect c → decode_connect (encode_connect c) ≡ ok c
unfolding decode_connect encode_connect is_utf8 read_u8
decode_connect-encode_connect c (i, w, u, p) =
    let ((fu, fp, fk, fw), f) = of-IsFlags c in
    let flags = ConnectFlags.of c in
    let b7 = write_if c.password in
    let b6 = write_if c.username ++ b7 in
    let b5 = write_will c.will ++ b6 in
    let b4 = write_bytes c.client_id ++ b5 in
    let b1 = c.protocol_level ∷ (flags ∷ (be16 c.keepalive ++ b4)) in
    rw
      (
        read_string-write_bytes protocol_name b1 (omega arith),
        read_u16-be16 c.keepalive b4,
        read_utf8_string-write_bytes "client identifier" c.client_id b5 i,
        fw,
        fu,
        fp,
        fk,
        read_will_if flags c.will b6 f w,
        read_text_if "username" c.username b7 u,
        read_blob_if "CONNECT" "password" c.password p,
      )
      refl

abbrev pub acknowledged : QoS → Bool
acknowledged at_most_once = false
acknowledged at_least_once = true

-- A PUBLISH has a packet identifier exactly if it is acknowledged.
abbrev pub IsPublish : Publish → Type 0
IsPublish p = IsText p.topic × (is_some p.packet_id ≡ acknowledged p.qos)

read_packet_id-write_packet_id :
    (q : QoS) (id : Option ℕ) (rest : List ℕ)
    → is_some id ≡ acknowledged q
    → read_packet_id q (write_packet_id q id ++ rest) ≡ ok (id, rest)
read_packet_id-write_packet_id at_most_once none rest h = refl
read_packet_id-write_packet_id at_most_once (some id) rest h = cc
read_packet_id-write_packet_id at_least_once none rest h = cc
read_packet_id-write_packet_id at_least_once (some id) rest h = rw (read_u16-be16 id rest) refl

pub decode_publish-encode_publish :
    (p : Publish)
    → IsPublish p
    → decode_publish (encode_publish p) (bit_and (bit_or 0x30 (PublishFlags.of p)) 0x0f) ≡ ok p
unfolding decode_publish encode_publish
decode_publish-encode_publish p (t, i) =
    let (q, r, d, k) = publish_octet p in
    rw
      (
        q,
        read_utf8_string-write_bytes "topic" p.topic
            (write_packet_id p.qos p.packet_id ++ p.payload) t,
        read_packet_id-write_packet_id p.qos p.packet_id p.payload i,
        r,
        d,
      )
      refl

abbrev pub IsFilters : List (List ℕ × ℕ) → Type 0
IsFilters [] = Unit
IsFilters ((filter, qos) ∷ rest) = IsText filter × IsFilters rest

filters_turn :
    (fuel : ℕ) (filter rest : List ℕ)
    → read_filters (suc fuel) (write_bytes filter ++ rest) ≡ (do
      (f, b1) ← read_utf8_string "topic filter" (write_bytes filter ++ rest)
      (qos, b2) ← ok_or (read_u8 b1) (truncated "SUBSCRIBE" "requested QoS")
      more ← read_filters fuel b2
      ok ((f, qos) ∷ more))
unfolding read_filters write_bytes be16
filters_turn fuel filter rest = refl

read_filters-write_filters :
    (fuel : ℕ) (fs : List (List ℕ × ℕ))
    → length (write_filters fs) ≤ fuel
    → IsFilters fs
    → read_filters fuel (write_filters fs) ≡ ok fs
unfolding read_filters read_u8
read_filters-write_filters fuel [] l h = refl
read_filters-write_filters zero ((filter, qos) ∷ fs) l h =
    absurd (omega (arith, length-append (write_bytes filter) (qos ∷ write_filters fs)))
read_filters-write_filters (suc fuel) ((filter, qos) ∷ fs) l (t, h) =
    let m = length-append (write_bytes filter) (qos ∷ write_filters fs) in
    let rest = read_filters-write_filters fuel fs (omega arith) h in
    rw
      (
        filters_turn fuel filter (qos ∷ write_filters fs),
        read_utf8_string-write_bytes "topic filter" filter (qos ∷ write_filters fs) t,
        rest,
      )
      refl

pub decode_subscribe-encode_subscribe :
    (s : Subscribe) → IsFilters s.filters → decode_subscribe (encode_subscribe s) ≡ ok s
unfolding decode_subscribe encode_subscribe
decode_subscribe-encode_subscribe s h =
    rw
      (
        read_u16-be16 s.packet_id (write_filters s.filters),
        read_filters-write_filters (length (write_filters s.filters)) s.filters (omega arith) h,
      )
      refl
