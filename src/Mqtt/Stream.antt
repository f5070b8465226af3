-- ===== src/Mqtt/Stream.antt =====
-- `PacketStream` of src/mqtt.rs: the read buffer, and the loop that frames a stream into packets.
-- The transport is the chunks that its reads yield, at most 4096 octets each; the end of the list
-- is the end of the stream. A failure of the transport itself is not modelled.
use heliobridge.Base.{
  take-append, refl, ◌≡◌, sym, ap, ◌∙◌, inl, inr, ℕ, ◌+◌, ◌≤◌, ◌<◌, false, Option, none, some, List,
  [], ◌∷◌, ◌++◌, length, length-append, take, drop, take-append_left, drop-append, ltb, le→ltb,
  ltb→lt, if◌then◌else◌, arith, Bool-cases,
}
use heliobridge.Base.Results.{Result, ok, err}
use heliobridge.Mqtt.{CodecError, Packet}
use heliobridge.Mqtt.Codec.{decode, decode_from_device, encode}
use heliobridge.Mqtt.RoundTrip.{IsPacket, decode-encode, decode-prefix}
use mathlib.Core.List.{append_assoc}

pub data StreamError : Type 0 where
  codec : CodecError → StreamError
  -- len, limit
  too_large : ℕ → ℕ → StreamError

-- What a stream holds: the octets buffered, and the chunks that are still to come.
pub record PacketStream : Type 0 where
  pub buf : List ℕ
  pub chunks : List (List ℕ)

-- A turn of the loop of `next_packet`: what is decoded from the buffer, and what the next read
-- leads to.
unfoldable pub turn :
    ℕ
    → List ℕ
    → List (List ℕ)
    → Result CodecError (Option (Packet × ℕ))
    → Result StreamError (Option Packet × PacketStream)
    → Result StreamError (Option Packet × PacketStream)
turn limit buf chunks (err e) again = err (codec e)
turn limit buf chunks (ok (some (packet, used))) again =
    ok (some packet, record { buf = drop used buf; chunks = chunks })
turn limit buf chunks (ok none) again =
    if ltb limit (length buf) then err (too_large (length buf) limit) else again

-- The loop of `next_packet` and `next_packet_from_device`, for the decoder of either. A read of no
-- octets, or the end, means that the peer closed.
module _ (decode_one : List ℕ → Result CodecError (Option (Packet × ℕ))) (limit : ℕ) where
  unfoldable pub next_with :
      List ℕ → List (List ℕ) → Result StreamError (Option Packet × PacketStream)
  next_with buf [] =
      turn limit buf [] (decode_one buf) (ok (none, record { buf = buf; chunks = [] }))
  next_with buf ([] ∷ chunks) =
      turn limit buf ([] ∷ chunks) (decode_one buf)
        (ok (none, record { buf = buf; chunks = chunks }))
  next_with buf ((b ∷ bs) ∷ chunks) =
      turn limit buf ((b ∷ bs) ∷ chunks) (decode_one buf) (next_with (buf ++ (b ∷ bs)) chunks)

unfoldable pub next_packet : ℕ → PacketStream → Result StreamError (Option Packet × PacketStream)
next_packet limit s = next_with decode limit s.buf s.chunks

unfoldable pub next_packet_from_device :
    ℕ → PacketStream → Result StreamError (Option Packet × PacketStream)
next_packet_from_device limit s = next_with decode_from_device limit s.buf s.chunks

-- All octets of a stream, read or not.
abbrev pub concat : List (List ℕ) → List ℕ
concat [] = []
concat (c ∷ cs) = c ++ concat cs

abbrev pub octets_of : PacketStream → List ℕ
octets_of s = s.buf ++ concat s.chunks

abbrev pub NonEmpty : List (List ℕ) → Type 0
NonEmpty [] = Unit
NonEmpty (c ∷ cs) = (1 ≤ length c) × NonEmpty cs

-- The outcome that is due: the packet, and a stream that holds what follows it.
abbrev pub Yields : Packet → List ℕ → Result StreamError (Option Packet × PacketStream) → Type 0
Yields p rest r = (s : PacketStream) × (r ≡ ok (some p, s)) × (octets_of s ≡ rest)

-- A list that is a prefix of two, of which the first is longer, is a proper prefix of it.
prefix_of :
    (xs ys zs ws : List ℕ) → xs ++ ys ≡ zs ++ ws → length xs ≤ length zs → xs ≡ take (length xs) zs
prefix_of xs ys zs ws e h =
    sym (take-append xs ys) ∙ ap (take (length xs)) e ∙ take-append_left (length xs) zs ws h

extension_of :
    (xs ys zs ws : List ℕ)
    → xs ++ ys ≡ zs ++ ws
    → length zs ≤ length xs
    → (more : List ℕ) × (xs ≡ zs ++ more) × (more ++ ys ≡ ws)
extension_of xs ys [] ws e h = (xs, refl, e)
extension_of [] ys (z ∷ zs) ws e h = absurd (omega arith)
extension_of (x ∷ xs) ys (z ∷ zs) ws e h =
    let (more, p, q) = extension_of xs ys zs ws (ap (drop 1) e) (omega arith) in (more, cc, q)

-- The buffer holds a whole packet.
whole :
    (limit : ℕ) (p : Packet) (octets rest buf : List ℕ) (chunks : List (List ℕ))
    → IsPacket p
    → encode p ≡ ok octets
    → length octets ≤ length buf
    → buf ++ concat chunks ≡ octets ++ rest
    → Yields p rest (next_with decode limit buf chunks)
unfolding next_with turn
whole limit p octets rest buf [] h e l w =
    let (more, q, r) = extension_of buf [] octets rest w l in
    let d = decode-encode p octets more h e in
    rw (q, d, drop-append octets more) (record { buf = more; chunks = [] }, refl, r)
whole limit p octets rest buf ([] ∷ cs) h e l w =
    let (more, q, r) = extension_of buf (concat ([] ∷ cs)) octets rest w l in
    let d = decode-encode p octets more h e in
    rw (q, d, drop-append octets more) (record { buf = more; chunks = [] ∷ cs }, refl, r)
whole limit p octets rest buf ((b ∷ c) ∷ cs) h e l w =
    let (more, q, r) = extension_of buf (concat ((b ∷ c) ∷ cs)) octets rest w l in
    let d = decode-encode p octets more h e in
    rw (q, d, drop-append octets more) (record { buf = more; chunks = (b ∷ c) ∷ cs }, refl, r)

-- The buffer holds only a part of one: the stream is asked for more.
next_with-more :
    (limit : ℕ) (p : Packet) (octets rest buf c : List ℕ) (cs : List (List ℕ))
    → encode p ≡ ok octets
    → length octets ≤ limit + 1
    → 1 ≤ length c
    → buf ++ concat (c ∷ cs) ≡ octets ++ rest
    → length buf < length octets
    → next_with decode limit buf (c ∷ cs) ≡ next_with decode limit (buf ++ c) cs
unfolding next_with turn
next_with-more limit p octets rest buf [] cs e l n w b = absurd (omega arith)
next_with-more limit p octets rest buf (c ∷ c') cs e l n w b =
    let q = prefix_of buf (concat ((c ∷ c') ∷ cs)) octets rest w (omega arith) in
    let d : decode buf ≡ ok none = rw (← q) at (decode-prefix p octets (length buf) e b) in
    let small : ltb limit (length buf) ≡ false = le→ltb _ _ (omega arith) in rw (d, small) refl

next_with-encode :
    (limit : ℕ) (p : Packet) (octets rest buf : List ℕ) (chunks : List (List ℕ))
    → IsPacket p
    → encode p ≡ ok octets
    → length octets ≤ limit + 1
    → NonEmpty chunks
    → buf ++ concat chunks ≡ octets ++ rest
    → Yields p rest (next_with decode limit buf chunks)
next_with-encode limit p octets rest buf [] h e l n w =
    whole limit p octets rest buf [] h e
      (omega (arith, ap length w, length-append octets rest, length-append buf [])) w
next_with-encode limit p octets rest buf (c ∷ cs) h e l n w =
    let later =
      next_with-encode limit p octets rest (buf ++ c) cs h e l n.1
        (append_assoc buf c (concat cs) ∙ w) in
    elim (Bool-cases (ltb (length buf) (length octets))) [
      | inr b ↦ whole limit p octets rest buf (c ∷ cs) h e (ground arith) w
      | inl b ↦ rw (next_with-more limit p octets rest buf c cs e l n.0 w (ltb→lt _ _ b)) later
    ]

-- However a stream is cut into non-empty chunks, if its octets begin with those of an encoded
-- packet that fits the limit, the next packet is that one, and the stream then holds the octets
-- after it. The packet meets the conditions of its round trip.
pub next_packet-encode :
    (limit : ℕ) (s : PacketStream) (p : Packet) (octets rest : List ℕ)
    → IsPacket p
    → encode p ≡ ok octets
    → length octets ≤ limit + 1
    → NonEmpty s.chunks
    → octets_of s ≡ octets ++ rest
    → Yields p rest (next_packet limit s)
unfolding next_packet
next_packet-encode limit s p octets rest h e l n w =
    next_with-encode limit p octets rest s.buf s.chunks h e l n w
