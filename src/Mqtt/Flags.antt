-- ===== src/Mqtt/Flags.antt =====
-- What is read from the flags that src/mqtt.rs writes for a packet.
use heliobridge.Base.{
  ◌==◌, ==_iff, ==_iff, ◌/◌, ◌*◌, ◌&&◌, not, refl, ◌≡◌, ℕ, Bool, true, false, Option, none, some,
  arith,
}
use heliobridge.Base.Results.{err, Result, ok}
use heliobridge.Mqtt.{
  bit_and, CodecError, bit_or, QoS, at_most_once, at_least_once, Will, Connect, Publish, has_bit,
  set_bit_if, qos_bits, qos_from_bits, is_some,
}
use heliobridge.Mqtt.ConnectFlags
use heliobridge.Mqtt.PublishFlags

-- The flags of CONNECT tell each optional field and the session.
abbrev pub IsFlags : ℕ → Bool → Bool → Bool → Option Will → Type 0
IsFlags flags u p k w =
    (has_bit flags ConnectFlags.username_mask ≡ u)
    × (has_bit flags ConnectFlags.password_mask ≡ p)
    × (has_bit flags ConnectFlags.clean_session_mask ≡ k)
    × (has_bit flags ConnectFlags.will_mask ≡ is_some w)

-- Those of a will tell how it is published.
abbrev pub IsWill : ℕ → Option Will → Type 0
IsWill flags none = Unit
IsWill flags (some w) =
    (has_bit flags ConnectFlags.will_retain_mask ≡ w.retain)
    × (ConnectFlags.will_qos flags ≡ ok w.qos)

abbrev session_flags : Bool → Bool → Bool → ℕ
session_flags u p k =
    set_bit_if k ConnectFlags.clean_session_mask
      (set_bit_if p ConnectFlags.password_mask (set_bit_if u ConnectFlags.username_mask 0))

-- Every choice of the flags, tried.
abbrev every : (Bool → Bool) → Bool
every p = p true && p false

every_sound : (p : Bool → Bool) (b : Bool) → every p ≡ true → p b ≡ true
every_sound p true h = ground arith
every_sound p false h = ground arith

abbrev same : Bool → Bool → Bool
same true b = b
same false b = not b

abbrev is_qos : QoS → Result CodecError QoS → Bool
is_qos q (err e) = false
is_qos at_most_once (ok at_most_once) = true
is_qos at_least_once (ok at_least_once) = true
is_qos _ _ = false

is_qos-eq : (q : QoS) (r : Result CodecError QoS) → is_qos q r ≡ true → r ≡ ok q
is_qos-eq q (err e) h = cc
is_qos-eq at_most_once (ok at_most_once) h = refl
is_qos-eq at_least_once (ok at_least_once) h = refl
is_qos-eq at_least_once (ok at_most_once) h = cc
is_qos-eq at_most_once (ok at_least_once) h = cc

abbrev session_agrees : ℕ → Bool → Bool → Bool → Bool → Bool
session_agrees flags u p k w =
    same (has_bit flags ConnectFlags.username_mask) u
    && same (has_bit flags ConnectFlags.password_mask) p
    && same (has_bit flags ConnectFlags.clean_session_mask) k
    && same (has_bit flags ConnectFlags.will_mask) w

abbrev plain_agrees : Bool → Bool → Bool → Bool
plain_agrees u p k = session_agrees (session_flags u p k) u p k false

abbrev will_agrees : QoS → Bool → Bool → Bool → Bool → Bool
will_agrees q r u p k =
    let flags =
      set_bit_if r ConnectFlags.will_retain_mask
        (bit_or (bit_or (session_flags u p k) ConnectFlags.will_mask) (qos_bits q * 8)) in
    session_agrees flags u p k true
    && same (has_bit flags ConnectFlags.will_retain_mask) r
    && is_qos q (ConnectFlags.will_qos flags)

plain_table : every (λ u. every (λ p. every (plain_agrees u p))) ≡ true
unfolding has_bit set_bit_if
plain_table = refl

will_table : (q : QoS) → every (λ r. every (λ u. every (λ p. every (will_agrees q r u p)))) ≡ true
unfolding has_bit set_bit_if qos_bits qos_from_bits ConnectFlags.will_qos
will_table at_most_once = refl
will_table at_least_once = refl

same-eq : (a b : Bool) → same a b ≡ true → a ≡ b
same-eq a b h = ground arith

and-left : (a b : Bool) → (a && b) ≡ true → (a ≡ true) × (b ≡ true)
and-left a b h = ground arith

session_sound :
    (flags : ℕ) (u p k : Bool) (w : Option Will)
    → session_agrees flags u p k (is_some w) ≡ true
    → IsFlags flags u p k w
session_sound flags u p k w h = ground arith

flags_lem :
    (u p k : Bool) (w : Option Will)
    → let flags = ConnectFlags.with_will w (session_flags u p k) in
      IsFlags flags u p k w × IsWill flags w
unfolding ConnectFlags.with_will
flags_lem u p k none =
    let at_u = every_sound (λ u. every (λ p. every (plain_agrees u p))) u plain_table in
    let at_p = every_sound (λ p. every (plain_agrees u p)) p at_u in
    (session_sound _ u p k none (every_sound (plain_agrees u p) k at_p), tt)
flags_lem u p k (some w) =
    let q = w.qos in
    let r = w.retain in
    let at_r =
      every_sound (λ r. every (λ u. every (λ p. every (will_agrees q r u p)))) r (will_table q) in
    let at_u = every_sound (λ u. every (λ p. every (will_agrees q r u p))) u at_r in
    let at_p = every_sound (λ p. every (will_agrees q r u p)) p at_u in
    let flags = ConnectFlags.with_will (some w) (session_flags u p k) in
    let h : will_agrees q r u p k ≡ true = every_sound (will_agrees q r u p) k at_p in
    let (h1, c) = and-left _ (is_qos q (ConnectFlags.will_qos flags)) h in
    let (a, b) = and-left (session_agrees flags u p k true) _ h1 in
    (session_sound flags u p k (some w) a, (same-eq _ _ b, is_qos-eq q _ c))

-- What `ConnectFlags::of` sets is what its accessors read.
pub of-IsFlags :
    (c : Connect)
    → IsFlags (ConnectFlags.of c) (is_some c.username) (is_some c.password) c.clean_session c.will
      × IsWill (ConnectFlags.of c) c.will
unfolding ConnectFlags.of
of-IsFlags c = flags_lem (is_some c.username) (is_some c.password) c.clean_session c.will

abbrev publish_agrees : QoS → Bool → Bool → Bool
publish_agrees q d r =
    let flags =
      set_bit_if d PublishFlags.dup_mask (set_bit_if r PublishFlags.retain_mask (qos_bits q * 2)) in
    let octet = bit_or 0x30 flags in
    is_qos q (PublishFlags.qos (bit_and octet 0x0f))
    && same (has_bit (bit_and octet 0x0f) PublishFlags.retain_mask) r
    && same (has_bit (bit_and octet 0x0f) PublishFlags.dup_mask) d
    && octet / 16 == 3

publish_table : (q : QoS) → every (λ d. every (publish_agrees q d)) ≡ true
unfolding has_bit set_bit_if qos_bits qos_from_bits PublishFlags.qos
publish_table at_most_once = refl
publish_table at_least_once = refl

-- The first octet of a PUBLISH tells its type and its flags.
pub publish_octet :
    (p : Publish)
    → let octet = bit_or 0x30 (PublishFlags.of p) in
      (PublishFlags.qos (bit_and octet 0x0f) ≡ ok p.qos)
      × (has_bit (bit_and octet 0x0f) PublishFlags.retain_mask ≡ p.retain)
      × (has_bit (bit_and octet 0x0f) PublishFlags.dup_mask ≡ p.dup)
      × (octet / 16 ≡ 3)
unfolding PublishFlags.of
publish_octet p =
    let at_d = every_sound (λ d. every (publish_agrees p.qos d)) p.dup (publish_table p.qos) in
    let h = every_sound (publish_agrees p.qos p.dup) p.retain at_d in
    let octet = bit_or 0x30 (PublishFlags.of p) in
    let (h1, d) = and-left _ (octet / 16 == 3) h in
    let (h2, c) = and-left _ (same (has_bit (bit_and octet 0x0f) PublishFlags.dup_mask) p.dup) h1 in
    let (a, b) = and-left (is_qos p.qos (PublishFlags.qos (bit_and octet 0x0f))) _ h2 in
    (is_qos-eq p.qos _ a, same-eq _ _ b, same-eq _ _ c, (==_iff _ 3).0 d)
