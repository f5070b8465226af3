-- ===== src/Mqtt/Varint.antt =====
-- The remaining-length varint of src/mqtt.rs.
use heliobridge.Base.{
  refl, ◌≡◌, ap, ◌∙◌, inl, inr, ℕ, zero, suc, ◌+◌, ◌*◌, ◌/◌, ◌%◌, ◌≤◌, ◌<◌, Bool, true, false, ◌&&◌,
  Option, none, some, List, ◌++◌, length, take, ltb, ◌==◌, arith, all_below, all_below_sound,
  Bool-cases,
}
use heliobridge.Base.Results.{Result, ok}
use heliobridge.Mqtt.{CodecError}
use heliobridge.Mqtt.Cursor.{read_varint, read_varint_from, write_varint, write_varint_for}
use Prim.Native.Nat.{bit_and, bit_or}

-- The low seven digits and the high one of an octet, with the high one clear and set.
abbrev splits_low : ℕ → Bool
splits_low r = bit_and r 0x7f == r && bit_and r 0x80 == 0

abbrev splits_high : ℕ → Bool
splits_high r = bit_and (bit_or r 0x80) 0x7f == r && bit_and (bit_or r 0x80) 0x80 == 0x80

low_table : all_below 128 splits_low ≡ true
unfolding all_below
low_table = refl

high_table : all_below 128 splits_high ≡ true
unfolding all_below
high_table = refl

low_digits : (r : ℕ) → r < 128 → (bit_and r 0x7f ≡ r) × (bit_and r 0x80 ≡ 0)
low_digits r h = ground (arith, all_below_sound 128 splits_low r low_table h)

high_digits :
    (r : ℕ) → r < 128 → (bit_and (bit_or r 0x80) 0x7f ≡ r) × (bit_and (bit_or r 0x80) 0x80 ≡ 0x80)
high_digits r h = ground (arith, all_below_sound 128 splits_high r high_table h)

-- One turn of both loops: the last octet, and one that is not the last.
last_turn :
    (turns fuel acc multiplier v : ℕ) (rest : List ℕ)
    → v < 128
    → read_varint_from (suc turns) acc multiplier (write_varint_for (suc fuel) v ++ rest)
      ≡ ok (some (acc + v * multiplier, rest))
unfolding read_varint_from write_varint_for
last_turn turns fuel acc multiplier v rest h =
    let z : v / 128 ≡ 0 = omega arith in
    let r : v % 128 ≡ v = omega arith in
    let (low, high) = low_digits v h in rw (z, r, low, high) refl

more_turn :
    (turns fuel acc multiplier v : ℕ) (rest : List ℕ)
    → 128 ≤ v
    → read_varint_from (suc turns) acc multiplier (write_varint_for (suc fuel) v ++ rest)
      ≡ read_varint_from turns
          (acc + v % 128 * multiplier)
          (multiplier * 128)
          (write_varint_for fuel (v / 128) ++ rest)
unfolding read_varint_from write_varint_for
more_turn turns fuel acc multiplier v rest h =
    let z : (v / 128 == 0) ≡ false = ground arith in
    let (low, high) = high_digits (v % 128) (omega arith) in rw (z, low, high) refl

found :
    (w v : ℕ) (rest : List ℕ)
    → w ≡ v
    → ◌≡◌ {A = Result CodecError (Option (ℕ × List ℕ))} (ok (some (w, rest))) (ok (some (v, rest)))
found w v rest h = ap (λ n. ok (some (n, rest))) h

-- A length that four octets can hold is read back from the octets that are written for it, and
-- what follows them is left.
pub read_varint-write_varint :
    (v : ℕ) (rest : List ℕ)
    → v < 268435456
    → read_varint (write_varint v ++ rest) ≡ ok (some (v, rest))
unfolding read_varint write_varint
read_varint-write_varint v rest h =
    let a = v / 128 in
    let b = a / 128 in
    let c = b / 128 in
    elim (Bool-cases (ltb v 128)) [
      | inl l ↦ last_turn 3 9 0 1 v rest (ground arith) ∙ found _ v rest (omega arith)
      | inr l ↦ more_turn 3 9 0 1 v rest (ground arith) ∙ (elim (Bool-cases (ltb a 128)) [
        | inl m ↦ last_turn 2 8 _ _ a rest (ground arith) ∙ found _ v rest (omega arith)
        | inr m ↦ more_turn 2 8 _ _ a rest (ground arith) ∙ (elim (Bool-cases (ltb b 128)) [
          | inl n ↦ last_turn 1 7 _ _ b rest (ground arith) ∙ found _ v rest (omega arith)
          | inr n ↦
              more_turn 1 7 _ _ b rest (ground arith)
              ∙ last_turn 0 6 _ _ c rest (omega arith)
              ∙ found _ v rest (omega arith)
        ])
      ])
    ]

-- Four octets are enough for a length below the limit.
one_more :
    (fuel v k : ℕ)
    → (128 ≤ v → length (write_varint_for fuel (v / 128)) ≤ k)
    → length (write_varint_for (suc fuel) v) ≤ suc k
unfolding write_varint_for
one_more fuel v k h = ground (arith, h)

pub length-write_varint : (v : ℕ) → v < 268435456 → length (write_varint v) ≤ 4
unfolding write_varint
length-write_varint v h =
    let a = v / 128 in
    let b = a / 128 in
    one_more 9 v 3 (λ _.
      one_more 8 a 2
        (λ _. one_more 7 b 1 (λ _. one_more 6 (b / 128) 0 (λ k. absurd (omega arith)))))

prefix_from :
    (fuel turns acc multiplier v n : ℕ)
    → length (write_varint_for fuel v) ≤ turns
    → n < length (write_varint_for fuel v)
    → read_varint_from turns acc multiplier (take n (write_varint_for fuel v)) ≡ ok none
unfolding read_varint_from write_varint_for
prefix_from zero turns acc multiplier v n l h = absurd (omega arith)
prefix_from (suc fuel) zero acc multiplier v n l h = absurd (ground arith)
prefix_from (suc fuel) (suc turns) acc multiplier v zero l h = refl
prefix_from (suc fuel) (suc turns) acc multiplier v (suc n) l h =
    let rest = prefix_from fuel turns (acc + v % 128 * multiplier) (multiplier * 128) (v / 128) n in
    let (low, high) = high_digits (v % 128) (omega arith) in
    elim (Bool-cases (v / 128 == 0)) [
      | inl z ↦ absurd (ground arith)
      | inr z ↦ rw (z, low, high) (rest (ground arith) (ground arith))
    ]

-- A proper prefix of such octets asks for more.
pub read_varint-prefix :
    (v n : ℕ)
    → v < 268435456
    → n < length (write_varint v)
    → read_varint (take n (write_varint v)) ≡ ok none
unfolding read_varint write_varint
read_varint-prefix v n h k = prefix_from 10 4 0 1 v n (length-write_varint v h) k
