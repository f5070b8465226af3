-- ===== src/Mqtt/Fuel.antt =====
-- The loop of `Subscribe::decode` of src/mqtt.rs ends: one turn for each octet is enough.
use heliobridge.Base.{
  refl, ◌≡◌, inl, inr, ap, ℕ, zero, suc, ◌≤◌, ◌<◌, some, List, [], ◌∷◌, String, length, length-drop,
  drop, take, leb, arith, Bool-cases,
}
use heliobridge.Base.Results.{
  ok, ok_or, ensure, >>=-eq-ok, Result-cases, some-injective, ok-injective,
}
use heliobridge.Mqtt.{truncated, not_utf8}
use heliobridge.Base.Octets.{word}
use heliobridge.Base.Text.{is_utf8}
use heliobridge.Mqtt.Cursor.{read_u8, read_u16, read_string, read_utf8_string}
use heliobridge.Mqtt.Codec.{read_filters}

-- A string takes at least its prefix.
read_string-shorter :
    (buf s rest : List ℕ) → read_string buf ≡ some (s, rest) → length rest < length buf
unfolding read_string read_u16
read_string-shorter [] s rest h = absurd (ground arith)
read_string-shorter (a ∷ []) s rest h = absurd (ground arith)
read_string-shorter (a ∷ b ∷ bs) s rest h =
    let n = word a b in
    elim (Bool-cases (leb n (length bs))) [
      | inl l ↦
          let e : (take n bs, drop n bs) ≡ (s, rest) = some-injective (rw l at h) in
          omega (arith, ap (λ p. length p.1) e, length-drop n bs)
      | inr l ↦ absurd (ground arith)
    ]

read_utf8_string-shorter :
    (field : String) (buf s rest : List ℕ)
    → read_utf8_string field buf ≡ ok (s, rest)
    → length rest < length buf
unfolding read_utf8_string
read_utf8_string-shorter field buf s rest h =
    let ((raw, after), found, h1) =
      >>=-eq-ok (ok_or (read_string buf) (truncated "packet" field)) _ h in
    let (u, valid, h2) = >>=-eq-ok (ensure (is_utf8 raw) (not_utf8 field)) _ h1 in
    let e : after ≡ rest = ap (λ p. p.1) (ok-injective h2) in
    let r : read_string buf ≡ some (raw, after) = ground arith in
    omega (arith, ap length e, read_string-shorter buf raw after r)

either_fuel :
    (f g : ℕ) (buf : List ℕ)
    → length buf ≤ f
    → length buf ≤ g
    → read_filters f buf ≡ read_filters g buf
unfolding read_filters read_u8
either_fuel f g [] l m = refl
either_fuel zero g (b ∷ bs) l m = absurd (omega arith)
either_fuel (suc f) zero (b ∷ bs) l m = absurd (omega arith)
either_fuel (suc f) (suc g) (b ∷ bs) l m =
    elim (Result-cases (read_utf8_string "topic filter" (b ∷ bs))) [
      | inr (e, r) ↦ rw r refl
      | inl ((filter, []), r) ↦ rw r refl
      | inl ((filter, q ∷ b2), r) ↦
          let shorter = read_utf8_string-shorter "topic filter" (b ∷ bs) filter (q ∷ b2) r in
          let rest = either_fuel f g b2 (omega arith) (omega arith) in rw (r, rest) refl
    ]

-- The filters of a SUBSCRIBE are read alike with any number of turns from one for each octet on:
-- the loop ends by itself before its turns run out.
pub read_filters-fuel :
    (fuel : ℕ) (buf : List ℕ)
    → length buf ≤ fuel
    → read_filters fuel buf ≡ read_filters (length buf) buf
read_filters-fuel fuel buf h = either_fuel fuel (length buf) buf h (omega arith)
