-- ===== src/Growatt/Frame/Wire.antt =====
-- What `Frame::parse` accepts, and that it and `Frame::to_wire` undo one another.
use heliobridge.Base.{
  take-take, length-drop, All-drop, inr, inl, Option-cases, ℕ, ◌+◌, ◌-◌, ◌≤◌, ◌≡◌, refl, sym, ap,
  ◌∙◌, some, List, ◌++◌, [], ◌∷◌, arith, length, take, drop, All, length-append, take-append,
  drop-append, take-append-drop, length-take, All-take,
}
use mathlib.Core.List.{append-nil}
use heliobridge.Base.Octets.{be16-word_at, IsByte, be16, word_at, word_at-drop, length-be16}
use heliobridge.Base.Results.{ok}
use heliobridge.Growatt.Header.{Header, v7, peek, length_matches, peek-eq_take}
use heliobridge.Growatt.Frame.{
  Frame, header, device_id_from, transform, parse, to_wire, crc_len, min_frame_len,
}
use heliobridge.Growatt.Frame.Transform.{
  transform-transform, length-transform, take-transform, transform-IsByte,
}

-- A frame as `Frame::parse` leaves it: the header's generation and length field are those of the
-- octets, and the stored id is the one in the id field.
pub record IsFrame (f : Frame) : Type 0 where
  pub octets : All IsByte f.plain
  pub room : 38 ≤ length f.plain
  pub peeked : peek f.plain ≡ some (header f)
  pub version : (header f).protocol ≡ v7
  pub declared : (header f).length + 8 ≡ length f.plain + 2
  pub named : device_id_from f.plain ≡ ok f.device_id

module _ (checksum : List ℕ → ℕ) (wire : List ℕ) where
  abbrev pub covered : List ℕ
  covered = take (length wire - crc_len) wire

  -- The conditions on received octets under which `parse` succeeds.
  pub record IsAccepted (h : Header) (id : List ℕ) : Type 0 where
    pub long : min_frame_len ≤ length wire
    pub peeked : peek wire ≡ some h
    pub version : h.protocol ≡ v7
    pub declared : h.length + 8 ≡ length wire
    pub checked : word_at (drop (length wire - crc_len) wire) 0 ≡ some (checksum covered)
    pub named : device_id_from (transform covered) ≡ ok id

  pub parse-IsAccepted :
      (h : Header) (id : List ℕ)
      → IsAccepted h id
      → parse checksum wire ≡ ok (record { plain = transform covered; device_id = id })
  unfolding parse length_matches
  parse-IsAccepted h id a = ground arith

  pub IsAccepted-parse :
      (f : Frame)
      → parse checksum wire ≡ ok f
      → (h : Header) × IsAccepted h f.device_id × (f.plain ≡ transform covered)
  unfolding parse length_matches
  IsAccepted-parse f e = elim (Option-cases (peek wire)) [
    | inl p ↦ absurd (ground arith)
    | inr (h, p) ↦ (h, ground arith, ground arith)
  ]

module _ (checksum : List ℕ → ℕ) (w : List ℕ) where
  abbrev sealed : List ℕ
  sealed = w ++ be16 (checksum w)

  length-sealed : length sealed ≡ length w + 2
  length-sealed = omega (arith, length-append w (be16 (checksum w)), length-be16 (checksum w))

  split-sealed : length sealed - crc_len ≡ length w
  split-sealed = omega (arith, length-sealed)

  covered-sealed : covered checksum sealed ≡ w
  covered-sealed = rw split-sealed (take-append w (be16 (checksum w)))

  checked-sealed :
      word_at (drop (length sealed - crc_len) sealed) 0 ≡ some (checksum (covered checksum sealed))
  checked-sealed =
      rw (covered-sealed, split-sealed, drop-append w (be16 (checksum w)))
        (word_at-drop (be16 (checksum w)) 0 (checksum w) [] (sym (append-nil _)) (omega arith))

pub header-peek : (f : Frame) (h : Header) → peek f.plain ≡ some h → header f ≡ h
unfolding header
header-peek f h e = rw (e, header)

take-sealed : (w t : List ℕ) → 8 ≤ length w → take 8 (w ++ t) ≡ take 8 w
take-sealed (a ∷ b ∷ c ∷ d ∷ e ∷ f ∷ g ∷ h ∷ w) t p = refl
take-sealed _ t p = absurd (omega arith)

module _ (checksum : List ℕ → ℕ) where
  to_wire-IsAccepted :
      (f : Frame) → IsFrame f → IsAccepted checksum (to_wire checksum f) (header f) f.device_id
  unfolding to_wire
  to_wire-IsAccepted f v =
      let w = transform f.plain in
      let l = length-transform f.plain in
      let n = length-sealed checksum w in
      let back : transform w ≡ f.plain = transform-transform f.plain v.octets in
      record {
        long = omega (arith, l, n, v.room);
        peeked =
            peek-eq_take (sealed checksum w) f.plain (omega (arith, l, n, v.room))
              (omega (arith, v.room))
              (take-sealed w _ (omega (arith, l, v.room)) ∙ take-transform f.plain)
            ∙ v.peeked;
        version = v.version;
        declared = omega (arith, l, n, v.declared);
        checked = checked-sealed checksum w;
        named = rw (covered-sealed checksum w, back) v.named;
      }

  plain-to_wire :
      (f : Frame) → IsFrame f → transform (covered checksum (to_wire checksum f)) ≡ f.plain
  unfolding to_wire
  plain-to_wire f v =
      ap transform (covered-sealed checksum (transform f.plain))
      ∙ transform-transform f.plain v.octets

  -- Whatever the checksum, a frame that was serialised is parsed to itself.
  pub parse-to_wire : (f : Frame) → IsFrame f → parse checksum (to_wire checksum f) ≡ ok f
  parse-to_wire f v =
      parse-IsAccepted checksum (to_wire checksum f) (header f) f.device_id (to_wire-IsAccepted f v)
      ∙ ap (λ p. ok (record { plain = p; device_id = f.device_id })) (plain-to_wire f v)

module _ (checksum : List ℕ → ℕ) (wire : List ℕ) (f : Frame) (octets : All IsByte wire) where
  module _ (h : Header) (a : IsAccepted checksum wire h f.device_id)
      (p : f.plain ≡ transform (covered checksum wire)) where
    length-covered : length (covered checksum wire) + 2 ≡ length wire
    length-covered = omega (arith, length-take (length wire - crc_len) wire, a.long)

    take-take-covered : take 8 (covered checksum wire) ≡ take 8 wire
    take-take-covered = take-take 8 (length wire - crc_len) wire (omega (arith, a.long))

    plain-peek : peek f.plain ≡ some h
    plain-peek =
        let c : List ℕ = covered checksum wire in
        let l : length f.plain ≡ length c = ap length p ∙ length-transform c in
        peek-eq_take f.plain wire (omega (arith, l, length-covered, a.long)) (omega (arith, a.long))
          (ap (take 8) p ∙ take-transform c ∙ take-take-covered)
        ∙ a.peeked

    accepted-IsFrame : IsFrame f
    accepted-IsFrame =
        let c : List ℕ = covered checksum wire in
        let l : length f.plain ≡ length c = ap length p ∙ length-transform c in
        let e : header f ≡ h = header-peek f h plain-peek in
        record {
          octets = rw p (transform-IsByte c (All-take IsByte _ wire octets));
          room = omega (arith, l, length-covered, a.long);
          peeked = plain-peek ∙ ap some (sym e);
          version = ap Header.protocol e ∙ a.version;
          declared = omega (arith, ap Header.length e, a.declared, l, length-covered);
          named = ap device_id_from p ∙ a.named;
        }

    accepted-to_wire : to_wire checksum f ≡ wire
    unfolding to_wire
    accepted-to_wire =
        let c : List ℕ = covered checksum wire in
        let back : transform f.plain ≡ c =
          ap transform p ∙ transform-transform c (All-take IsByte _ wire octets) in
        rw
          (
            back,
            be16-word_at (drop (length wire - crc_len) wire) (checksum c)
                (omega (arith, length-drop (length wire - crc_len) wire, a.long))
                (All-drop IsByte _ wire octets) a.checked,
          )
          (take-append-drop (length wire - crc_len) wire)

  -- A frame that octets are parsed to is well formed, whatever the checksum.
  pub parse-IsFrame : parse checksum wire ≡ ok f → IsFrame f
  parse-IsFrame e = let (h, a, p) = IsAccepted-parse checksum wire f e in accepted-IsFrame h a p

  -- A frame serialises to the very octets that it was parsed from, whatever the checksum.
  pub to_wire-parse : parse checksum wire ≡ ok f → to_wire checksum f ≡ wire
  to_wire-parse e = let (h, a, p) = IsAccepted-parse checksum wire f e in accepted-to_wire h a p
