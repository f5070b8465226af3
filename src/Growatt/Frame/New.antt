-- ===== src/Growatt/Frame/New.antt =====
-- What `Frame::new` builds, and when it refuses to.
use mathlib.Core.List.{append_assoc}
use heliobridge.Base.{
  ℕ, zero, suc, ◌+◌, ◌-◌, ◌≤◌, ◌<◌, ◌≡◌, ◌≢◌, refl, sym, ap, ◌∙◌, not, true, some, List, [], ◌∷◌,
  ◌++◌, arith, length, drop, All, all, take_while, replicate, length-append, length-replicate,
  take-all, drop-append, All-append, All-replicate, slice?-drop, suffix?, suffix?-append, ◌==◌,
}
use heliobridge.Base.Octets.{IsByte}
use heliobridge.Base.Text.{is_ascii_graphic, is_utf8-ascii}
use heliobridge.Base.Results.{ok}
use heliobridge.Growatt.Header.{
  Header, v7, to_bytes, length-to_bytes, to_bytes-IsByte, peek-to_bytes,
}
use heliobridge.Growatt.MessageType
use heliobridge.Growatt.MessageType.{MessageType, IsCanonical}
use heliobridge.Growatt.Frame.{
  Frame, header, message_type, body, device_id_from, checked_id, new, resize,
}
use heliobridge.Growatt.Frame.Wire.{IsFrame, header-peek}

abbrev IsGraphic : List ℕ → Type 0
IsGraphic id = all is_ascii_graphic id ≡ true

graphic-ascii : (id : List ℕ) → IsGraphic id → All (λ b. b < 128) id
graphic-ascii [] g = tt
graphic-ascii (b ∷ bs) g = (ground arith, graphic-ascii bs (ground arith))

graphic-IsByte : (id : List ℕ) → IsGraphic id → All IsByte id
graphic-IsByte [] g = tt
graphic-IsByte (b ∷ bs) g = (ground arith, graphic-IsByte bs (ground arith))

-- The padding is cut off again.
take_while-padding :
    (id : List ℕ) (n : ℕ) → IsGraphic id → take_while (λ b. not (b == 0)) (id ++ replicate n 0) ≡ id
take_while-padding [] zero g = refl
take_while-padding [] (suc n) g = refl
take_while-padding (b ∷ bs) n g = ground (arith, take_while-padding bs n (ground arith))

checked_id-graphic : (id : List ℕ) → IsGraphic id → id ≢ [] → checked_id id ≡ ok id
unfolding checked_id
checked_id-graphic [] g ne = absurd (ne refl)
checked_id-graphic (b ∷ bs) g ne =
    ground (arith, g, is_utf8-ascii (b ∷ bs) (graphic-ascii (b ∷ bs) g))

-- The layout of a frame's octets: header, padded id, body.
module _ (h : Header) (id contents : List ℕ) where
  abbrev field : List ℕ
  field = id ++ replicate (30 - length id) 0

  abbrev laid_out : List ℕ
  laid_out = to_bytes h ++ (field ++ contents)

  module _ (fits : length id ≤ 30) where
    length-field : length field ≡ 30
    length-field = omega (
      arith,
      length-append id (replicate (30 - length id) 0),
      length-replicate {A = ℕ} (30 - length id) 0,
    )

    length-laid_out : length laid_out ≡ 38 + length contents
    length-laid_out = omega (
      arith,
      length-append (to_bytes h) (field ++ contents),
      length-to_bytes h,
      length-append field contents,
      length-field,
    )

    resize-laid_out : resize 38 0 (to_bytes h ++ id) ++ contents ≡ laid_out
    unfolding resize
    resize-laid_out =
        let l : length (to_bytes h ++ id) ≡ 8 + length id =
          omega (arith, length-append (to_bytes h) id, length-to_bytes h) in
        let n : 38 - length (to_bytes h ++ id) ≡ 30 - length id = omega (arith, l) in
        rw (take-all 38 (to_bytes h ++ id) (omega (arith, l)), n) (simp append_assoc)

    device_id_from-laid_out : IsGraphic id → id ≢ [] → device_id_from laid_out ≡ ok id
    unfolding to_bytes device_id_from
    device_id_from-laid_out g ne =
        let at : drop 8 laid_out ≡ field ++ contents =
          drop-append (to_bytes h) (field ++ contents) in
        rw
          (
            slice?-drop laid_out 8 30 field contents at (omega (arith, length-laid_out))
                length-field,
            take_while-padding id (30 - length id) g,
            device_id_from,
          )
          (checked_id-graphic id g ne)

    suffix-laid_out : suffix? laid_out 38 ≡ some contents
    suffix-laid_out =
        let l : length (to_bytes h ++ field) ≡ 38 =
          omega (arith, length-append (to_bytes h) field, length-to_bytes h, length-field) in
        ap (λ p. suffix? p 38) (sym (append_assoc (to_bytes h) field contents))
        ∙ suffix?-append (to_bytes h ++ field) contents 38 l

-- The header that `new` writes for a body of `n` octets.
abbrev new_header : MessageType → ℕ → Header
new_header m n = record {
  transaction_id = 1;
  protocol = v7;
  length = 38 + n + 2 - 8;
  address = MessageType.address m;
  function = MessageType.function m;
}

module _ (m : MessageType) (id contents : List ℕ) where
  -- The arguments that fit a frame, and the frame that is built of them.
  pub record Fits : Type 0 where
    pub id_fits : length id ≤ 30
    pub graphic : IsGraphic id
    pub body_fits : 32 + length contents ≤ 65535

  pub new-Fits :
      Fits
      → new m id contents
        ≡ ok (record {
          plain = laid_out (new_header m (length contents)) id contents;
          device_id = id;
        })
  unfolding new
  new-Fits f =
      ground (arith, resize-laid_out (new_header m (length contents)) id contents f.id_fits)

  -- `new` succeeds exactly when its arguments fit.
  pub Fits-new : (f : Frame) → new m id contents ≡ ok f → Fits
  unfolding new
  Fits-new f e = record { id_fits = ground arith; graphic = ground arith; body_fits = ground arith }

  abbrev built : Frame
  built = record { plain = laid_out (new_header m (length contents)) id contents; device_id = id }

  new-built : (f : Frame) → new m id contents ≡ ok f → f ≡ built
  new-built f e = cc (new-Fits (Fits-new f e))

  header-built : header built ≡ new_header m (length contents)
  header-built = header-peek built (new_header m (length contents)) (
      peek-to_bytes (new_header m (length contents))
        (field (new_header m (length contents)) id contents ++ contents))

  module _ (canonical : IsCanonical m) (octets : All IsByte contents) where
    built-IsFrame : Fits → id ≢ [] → IsFrame built
    built-IsFrame f ne =
        let h : Header = new_header m (length contents) in
        let (a, b) = MessageType.address-IsByte m canonical in
        let l = length-laid_out h id contents f.id_fits in
        record {
          octets =
              All-append IsByte (to_bytes h) (field h id contents ++ contents)
                (to_bytes-IsByte h (record {
                  transaction_id = omega arith;
                  protocol = omega arith;
                  length = omega (arith, f.body_fits);
                  address = a;
                  function = b;
                }))
                (All-append IsByte (field h id contents) contents
                  (All-append IsByte id _ (graphic-IsByte id f.graphic)
                    (All-replicate IsByte (30 - length id) 0 (omega arith)))
                  octets);
          room = omega (arith, l);
          peeked = rw header-built (peek-to_bytes h (field h id contents ++ contents));
          version = ap Header.protocol header-built;
          declared = omega (arith, ap Header.length header-built, l);
          named = device_id_from-laid_out h id contents f.id_fits f.graphic ne;
        }

    message_type-built : message_type built ≡ m
    unfolding message_type
    message_type-built = rw header-built (MessageType.from_parts-address m canonical)

  body-built : Fits → body built ≡ contents
  unfolding body
  body-built f = rw (suffix-laid_out (new_header m (length contents)) id contents f.id_fits, body)

-- A frame that `new` built of a canonical type and of octets for a device whose id is not empty is
-- well formed, and holds the type, the body and the id that it was built of.
pub new_lem :
    (m : MessageType) (id contents : List ℕ) (f : Frame)
    → IsCanonical m
    → All IsByte contents
    → id ≢ []
    → new m id contents ≡ ok f
    → IsFrame f × (message_type f ≡ m) × (body f ≡ contents) × (f.device_id ≡ id)
new_lem m id contents f c octets ne e =
    let fits = Fits-new m id contents f e in
    rw (new-built m id contents f e) (
      built-IsFrame m id contents c octets fits ne,
      message_type-built m id contents c octets,
      body-built m id contents fits,
      refl,
    )
