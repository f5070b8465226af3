-- ===== src/Growatt/Decode/Config.antt =====
-- A config write that src/growatt/v7/encode.rs sends is the one that src/growatt/v7/decode.rs reads.
use mathlib.Core.List.{append-nil}
use heliobridge.Base.{
  String, ℕ, ◌+◌, ◌≤◌, ◌<◌, ◌≡◌, ◌≢◌, refl, ap, sym, ◌∙◌, true, some, List, [], ◌∷◌, ◌++◌, arith,
  length, drop, All, slice?, slice?-drop,
}
use heliobridge.Base.Octets.{IsByte, be16, word_at-drop, clamp_u16-eq, sat_add_u16-eq}
use heliobridge.Base.Text.{is_utf8}
use heliobridge.Base.Text.Lossy.{
  from_utf8_lossy, from_utf8_lossy-utf8, trim_end_nul, trim_end_nul-graphic,
}
use heliobridge.Base.Results.{ok}
use heliobridge.Growatt.MessageType.{config_write}
use heliobridge.Growatt.Frame
use heliobridge.Growatt.Frame.{Frame, message_type, parse, to_wire}
use heliobridge.Growatt.Frame.Wire.{parse-to_wire}
use heliobridge.Growatt.Frame.New.{new_lem}
use heliobridge.Growatt.Encode.{WritableConfig, config_number, write_config_of}
use heliobridge.Growatt.Encode.Body
use heliobridge.Growatt.Encode.Body.{to_frame}
use heliobridge.Growatt.Decode.{
  is_type_refl, word_field, config_entries, config_write_body, config_write_of, is_type,
}

-- Text that a config register can hold: it fits the length field, and no NUL is in it.
pub record IsValue (value : List ℕ) : Type 0 where
  pub fits : length value ≤ 65531
  pub text : is_utf8 value ≡ true
  pub no_nul : All (λ b. 0 < b) value

word_field-drop :
    (body : List ℕ) (at n : ℕ) (rest : List ℕ) (field : String)
    → drop at body ≡ be16 n ++ rest
    → at ≤ length body
    → word_field body at field ≡ ok n
unfolding word_field
word_field-drop body at n rest field e h = rw (word_at-drop body at n rest e h)

abbrev config_body : ℕ → List ℕ → List ℕ
config_body number value =
    be16 1 ++ (be16 (length value + 4) ++ (be16 number ++ (be16 (length value) ++ value)))

body-config :
    (c : WritableConfig) (value : List ℕ)
    → length value ≤ 65531
    → Body.body (write_config_of c value) ≡ config_body (config_number c) value
unfolding Body.body
body-config c value h =
    rw (clamp_u16-eq (length value) (omega arith), sat_add_u16-eq (length value) 4 (omega arith))

entries-config :
    (number : ℕ) (value : List ℕ)
    → IsValue value
    → config_write_body (config_body number value)
      ≡ ok (record { register = number; value = value } ∷ [])
unfolding config_write_body config_entries be16
entries-config number value v =
    let w = config_body number value in
    let n = length value in
    let f0 : word_field w 0 "count" ≡ ok 1 = word_field-drop w 0 1 _ "count" refl (omega arith) in
    let f1 : word_field w 2 "entry length" ≡ ok (n + 4) =
      word_field-drop w 2 (n + 4) _ "entry length" refl (omega arith) in
    let f2 : word_field w 4 "register" ≡ ok number =
      word_field-drop w 4 number _ "register" refl (omega arith) in
    let f3 : word_field w 6 "value length" ≡ ok n =
      word_field-drop w 6 n _ "value length" refl (omega arith) in
    let f4 : slice? w 8 (8 + n) ≡ some value =
      slice?-drop w 8 n value [] (sym (append-nil value)) (omega arith) refl in
    let f5 : trim_end_nul (from_utf8_lossy value) ≡ value =
      ap trim_end_nul (from_utf8_lossy-utf8 value v.text) ∙ trim_end_nul-graphic value v.no_nul in
    rw (f0, f1, f2, f3, f4, f5)

config_number-lt : (c : WritableConfig) → config_number c < 256
unfolding config_number
config_number-lt WritableConfig.clock = omega arith
config_number-lt _ = omega arith

config_body-IsByte :
    (number : ℕ) (value : List ℕ)
    → number < 256
    → length value ≤ 65531
    → All IsByte value
    → All IsByte (config_body number value)
unfolding be16
config_body-IsByte number value n h v = (
  omega arith,
  (
    omega arith,
    (omega arith, (omega arith, (omega arith, (omega arith, (omega arith, (omega arith, v)))))),
  ),
)

new-to_frame :
    (c : WritableConfig) (value id : List ℕ) (f : Frame)
    → to_frame (write_config_of c value) id ≡ ok f
    → Frame.new config_write id (Body.body (write_config_of c value)) ≡ ok f
unfolding to_frame Body.message_type
new-to_frame c value id f e = ground arith

config_write_of-body :
    (f : Frame)
    → message_type f ≡ config_write
    → config_write_of f ≡ config_write_body (Frame.body f)
unfolding config_write_of
config_write_of-body f k =
    let t : is_type (message_type f) config_write ≡ true = rw k (is_type_refl config_write) in rw t

-- A config write of a text of octets that fits the length field and holds no NUL, put into a frame
-- for a named device and serialised, is parsed back, whatever the checksum, and read as one
-- assignment of that value to that register.
pub config_write_round_trip :
    (checksum : List ℕ → ℕ) (c : WritableConfig) (value id : List ℕ) (f : Frame)
    → IsValue value
    → All IsByte value
    → id ≢ []
    → to_frame (write_config_of c value) id ≡ ok f
    → (parse checksum (to_wire checksum f) ≡ ok f)
      × (config_write_of f ≡ ok (record { register = config_number c; value = value } ∷ []))
config_write_round_trip checksum c value id f v octets ne e =
    let b = body-config c value v.fits in
    let (frame, kind, contents, named) =
      new_lem config_write id (Body.body (write_config_of c value)) f tt
        (rw b (config_body-IsByte (config_number c) value (config_number-lt c) v.fits octets)) ne
        (new-to_frame c value id f e) in
    (
      parse-to_wire checksum f frame,
      config_write_of-body f kind
          ∙ ap config_write_body (contents ∙ b)
          ∙ entries-config (config_number c) value v,
    )
