-- ===== src/Growatt/Classify/Commands.antt =====
-- How the frames of src/growatt/v7/encode.rs are classified by src/growatt/v7/classify.rs, and what
-- the policy of src/driver/arbiter.rs says of them.
use heliobridge.Base.{
  refl, ◌≡◌, ◌≢◌, ℕ, ◌-◌, ◌≤◌, Bool, true, false, some, List, [], ◌∷◌, ◌++◌, All, arith, length,
  drop,
}
use heliobridge.Base.Octets.{IsByte, be16, clamp_u16, sat_add_u16, word_at, word_at-drop}
use heliobridge.Base.Results.{ok}
use heliobridge.Growatt.MessageType.{IsCanonical}
use heliobridge.Growatt.Frame
use heliobridge.Growatt.Frame.{Frame}
use heliobridge.Growatt.Frame.New.{new_lem}
use heliobridge.Growatt.Encode.{
  Command, write_single, write_range_of, read_single, trigger, write_config_of, read_config_of,
  config_number,
}
use heliobridge.Growatt.Encode.Body
use heliobridge.Growatt.Encode.Body.{to_frame, words}
use heliobridge.Growatt.Classify.{intent, intent_of, register_at, write_intent}
use heliobridge.Driver.Arbiter.{
  to_device, Intent, Policy, controls, allowed, evaluate, Originator, decide_to_device,
  controls_to_device,
}

-- What a command is for, in the words of the policy.
abbrev pub purpose : Command → Intent
purpose (write_single w value) = Intent.write_settings w.entry.register w.entry.register
purpose (trigger r value) = Intent.write_settings r r
purpose (write_range_of start values) =
    Intent.write_settings start (sat_add_u16 start (clamp_u16 (length values)) - 1)
purpose (read_single r) = Intent.read_request r
purpose (write_config_of c value) = Intent.write_config (config_number c)
purpose (read_config_of []) = Intent.unrecognised
purpose (read_config_of (r ∷ rs)) = Intent.read_request r

message_type-IsCanonical : (c : Command) → IsCanonical (Body.message_type c)
unfolding Body.message_type
message_type-IsCanonical (write_single w value) = tt
message_type-IsCanonical (trigger r value) = tt
message_type-IsCanonical (write_range_of start values) = tt
message_type-IsCanonical (read_single r) = tt
message_type-IsCanonical (write_config_of c value) = tt
message_type-IsCanonical (read_config_of rs) = tt

-- A register that stands at an offset of a body is found there.
register_at-drop :
    (buf : List ℕ) (offset r : ℕ) (rest : List ℕ)
    → drop offset buf ≡ be16 r ++ rest
    → offset ≤ length buf
    → register_at buf offset ≡ some r
unfolding register_at
register_at-drop buf offset r rest e h = word_at-drop buf offset r rest e h

intent_of-body : (c : Command) → intent_of (Body.message_type c) to_device (Body.body c) ≡ purpose c
unfolding Body.message_type Body.body intent_of write_intent be16 words
intent_of-body (write_single w value) =
    let b = Body.body (write_single w value) in
    rw (register_at-drop b 0 w.entry.register (be16 value) refl (omega arith)) refl
intent_of-body (trigger r value) =
    rw (register_at-drop (Body.body (trigger r value)) 0 r (be16 value) refl (omega arith)) refl
intent_of-body (write_range_of start values) =
    let b = Body.body (write_range_of start values) in
    let last = sat_add_u16 start (clamp_u16 (length values)) - 1 in
    rw
      (
        register_at-drop b 0 start (be16 last ++ words values) refl (omega arith),
        register_at-drop b 2 last (words values) refl (omega arith),
      )
      refl
intent_of-body (read_single r) =
    rw (register_at-drop (Body.body (read_single r)) 0 r (be16 r) refl (omega arith)) refl
intent_of-body (write_config_of c value) =
    let b = Body.body (write_config_of c value) in
    rw
      (register_at-drop b 4 (config_number c) (be16 (clamp_u16 (length value)) ++ value) refl
        (omega arith))
      refl
intent_of-body (read_config_of []) = unfold register_at in unfold word_at in refl
intent_of-body (read_config_of (r ∷ rs)) =
    rw (register_at-drop (Body.body (read_config_of (r ∷ rs))) 2 r (words rs) refl (omega arith))
      refl

built-new :
    (c : Command) (id : List ℕ) (f : Frame)
    → to_frame c id ≡ ok f
    → Frame.new (Body.message_type c) id (Body.body c) ≡ ok f
unfolding to_frame
built-new c id f e = ground arith

-- The frame that carries a command to a named device is classified, on its way there, by the
-- command's purpose, if the words of its body are octets.
pub intent-to_frame :
    (c : Command) (id : List ℕ) (f : Frame)
    → All IsByte (Body.body c)
    → id ≢ []
    → to_frame c id ≡ ok f
    → intent f to_device ≡ purpose c
unfolding intent
intent-to_frame c id f octets ne e =
    let (frame, kind, contents, named) =
      new_lem (Body.message_type c) id (Body.body c) f (message_type-IsCanonical c) octets ne
        (built-new c id f e) in
    rw (kind, contents) (intent_of-body c)

-- The commands that the default policy lets the cloud send.
abbrev pub passes : Command → Bool
passes (write_config_of c value) = false
passes (read_config_of []) = false
passes _ = true

passes-purpose :
    (p : Policy) (o : Originator) (c : Command)
    → p.mode ≡ controls
    → p.cloud_may_pair_accessories ≡ false
    → allowed (evaluate p to_device (purpose c) o) ≡ passes c
unfolding allowed evaluate decide_to_device controls_to_device
passes-purpose p o (write_single w value) m q = rw m refl
passes-purpose p o (trigger r value) m q = rw m refl
passes-purpose p o (write_range_of start values) m q = rw m refl
passes-purpose p o (read_single r) m q = rw m refl
passes-purpose p o (write_config_of c value) m q = rw (m, q) refl
passes-purpose p o (read_config_of []) m q = rw m refl
passes-purpose p o (read_config_of (r ∷ rs)) m q = rw m refl

-- In controls mode, with the accessory list closed, a frame that carries a command to a named
-- device passes towards it, whoever sent it, exactly if the command is no config write and asks
-- for something: of all that this program can say itself, the cloud may not configure the device.
pub allowed-to_frame :
    (p : Policy) (o : Originator) (c : Command) (id : List ℕ) (f : Frame)
    → p.mode ≡ controls
    → p.cloud_may_pair_accessories ≡ false
    → All IsByte (Body.body c)
    → id ≢ []
    → to_frame c id ≡ ok f
    → allowed (evaluate p to_device (intent f to_device) o) ≡ passes c
allowed-to_frame p o c id f m q octets ne e =
    rw (intent-to_frame c id f octets ne e) (passes-purpose p o c m q)
