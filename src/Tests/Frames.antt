-- ===== src/Tests/Frames.antt =====
-- Frames of src/growatt/v7 on concrete octets.
use heliobridge.Base.{false, refl, ◌≡◌, ◌≢◌, ℕ, ◌+◌, ◌%◌, List, [], ◌∷◌, arith, All, All-append}
use heliobridge.Growatt.Classify.{intent}
use heliobridge.Growatt.Classify.Commands.{passes, allowed-to_frame}
use heliobridge.Driver.Arbiter.{Policy, controls, cloud_only, cloud, to_device, allowed, evaluate}
use heliobridge.Base.Octets.{sat_add_u16, clamp_u16, IsByte, be16, be16-IsByte}
use heliobridge.Base.Text.{is_utf8}
use heliobridge.Base.Results.{Result, ok, err}
use heliobridge.Model.{Timestamp}
use heliobridge.Growatt.MessageType.{read_single_register}
use heliobridge.Growatt.Frame.{Frame, new, parse, to_wire, transform, message_type, body}
use heliobridge.Growatt.Frame.Transform.{transform-IsByte}
use heliobridge.Growatt.Frame.Wire.{IsFrame, parse-to_wire, to_wire-parse}
use heliobridge.Growatt.Frame.New.{new_lem}
use heliobridge.Growatt.Encode.{format_time, WritableConfig, write_config_of, config_number}
use heliobridge.Growatt.Encode.Body
use heliobridge.Growatt.Encode.Body.{to_frame}
use heliobridge.Growatt.Decode.{config_write_of}
use heliobridge.Growatt.Decode.Config.{IsValue, config_write_round_trip}

-- A checksum to compute with: the octets' sum.
abbrev sum : List ℕ → ℕ
sum [] = 0
sum (x ∷ xs) = x + sum xs

abbrev checksum : List ℕ → ℕ
checksum xs = sum xs % 65536

abbrev built : {E : Type 0} → Result E Frame → Frame
built (ok f) = f
built (err e) = record { plain = []; device_id = [] }

abbrev device : List ℕ
device = 0x41 ∷ (0x42 ∷ [])

abbrev read_octets : List ℕ
read_octets = 1 ∷ (54 ∷ (1 ∷ (54 ∷ [])))

abbrev sample : Frame
sample = built (new read_single_register device read_octets)

device-named : device ≢ []
device-named h = absurd (ground arith)

sample-built : new read_single_register device read_octets ≡ ok sample
unfolding new
sample-built = refl

new_lem_example :
    IsFrame sample
    × (message_type sample ≡ read_single_register)
    × (body sample ≡ read_octets)
    × (sample.device_id ≡ device)
new_lem_example =
    new_lem read_single_register device read_octets sample tt (omega arith) device-named
      sample-built

sample-IsFrame : IsFrame sample
sample-IsFrame =
    (new_lem read_single_register device read_octets sample tt (omega arith) device-named
      sample-built).0

parse-to_wire_example : parse checksum (to_wire checksum sample) ≡ ok sample
parse-to_wire_example = parse-to_wire checksum sample sample-IsFrame

sample-octets : All IsByte (to_wire checksum sample)
unfolding to_wire
sample-octets =
    let w = transform sample.plain in
    All-append IsByte w (be16 (checksum w))
      (transform-IsByte sample.plain (IsFrame.octets sample-IsFrame))
      (be16-IsByte (checksum w) (omega arith))

parsed : parse checksum (to_wire checksum sample) ≡ ok sample
parsed = parse-to_wire checksum sample sample-IsFrame

to_wire-parse_example : to_wire checksum sample ≡ to_wire checksum sample
to_wire-parse_example = to_wire-parse checksum (to_wire checksum sample) sample sample-octets parsed

abbrev zone : List ℕ
zone = 0x2b ∷ (0x32 ∷ [])

abbrev config_frame : Frame
config_frame = built (to_frame (write_config_of WritableConfig.clock zone) device)

config-built : to_frame (write_config_of WritableConfig.clock zone) device ≡ ok config_frame
unfolding to_frame new Body.body be16
config-built = refl

zone-IsValue : IsValue zone
zone-IsValue = record { fits = omega arith; text = unfold is_utf8 in refl; no_nul = omega arith }

config_write_round_trip_example :
    (parse checksum (to_wire checksum config_frame) ≡ ok config_frame)
    × (config_write_of config_frame
        ≡ ok (record { register = config_number WritableConfig.clock; value = zone } ∷ []))
config_write_round_trip_example =
    config_write_round_trip checksum WritableConfig.clock zone device config_frame zone-IsValue
      (omega arith) device-named config-built

config-octets : All IsByte (Body.body (write_config_of WritableConfig.clock zone))
unfolding Body.body be16 config_number sat_add_u16 clamp_u16
config-octets = omega arith

-- The default policy.
abbrev guarded : Policy
guarded = record { mode = controls; answers = cloud_only; cloud_may_pair_accessories = false }

allowed-to_frame_example :
    allowed (evaluate guarded to_device (intent config_frame to_device) cloud)
    ≡ passes (write_config_of WritableConfig.clock zone)
allowed-to_frame_example =
    allowed-to_frame guarded cloud (write_config_of WritableConfig.clock zone) device config_frame
      refl refl config-octets device-named config-built

abbrev time : Timestamp
time = record { year = 2026; month = 3; day = 29; hour = 2; minute = 30; second = 5 }

abbrev time_frame : Frame
time_frame = built (to_frame (write_config_of WritableConfig.clock (format_time time)) device)
