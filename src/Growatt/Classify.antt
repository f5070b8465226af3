-- ===== src/Growatt/Classify.antt =====
-- src/growatt/v7/classify.rs: what a frame intends, which is what the relay policy judges.
pub mod Commands
use heliobridge.Base.{ℕ, Option, none, some, List}
use heliobridge.Base.Octets.{word_at}
use heliobridge.Model.{Register}
use heliobridge.Growatt.MessageType.{
  MessageType, telemetry, buffered_telemetry, accessory_telemetry, settings_snapshot,
  identity_report, config_read, config_write, read_single_register, write_single_register,
  write_register_range, unrecognised,
}
use heliobridge.Growatt.Frame
use heliobridge.Growatt.Frame.{Frame, message_type}
use heliobridge.Driver.Arbiter.{Direction, Intent, to_device, to_cloud}

-- `Frame::register_at`
unfoldable pub register_at : List ℕ → ℕ → Option Register
register_at body offset = word_at body offset

-- `Frame::write_intent`
unfoldable pub write_intent : Direction → Register → Register → Intent
write_intent to_device start end = Intent.write_settings start end
write_intent to_cloud start end = Intent.write_ack start end

abbrev with_register : Option Register → (Register → Intent) → Intent
with_register none intent = Intent.unrecognised
with_register (some r) intent = intent r

-- `Frame::intent`, over the frame's type and body.
unfoldable pub intent_of : MessageType → Direction → List ℕ → Intent
unfolding write_intent
intent_of telemetry d body = Intent.telemetry
intent_of buffered_telemetry d body = Intent.telemetry
intent_of accessory_telemetry d body = Intent.telemetry
intent_of settings_snapshot d body = Intent.settings_snapshot
intent_of identity_report d body = Intent.identity
intent_of config_read to_device body =
    with_register (register_at body 2) (λ r. Intent.read_request r)
intent_of config_read to_cloud body =
    with_register (register_at body 3) (λ r. Intent.read_response r)
intent_of config_write d body = with_register (register_at body 4) (λ r. Intent.write_config r)
intent_of read_single_register to_device body =
    with_register (register_at body 0) (λ r. Intent.read_request r)
intent_of read_single_register to_cloud body =
    with_register (register_at body 0) (λ r. Intent.read_response r)
intent_of write_single_register d body =
    with_register (register_at body 0) (λ r. write_intent d r r)
intent_of write_register_range d body =
    with_register (register_at body 0)
      (λ start. with_register (register_at body 2) (λ end. write_intent d start end))
intent_of (unrecognised a f) d body = Intent.unrecognised

-- `Frame::intent`
unfoldable pub intent : Frame → Direction → Intent
unfolding intent_of
intent f d = intent_of (message_type f) d (Frame.body f)
