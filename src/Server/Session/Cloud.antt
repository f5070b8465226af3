-- ===== src/Server/Session/Cloud.antt =====
-- The relay of src/server/session.rs: what goes up to the cloud, what comes down to the device, and
-- what the policy withholds.
use heliobridge.Base.{ℕ, Bool, true, false, Option, none, some, List, if◌then◌else◌}
use heliobridge.Base.Results.{Result, ok, err}
use heliobridge.Mqtt.{Packet, Publish}
use heliobridge.Mqtt.Stream.{StreamError}
use heliobridge.Recorder.{down, blocked}
use heliobridge.Driver.Arbiter.{
  Policy, Direction, to_device, to_cloud, Intent, Originator, needs_attribution, claim, remember,
  evaluate, refusal, Refusal, CloudCommands,
}
use heliobridge.Driver.Seam.{Driver, CloudMessage, Unreadable}
use heliobridge.Server.Session.{
  Session, Act, ◌>>=◌, ◌>>◌, modify, Moment, forwards, offers, note, bump, record_frame,
}
use heliobridge.Server.Session.Device.{send_packet, packet_id_for, publish_of}

-- `relay.is_some()` of a `Refusal`
abbrev pub is_refused : Option Refusal → Bool
is_refused none = false
is_refused (some r) = true

-- Who an uplink frame is put down to, and the commands still outstanding.
unfoldable pub originator_of : Intent → ℕ → CloudCommands → Originator × CloudCommands
originator_of intent now q =
    if needs_attribution intent then claim intent now q else (Originator.unknown, q)

-- `Session::start_relay`, of which the relay's parts are the driver's.
unfoldable pub start_relay_as : (List ℕ → Bool) → Option (List ℕ) → Session → Session
start_relay_as starts none s = s
start_relay_as starts (some device_id) s =
    if s.cloud then (if starts device_id then record s { relay = true } else s) else s

module _ (D : Driver) where
  -- `Session::start_relay`
  unfoldable pub start_relay : Session → Session
  unfolding start_relay_as
  start_relay s = start_relay_as D.starts_relay s.device_id s

  -- The intent of a frame, or of one that could not be read.
  unfoldable pub intent_of : Option D.Frame → Direction → Intent
  intent_of none d = Intent.unrecognised
  intent_of (some frame) d = D.intent frame d

  unfoldable pub hand_over : CloudMessage → Session → Session
  hand_over m s =
      if D.try_forward m
      then note (forwards m) s
      else record s { stats = record s.stats { relay_dropped = bump s.stats.relay_dropped } }

  -- What `forward_to_cloud` does once the policy has spoken.
  unfoldable pub uplink : Option Refusal → CloudMessage → Session → Session
  unfolding hand_over
  uplink none m s = hand_over m s
  uplink (some r) m s = record s {
    stats = record s.stats { withheld_from_cloud = bump s.stats.withheld_from_cloud };
  }

  unfoldable pub message_of : Publish → CloudMessage
  message_of p = record { topic = p.topic; qos = p.qos; payload = p.payload }

  -- `Session::forward_to_cloud`
  unfoldable pub forward_to_cloud : ℕ → Publish → Option D.Frame → Session → Session
  unfolding uplink originator_of intent_of message_of
  forward_to_cloud now p frame s =
      let intent : Intent = intent_of frame to_cloud in
      let who : Originator × CloudCommands = originator_of intent now s.cloud_commands in
      if s.relay
      then uplink (refusal (evaluate s.policy to_cloud intent who.0)) (message_of p)
          (record s { cloud_commands = who.1 })
      else s

  abbrev pub readable : Result Unreadable D.Frame → Option D.Frame
  readable (ok frame) = some frame
  readable (err e) = none

  -- `Wire::parse`
  unfoldable pub parse : List ℕ → Option D.Frame
  parse payload = readable (D.read payload)

  -- `Session::offer_to_firmware`
  unfoldable pub offer_to_firmware : CloudMessage → Bool → Session → Session
  offer_to_firmware m refused s =
      if s.firmware
      then note (offers m.payload refused) (
          if D.offers_update m.payload refused
          then record s {
            stats = record s.stats { update_campaign = bump s.stats.update_campaign };
          }
          else s)
      else s

module _ (D : Driver) (refuses : List Packet → Packet → Option StreamError) where
  -- What `forward_to_device` does once the policy has spoken.
  unfoldable pub downlink : ℕ → Option Refusal → Intent → CloudMessage → Act (Unit {0})
  unfolding bump record_frame remember packet_id_for send_packet publish_of
  downlink now (some r) intent m = modify λ s.
      record_frame blocked m.payload
        (record s { stats = record s.stats { refused_to_device = bump s.stats.refused_to_device } })
  downlink now none intent m = do
    modify λ s. record s { cloud_commands = remember intent now s.cloud_commands }
    id ← packet_id_for m.qos
    send_packet D refuses (publish_of m.topic m.qos id m.payload)

  -- What is counted and recorded of every message of the cloud.
  unfoldable pub receive : CloudMessage → Session → Session
  unfolding bump record_frame
  receive m s =
      record_frame down m.payload
        (record s { stats = record s.stats { relay_received = bump s.stats.relay_received } })

  unfoldable pub decided : Policy → Intent → Option Refusal
  decided p intent = refusal (evaluate p to_device intent Originator.cloud)

  -- `Session::forward_to_device`
  unfoldable pub forward_to_device : Moment → CloudMessage → Act (Unit {0})
  unfolding downlink receive decided offer_to_firmware intent_of parse
  forward_to_device at m s =
      let intent : Intent = intent_of D (parse D m.payload) to_device in
      let spoken : Option Refusal = decided s.policy intent in
      downlink at.instant spoken intent m (offer_to_firmware D m (is_refused spoken) (receive m s))
