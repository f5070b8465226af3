-- ===== src/Server/Session/Core.antt =====
-- The part of a session of src/server/session.rs that its invariants and its read queue are about,
-- and the operations that leave it alone.
use heliobridge.Server.Clock.{between}
use heliobridge.Base.Int.{ℤ}
use heliobridge.Base.{
  map, ◌≡◌, refl, ◌∙◌, ℕ, Bool, true, false, Option, none, some, List, [], ◌∷◌, if◌then◌else◌,
}
use heliobridge.Base.Results.{Result, ok, err}
use heliobridge.Model.{Register, Raw, Timestamp}
use heliobridge.Mqtt.{Packet, Publish}
use heliobridge.Recorder.{Stream}
use heliobridge.Driver.Arbiter.{Refusal}
use heliobridge.Driver.Report.{Telemetry, Identity, AccessoryReading}
use heliobridge.Driver.Seam.{Driver, CloudMessage, Unreadable}
use heliobridge.Control.{Caller, Outcome}
use heliobridge.Server.Access.{Devices}
use heliobridge.Server.Session.{
  Session, Described, PendingRead, Effect, records, answers, forwards, offers, shows_settings,
  shows_identity, shows_telemetry, shows_accessory, shows_status, record_frame,
}
use heliobridge.Server.Session.Reads.{publish_settings, keep, accept_snapshot}
use heliobridge.Server.Session.Reported.{
  publish_status, publish_telemetry, publish_accessory, publish_identity, take_telemetry,
  accept_identity, show_identity, note_product, described_by,
}
use heliobridge.Server.Session.Device.{check_clock, compare_clocks, warn_of}
use heliobridge.Server.Session.Cloud.{hand_over, uplink, forward_to_cloud, offer_to_firmware}
use heliobridge.Server.Session.Turn.{count_frame}

-- The answers given, the newest first.
unfoldable pub answered : List Effect → List (Caller × Outcome)
answered [] = []
answered (answers caller outcome ∷ es) = (caller, outcome) ∷ answered es
answered (records channel payload ∷ es) = answered es
answered (forwards m ∷ es) = answered es
answered (offers payload refused ∷ es) = answered es
answered (shows_settings v ∷ es) = answered es
answered (shows_identity d r ∷ es) = answered es
answered (shows_telemetry t ∷ es) = answered es
answered (shows_accessory r ∷ es) = answered es
answered (shows_status ∷ es) = answered es

pub record Core : Type 0 where
  pub written : List Packet
  pub next_packet_id : ℕ
  pub device_id : Option (List ℕ)
  pub devices : Devices
  pub relay : Bool
  pub registered : Bool
  pub time_push_due : Option ℕ
  pub reads : List PendingRead
  pub awaiting : Option PendingRead
  pub pending_read : Option Register
  pub read_deadline : Option ℕ
  pub awaiting_ack : Option ℕ
  pub replies : List (Caller × Outcome)

abbrev pub core : Session → Core
core s = record {
  written = s.written;
  next_packet_id = s.next_packet_id;
  device_id = s.device_id;
  devices = s.devices;
  relay = s.relay;
  registered = s.registered;
  time_push_due = s.time_push_due;
  reads = s.reads;
  awaiting = s.awaiting;
  pending_read = s.pending_read;
  read_deadline = s.read_deadline;
  awaiting_ack = s.awaiting_ack;
  replies = answered s.effects;
}

pub core-if :
    (test : Bool) (t s : Session) → core t ≡ core s → core (if test then t else s) ≡ core s
core-if true t s h = h
core-if false t s h = refl

pub core-either :
    (test : Bool) (t u s : Session)
    → core t ≡ core s
    → core u ≡ core s
    → core (if test then t else u) ≡ core s
core-either true t u s h k = h
core-either false t u s h k = k

pub core-record_frame :
    (channel : Stream) (payload : List ℕ) (s : Session)
    → core (record_frame channel payload s) ≡ core s
unfolding record_frame answered
core-record_frame channel payload s = core-if s.recorder _ s refl

pub core-publish_status : (s : Session) → core (publish_status s) ≡ core s
unfolding publish_status answered
core-publish_status s = core-if s.registered _ s refl

core-publish_telemetry : (t : Telemetry) (s : Session) → core (publish_telemetry t s) ≡ core s
unfolding publish_telemetry answered
core-publish_telemetry t s = core-if s.registered _ s refl

pub core-publish_accessory :
    (r : AccessoryReading) (s : Session) → core (publish_accessory r s) ≡ core s
unfolding publish_accessory answered
core-publish_accessory r s = core-if s.registered _ s refl

core-show_identity :
    (d : Option Described) (reported : List Register) (s : Session)
    → core (show_identity d reported s) ≡ core s
unfolding show_identity answered
core-show_identity none reported s = refl
core-show_identity (some d) reported s = core-if s.registered _ s refl

pub core-publish_identity :
    (reported : List Register) (s : Session) → core (publish_identity reported s) ≡ core s
unfolding publish_identity
core-publish_identity reported s = core-show_identity s.identity reported s

pub core-take_telemetry : (t : Telemetry) (s : Session) → core (take_telemetry t s) ≡ core s
unfolding take_telemetry
core-take_telemetry t s =
    core-either t.buffered _ _ s refl (core-publish_status _ ∙ core-publish_telemetry t _)

core-warn_of : (skew : Option ℤ) (s : Session) → core (warn_of skew s) ≡ core s
unfolding warn_of
core-warn_of none s = refl
core-warn_of (some skew) s = core-if _ _ s refl

core-compare_clocks :
    (held : Option Timestamp) (ours : Timestamp) (s : Session)
    → core (compare_clocks held ours s) ≡ core s
unfolding compare_clocks
core-compare_clocks none ours s = refl
core-compare_clocks (some theirs) ours s = core-warn_of (between ours theirs) s

pub core-check_clock : (ours : Timestamp) (s : Session) → core (check_clock ours s) ≡ core s
unfolding check_clock
core-check_clock ours s = core-compare_clocks s.device_time ours s

module _ (D : Driver) where
  pub core-publish_settings : (s : Session) → core (publish_settings D s) ≡ core s
  unfolding publish_settings answered
  core-publish_settings s = core-if s.registered _ s refl

  pub core-keep : (r : Register) (raw : Raw) (s : Session) → core (keep D r raw s) ≡ core s
  unfolding keep
  core-keep r raw s = core-publish_settings _

  pub core-accept_snapshot :
      (values : List (Register × Raw)) (s : Session) → core (accept_snapshot D values s) ≡ core s
  unfolding accept_snapshot
  core-accept_snapshot values s = core-either _ _ _ s (core-publish_settings _) refl

  pub core-accept_identity : (i : Identity) (s : Session) → core (accept_identity D i s) ≡ core s
  unfolding accept_identity note_product
  core-accept_identity i s =
      core-publish_identity (map (λ f. f.register) i.fields)
        (note_product D (record s { identity = some (described_by s.identity i) }))

  core-hand_over : (m : CloudMessage) (s : Session) → core (hand_over D m s) ≡ core s
  unfolding hand_over answered
  core-hand_over m s = core-either _ _ _ s refl refl

  core-uplink :
      (r : Option Refusal) (m : CloudMessage) (s : Session) → core (uplink D r m s) ≡ core s
  unfolding uplink
  core-uplink none m s = core-hand_over m s
  core-uplink (some r) m s = refl

  pub core-forward_to_cloud :
      (now : ℕ) (p : Publish) (f : Option D.Frame) (s : Session)
      → core (forward_to_cloud D now p f s) ≡ core s
  unfolding forward_to_cloud
  core-forward_to_cloud now p f s = core-if s.relay _ s (core-uplink _ _ _)

  pub core-offer_to_firmware :
      (m : CloudMessage) (refused : Bool) (s : Session)
      → core (offer_to_firmware D m refused s) ≡ core s
  unfolding offer_to_firmware answered
  core-offer_to_firmware m refused s = core-if s.firmware _ s (core-if _ _ s refl)

  pub core-count_frame :
      (r : Result Unreadable D.Frame) (s : Session) → core (count_frame D r s) ≡ core s
  unfolding count_frame
  core-count_frame (ok f) s = refl
  core-count_frame (err e) s = refl
