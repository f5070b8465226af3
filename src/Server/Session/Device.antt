-- ===== src/Server/Session/Device.antt =====
-- What src/server/session.rs sends to the device: reads held while a write is unacknowledged, the
-- clock push, and the commands of the control API. Whether the stream takes a packet, given those
-- that it took before, is a parameter.
use heliobridge.Server.Clock.{between, is_significant}
use heliobridge.Base.{
  ℕ, ◌+◌, Bool, true, false, Option, none, some, List, [], ◌∷◌, ◌++◌, ◌==◌, if◌then◌else◌,
}
use heliobridge.Base.Int.{ℤ}
use heliobridge.Base.Text.{codes}
use heliobridge.Base.Results.{Result, ok, err}
use heliobridge.Model.{Register, Raw, Timestamp}
use heliobridge.Mqtt.{Packet, publish, QoS, at_most_once, at_least_once}
use heliobridge.Mqtt.Stream.{StreamError}
use heliobridge.Recorder.{inject}
use heliobridge.Driver.Commands.{Command, Outgoing}
use heliobridge.Driver.Seam.{Driver, ConfigField}
use heliobridge.Control.{Action, Request, apply, refresh, send, Caller, read_back, sent, not_sent}
use heliobridge.Server.Session.{
  Session, PendingRead, SessionError, encode, stream, display, Act, done, fail, modify, ◌>>=◌, ◌>>◌,
  Moment, record_frame, note, answers, ack_reply_timeout,
}
use heliobridge.Server.Session.Reads.{enqueue_verification, enqueue_all}

-- `Session::take_packet_id`: the identifier, and the session that has counted on.
unfoldable pub following_id : ℕ → ℕ
following_id id = if id == 65535 then 1 else id + 1

unfoldable pub take_packet_id : Act ℕ
unfolding following_id
take_packet_id s =
    (record s { next_packet_id = following_id s.next_packet_id }, ok s.next_packet_id)

-- `if qos == QoS::AtMostOnce { None } else { Some(self.take_packet_id()) }`
unfoldable pub packet_id_for : QoS → Act (Option ℕ)
unfolding take_packet_id
packet_id_for at_most_once = done none
packet_id_for at_least_once = do id ← take_packet_id; done (some id)

-- `format!("s/{device_id}")`
unfoldable pub command_topic : List ℕ → List ℕ
command_topic device_id = codes "s/" ++ device_id

-- A PUBLISH of a frame to the device.
unfoldable pub publish_of : List ℕ → QoS → Option ℕ → List ℕ → Packet
publish_of topic qos packet_id payload = publish (record {
  topic = topic;
  qos = qos;
  retain = false;
  dup = false;
  packet_id = packet_id;
  payload = payload;
})

-- `Session::check_clock_against_device`, of which only the warning's having been given is kept.
unfoldable pub warn_of : Option ℤ → Session → Session
unfolding is_significant
warn_of none s = s
warn_of (some skew) s = if is_significant skew then record s { warned_about_skew = true } else s

unfoldable pub compare_clocks : Option Timestamp → Timestamp → Session → Session
unfolding warn_of between
compare_clocks none ours s = s
compare_clocks (some theirs) ours s = warn_of (between ours theirs) s

unfoldable pub check_clock : Timestamp → Session → Session
unfolding compare_clocks
check_clock ours s = compare_clocks s.device_time ours s

-- What `Session::transmit` does to the reads before an acknowledged write.
unfoldable pub put_back : Option PendingRead → Session → Session
put_back none s = s
put_back (some r) s = record s { awaiting = none; reads = r ∷ s.reads }

unfoldable pub stand_down : Session → Session
unfolding put_back
stand_down s = record (put_back s.awaiting s) { pending_read = none; read_deadline = none }

-- `registers.first().and_then(|r| self.driver.config(*r))` and its like
abbrev first_config : (Register → Option ConfigField) → List Register → Option ConfigField
first_config config [] = none
first_config config (r ∷ rs) = config r

module _ (D : Driver) (refuses : List Packet → Packet → Option StreamError) where
  -- `Session::send`
  unfoldable pub write_unless : Option StreamError → Packet → Act (Unit {0})
  write_unless none p s = (record s { written = p ∷ s.written }, ok tt)
  write_unless (some e) p s = (s, err (stream e))

  unfoldable pub send_packet : Packet → Act (Unit {0})
  unfolding write_unless
  send_packet p s = write_unless (refuses s.written p) p s

  abbrev pub or_default : Option (List ℕ) → List ℕ
  or_default none = []
  or_default (some id) = id

  abbrev pub prepared : Result (List ℕ) Outgoing → Act Outgoing
  prepared (ok out) = done out
  prepared (err e) = fail (encode e)

  -- `Session::prepare`
  unfoldable pub prepare : Command → Act Outgoing
  prepare command s = prepared (D.prepare (or_default s.device_id) command) s

  -- A frame of this program's own at QoS 1, recorded as it goes.
  unfoldable pub inject_publish : List ℕ → List ℕ → Act (Unit {0})
  unfolding take_packet_id send_packet record_frame publish_of command_topic
  inject_publish device_id payload = do
    modify (record_frame inject payload)
    id ← take_packet_id
    send_packet (publish_of (command_topic device_id) at_least_once (some id) payload)

  unfoldable pub send_read : Option (List ℕ) → Register → Act (Unit {0})
  unfolding prepare inject_publish
  send_read none register = done tt
  send_read (some device_id) register = do
    out ← prepare (Command.read register)
    inject_publish device_id out.payload

  unfoldable pub send_if_pending : Option Register → Act (Unit {0})
  unfolding send_read
  send_if_pending none s = (s, ok tt)
  send_if_pending (some register) s =
      send_read s.device_id register (record s { pending_read = none })

  -- `Session::send_pending_read`: the hold of an unacknowledged write, and then the rest.
  unfoldable pub send_unless_held : Option ℕ → Act (Unit {0})
  unfolding send_if_pending
  send_unless_held (some deadline) s = (s, ok tt)
  send_unless_held none s = send_if_pending s.pending_read s

  unfoldable pub send_pending_read : Act (Unit {0})
  unfolding send_unless_held
  send_pending_read s = send_unless_held s.awaiting_ack s

  unfoldable pub push_time_to : Option (List ℕ) → Timestamp → Act (Unit {0})
  unfolding prepare inject_publish check_clock
  push_time_to none now = done tt
  push_time_to (some device_id) now = do
    modify (check_clock now)
    out ← prepare (Command.push_time now)
    inject_publish device_id out.payload

  -- `Session::push_time`
  unfoldable pub push_time : Moment → Act (Unit {0})
  unfolding push_time_to
  push_time at s = push_time_to s.device_id at.wall s

  -- Both tests of `Session::transmit` on whether the write is acknowledged.
  unfoldable pub before_write : Bool → Session → Session
  unfolding stand_down
  before_write acknowledged s = if acknowledged then stand_down s else s

  unfoldable pub after_write : Moment → Bool → Session → Session
  after_write at acknowledged s =
      if acknowledged then record s { awaiting_ack = some (at.instant + ack_reply_timeout) } else s

  unfoldable pub transmit_out : Moment → List ℕ → Outgoing → Act (List (Register × Option Raw))
  unfolding before_write after_write record_frame packet_id_for send_packet publish_of command_topic
  transmit_out at device_id out = do
    modify (before_write out.acknowledged)
    modify (record_frame inject out.payload)
    id ← packet_id_for out.qos
    send_packet (publish_of (command_topic device_id) out.qos id out.payload)
    modify (after_write at out.acknowledged)
    done out.verify

  unfoldable pub transmit_to :
      Moment → Option (List ℕ) → Command → Act (List (Register × Option Raw))
  unfolding prepare transmit_out
  transmit_to at none command = done []
  transmit_to at (some device_id) command = do out ← prepare command; transmit_out at device_id out

  -- `Session::transmit`
  unfoldable pub transmit : Moment → Command → Act (List (Register × Option Raw))
  unfolding transmit_to
  transmit at command s = transmit_to at s.device_id command s

  -- What `handle_control` does about an applied command's read-backs.
  unfoldable pub confirm : Moment → Caller → List (Register × Option Raw) → Act (Unit {0})
  unfolding enqueue_all send_pending_read
  confirm at reply [] = modify (note (answers reply (read_back (D.describe 0) none 0)))
  confirm at reply (first ∷ more) = do
    modify (enqueue_all D at.instant (first ∷ more) (some reply))
    send_pending_read

  -- The field that an answer to `Action::Send` names.
  unfoldable pub field_of : Command → Option ConfigField
  field_of (Command.write_config register value) = D.config register
  field_of (Command.read_config registers) = first_config D.config registers
  field_of _ = none

  -- `Action::Send` once the command has been transmitted, or has failed to be.
  unfoldable pub report_sent :
      Caller
      → Command
      → Session × Result SessionError (List (Register × Option Raw))
      → Session × Result SessionError (Unit {0})
  unfolding send_pending_read field_of
  report_sent reply command (s, ok verify) =
      send_pending_read (note (answers reply (sent command (field_of command))) s)
  report_sent reply command (s, err e) =
      (note (answers reply (not_sent command (field_of command) (display e))) s, err e)

  -- `Session::handle_control`
  unfoldable pub carry_out : Moment → Action → Caller → Act (Unit {0})
  unfolding transmit confirm report_sent enqueue_verification send_pending_read
  carry_out at (refresh register) reply s =
      send_pending_read (enqueue_verification D at.instant register none (some reply) s)
  carry_out at (apply command) reply s =
      (transmit at command >>= λ verify. confirm at reply verify) s
  carry_out at (send command) reply s = report_sent reply command (transmit at command s)

  unfoldable pub handle_control : Moment → Request → Act (Unit {0})
  unfolding carry_out
  handle_control at request = carry_out at request.action request.reply
