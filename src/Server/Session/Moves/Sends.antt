-- ===== src/Server/Session/Moves/Sends.antt =====
-- What is sent to the device in src/server/session.rs, as moves.
use heliobridge.Base.{◌+◌, ◌≡◌, refl, ℕ, Bool, true, false, Option, none, some, List, []}
use heliobridge.Base.Results.{Result, ok, err}
use heliobridge.Model.{Register, Timestamp}
use heliobridge.Mqtt.{Packet, QoS, at_most_once, at_least_once}
use heliobridge.Mqtt.Stream.{StreamError}
use heliobridge.Recorder.{Stream, inject}
use heliobridge.Driver.Commands.{Command, Outgoing}
use heliobridge.Driver.Seam.{Driver}
use heliobridge.Server.Session.{
  Session, ack_reply_timeout, SessionError, PendingRead, Act, continues, Moment, record_frame,
}
use heliobridge.Server.Session.Core.{core-record_frame, core-check_clock}
use heliobridge.Server.Session.Moves.{
  none_made, made, then_made, rests, puts_back, takes_pending, counts, writes, publishes, holds,
  WellNumbered,
}
use heliobridge.Server.Session.Moves.Reads.{Leads, quietly}
use heliobridge.Server.Session.Device
use heliobridge.Server.Session.Device.{
  following_id, take_packet_id, packet_id_for, write_unless, send_packet, prepare, prepared,
  inject_publish, send_read, send_if_pending, send_unless_held, send_pending_read, push_time_to,
  push_time, stand_down, before_write, after_write, transmit_out, transmit_to, transmit, confirm,
  report_sent, carry_out, handle_control, publish_of, command_topic, check_clock, or_default,
}

-- An operation that neither takes a caller on nor forgets one.
abbrev pub Still : {A : Type 0} → Act A → Type 0
Still m = (s : Session) → Leads [] s (m s).0

pub bind-Leads :
    {A B : Type 0} (s : Session) (out : Session × Result SessionError A) (f : A → Act B)
    → Leads [] s out.0
    → ((a : A) → Still (f a))
    → Leads [] s (continues f out).0
bind-Leads s (t, ok a) f l k = then_made l (k a t)
bind-Leads s (t, err e) f l k = l

pub record_frame-Leads :
    (channel : Stream) (payload : List ℕ) (s : Session)
    → Leads [] s (record_frame channel payload s)
record_frame-Leads channel payload s =
    quietly s (record_frame channel payload s) (core-record_frame channel payload s)

put_back-Leads :
    (busy : Option PendingRead) (s : Session)
    → s.awaiting ≡ busy
    → Leads [] s (Device.put_back busy s)
unfolding Device.put_back
put_back-Leads none s e = none_made refl
put_back-Leads (some r) s e = made (puts_back r e)

put_back-idle :
    (busy : Option PendingRead) (s : Session)
    → s.awaiting ≡ busy
    → (Device.put_back busy s).awaiting ≡ none
unfolding Device.put_back
put_back-idle none s e = e
put_back-idle (some r) s e = refl

module _ (D : Driver) (refuses : List Packet → Packet → Option StreamError) where
  before_write-Leads :
      (acknowledged : Bool) (s : Session) → Leads [] s (before_write D refuses acknowledged s)
  unfolding before_write stand_down
  before_write-Leads true s =
      then_made (put_back-Leads s.awaiting s refl)
        (made (rests none (put_back-idle s.awaiting s refl)))
  before_write-Leads false s = none_made refl

  after_write-Leads :
      (at : Moment) (acknowledged : Bool) (s : Session)
      → Leads [] s (after_write D refuses at acknowledged s)
  unfolding after_write
  after_write-Leads at true s = made (holds (some (at.instant + ack_reply_timeout)))
  after_write-Leads at false s = none_made refl

  pub write_unless-Leads :
      (e : Option StreamError) (p : Packet) → WellNumbered p → Still (write_unless D refuses e p)
  unfolding write_unless
  write_unless-Leads none p n s = made (writes p n)
  write_unless-Leads (some e) p n s = none_made refl

  pub send_packet-Leads : (p : Packet) → WellNumbered p → Still (send_packet D refuses p)
  unfolding send_packet
  send_packet-Leads p n s = write_unless-Leads (refuses s.written p) p n s

  publish_unless-Leads :
      (e : Option StreamError) (topic payload : List ℕ) (s : Session)
      → Leads [] s
          (write_unless D refuses e
            (publish_of topic at_least_once (some s.next_packet_id) payload)
            (record s { next_packet_id = following_id s.next_packet_id })).0
  unfolding write_unless
  publish_unless-Leads none topic payload s = made (publishes topic payload)
  publish_unless-Leads (some e) topic payload s = made counts

  -- A PUBLISH at a quality of service, with the identifier that it takes.
  pub publish-Leads :
      (qos : QoS) (topic payload : List ℕ) (s : Session)
      → Leads [] s
          (continues
            (λ id. send_packet D refuses (publish_of topic qos id payload))
            (packet_id_for qos s)).0
  unfolding packet_id_for take_packet_id send_packet
  publish-Leads at_most_once topic payload s =
      send_packet-Leads (publish_of topic at_most_once none payload) (unfold publish_of in tt) s
  publish-Leads at_least_once topic payload s = publish_unless-Leads _ topic payload s

  -- And with something to do once it is sent.
  publish_then-Leads :
      {A : Type 0} (qos : QoS) (topic payload : List ℕ) (f : Unit {0} → Act A) (s : Session)
      → ((u : Unit {0}) → Still (f u))
      → Leads [] s
          (continues
            (λ id t. continues f (send_packet D refuses (publish_of topic qos id payload) t))
            (packet_id_for qos s)).0
  unfolding packet_id_for take_packet_id
  publish_then-Leads at_most_once topic payload f s h =
      let p : Packet = publish_of topic at_most_once none payload in
      bind-Leads s (send_packet D refuses p s) f (send_packet-Leads p (unfold publish_of in tt) s) h
  publish_then-Leads at_least_once topic payload f s h =
      let p : Packet = publish_of topic at_least_once (some s.next_packet_id) payload in
      let counted : Session = record s { next_packet_id = following_id s.next_packet_id } in
      bind-Leads s (send_packet D refuses p counted) f (publish-Leads at_least_once topic payload s)
        h

  prepared-Still : (r : Result (List ℕ) Outgoing) → Still (prepared D refuses r)
  prepared-Still (ok out) s = none_made refl
  prepared-Still (err e) s = none_made refl

  prepare-Still : (command : Command) → Still (prepare D refuses command)
  unfolding prepare
  prepare-Still command s = prepared-Still (D.prepare (or_default D refuses s.device_id) command) s

  inject_publish-Still :
      (device_id payload : List ℕ) → Still (inject_publish D refuses device_id payload)
  unfolding inject_publish take_packet_id packet_id_for
  inject_publish-Still device_id payload s = then_made (record_frame-Leads inject payload s) (
      publish-Leads at_least_once (command_topic device_id) payload (record_frame inject payload s))

  send_read-Still :
      (device_id : Option (List ℕ)) (r : Register) → Still (send_read D refuses device_id r)
  unfolding send_read
  send_read-Still none r s = none_made refl
  send_read-Still (some device_id) r s =
      bind-Leads s (prepare D refuses (Command.read r) s)
        (λ out. inject_publish D refuses device_id out.payload) (prepare-Still (Command.read r) s)
        λ out. inject_publish-Still device_id out.payload

  send_if_pending-Still : (pending : Option Register) → Still (send_if_pending D refuses pending)
  unfolding send_if_pending
  send_if_pending-Still none s = none_made refl
  send_if_pending-Still (some r) s =
      then_made (made takes_pending)
        (send_read-Still s.device_id r (record s { pending_read = none }))

  send_unless_held-Still : (held : Option ℕ) → Still (send_unless_held D refuses held)
  unfolding send_unless_held
  send_unless_held-Still (some deadline) s = none_made refl
  send_unless_held-Still none s = send_if_pending-Still s.pending_read s

  pub send_pending_read-Still : Still (send_pending_read D refuses)
  unfolding send_pending_read
  send_pending_read-Still s = send_unless_held-Still s.awaiting_ack s

  push_time_to-Still :
      (device_id : Option (List ℕ)) (now : Timestamp) → Still (push_time_to D refuses device_id now)
  unfolding push_time_to
  push_time_to-Still none now s = none_made refl
  push_time_to-Still (some device_id) now s =
      let checked : Session = check_clock now s in
      bind-Leads s (prepare D refuses (Command.push_time now) checked)
        (λ out. inject_publish D refuses device_id out.payload)
        (then_made (quietly s checked (core-check_clock now s)) (prepare-Still _ checked))
        λ out. inject_publish-Still device_id out.payload

  pub push_time-Still : (at : Moment) → Still (push_time D refuses at)
  unfolding push_time
  push_time-Still at s = push_time_to-Still s.device_id at.wall s

  transmit_out-Still :
      (at : Moment) (device_id : List ℕ) (out : Outgoing)
      → Still (transmit_out D refuses at device_id out)
  unfolding transmit_out
  transmit_out-Still at device_id out s =
      let alone : Session = before_write D refuses out.acknowledged s in
      then_made (before_write-Leads out.acknowledged s) (
        then_made (record_frame-Leads inject out.payload alone) (
          publish_then-Leads out.qos (command_topic device_id) out.payload
            (λ _ u. (after_write D refuses at out.acknowledged u, ok out.verify))
            (record_frame inject out.payload alone) λ _ u. after_write-Leads at out.acknowledged u))

  transmit_to-Still :
      (at : Moment) (device_id : Option (List ℕ)) (command : Command)
      → Still (transmit_to D refuses at device_id command)
  unfolding transmit_to
  transmit_to-Still at none command s = none_made refl
  transmit_to-Still at (some device_id) command s =
      bind-Leads s (prepare D refuses command s) (λ out. transmit_out D refuses at device_id out)
        (prepare-Still command s) λ out. transmit_out-Still at device_id out

  pub transmit-Still : (at : Moment) (command : Command) → Still (transmit D refuses at command)
  unfolding transmit
  transmit-Still at command s = transmit_to-Still at s.device_id command s
