-- ===== src/Server/Session/Stall.antt =====
-- A write that is sent without a read-back while a read is in flight, in src/server/session.rs.
use heliobridge.Base.{◌≡◌, refl, ap, ◌∙◌, ℕ, ◌+◌, true, Option, none, some, List, ◌∷◌}
use heliobridge.Base.Results.{some-injective, Result, ok}
use heliobridge.Model.{Register, Raw}
use heliobridge.Mqtt.{Packet, QoS, at_most_once, at_least_once}
use heliobridge.Mqtt.Stream.{StreamError}
use heliobridge.Recorder.{inject}
use heliobridge.Driver.Commands.{Command, Outgoing}
use heliobridge.Driver.Seam.{Driver}
use heliobridge.Control.{sent, Caller, send}
use heliobridge.Server.Session.{
  note, answers, Session, SessionError, PendingRead, Moment, continues, record_frame,
  ack_reply_timeout,
}
use heliobridge.Server.Session.Core.{Core, core, core-record_frame}
use heliobridge.Server.Session.Device.{
  or_default, prepared, field_of, handle_control, carry_out, transmit, transmit_to, transmit_out,
  prepare, before_write, stand_down, put_back, after_write, packet_id_for, take_packet_id,
  send_packet, write_unless, publish_of, command_topic, report_sent, send_pending_read,
  send_unless_held, send_if_pending,
}
use heliobridge.Server.Session.Turn.{Flow, continue, ack_timed_out, turn}

-- The reads of a session: in flight, waiting, decided on, and the deadline.
abbrev Queue : Type 0
Queue = Option PendingRead × List PendingRead × Option Register × Option ℕ

abbrev queue_of : Core → Queue
queue_of c = (c.awaiting, c.reads, c.pending_read, c.read_deadline)

-- Reads that wait with none in flight and no deadline, so that neither an answer nor a timeout
-- starts the next, and an acknowledgement in the meantime sends none.
pub record Stalled (D : Driver) (refuses : List Packet → Packet → Option StreamError)
    (r : PendingRead) (s t : Session) : Type 0 where
  pub waits : t.reads ≡ r ∷ s.reads
  pub none_in_flight : t.awaiting ≡ none
  pub no_deadline : t.read_deadline ≡ none
  pub stays :
      (later : Moment)
      → turn D refuses later ack_timed_out t ≡ (record t { awaiting_ack = none }, ok continue)

queue-stand_down :
    (busy : Option PendingRead) (r : PendingRead) (s : Session)
    → busy ≡ some r
    → queue_of (core (record (put_back busy s) { pending_read = none; read_deadline = none }))
      ≡ (none, r ∷ s.reads, none, none)
unfolding put_back
queue-stand_down none r s e = absurd cc
queue-stand_down (some q) r s e =
    ap {A = PendingRead} {B = Queue} (λ x. (none, x ∷ s.reads, none, none)) (some-injective e)

module _ (D : Driver) (refuses : List Packet → Packet → Option StreamError)
    (takes : (before : List Packet) (p : Packet) → refuses before p ≡ none) where
  -- An acknowledged write that goes out, and the hold that it then has.
  abbrev GoesOut : {A : Type 0} → Moment → A → Session → Session × Result SessionError A → Type 0
  GoesOut at a s out =
      (t : Session) × (out ≡ (t, ok a))
      × (queue_of (core t) ≡ queue_of (core s))
      × (t.awaiting_ack ≡ some (at.instant + ack_reply_timeout))

  published :
      (at : Moment) (qos : QoS) (topic payload : List ℕ) (verify : List (Register × Option Raw))
      (s : Session)
      → GoesOut at verify s (
          continues
            (λ id u.
              continues
                (λ _ v. (after_write D refuses at true v, ok verify))
                (send_packet D refuses (publish_of topic qos id payload) u))
            (packet_id_for qos s))
  unfolding packet_id_for take_packet_id send_packet write_unless after_write
  published at at_most_once topic payload verify s = rw takes (_, refl, refl, refl)
  published at at_least_once topic payload verify s = rw takes (_, refl, refl, refl)

  written_alone :
      (at : Moment) (device_id : List ℕ) (out : Outgoing) (r : PendingRead) (s : Session)
      → s.awaiting ≡ some r
      → out.acknowledged ≡ true
      → (t : Session) × (transmit_out D refuses at device_id out s ≡ (t, ok out.verify))
        × (queue_of (core t) ≡ (none, r ∷ s.reads, none, none))
        × (t.awaiting_ack ≡ some (at.instant + ack_reply_timeout))
  unfolding transmit_out before_write stand_down
  written_alone at device_id out r s busy acknowledged =
      let alone : Session = record (put_back s.awaiting s) {
        pending_read = none;
        read_deadline = none;
      } in
      let ready : Session = record_frame inject out.payload alone in
      let gone : GoesOut at out.verify ready (
          continues
            (λ id u.
              continues (λ _ v. (after_write D refuses at true v, ok out.verify))
                (send_packet D refuses (publish_of (command_topic device_id) out.qos id out.payload)
                  u))
            (packet_id_for out.qos ready)) =
        published at out.qos (command_topic device_id) out.payload out.verify ready in
      (
        gone.0,
        rw acknowledged (gone.1),
        gone.2
            ∙ ap queue_of (core-record_frame inject out.payload alone)
            ∙ queue-stand_down s.awaiting r s busy,
        gone.3,
      )

  nothing_sent :
      (pending : Option Register) (t : Session)
      → pending ≡ none
      → send_if_pending D refuses pending t ≡ (t, ok tt)
  unfolding send_if_pending
  nothing_sent none t e = refl
  nothing_sent (some r) t e = absurd cc

  idle_ack :
      (later : Moment) (t : Session)
      → t.pending_read ≡ none
      → turn D refuses later ack_timed_out t ≡ (record t { awaiting_ack = none }, ok continue)
  unfolding turn send_pending_read send_unless_held
  idle_ack later t none_decided =
      ap {A = Session × Result SessionError (Unit {0})} {B = Session × Result SessionError Flow}
        (λ x. continues (λ _ u. (u, ok continue)) x)
        (nothing_sent t.pending_read (record t { awaiting_ack = none }) none_decided)

  -- What transmitting does once the driver has expressed the command.
  transmitted :
      (at : Moment) (command : Command) (device_id : List ℕ) (out : Outgoing) (s : Session)
      → s.device_id ≡ some device_id
      → D.prepare device_id command ≡ ok out
      → transmit D refuses at command s ≡ transmit_out D refuses at device_id out s
  unfolding transmit transmit_to prepare
  transmitted at command device_id out s known expressed =
      let e : D.prepare (or_default D refuses s.device_id) command ≡ ok out =
        ap (λ k. D.prepare (or_default D refuses k) command) known ∙ expressed in
      ap (λ k. transmit_to D refuses at k command s) known
      ∙ ap (λ x. continues (λ o. transmit_out D refuses at device_id o) (prepared D refuses x s)) e

  -- if the stream takes every packet, a command that is sent without a read-back, and that the driver says
  -- is acknowledged, leaves the read that was in flight waiting with no read in flight and no deadline,
  -- and neither the acknowledgement's timeout nor its sending of held reads changes that
  pub handle_control-Stalled :
      (at : Moment) (command : Command) (caller : Caller) (device_id : List ℕ) (out : Outgoing)
      (r : PendingRead) (s : Session)
      → s.awaiting ≡ some r
      → s.device_id ≡ some device_id
      → D.prepare device_id command ≡ ok out
      → out.acknowledged ≡ true
      → (t : Session) × (handle_control D refuses at
            (record { action = send command; reply = caller })
            s
          ≡ (t, ok tt))
        × Stalled D refuses r s t
  unfolding handle_control carry_out report_sent send_pending_read send_unless_held
  handle_control-Stalled at command caller device_id out r s busy known expressed acknowledged =
      let went : (t : Session) × (transmit_out D refuses at device_id out s ≡ (t, ok out.verify))
          × (queue_of (core t) ≡ (none, r ∷ s.reads, none, none))
          × (t.awaiting_ack ≡ some (at.instant + ack_reply_timeout)) =
        written_alone at device_id out r s busy acknowledged in
      let t : Session = note (answers caller (sent command (field_of D refuses command))) went.0 in
      (
        t,
        ap (report_sent D refuses caller command)
              (transmitted at command device_id out s known expressed ∙ went.1)
            ∙ ap (λ h. send_unless_held D refuses h t) (went.3),
        record {
          waits = ap {A = Queue} {B = List PendingRead} (λ q. q.1) (went.2);
          none_in_flight = ap {A = Queue} {B = Option PendingRead} (λ q. q.0) (went.2);
          no_deadline = ap {A = Queue} {B = Option ℕ} (λ q. q.3) (went.2);
          stays =
              λ later. idle_ack later t (ap {A = Queue} {B = Option Register} (λ q. q.2) (went.2));
        },
      )
