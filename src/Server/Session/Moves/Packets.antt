-- ===== src/Server/Session/Moves/Packets.antt =====
-- What the packets and the messages of the cloud do in src/server/session.rs, as moves.
use heliobridge.Base.{
  ◌+◌, ◌≡◌, refl, ℕ, Bool, true, false, Option, none, some, List, [], ◌∷◌, ◌==◌, if◌then◌else◌,
}
use heliobridge.Base.Results.{Result, ok, err}
use heliobridge.Mqtt.{
  Packet, conn_ack, pub_ack, QoS, at_most_once, at_least_once, Publish, Connect, Subscribe,
}
use heliobridge.Mqtt.Stream.{StreamError}
use heliobridge.Recorder.{up, down, blocked}
use heliobridge.Driver.Arbiter.{remember, Intent, Refusal, to_device}
use heliobridge.Driver.Seam.{Driver, CloudMessage, Unreadable}
use heliobridge.Server.Access.{admits}
use heliobridge.Server.Session.{
  Session, time_push_delay, SessionError, Act, continues, Moment, record_frame,
  connack_not_authorised,
}
use heliobridge.Server.Session.Core.{
  core-forward_to_cloud, core-offer_to_firmware, core-count_frame, core-publish_status,
  core-publish_identity,
}
use heliobridge.Server.Session.Moves.{
  WellNumbered, writes, none_made, made, then_made, schedules, admits_as, relays, registers,
}
use heliobridge.Server.Session.Reads.{begin_resync}
use heliobridge.Server.Session.Reported.{handle_frame, publish_status, publish_identity}
use heliobridge.Server.Session.Cloud.{
  start_relay, start_relay_as, forward_to_cloud, forward_to_device, downlink, receive, decided,
  offer_to_firmware, intent_of, parse, is_refused,
}
use heliobridge.Server.Session.Turn.{
  continue, stop, on_connect, spoken_level, welcome, turn_away, on_subscribe, on_publish,
  acknowledge, take_frame, handle_read, count_frame, on_read_timeout, register, register_as,
  schedule_push,
}
use heliobridge.Server.Session.Moves.Reads.{
  Leads, quietly, begin_resync-Leads, give_up-Leads, take_all-Leads,
}
use heliobridge.Server.Session.Moves.Sends.{
  send_packet-Leads, publish-Leads, Still, bind-Leads, record_frame-Leads, send_pending_read-Still,
}
use heliobridge.Server.Session.Device.{send_packet, write_unless, send_pending_read}

Leads-if :
    (test : Bool) (s t u : Session)
    → Leads [] s t
    → Leads [] s u
    → Leads [] s (if test then t else u)
Leads-if true s t u l k = l
Leads-if false s t u l k = k

start_relay_as-Leads :
    (starts : List ℕ → Bool) (device_id : Option (List ℕ)) (s : Session)
    → s.device_id ≡ device_id
    → Leads [] s (start_relay_as starts device_id s)
unfolding start_relay_as
start_relay_as-Leads starts none s e = none_made refl
start_relay_as-Leads starts (some d) s e =
    let started : Session = record s { relay = true } in
    Leads-if s.cloud s _ s (Leads-if (starts d) s started s (made (relays (d, e))) (none_made refl))
      (none_made refl)

register_as-Leads :
    (device_id : Option (List ℕ)) (s : Session)
    → s.device_id ≡ device_id
    → Leads [] s (register_as device_id s)
unfolding register_as
register_as-Leads none s e = none_made refl
register_as-Leads (some d) s e =
    let joined : Session = record s { registered = true } in
    Leads-if s.registry s _ s
      (then_made (made (registers (d, e))) (
        then_made (quietly joined (publish_status joined) (core-publish_status joined)) (
          quietly (publish_status joined) (publish_identity [] (publish_status joined))
            (core-publish_identity [] (publish_status joined)))))
      (none_made refl)

schedule_push-Leads : (now : ℕ) (s : Session) → Leads [] s (schedule_push now s)
unfolding schedule_push
schedule_push-Leads now s =
    Leads-if s.send_time_push s _ s (made (schedules (some (now + time_push_delay))))
      (none_made refl)

module _ (D : Driver) where
  handle_read-Leads :
      (now : ℕ) (p : Publish) (r : Result Unreadable D.Frame) (s : Session)
      → Leads [] s (handle_read D now p r s)
  unfolding handle_read handle_frame
  handle_read-Leads now p (ok frame) s =
      let forwarded : Session = forward_to_cloud D now p (some frame) s in
      then_made (quietly s forwarded (core-forward_to_cloud D now p (some frame) s))
        (take_all-Leads D now (D.report frame) forwarded)
  handle_read-Leads now p (err e) s =
      quietly s (forward_to_cloud D now p none s) (core-forward_to_cloud D now p none s)

  take_frame-Leads : (now : ℕ) (p : Publish) (s : Session) → Leads [] s (take_frame D now p s)
  unfolding take_frame
  take_frame-Leads now p s =
      let recorded : Session = record_frame up p.payload s in
      let counted : Session = count_frame D (D.read p.payload) recorded in
      then_made (record_frame-Leads up p.payload s) (
        then_made (quietly recorded counted (core-count_frame D (D.read p.payload) recorded))
          (handle_read-Leads now p (D.read p.payload) counted))

module _ (D : Driver) (refuses : List Packet → Packet → Option StreamError) where
  downlink-Still :
      (now : ℕ) (r : Option Refusal) (intent : Intent) (m : CloudMessage)
      → Still (downlink D refuses now r intent m)
  unfolding downlink
  downlink-Still now (some r) intent m s = record_frame-Leads blocked m.payload _
  downlink-Still now none intent m s =
      publish-Leads D refuses m.qos m.topic m.payload
        (record s { cloud_commands = remember intent now s.cloud_commands })

  pub forward_to_device-Still :
      (at : Moment) (m : CloudMessage) → Still (forward_to_device D refuses at m)
  unfolding forward_to_device receive
  forward_to_device-Still at m s =
      let intent : Intent = intent_of D (parse D m.payload) to_device in
      let refused : Bool = is_refused (decided D refuses s.policy intent) in
      let received : Session = receive D refuses m s in
      let offered : Session = offer_to_firmware D m refused received in
      then_made (record_frame-Leads down m.payload _) (
        then_made (quietly received offered (core-offer_to_firmware D m refused received))
          (downlink-Still at.instant (decided D refuses s.policy intent) intent m offered))

  -- Sending a packet and then something else.
  pub sends-Leads :
      {A : Type 0} (p : Packet) (f : Unit {0} → Act A) (s : Session)
      → WellNumbered p
      → ((u : Unit {0}) → Still (f u))
      → Leads [] s (continues f (send_packet D refuses p s)).0
  sends-Leads p f s n h =
      bind-Leads s (send_packet D refuses p s) f (send_packet-Leads D refuses p n s) h

  -- Sending held reads at the end of a turn.
  pub ends-Leads :
      {A : Type 0} (a : A) (s : Session)
      → Leads [] s (continues (λ _ t. (t, ok a)) (send_pending_read D refuses s)).0
  ends-Leads a s =
      bind-Leads s (send_pending_read D refuses s) (λ _ t. (t, ok a))
        (send_pending_read-Still D refuses s) λ _ t. none_made refl

  welcome-Leads :
      (at : Moment) (client_id : List ℕ) (s : Session)
      → admits s.devices client_id ≡ true
      → Leads [] s (welcome D refuses at client_id s).0
  unfolding welcome start_relay register
  welcome-Leads at client_id s admitted = then_made (made (admits_as client_id admitted)) (
      sends-Leads (conn_ack false 0)
        (λ _ t. (schedule_push at.instant (register (start_relay D t)), ok continue))
        (record s { device_id = some client_id }) tt
        λ _ t. then_made (start_relay_as-Leads D.starts_relay t.device_id t refl) (
          then_made (register_as-Leads (start_relay D t).device_id (start_relay D t) refl)
            (schedule_push-Leads at.instant (register (start_relay D t)))))

  turn_away-Still : Still (turn_away D refuses)
  unfolding turn_away
  turn_away-Still s =
      sends-Leads (conn_ack false connack_not_authorised) (λ _ t. (t, ok stop)) s tt
        λ _ t. none_made refl

  choose-Leads :
      {A : Type 0} (test : Bool) (s : Session) (x y : Session × Result SessionError A)
      → (test ≡ true → Leads [] s x.0)
      → Leads [] s y.0
      → Leads [] s (if test then x else y).0
  choose-Leads true s x y l k = l refl
  choose-Leads false s x y l k = k

  pub on_connect-Still : (at : Moment) (c : Connect) → Still (on_connect D refuses at c)
  unfolding on_connect
  on_connect-Still at c s =
      choose-Leads (c.protocol_level == spoken_level) s _ _
        (λ _.
          choose-Leads (admits s.devices c.client_id) s _ _ (welcome-Leads at c.client_id s)
            (turn_away-Still s))
        (none_made refl)

  acknowledge-Still : (qos : QoS) (id : Option ℕ) → Still (acknowledge D refuses qos id)
  unfolding acknowledge
  acknowledge-Still at_least_once (some id) s = send_packet-Leads D refuses (pub_ack id) tt s
  acknowledge-Still at_least_once none s = none_made refl
  acknowledge-Still at_most_once id s = none_made refl

  pub on_publish-Still : (at : Moment) (p : Publish) → Still (on_publish D refuses at p)
  unfolding on_publish
  on_publish-Still at p s =
      bind-Leads s (acknowledge D refuses p.qos p.packet_id s)
        (λ _ t.
          continues (λ _ u. (u, ok continue))
            (send_pending_read D refuses (take_frame D at.instant p t)))
        (acknowledge-Still p.qos p.packet_id s)
        λ _ t.
          then_made (take_frame-Leads D at.instant p t)
            (ends-Leads continue (take_frame D at.instant p t))

  subscribed-Leads :
      (at : Moment) (e : Option StreamError) (p : Packet) (s : Session)
      → WellNumbered p
      → s.awaiting ≡ none
      → Leads [] s
          (continues
            (λ _ t.
              continues
                (λ _ u. (u, ok continue))
                (send_pending_read D refuses (begin_resync D at.instant t)))
            (write_unless D refuses e p s)).0
  unfolding write_unless
  subscribed-Leads at none p s n idle =
      let wrote : Session = record s { written = p ∷ s.written } in
      then_made (made (writes p n)) (
        then_made (begin_resync-Leads D at.instant wrote idle)
          (ends-Leads continue (begin_resync D at.instant wrote)))
  subscribed-Leads at (some e) p s n idle = none_made refl

  pub on_subscribe-Leads :
      (at : Moment) (sub : Subscribe) (s : Session)
      → s.awaiting ≡ none
      → Leads [] s (on_subscribe D refuses at sub s).0
  unfolding on_subscribe send_packet
  on_subscribe-Leads at sub s idle = subscribed-Leads at _ _ _ tt idle

  pub on_read_timeout-Still : (at : Moment) → Still (on_read_timeout D refuses at)
  unfolding on_read_timeout
  on_read_timeout-Still at s =
      then_made (give_up-Leads at.instant s.awaiting s refl) (send_pending_read-Still D refuses _)
