-- ===== src/Server/Session/Turn.antt =====
-- The loop of src/server/session.rs: what wakes a session, what it does about it, and a whole run as
-- the sequence of what woke it. Which of several ready sources wakes it first is left to the sequence.
use heliobridge.Base.{
  ℕ, ◌+◌, true, false, Option, none, some, List, [], ◌∷◌, length, replicate, ◌==◌, if◌then◌else◌,
}
use heliobridge.Base.Results.{Result, ok, err}
use heliobridge.Mqtt.{
  Packet, connect, conn_ack, publish, pub_ack, subscribe, sub_ack, ping_req, ping_resp, disconnect,
  QoS, at_least_once, Publish, Connect, Subscribe,
}
use heliobridge.Mqtt.Stream.{StreamError}
use heliobridge.Recorder.{up}
use heliobridge.Driver.Seam.{Driver, CloudMessage, Unreadable}
use heliobridge.Control.{Request}
use heliobridge.Server.Access.{admits}
use heliobridge.Server.Session.{
  Session, SessionError, unsupported_level, Act, ◌>>=◌, ◌>>◌, done, fail, modify, Moment, bump,
  record_frame, granted_qos, connack_not_authorised, time_push_delay,
}
use heliobridge.Server.Session.Reads.{begin_resync, give_up, start_next_read}
use heliobridge.Server.Session.Reported.{handle_frame, publish_status, publish_identity}
use heliobridge.Server.Session.Device.{send_packet, send_pending_read, push_time, handle_control}
use heliobridge.Server.Session.Cloud.{start_relay, forward_to_cloud, forward_to_device}

-- `PROTOCOL_LEVEL` of src/mqtt.rs
abbrev pub spoken_level : ℕ
spoken_level = 4

pub data Flow : Type 0 where
  continue stop : Flow

-- `Woke`; an idle timeout or a stream that fails is `broken`.
pub data Woke : Type 0 where
  replaced time_push_due read_timed_out ack_timed_out : Woke
  control : Option Request → Woke
  from_cloud : Option CloudMessage → Woke
  packet : Option Packet → Woke
  broken : SessionError → Woke

-- `Session::register`
unfoldable pub register_as : Option (List ℕ) → Session → Session
unfolding publish_status publish_identity
register_as none s = s
register_as (some device_id) s =
    if s.registry then publish_identity [] (publish_status (record s { registered = true })) else s

unfoldable pub register : Session → Session
unfolding register_as
register s = register_as s.device_id s

unfoldable pub schedule_push : ℕ → Session → Session
schedule_push now s =
    if s.send_time_push then record s { time_push_due = some (now + time_push_delay) } else s

module _ (D : Driver) where
  -- What `parse_frame` counts.
  unfoldable pub count_frame : Result Unreadable D.Frame → Session → Session
  unfolding bump
  count_frame (ok frame) s = record s { stats = record s.stats { frames = bump s.stats.frames } }
  count_frame (err e) s = record s { stats = record s.stats { rejected = bump s.stats.rejected } }

  unfoldable pub handle_read : ℕ → Publish → Result Unreadable D.Frame → Session → Session
  unfolding handle_frame forward_to_cloud
  handle_read now p (ok frame) s =
      handle_frame D now frame (forward_to_cloud D now p (some frame) s)
  handle_read now p (err e) s = forward_to_cloud D now p none s

  -- The recording, reading, relaying and handling of a PUBLISH's payload.
  unfoldable pub take_frame : ℕ → Publish → Session → Session
  unfolding record_frame count_frame handle_read
  take_frame now p s =
      handle_read now p (D.read p.payload)
        (count_frame (D.read p.payload) (record_frame up p.payload s))

module _ (D : Driver) (refuses : List Packet → Packet → Option StreamError) where
  -- The rest of CONNECT once the device has been admitted.
  unfoldable pub welcome : Moment → List ℕ → Act Flow
  unfolding send_packet start_relay register schedule_push
  welcome at client_id = do
    modify λ s. record s { device_id = some client_id }
    send_packet D refuses (conn_ack false 0)
    modify (start_relay D)
    modify register
    modify (schedule_push at.instant)
    done continue

  unfoldable pub turn_away : Act Flow
  unfolding send_packet
  turn_away = do send_packet D refuses (conn_ack false connack_not_authorised); done stop

  -- The `Packet::Connect` arm of `Session::handle_packet`
  unfoldable pub on_connect : Moment → Connect → Act Flow
  unfolding welcome turn_away
  on_connect at c s =
      if c.protocol_level == spoken_level
      then (if admits s.devices c.client_id then welcome at c.client_id s else turn_away s)
      else (s, err (unsupported_level c.protocol_level))

  -- The `Packet::Subscribe` arm
  unfoldable pub on_subscribe : Moment → Subscribe → Act Flow
  unfolding send_packet begin_resync send_pending_read
  on_subscribe at sub = do
    modify λ s. record s { subscribed = true }
    send_packet D refuses (sub_ack sub.packet_id (replicate (length sub.filters) granted_qos))
    modify (begin_resync D at.instant)
    send_pending_read D refuses
    done continue

  -- The PUBACK that a QoS 1 publish is owed.
  unfoldable pub acknowledge : QoS → Option ℕ → Act (Unit {0})
  unfolding send_packet
  acknowledge at_least_once (some packet_id) = send_packet D refuses (pub_ack packet_id)
  acknowledge _ _ = done tt

  -- The `Packet::Publish` arm
  unfoldable pub on_publish : Moment → Publish → Act Flow
  unfolding acknowledge take_frame send_pending_read
  on_publish at p = do
    acknowledge p.qos p.packet_id
    modify (take_frame D at.instant p)
    send_pending_read D refuses
    done continue

  -- `Session::handle_packet`
  unfoldable pub handle_packet : Moment → Packet → Act Flow
  unfolding on_connect on_subscribe on_publish send_packet
  handle_packet at (connect c) = on_connect at c
  handle_packet at (subscribe sub) = on_subscribe at sub
  handle_packet at (publish p) = on_publish at p
  handle_packet at ping_req = do
    modify λ s. record s { stats = record s.stats { pings = bump s.stats.pings } }
    send_packet D refuses ping_resp
    done continue
  handle_packet at disconnect = done stop
  handle_packet at _ = done continue

  -- The `ReadTimedOut` arm of `Session::run`
  unfoldable pub on_read_timeout : Moment → Act (Unit {0})
  unfolding give_up start_next_read send_pending_read
  on_read_timeout at = do
    modify λ s. start_next_read at.instant (give_up s.awaiting (record s { awaiting = none }))
    send_pending_read D refuses

  -- One turn of the loop of `Session::run`
  unfoldable pub turn : Moment → Woke → Act Flow
  unfolding push_time on_read_timeout send_pending_read handle_control forward_to_device
      handle_packet
  turn at replaced = done stop
  turn at time_push_due = do
    modify λ s. record s { time_push_due = none }
    push_time D refuses at
    done continue
  turn at read_timed_out = do on_read_timeout at; done continue
  turn at ack_timed_out = do
    modify λ s. record s { awaiting_ack = none }
    send_pending_read D refuses
    done continue
  turn at (control (some request)) = do handle_control D refuses at request; done continue
  turn at (control none) = done continue
  turn at (from_cloud (some m)) = do forward_to_device D refuses at m; done continue
  turn at (from_cloud none) = done stop
  turn at (packet none) = done stop
  turn at (packet (some p)) = handle_packet at p
  turn at (broken e) = fail e

  -- `Session::run` over what wakes it; it stops where a turn says so or fails.
  unfoldable pub run : List (Moment × Woke) → Act (Unit {0})
  unfolding turn
  run [] = done tt
  run ((at, woke) ∷ more) = do
    flow ← turn at woke
    elim flow [ continue ↦ run more | stop ↦ done tt ]
