-- ===== src/Server/Session/Moves/Loop.antt =====
-- Every turn of the loop of src/server/session.rs, as moves.
use heliobridge.Base.{◌≡◌, refl, ap, subst, Option, none, some, List, [], ◌∷◌}
use heliobridge.Base.Results.{Result, ok, err}
use heliobridge.Mqtt.{
  Packet, connect, conn_ack, publish, pub_ack, subscribe, sub_ack, ping_req, ping_resp, disconnect,
  Subscribe,
}
use heliobridge.Mqtt.Stream.{StreamError}
use heliobridge.Driver.Seam.{Driver}
use heliobridge.Control.{Caller}
use heliobridge.Server.Session.{Session, SessionError, Act, continues, Moment}
use heliobridge.Server.Session.Moves.{none_made, made, then_made, holds, schedules}
use heliobridge.Server.Session.Cloud.{forward_to_device}
use heliobridge.Server.Session.Turn.{
  Woke, Flow, continue, replaced, time_push_due, read_timed_out, ack_timed_out, control, from_cloud,
  packet, broken, turn, handle_packet, on_read_timeout,
}
use heliobridge.Server.Session.Moves.Reads.{Leads}
use heliobridge.Server.Session.Moves.Sends.{
  Still, bind-Leads, send_pending_read-Still, push_time-Still,
}
use heliobridge.Server.Session.Device.{send_pending_read, push_time, handle_control}
use heliobridge.Server.Session.Moves.Requests.{carry_out-Leads}
use heliobridge.Server.Session.Moves.Packets.{
  forward_to_device-Still, sends-Leads, on_connect-Still, on_publish-Still, on_subscribe-Leads,
  on_read_timeout-Still,
}

-- Whom a turn takes on.
abbrev pub callers : Woke → List Caller
callers (control (some request)) = request.reply ∷ []
callers _ = []

module _ (D : Driver) (refuses : List Packet → Packet → Option StreamError) where
  handle_packet-Still :
      (at : Moment) (p : Packet) (s : Session)
      → ((sub : Subscribe) → p ≡ subscribe sub → s.awaiting ≡ none)
      → Leads [] s (handle_packet D refuses at p s).0
  unfolding handle_packet
  handle_packet-Still at (connect c) s calm = on_connect-Still D refuses at c s
  handle_packet-Still at (subscribe sub) s calm =
      on_subscribe-Leads D refuses at sub s (calm sub refl)
  handle_packet-Still at (publish p) s calm = on_publish-Still D refuses at p s
  handle_packet-Still at ping_req s calm =
      sends-Leads D refuses ping_resp (λ _ t. (t, ok continue)) _ tt λ _ t. none_made refl
  handle_packet-Still at disconnect s calm = none_made refl
  handle_packet-Still at (conn_ack present code) s calm = none_made refl
  handle_packet-Still at (pub_ack id) s calm = none_made refl
  handle_packet-Still at (sub_ack id granted) s calm = none_made refl
  handle_packet-Still at ping_resp s calm = none_made refl

  -- A turn that goes on, after an operation.
  finishes-Leads :
      (m : Act (Unit {0})) (s : Session)
      → Still m
      → Leads [] s (continues (λ _ t. (t, ok continue)) (m s)).0
  finishes-Leads m s h = bind-Leads s (m s) (λ _ t. (t, ok continue)) (h s) λ _ t. none_made refl

  continued-Leads :
      (xs : List Caller) (s : Session) (out : Session × Result SessionError (Unit {0}))
      {t : Session} {flow : Flow}
      → ((m : Session) (u : Unit {0}) → out ≡ (m, ok u) → Leads xs s m)
      → continues (λ _ u. (u, ok continue)) out ≡ (t, ok flow)
      → Leads xs s t
  continued-Leads xs s (m, ok u) h e = subst (λ x. Leads xs s x.0) e (h m u refl)
  continued-Leads xs s (m, err failure) h e = absurd cc

-- A device does not subscribe again while a read is in flight.
unfoldable pub Undisturbed : Woke → Session → Type 0
Undisturbed woke s = (sub : Subscribe) → woke ≡ packet (some (subscribe sub)) → s.awaiting ≡ none

module _ (D : Driver) (refuses : List Packet → Packet → Option StreamError) where
  pub quiet_turn :
      (at : Moment) (woke : Woke) (s : Session)
      → callers woke ≡ []
      → Undisturbed woke s
      → Leads [] s (turn D refuses at woke s).0
  unfolding turn Undisturbed
  quiet_turn at replaced s none_asks calm = none_made refl
  quiet_turn at time_push_due s none_asks calm = then_made (made (schedules none)) (
      finishes-Leads D refuses (push_time D refuses at) (record s { time_push_due = none })
        (push_time-Still D refuses at))
  quiet_turn at read_timed_out s none_asks calm =
      finishes-Leads D refuses (on_read_timeout D refuses at) s (on_read_timeout-Still D refuses at)
  quiet_turn at ack_timed_out s none_asks calm = then_made (made (holds none)) (
      finishes-Leads D refuses (send_pending_read D refuses) (record s { awaiting_ack = none })
        (send_pending_read-Still D refuses))
  quiet_turn at (control none) s none_asks calm = none_made refl
  quiet_turn at (control (some request)) s none_asks calm = absurd cc
  quiet_turn at (from_cloud none) s none_asks calm = none_made refl
  quiet_turn at (from_cloud (some m)) s none_asks calm =
      finishes-Leads D refuses (forward_to_device D refuses at m) s
        (forward_to_device-Still D refuses at m)
  quiet_turn at (packet none) s none_asks calm = none_made refl
  quiet_turn at (packet (some p)) s none_asks calm =
      handle_packet-Still D refuses at p s λ sub e. calm sub (ap (λ q. packet (some q)) e)
  quiet_turn at (broken e) s none_asks calm = none_made refl

  -- Every turn that succeeds takes steps of the book, and takes on the callers that it heard.
  pub turn-Leads :
      (at : Moment) (woke : Woke) (s : Session) {t : Session} {flow : Flow}
      → Undisturbed woke s
      → turn D refuses at woke s ≡ (t, ok flow)
      → Leads (callers woke) s t
  unfolding turn handle_control
  turn-Leads at (control (some request)) s calm e =
      continued-Leads D refuses (request.reply ∷ []) s (handle_control D refuses at request s)
        (λ m u. carry_out-Leads D refuses at request.action request.reply s) e
  turn-Leads at (control none) s calm e =
      subst (λ x. Leads [] s x.0) e (quiet_turn at (control none) s refl calm)
  turn-Leads at replaced s calm e =
      subst (λ x. Leads [] s x.0) e (quiet_turn at replaced s refl calm)
  turn-Leads at time_push_due s calm e =
      subst (λ x. Leads [] s x.0) e (quiet_turn at time_push_due s refl calm)
  turn-Leads at read_timed_out s calm e =
      subst (λ x. Leads [] s x.0) e (quiet_turn at read_timed_out s refl calm)
  turn-Leads at ack_timed_out s calm e =
      subst (λ x. Leads [] s x.0) e (quiet_turn at ack_timed_out s refl calm)
  turn-Leads at (from_cloud m) s calm e =
      subst (λ x. Leads [] s x.0) e (quiet_turn at (from_cloud m) s refl calm)
  turn-Leads at (packet p) s calm e =
      subst (λ x. Leads [] s x.0) e (quiet_turn at (packet p) s refl calm)
  turn-Leads at (broken failure) s calm e =
      subst (λ x. Leads [] s x.0) e (quiet_turn at (broken failure) s refl calm)
