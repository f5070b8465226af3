-- ===== src/Tests/Sessions.antt =====
-- The session of src/server/session.rs over a driver of one register, woken step by step.
use heliobridge.Base.{
  refl, ◌≡◌, ℕ, ◌+◌, Bool, true, false, Option, none, some, List, [], ◌∷◌, arith, map,
}
use heliobridge.Base.Results.{ok}
use heliobridge.Model.{Register}
use heliobridge.Mqtt.{Packet, connect, subscribe, at_most_once, at_least_once}
use heliobridge.Mqtt.Stream.{StreamError}
use heliobridge.Driver.Arbiter.{Intent, to_device}
use heliobridge.Driver.Arbiter.Authority.{Reaches, in_full, a_setting, a_read, a_pairing}
use heliobridge.Driver.Commands.{Command}
use heliobridge.Driver.Seam.{Driver, Setting, CloudMessage}
use heliobridge.Control.{Request, refresh, send}
use heliobridge.Server.Session.{Session, Moment, new, default_policy, record_frame}
use heliobridge.Server.Session.Core.{core}
use heliobridge.Server.Session.Book.{Steps, book, account, asked}
use heliobridge.Server.Session.Reads.{
  verify_of, resync_of, enqueue_verification, enqueue, start_if_idle, start_next_read, start_first,
}
use heliobridge.Server.Session.Device.{
  handle_control, carry_out, send_pending_read, send_unless_held, send_if_pending, send_read,
  prepare, inject_publish, take_packet_id, send_packet, write_unless,
}
use heliobridge.Server.Session.Cloud.{forward_to_device, intent_of, parse}
use heliobridge.Server.Session.Turn.{Woke, continue, control, packet, read_timed_out, turn, run}
use heliobridge.Server.Session.Moves.Loop.{callers, Undisturbed}
use heliobridge.Server.Session.Refinement.{turn-Steps, account-turn}
use heliobridge.Server.Session.Invariants.{
  Timed, Guarded, Numbered, run-Timed, run-Guarded, run-Numbered,
}
use heliobridge.Server.Session.Drain.{Drained, Expresses, run-timeouts}
use heliobridge.Growatt.Commands as Growatt
use heliobridge.Growatt.Commands.Reads.{IsNamed, with_text, prepare-Expresses}
use heliobridge.Growatt.Encode.{EncodeError}
use heliobridge.Growatt.MessageType.{MessageType}
use heliobridge.Server.Session.Held.{a_timeout, a_refresh, run-Waits}
use heliobridge.Server.Session.Refused.{Withheld, forward_to_device-Withheld}
use heliobridge.Server.Session.Stall.{Stalled, handle_control-Stalled}

abbrev setting_of : Register → Setting
setting_of r = record { register = r; name = []; decode = λ raw. raw ∷ [] }

abbrev is_write : Command → Bool
is_write (Command.set r value) = true
is_write _ = false

-- A frame is its payload, and a command is one octet.
abbrev one_register : Driver
one_register = record {
  Frame = List ℕ;
  read = λ payload. ok payload;
  intent = λ frame direction. Intent.unrecognised;
  report = λ frame. [];
  prepare = λ id command. ok (record {
    payload = 1 ∷ [];
    qos = at_most_once;
    acknowledged = is_write command;
    description = [];
    verify = [];
  });
  settings = λ slots. setting_of 250 ∷ [];
  setting = λ r. none;
  describe = setting_of;
  config = λ r. none;
  starts_relay = λ id. true;
  try_forward = λ m. true;
  product_name = λ t. none;
  offers_update = λ payload refused. false;
}

abbrev takes_all : List Packet → Packet → Option StreamError
takes_all before p = none

abbrev noon : Moment
noon = record {
  instant = 1000;
  wall = record { year = 2026; month = 6; day = 1; hour = 12; minute = 0; second = 0 };
}

abbrev known : Session
known = record new { device_id = some (48 ∷ []) }

-- One read in flight for a caller, and one of the startup read-back behind it.
abbrev busy : Session
busy = record known {
  awaiting = some (verify_of (setting_of 254) none (some 7));
  reads = resync_of (setting_of 250) ∷ [];
  read_deadline = some 11000;
}

abbrev asking : Woke
asking = control (some (record { action = refresh 254; reply = 7 }))

undisturbed : Undisturbed asking known
unfolding Undisturbed new
undisturbed sub e = refl

abbrev asked_state : Session
asked_state = (turn one_register takes_all noon asking known).0

asked_ok : turn one_register takes_all noon asking known ≡ (asked_state, ok continue)
unfolding turn new handle_control carry_out enqueue_verification enqueue start_if_idle
    start_next_read start_first send_pending_read send_unless_held send_if_pending send_read prepare
    inject_publish take_packet_id send_packet write_unless record_frame
asked_ok = refl

turn-Steps_example : Steps (callers asking) (book (core known)) (book (core asked_state))
turn-Steps_example = turn-Steps one_register takes_all noon asking known undisturbed asked_ok

account-turn_example :
    account 7 (book (core asked_state)) ≡ account 7 (book (core known)) + asked 7 (callers asking)
account-turn_example = account-turn one_register takes_all 7 noon asking known undisturbed asked_ok

hello : Woke
hello = packet (
    some (
      connect (record {
        protocol_level = 4;
        client_id = 48 ∷ [];
        username = none;
        password = none;
        keepalive = 420;
        clean_session = true;
        will = none;
      })))

abbrev morning : List (Moment × Woke)
morning =
    (noon, hello)
    ∷ ((noon, packet (some (subscribe (record { packet_id = 1; filters = [] }))))
        ∷ ((noon, asking) ∷ []))

new-Timed : Timed (core new)
unfolding new
new-Timed = record { timer = λ r e. absurd cc }

new-Guarded : Guarded (core new)
unfolding new
new-Guarded = record {
  admitted = λ id e. absurd cc;
  relays_as = λ e. absurd cc;
  registered_as = λ e. absurd cc;
}

new-Numbered : Numbered (core new)
unfolding new
new-Numbered = record { at_least = omega arith; at_most = omega arith; sent_numbered = tt }

run-Timed_example : Timed (core (run one_register takes_all morning new).0)
run-Timed_example = run-Timed one_register takes_all morning new new-Timed

run-Guarded_example : Guarded (core (run one_register takes_all morning new).0)
run-Guarded_example = run-Guarded one_register takes_all morning new new-Guarded

run-Numbered_example : Numbered (core (run one_register takes_all morning new).0)
run-Numbered_example = run-Numbered one_register takes_all morning new new-Numbered

abbrev silent : MessageType → List ℕ
silent m = []

abbrev no_text : EncodeError → List ℕ
no_text e = []

abbrev no_checksum : List ℕ → ℕ
no_checksum octets = 0

-- The same driver, but for the commands, which are Growatt's.
abbrev growatt : Driver
growatt = record one_register {
  prepare = λ id command. with_text no_text (Growatt.prepare no_checksum silent id command);
}

named : IsNamed (48 ∷ [])
named = record { short = omega arith; graphic = refl }

every_read : Expresses growatt (some (48 ∷ []))
every_read =
    prepare-Expresses no_checksum silent no_text growatt (λ id command. refl) (48 ∷ []) named

run-timeouts_example :
    (t : Session) × (run growatt takes_all
        (map (λ at. (at, read_timed_out)) (noon ∷ (noon ∷ [])))
        busy
      ≡ (t, ok tt))
    × Drained busy t
run-timeouts_example =
    run-timeouts growatt takes_all (λ before p. refl) (some (48 ∷ [])) every_read
      (noon ∷ (noon ∷ [])) busy refl (λ e. absurd cc) (omega arith)

abbrev writing : Session
writing = record busy { awaiting_ack = some 6000 }

abbrev patience : List (Moment × Woke)
patience = (noon, read_timed_out) ∷ ((noon, asking) ∷ [])

run-Waits_example :
    (t : Session) × (run one_register takes_all patience writing ≡ (t, ok tt))
    × (t.written ≡ writing.written)
    × (t.awaiting_ack ≡ some 6000)
run-Waits_example =
    run-Waits one_register takes_all patience writing 6000 (a_timeout, (a_refresh 254 7, tt)) refl

abbrev advert : CloudMessage
advert = record { topic = []; qos = at_least_once; payload = 9 ∷ [] }

barred : (i : Intent) → i ≡ Intent.unrecognised → ¬ Reaches default_policy i
barred i e (in_full m) = absurd cc
barred i e (a_setting m) = absurd cc
barred i e (a_read m) = absurd cc
barred i e (a_pairing m p r) = absurd cc

advert_barred :
    ¬ Reaches busy.policy (intent_of one_register (parse one_register advert.payload) to_device)
unfolding intent_of parse new
advert_barred = barred _ refl

forward_to_device-Withheld_example :
    (t : Session) × (forward_to_device one_register takes_all noon advert busy ≡ (t, ok tt))
    × Withheld advert busy t
forward_to_device-Withheld_example =
    forward_to_device-Withheld one_register takes_all noon advert busy advert_barred

abbrev reading : Request
reading = record { action = send (Command.set 1 1); reply = 9 }

handle_control-Stalled_example :
    (t : Session) × (handle_control one_register takes_all noon reading busy ≡ (t, ok tt))
    × Stalled one_register takes_all (verify_of (setting_of 254) none (some 7)) busy t
handle_control-Stalled_example =
    handle_control-Stalled one_register takes_all (λ before p. refl) noon (Command.set 1 1) 9
      (48 ∷ []) _ (verify_of (setting_of 254) none (some 7)) busy refl refl refl refl
