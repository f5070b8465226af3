-- ===== src/Server/Session/Invariants.antt =====
-- What holds throughout a session of src/server/session.rs.
use heliobridge.Base.{
  ◌≡◌, refl, ◌∙◌, sym, subst, ℕ, ◌≤◌, true, Option, none, some, List, All, arith,
}
use heliobridge.Base.Results.{some-injective}
use heliobridge.Mqtt.{Packet}
use heliobridge.Mqtt.Stream.{StreamError}
use heliobridge.Driver.Seam.{Driver}
use heliobridge.Control.{Caller}
use heliobridge.Server.Access.{admits}
use heliobridge.Server.Session.{Session, PendingRead, Moment}
use heliobridge.Server.Session.Core.{Core, core}
use heliobridge.Server.Session.Turn.{Woke, run}
use heliobridge.Server.Session.Device.{following_id, publish_of}
use heliobridge.Server.Session.Moves.{
  Move, WellNumbered, Identified, starts, rests, asks, queues, puts_back, finishes, answers_at_once,
  takes_pending, counts, writes, publishes, holds, schedules, admits_as, relays, registers,
}
use heliobridge.Server.Session.Moves.Keep.{run-keeps}

-- A read in flight has a deadline.
pub record Timed (c : Core) : Type 0 where
  pub timer : (r : PendingRead) → c.awaiting ≡ some r → (at : ℕ) × (c.read_deadline ≡ some at)

-- Whoever the session says it serves was admitted, and nothing is relayed or registered before that.
pub record Guarded (c : Core) : Type 0 where
  pub admitted : (id : List ℕ) → c.device_id ≡ some id → admits c.devices id ≡ true
  pub relays_as : c.relay ≡ true → Identified c
  pub registered_as : c.registered ≡ true → Identified c

-- Identifiers are those of MQTT, and each PUBLISH went out with one exactly at QoS 1.
pub record Numbered (c : Core) : Type 0 where
  pub at_least : 1 ≤ c.next_packet_id
  pub at_most : c.next_packet_id ≤ 65535
  pub sent_numbered : All WellNumbered c.written

following_id_bounds :
    (id : ℕ) → 1 ≤ id → id ≤ 65535 → (1 ≤ following_id id) × (following_id id ≤ 65535)
unfolding following_id
following_id_bounds id lo hi = ground arith

Timed-Move : (xs : List Caller) (c d : Core) → Move xs c d → Timed c → Timed d
Timed-Move xs c d (starts r rs deadline idle e) h = record { timer = λ q i. (deadline, refl) }
Timed-Move xs c d (rests pending idle) h = record { timer = λ q i. absurd cc }
Timed-Move xs c d (asks entry wanted reply) h = record { timer = h.timer }
Timed-Move xs c d (queues entries) h = record { timer = h.timer }
Timed-Move xs c d (puts_back r e) h = record { timer = λ q i. absurd cc }
Timed-Move xs c d (finishes r outcome about e) h = record { timer = λ q i. absurd cc }
Timed-Move xs c d (answers_at_once caller outcome) h = record { timer = h.timer }
Timed-Move xs c d takes_pending h = record { timer = h.timer }
Timed-Move xs c d counts h = record { timer = h.timer }
Timed-Move xs c d (writes p n) h = record { timer = h.timer }
Timed-Move xs c d (publishes topic payload) h = record { timer = h.timer }
Timed-Move xs c d (holds until) h = record { timer = h.timer }
Timed-Move xs c d (schedules due) h = record { timer = h.timer }
Timed-Move xs c d (admits_as id a) h = record { timer = h.timer }
Timed-Move xs c d (relays i) h = record { timer = h.timer }
Timed-Move xs c d (registers i) h = record { timer = h.timer }

same_guards :
    (c d : Core)
    → d.device_id ≡ c.device_id
    → d.devices ≡ c.devices
    → d.relay ≡ c.relay
    → d.registered ≡ c.registered
    → Guarded c
    → Guarded d
same_guards c d i v l r h = record {
  admitted = λ id e. rw v (h.admitted id (sym i ∙ e));
  relays_as = λ e. let x : Identified c = h.relays_as (sym l ∙ e) in (x.0, i ∙ x.1);
  registered_as = λ e. let x : Identified c = h.registered_as (sym r ∙ e) in (x.0, i ∙ x.1);
}

Guarded-Move : (xs : List Caller) (c d : Core) → Move xs c d → Guarded c → Guarded d
Guarded-Move xs c d (starts r rs deadline idle e) h = same_guards c d refl refl refl refl h
Guarded-Move xs c d (rests pending idle) h = same_guards c d refl refl refl refl h
Guarded-Move xs c d (asks entry wanted reply) h = same_guards c d refl refl refl refl h
Guarded-Move xs c d (queues entries) h = same_guards c d refl refl refl refl h
Guarded-Move xs c d (puts_back r e) h = same_guards c d refl refl refl refl h
Guarded-Move xs c d (finishes r outcome about e) h = same_guards c d refl refl refl refl h
Guarded-Move xs c d (answers_at_once caller outcome) h = same_guards c d refl refl refl refl h
Guarded-Move xs c d takes_pending h = same_guards c d refl refl refl refl h
Guarded-Move xs c d counts h = same_guards c d refl refl refl refl h
Guarded-Move xs c d (writes p n) h = same_guards c d refl refl refl refl h
Guarded-Move xs c d (publishes topic payload) h = same_guards c d refl refl refl refl h
Guarded-Move xs c d (holds until) h = same_guards c d refl refl refl refl h
Guarded-Move xs c d (schedules due) h = same_guards c d refl refl refl refl h
Guarded-Move xs c d (admits_as id a) h = record {
  admitted = λ q e. subst (λ x. admits c.devices x ≡ true) (some-injective e) a;
  relays_as = λ e. (id, refl);
  registered_as = λ e. (id, refl);
}
Guarded-Move xs c d (relays i) h = record {
  admitted = h.admitted;
  relays_as = λ e. i;
  registered_as = h.registered_as;
}
Guarded-Move xs c d (registers i) h = record {
  admitted = h.admitted;
  relays_as = h.relays_as;
  registered_as = λ e. i;
}

Numbered-Move : (xs : List Caller) (c d : Core) → Move xs c d → Numbered c → Numbered d
unfolding publish_of
Numbered-Move xs c d (starts r rs deadline idle e) h = record {
  at_least = h.at_least;
  at_most = h.at_most;
  sent_numbered = h.sent_numbered;
}
Numbered-Move xs c d (rests pending idle) h = record {
  at_least = h.at_least;
  at_most = h.at_most;
  sent_numbered = h.sent_numbered;
}
Numbered-Move xs c d (asks entry wanted reply) h = record {
  at_least = h.at_least;
  at_most = h.at_most;
  sent_numbered = h.sent_numbered;
}
Numbered-Move xs c d (queues entries) h = record {
  at_least = h.at_least;
  at_most = h.at_most;
  sent_numbered = h.sent_numbered;
}
Numbered-Move xs c d (puts_back r e) h = record {
  at_least = h.at_least;
  at_most = h.at_most;
  sent_numbered = h.sent_numbered;
}
Numbered-Move xs c d (finishes r outcome about e) h = record {
  at_least = h.at_least;
  at_most = h.at_most;
  sent_numbered = h.sent_numbered;
}
Numbered-Move xs c d (answers_at_once caller outcome) h = record {
  at_least = h.at_least;
  at_most = h.at_most;
  sent_numbered = h.sent_numbered;
}
Numbered-Move xs c d takes_pending h = record {
  at_least = h.at_least;
  at_most = h.at_most;
  sent_numbered = h.sent_numbered;
}
Numbered-Move xs c d counts h =
    let next : (1 ≤ following_id c.next_packet_id) × (following_id c.next_packet_id ≤ 65535) =
      following_id_bounds c.next_packet_id h.at_least h.at_most in
    record { at_least = next.0; at_most = next.1; sent_numbered = h.sent_numbered }
Numbered-Move xs c d (writes p n) h = record {
  at_least = h.at_least;
  at_most = h.at_most;
  sent_numbered = (n, h.sent_numbered);
}
Numbered-Move xs c d (publishes topic payload) h =
    let next : (1 ≤ following_id c.next_packet_id) × (following_id c.next_packet_id ≤ 65535) =
      following_id_bounds c.next_packet_id h.at_least h.at_most in
    record {
      at_least = next.0;
      at_most = next.1;
      sent_numbered = ((h.at_least, h.at_most), h.sent_numbered);
    }
Numbered-Move xs c d (holds until) h = record {
  at_least = h.at_least;
  at_most = h.at_most;
  sent_numbered = h.sent_numbered;
}
Numbered-Move xs c d (schedules due) h = record {
  at_least = h.at_least;
  at_most = h.at_most;
  sent_numbered = h.sent_numbered;
}
Numbered-Move xs c d (admits_as id a) h = record {
  at_least = h.at_least;
  at_most = h.at_most;
  sent_numbered = h.sent_numbered;
}
Numbered-Move xs c d (relays i) h = record {
  at_least = h.at_least;
  at_most = h.at_most;
  sent_numbered = h.sent_numbered;
}
Numbered-Move xs c d (registers i) h = record {
  at_least = h.at_least;
  at_most = h.at_most;
  sent_numbered = h.sent_numbered;
}

module _ (D : Driver) (refuses : List Packet → Packet → Option StreamError) where
  -- whatever wakes a session, and in whatever order, a read in flight has a deadline at its end if it had
  -- one at its start, so an unanswered read is given up
  pub run-Timed :
      (wakes : List (Moment × Woke)) (s : Session)
      → Timed (core s)
      → Timed (core (run D refuses wakes s).0)
  run-Timed wakes s h =
      run-keeps D refuses Timed Timed-Move (λ c k. record { timer = λ q i. absurd cc }) wakes s h

  -- whatever wakes a session, it is known only as an admitted device, and it relays or is registered
  -- only once it is known, if that was so at its start
  pub run-Guarded :
      (wakes : List (Moment × Woke)) (s : Session)
      → Guarded (core s)
      → Guarded (core (run D refuses wakes s).0)
  run-Guarded wakes s h =
      run-keeps D refuses Guarded Guarded-Move
        (λ c k. same_guards c (record c { awaiting = none }) refl refl refl refl k) wakes s h

  -- whatever wakes a session, each PUBLISH that it has written carries an identifier exactly at QoS 1,
  -- and that is from 1 to 65535, if that was so at its start
  pub run-Numbered :
      (wakes : List (Moment × Woke)) (s : Session)
      → Numbered (core s)
      → Numbered (core (run D refuses wakes s).0)
  run-Numbered wakes s h =
      run-keeps D refuses Numbered Numbered-Move
        (λ c k. record {
          at_least = k.at_least;
          at_most = k.at_most;
          sent_numbered = k.sent_numbered;
        })
        wakes s h
