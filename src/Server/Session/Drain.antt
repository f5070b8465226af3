-- ===== src/Server/Session/Drain.antt =====
-- Reads that nothing answers in src/server/session.rs: each timeout ends one, tells its caller and
-- starts the next, until none is left.
use heliobridge.Base.{
  ◌≡◌, refl, ap, ◌∙◌, sym, subst, ℕ, suc, ◌+◌, ◌≤◌, Option, none, some, List, [], ◌∷◌, map, length,
  arith,
}
use heliobridge.Base.Results.{Result, ok}
use heliobridge.Model.{Register}
use heliobridge.Mqtt.{Packet}
use heliobridge.Mqtt.Stream.{StreamError}
use heliobridge.Recorder.{inject}
use heliobridge.Driver.Commands.{Command, Outgoing}
use heliobridge.Driver.Seam.{Driver}
use heliobridge.Control.{Caller, Outcome, timed_out}
use heliobridge.Server.Session.{
  record_frame, Session, SessionError, PendingRead, take_reply, requested, Moment,
}
use heliobridge.Server.Session.Core.{Core, core, core-record_frame, answered}
use heliobridge.Server.Session.Book.{Book, book, give, given, account}
use heliobridge.Server.Session.Reads.{start_first, start_next_read, give_up}
use heliobridge.Server.Session.Device.{
  write_unless, send_packet, prepare, inject_publish, send_read, send_if_pending, send_unless_held,
  send_pending_read, take_packet_id, or_default,
}
use heliobridge.Server.Session.Turn.{continue, read_timed_out, turn, run, on_read_timeout}
use heliobridge.Server.Session.Moves.Loop.{Undisturbed}
use heliobridge.Server.Session.Moves.Reads.{answered-tell}
use heliobridge.Server.Session.Refinement.{account-turn}

-- What a timeout makes of the book.
abbrev pub told_late : Option PendingRead → List (Caller × Outcome) → List (Caller × Outcome)
told_late none replies = replies
told_late (some r) replies = give (take_reply r) (timed_out r.entry (requested r)) replies

abbrev pub next : List PendingRead → List (Caller × Outcome) → Book
next [] replies = record { in_flight = none; waiting = []; replies = replies }
next (r ∷ rs) replies = record { in_flight = some r; waiting = rs; replies = replies }

abbrev pub time_out : Book → Book
time_out b = next b.waiting (told_late b.in_flight b.replies)

-- Reads wait only behind one that is in flight.
abbrev pub IsRunning : Book → Type 0
IsRunning b = b.in_flight ≡ none → b.waiting ≡ []

abbrev in_flight_count : Option PendingRead → ℕ
in_flight_count none = 0
in_flight_count (some r) = 1

abbrev pub outstanding : Book → ℕ
outstanding b = in_flight_count b.in_flight + length b.waiting

next-IsRunning : (rs : List PendingRead) (reps : List (Caller × Outcome)) → IsRunning (next rs reps)
next-IsRunning [] reps e = refl
next-IsRunning (r ∷ rs) reps e = absurd cc

outstanding-next :
    (rs : List PendingRead) (reps : List (Caller × Outcome))
    → outstanding (next rs reps) ≡ length rs
outstanding-next [] reps = omega arith
outstanding-next (r ∷ rs) reps = omega arith

start_first-book :
    (now : ℕ) (rs : List PendingRead) (s : Session)
    → s.reads ≡ rs
    → book (core (start_first now rs s)) ≡ next rs (answered s.effects)
unfolding start_first
start_first-book now [] s e = rw e refl
start_first-book now (r ∷ rs) s e = refl

start_next_read-book :
    (now : ℕ) (s : Session)
    → book (core (start_next_read now s)) ≡ next s.reads (answered s.effects)
unfolding start_next_read
start_next_read-book now s = start_first-book now s.reads s refl

pub core-give_up :
    (busy : Option PendingRead) (s : Session)
    → core (give_up busy s) ≡ record (core s) { replies = told_late busy (answered s.effects) }
unfolding give_up
core-give_up none s = refl
core-give_up (some r) s = answered-tell (take_reply r) (timed_out r.entry (requested r)) s

-- What the driver can express for the device that the session knows, if it knows one: every read.
abbrev pub Expresses : Driver → Option (List ℕ) → Type 0
Expresses D known =
    (id : List ℕ)
    → known ≡ some id
    → (r : Register) → (out : Outgoing) × (D.prepare id (Command.read r) ≡ ok out)

-- An operation that succeeds and leaves the book and the device's id alone.
record Succeeds (s : Session) (out : Session × Result SessionError (Unit {0})) : Type 0 where
  after : Session
  done : out ≡ (after, ok tt)
  same_book : book (core after) ≡ book (core s)
  same_device : after.device_id ≡ s.device_id

unchanged : (s : Session) → Succeeds s (s, ok tt)
unchanged s = record { after = s; done = refl; same_book = refl; same_device = refl }

device_id-start_first :
    (now : ℕ) (rs : List PendingRead) (s : Session) → (start_first now rs s).device_id ≡ s.device_id
unfolding start_first
device_id-start_first now [] s = refl
device_id-start_first now (r ∷ rs) s = refl

device_id-start_next_read :
    (now : ℕ) (s : Session) → (start_next_read now s).device_id ≡ s.device_id
unfolding start_next_read
device_id-start_next_read now s = device_id-start_first now s.reads s

-- No read is left, and every answer that was owed has been given.
pub record Drained (s t : Session) : Type 0 where
  pub idle : t.awaiting ≡ none
  pub empty : t.reads ≡ []
  pub paid : (caller : Caller) → given caller (core t).replies ≡ account caller (book (core s))

idle-Drained :
    (busy : Option PendingRead) (rs : List PendingRead) (s : Session)
    → s.awaiting ≡ busy
    → s.reads ≡ rs
    → in_flight_count busy + length rs ≤ 0
    → Drained s s
idle-Drained none [] s e f few = record {
  idle = e;
  empty = f;
  paid = λ caller. rw (e, f) (omega arith);
}
idle-Drained (some r) rs s e f few = absurd (omega arith)
idle-Drained none (r ∷ rs) s e f few = absurd (omega arith)

-- A timeout takes one off what is outstanding.
outstanding-time_out :
    (busy : Option PendingRead) (rs : List PendingRead) (reps : List (Caller × Outcome)) (n : ℕ)
    → (busy ≡ none → rs ≡ [])
    → in_flight_count busy + length rs ≤ suc n
    → outstanding (next rs reps) ≤ n
outstanding-time_out none rs reps n running few =
    omega (arith, outstanding-next rs reps, ap length (running refl))
outstanding-time_out (some r) rs reps n running few = omega (arith, outstanding-next rs reps)

module _ (D : Driver) (refuses : List Packet → Packet → Option StreamError)
    (takes : (before : List Packet) (p : Packet) → refuses before p ≡ none)
    (known : Option (List ℕ)) (expresses : Expresses D known) where
  inject_publish-Succeeds :
      (device_id payload : List ℕ) (s : Session)
      → Succeeds s (inject_publish D refuses device_id payload s)
  unfolding inject_publish take_packet_id send_packet write_unless
  inject_publish-Succeeds device_id payload s =
      let same : core (record_frame inject payload s) ≡ core s =
        core-record_frame inject payload s in
      rw takes (record {
        after = _;
        done = refl;
        same_book = ap book same;
        same_device = ap (λ (c : Core). c.device_id) same;
      })

  send_read-Succeeds :
      (device_id : Option (List ℕ)) (r : Register) (s : Session)
      → s.device_id ≡ device_id
      → device_id ≡ known
      → Succeeds s (send_read D refuses device_id r s)
  unfolding send_read prepare
  send_read-Succeeds none r s e k = unchanged s
  send_read-Succeeds (some device_id) r s e k =
      let out : (out : Outgoing) × (D.prepare device_id (Command.read r) ≡ ok out) =
        expresses device_id (sym k) r in
      let made : D.prepare (or_default D refuses s.device_id) (Command.read r) ≡ ok (out.0) =
        ap (λ o. D.prepare (or_default D refuses o) (Command.read r)) e ∙ out.1 in
      rw made (inject_publish-Succeeds device_id out.0.payload s)

  send_if_pending-Succeeds :
      (pending : Option Register) (s : Session)
      → s.device_id ≡ known
      → Succeeds s (send_if_pending D refuses pending s)
  unfolding send_if_pending
  send_if_pending-Succeeds none s k = unchanged s
  send_if_pending-Succeeds (some r) s k =
      let sent = send_read-Succeeds s.device_id r (record s { pending_read = none }) refl k in
      record {
        after = sent.after;
        done = sent.done;
        same_book = sent.same_book;
        same_device = sent.same_device;
      }

  send_unless_held-Succeeds :
      (held : Option ℕ) (s : Session)
      → s.device_id ≡ known
      → Succeeds s (send_unless_held D refuses held s)
  unfolding send_unless_held
  send_unless_held-Succeeds (some deadline) s k = unchanged s
  send_unless_held-Succeeds none s k = send_if_pending-Succeeds s.pending_read s k

  -- What a timeout comes to: it succeeds, does to the book what a timeout does, and the session
  -- knows the same device.
  record TimesOut (at : Moment) (s : Session) : Type 0 where
    next_state : Session
    goes_on : turn D refuses at read_timed_out s ≡ (next_state, ok continue)
    told : book (core next_state) ≡ time_out (book (core s))
    knows : next_state.device_id ≡ known

  timeout-TimesOut : (at : Moment) (s : Session) → s.device_id ≡ known → TimesOut at s
  unfolding turn on_read_timeout send_pending_read
  timeout-TimesOut at s k =
      let given_up : Session = give_up s.awaiting (record s { awaiting = none }) in
      let started : Session = start_next_read at.instant given_up in
      let ended : core given_up ≡ record (core (record s { awaiting = none })) {
        replies = told_late s.awaiting (answered s.effects);
      } =
        core-give_up s.awaiting (record s { awaiting = none }) in
      let knows : started.device_id ≡ known =
        device_id-start_next_read at.instant given_up ∙ ap (λ (c : Core). c.device_id) ended ∙ k in
      let out : Succeeds started (send_unless_held D refuses started.awaiting_ack started) =
        send_unless_held-Succeeds started.awaiting_ack started knows in
      record {
        next_state = out.after;
        goes_on = rw out.done refl;
        told =
            out.same_book
            ∙ start_next_read-book at.instant given_up
            ∙ ap {A = Core} {B = Book} (λ c. next c.reads c.replies) ended;
        knows = out.same_device ∙ knows;
      }

  account-timeout :
      (caller : Caller) (at : Moment) (s t : Session)
      → turn D refuses at read_timed_out s ≡ (t, ok continue)
      → account caller (book (core t)) ≡ account caller (book (core s))
  unfolding Undisturbed
  account-timeout caller at s t e =
      omega (arith, account-turn D refuses caller at read_timed_out s (λ sub w. absurd cc) e)

  -- If the stream takes every packet, the driver can express every read for the device that the
  -- session knows, if it knows one, and no read waits without one in flight, then as many timeouts as
  -- reads are outstanding, or more, succeed and leave no read outstanding and every caller that waited
  -- answered.
  pub run-timeouts :
      (ats : List Moment) (s : Session)
      → s.device_id ≡ known
      → IsRunning (book (core s))
      → outstanding (book (core s)) ≤ length ats
      → (t : Session) × (run D refuses (map (λ at. (at, read_timed_out)) ats) s ≡ (t, ok tt))
        × Drained s t
  unfolding run
  run-timeouts [] s k running few = (s, refl, idle-Drained s.awaiting s.reads s refl refl few)
  run-timeouts (at ∷ ats) s k running few =
      let first : TimesOut at s = timeout-TimesOut at s k in
      let fewer : outstanding (book (core first.next_state)) ≤ length ats =
        subst (λ b. outstanding b ≤ length ats) (sym first.told)
          (outstanding-time_out s.awaiting s.reads _ (length ats) running few) in
      let goes : IsRunning (book (core first.next_state)) =
        subst IsRunning (sym first.told) (next-IsRunning s.reads _) in
      let later : (t : Session) × (run D refuses (map (λ at. (at, read_timed_out)) ats)
              first.next_state
            ≡ (t, ok tt))
          × Drained first.next_state t =
        run-timeouts ats first.next_state first.knows goes fewer in
      let left : Drained first.next_state later.0 = later.2 in
      (
        later.0,
        rw first.goes_on (later.1),
        record {
          idle = left.idle;
          empty = left.empty;
          paid = λ caller.
              left.paid caller ∙ account-timeout caller at s first.next_state first.goes_on;
        },
      )
