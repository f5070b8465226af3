-- ===== src/Server/Session/Moves.antt =====
-- The moves that a session of src/server/session.rs makes, on the part of its state that its
-- invariants are about, and the steps of the book that they are.
pub mod Reads
pub mod Sends
pub mod Requests
pub mod Packets
pub mod Loop
pub mod Keep
use heliobridge.Base.{
  ◌≡◌, refl, ap, ◌∙◌, sym, subst, ℕ, ◌+◌, ◌≤◌, Bool, true, false, Option, none, some, List, [], ◌∷◌,
  ◌++◌, map,
}
use heliobridge.Model.{Register, Raw}
use heliobridge.Mqtt.{
  Packet, connect, conn_ack, publish, pub_ack, subscribe, sub_ack, ping_req, ping_resp, disconnect,
  QoS, at_most_once, at_least_once, Publish,
}
use heliobridge.Driver.Seam.{Setting}
use heliobridge.Control.{Caller, Outcome}
use heliobridge.Server.Access.{Devices, admits}
use heliobridge.Server.Session.{PendingRead, take_reply}
use heliobridge.Server.Session.Core.{Core}
use heliobridge.Server.Session.Book.{
  Book, book, Steps, Step, pick, ask, queue, put_back, finish, answer, rest, one, chain, give,
  caller_of,
}
use heliobridge.Server.Session.Reads.{resync_of, verify_of}
use heliobridge.Server.Session.Device.{following_id, publish_of}

-- An identifier exactly at QoS 1.
abbrev pub IsNumbered : QoS → Option ℕ → Type 0
IsNumbered at_most_once none = Unit {0}
IsNumbered at_most_once (some id) = ⊥
IsNumbered at_least_once none = ⊥
IsNumbered at_least_once (some id) = (1 ≤ id) × (id ≤ 65535)

-- A packet other than a PUBLISH, or one that is numbered as it has to be.
abbrev pub WellNumbered : Packet → Type 0
WellNumbered (publish p) = IsNumbered p.qos p.packet_id
WellNumbered (connect c) = Unit {0}
WellNumbered (conn_ack present code) = Unit {0}
WellNumbered (pub_ack id) = Unit {0}
WellNumbered (subscribe sub) = Unit {0}
WellNumbered (sub_ack id granted) = Unit {0}
WellNumbered ping_req = Unit {0}
WellNumbered ping_resp = Unit {0}
WellNumbered disconnect = Unit {0}

-- Whether the device has said who it is.
abbrev pub Identified : Core → Type 0
Identified c = (id : List ℕ) × (c.device_id ≡ some id)

pub data Move : List Caller → Core → Core → Type 0 where
  starts :
      {c : Core} (r : PendingRead) (rs : List PendingRead) (deadline : ℕ)
      → c.awaiting ≡ none
      → c.reads ≡ r ∷ rs
      → Move [] c (record c {
        reads = rs;
        pending_read = some r.entry.register;
        awaiting = some r;
        read_deadline = some deadline;
      })
  rests :
      {c : Core} (pending : Option Register)
      → c.awaiting ≡ none
      → Move [] c (record c { pending_read = pending; read_deadline = none })
  asks :
      {c : Core} (entry : Setting) (wanted : Option Raw) (reply : Option Caller)
      → Move (caller_of reply) c (record c { reads = verify_of entry wanted reply ∷ c.reads })
  queues :
      {c : Core} (entries : List Setting)
      → Move [] c (record c { reads = c.reads ++ map resync_of entries })
  puts_back :
      {c : Core} (r : PendingRead)
      → c.awaiting ≡ some r
      → Move [] c (record c { awaiting = none; reads = r ∷ c.reads })
  finishes :
      {c : Core} (r : PendingRead) (outcome : Outcome)
      → outcome.register ≡ r.entry.register
      → c.awaiting ≡ some r
      → Move [] c (record c { awaiting = none; replies = give (take_reply r) outcome c.replies })
  answers_at_once :
      {c : Core} (caller : Caller) (outcome : Outcome)
      → Move (caller ∷ []) c (record c { replies = (caller, outcome) ∷ c.replies })
  takes_pending : {c : Core} → Move [] c (record c { pending_read = none })
  counts : {c : Core} → Move [] c (record c { next_packet_id = following_id c.next_packet_id })
  writes :
      {c : Core} (p : Packet) → WellNumbered p → Move [] c (record c { written = p ∷ c.written })
  -- a PUBLISH under the next identifier
  publishes :
      {c : Core} (topic payload : List ℕ)
      → Move [] c (record c {
        next_packet_id = following_id c.next_packet_id;
        written = publish_of topic at_least_once (some c.next_packet_id) payload ∷ c.written;
      })
  holds : {c : Core} (until : Option ℕ) → Move [] c (record c { awaiting_ack = until })
  schedules : {c : Core} (due : Option ℕ) → Move [] c (record c { time_push_due = due })
  admits_as :
      {c : Core} (id : List ℕ)
      → admits c.devices id ≡ true
      → Move [] c (record c { device_id = some id })
  relays : {c : Core} → Identified c → Move [] c (record c { relay = true })
  registers : {c : Core} → Identified c → Move [] c (record c { registered = true })

pub data Moves : List Caller → Core → Core → Type 0 where
  none_made : {c d : Core} → d ≡ c → Moves [] c d
  made : {xs : List Caller} {c d : Core} → Move xs c d → Moves xs c d
  then_made :
      {xs ys : List Caller} {b c d : Core} → Moves xs b c → Moves ys c d → Moves (xs ++ ys) b d

Move-Steps : {xs : List Caller} {c d : Core} → Move xs c d → Steps xs (book c) (book d)
Move-Steps (starts r rs deadline idle e) = one (pick r rs idle e refl refl refl)
Move-Steps (rests pending idle) = rest refl
Move-Steps (asks entry wanted reply) = one (ask entry wanted reply refl refl refl)
Move-Steps (queues entries) = one (queue entries refl refl refl)
Move-Steps (puts_back r e) = one (put_back r e refl refl refl)
Move-Steps (finishes r outcome about e) = one (finish r outcome about e refl refl refl)
Move-Steps (answers_at_once caller outcome) = one (answer caller outcome refl refl refl)
Move-Steps takes_pending = rest refl
Move-Steps counts = rest refl
Move-Steps (writes p n) = rest refl
Move-Steps (publishes topic payload) = rest refl
Move-Steps (holds until) = rest refl
Move-Steps (schedules due) = rest refl
Move-Steps (admits_as id a) = rest refl
Move-Steps (relays i) = rest refl
Move-Steps (registers i) = rest refl

-- The moves are steps of the book.
pub Moves-Steps : {xs : List Caller} {c d : Core} → Moves xs c d → Steps xs (book c) (book d)
Moves-Steps (none_made e) = rest (ap book e)
Moves-Steps (made m) = Move-Steps m
Moves-Steps (then_made m n) = chain (Moves-Steps m) (Moves-Steps n)

-- What holds of the first state and is kept by every move holds of the last.
pub Moves-keep :
    (P : Core → Type 0)
    → ((xs : List Caller) (c d : Core) → Move xs c d → P c → P d)
    → {xs : List Caller} {c d : Core} → Moves xs c d
    → P c
    → P d
Moves-keep P keeps (none_made e) p = subst P (sym e) p
Moves-keep P keeps (made m) p = keeps _ _ _ m p
Moves-keep P keeps (then_made m n) p = Moves-keep P keeps n (Moves-keep P keeps m p)
