-- ===== src/Server/Session/Moves/Reads.antt =====
-- The operations of src/server/session.rs on the read queue, as moves.
use heliobridge.Base.{
  ◌+◌, ◌≡◌, refl, ap, ◌∙◌, sym, subst, ℕ, Option, none, some, List, [], ◌∷◌, ◌++◌, ◌==◌, Bool-cases,
  inl, inr,
}
use heliobridge.Model.{Register, Raw}
use heliobridge.Driver.Seam.{Driver}
use heliobridge.Driver.Report.{
  Said, telemetry, identity, read_answer, write_ack, snapshot, accessory_reading, undecoded,
  unknown, unreadable,
}
use heliobridge.Control.{Caller, Outcome, timed_out, read_back}
use heliobridge.Server.Session.{
  Session, PendingRead, read_reply_timeout, ReadPurpose, resync, verify, take_reply, requested,
}
use heliobridge.Server.Session.Core.{
  Core, core, answered, core-if, core-publish_settings, core-keep, core-accept_snapshot,
  core-accept_identity, core-take_telemetry, core-publish_accessory,
}
use heliobridge.Server.Session.Book.{give, caller_of}
use heliobridge.Server.Session.Moves.{
  Moves, none_made, made, then_made, starts, rests, asks, queues, finishes, holds,
}
use heliobridge.Server.Session.Reads.{
  accept_snapshot, start_next_read, start_first, tell, give_up, enqueue, start_if_idle, settle,
  settle_as, keep, accept_read, accept_as, begin_resync, enqueue_verification, enqueue_all,
}
use heliobridge.Server.Session.Reported.{
  take_telemetry, accept_identity, publish_accessory, take, take_all,
}

abbrev pub Leads : List Caller → Session → Session → Type 0
Leads xs s t = Moves xs (core s) (core t)

pub quietly : (s t : Session) → core t ≡ core s → Leads [] s t
quietly s t h = none_made h

pub answered-tell :
    (reply : Option Caller) (outcome : Outcome) (s : Session)
    → core (tell reply outcome s)
      ≡ record (core s) { replies = give reply outcome (answered s.effects) }
unfolding tell answered
answered-tell none outcome s = refl
answered-tell (some c) outcome s = refl

start_first-Leads :
    (now : ℕ) (rs : List PendingRead) (s : Session)
    → s.reads ≡ rs
    → s.awaiting ≡ none
    → Leads [] s (start_first now rs s)
unfolding start_first
start_first-Leads now [] s e idle = then_made (made (rests s.pending_read idle)) (
    none_made (
      ap {A = Option PendingRead} {B = Core}
        (λ a. record (core s) { awaiting = a; read_deadline = none }) (sym idle)))
start_first-Leads now (r ∷ rs) s e idle = made (starts r rs (now + read_reply_timeout) idle e)

pub start_next_read-Leads :
    (now : ℕ) (s : Session) → s.awaiting ≡ none → Leads [] s (start_next_read now s)
unfolding start_next_read
start_next_read-Leads now s idle = start_first-Leads now s.reads s refl idle

start_if_idle-Leads :
    (now : ℕ) (busy : Option PendingRead) (s : Session)
    → s.awaiting ≡ busy
    → Leads [] s (start_if_idle now busy s)
unfolding start_if_idle
start_if_idle-Leads now none s idle = start_next_read-Leads now s idle
start_if_idle-Leads now (some r) s busy = none_made refl

module _ (D : Driver) where
  pub enqueue_verification-Leads :
      (now : ℕ) (register : Register) (wanted : Option Raw) (reply : Option Caller) (s : Session)
      → Leads (caller_of reply ++ []) s (enqueue_verification D now register wanted reply s)
  unfolding enqueue_verification enqueue
  enqueue_verification-Leads now register wanted reply s =
      then_made (made (asks (D.describe register) wanted reply))
        (start_if_idle-Leads now s.awaiting _ refl)

  enqueue_rest-Leads :
      (now : ℕ) (more : List (Register × Option Raw)) (s : Session)
      → Leads [] s (enqueue_all D now more none s)
  unfolding enqueue_all
  enqueue_rest-Leads now [] s = none_made refl
  enqueue_rest-Leads now ((register, wanted) ∷ more) s =
      then_made (enqueue_verification-Leads now register wanted none s)
        (enqueue_rest-Leads now more _)

  pub enqueue_all-Leads :
      (now : ℕ) (first : Register × Option Raw) (more : List (Register × Option Raw))
      (caller : Caller) (s : Session)
      → Leads (caller ∷ []) s (enqueue_all D now (first ∷ more) (some caller) s)
  unfolding enqueue_all
  enqueue_all-Leads now (register, wanted) more caller s =
      then_made (enqueue_verification-Leads now register wanted (some caller) s)
        (enqueue_rest-Leads now more _)

  pub begin_resync-Leads :
      (now : ℕ) (s : Session) → s.awaiting ≡ none → Leads [] s (begin_resync D now s)
  unfolding begin_resync
  begin_resync-Leads now s idle =
      then_made (made (queues (D.settings s.slots))) (start_next_read-Leads now _ idle)

-- The core of a session that has told whoever waits on a read, and whose read in flight has ended.
abbrev pub told : PendingRead → Outcome → Core → Core
told r outcome c = record c { replies = give (take_reply r) outcome c.replies }

abbrev pub ended : PendingRead → Outcome → Core → Core
ended r outcome c = record c { awaiting = none; replies = give (take_reply r) outcome c.replies }

ended-Leads :
    (s t : Session) (r : PendingRead) (outcome : Outcome)
    → outcome.register ≡ r.entry.register
    → s.awaiting ≡ some r
    → core t ≡ ended r outcome (core s)
    → Leads [] s t
ended-Leads s t r outcome about busy h =
    subst (λ c. Moves [] (core s) c) (sym h) (made (finishes r outcome about busy))

-- A read that ends is followed by the next.
next-Leads :
    (now : ℕ) (s t : Session) (r : PendingRead) (outcome : Outcome)
    → outcome.register ≡ r.entry.register
    → s.awaiting ≡ some r
    → core t ≡ ended r outcome (core s)
    → Leads [] s (start_next_read now t)
next-Leads now s t r outcome about busy h =
    then_made (ended-Leads s t r outcome about busy h)
      (start_next_read-Leads now t (ap (λ c. c.awaiting) h))

pub give_up-Leads :
    (now : ℕ) (busy : Option PendingRead) (s : Session)
    → s.awaiting ≡ busy
    → Leads [] s (start_next_read now (give_up busy (record s { awaiting = none })))
unfolding give_up
give_up-Leads now none s e =
    then_made
      (none_made
        (ap {A = Option PendingRead} {B = Core} (λ a. record (core s) { awaiting = a }) (sym e)))
      (start_next_read-Leads now (record s { awaiting = none }) refl)
give_up-Leads now (some r) s e =
    next-Leads now s _ r (timed_out r.entry (requested r)) (unfold timed_out in refl) e
      (answered-tell (take_reply r) _ _)

module _ (D : Driver) where
  pub core-settle_as :
      (purpose : ReadPurpose) (r : PendingRead) (raw : Raw) (s : Session)
      → r.purpose ≡ purpose
      → core (settle_as D purpose r raw s) ≡ told r (read_back r.entry (requested r) raw) (core s)
  unfolding settle_as take_reply requested
  core-settle_as resync r raw s e = rw e (core-if _ _ s (core-publish_settings D s))
  core-settle_as (verify wanted reply) r raw s e = rw e (answered-tell reply _ s)

  accept_as-Leads :
      (now : ℕ) (busy : Option PendingRead) (register : Register) (raw : Raw) (s : Session)
      → s.awaiting ≡ busy
      → Leads [] s (accept_as D now busy register raw s)
  unfolding accept_as settle
  accept_as-Leads now none register raw s e =
      quietly s (keep D register raw s) (core-keep D register raw s)
  accept_as-Leads now (some r) register raw s e =
      let outcome : Outcome = read_back r.entry (requested r) raw in
      let idle : Session = record s { awaiting = none } in
      let kept : core (keep D register raw idle) ≡ core idle = core-keep D register raw idle in
      let settled : core (settle_as D r.purpose r raw (keep D register raw idle))
          ≡ ended r outcome (core s) =
        core-settle_as r.purpose r raw (keep D register raw idle) refl
        ∙ ap {A = Core} {B = Core} (told r outcome) kept in
      elim (Bool-cases (r.entry.register == register)) [
        | inl same ↦ rw same (
            next-Leads now s (settle_as D r.purpose r raw (keep D register raw idle)) r outcome
              (unfold read_back in refl) e settled)
        | inr other ↦ rw other (quietly s (keep D register raw s) (core-keep D register raw s))
      ]

  accept_read-Leads :
      (now : ℕ) (register : Register) (raw : Raw) (s : Session)
      → Leads [] s (accept_read D now register raw s)
  unfolding accept_read
  accept_read-Leads now register raw s = accept_as-Leads now s.awaiting register raw s refl

  take-Leads : (now : ℕ) (said : Said) (s : Session) → Leads [] s (take D now said s)
  unfolding take
  take-Leads now (telemetry t) s = quietly s (take_telemetry t s) (core-take_telemetry t s)
  take-Leads now (identity i) s = quietly s (accept_identity D i s) (core-accept_identity D i s)
  take-Leads now (read_answer register raw) s = accept_read-Leads now register raw _
  take-Leads now (write_ack a) s = made (holds none)
  take-Leads now (snapshot n) s =
      quietly s (accept_snapshot D n.values s) (core-accept_snapshot D n.values s)
  take-Leads now (accessory_reading r) s =
      quietly s (publish_accessory r s) (core-publish_accessory r s)
  take-Leads now (undecoded kind len) s = none_made refl
  take-Leads now (unknown kind len) s = none_made refl
  take-Leads now (unreadable kind failure) s = none_made refl

  pub take_all-Leads :
      (now : ℕ) (said : List Said) (s : Session) → Leads [] s (take_all D now said s)
  unfolding take_all
  take_all-Leads now [] s = none_made refl
  take_all-Leads now (first ∷ more) s =
      then_made (take-Leads now first s) (take_all-Leads now more _)
