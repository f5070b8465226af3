-- ===== src/Server/Session/Reads.antt =====
-- The read queue of src/server/session.rs: one read in flight, verifications ahead of the startup
-- read-back, and every answer to the caller that waits for it.
use heliobridge.Base.{
  ℕ, ◌+◌, Bool, true, false, not, ◌||◌, Option, none, some, List, [], ◌∷◌, ◌++◌, map, any, ltb,
  ◌==◌, if◌then◌else◌,
}
use heliobridge.Model.{Register, Raw}
use heliobridge.Driver.Seam.{Driver, Setting}
use heliobridge.Control.{Caller, Outcome, read_back, timed_out}
use heliobridge.Server.Session.{
  ReadPurpose, Session, PendingRead, resync, verify, is_resync, requested, take_reply, answers,
  shows_settings, note, note_if, read_reply_timeout,
}

-- `BTreeMap::insert`, on the map's entries in the order of their registers.
unfoldable pub insert : Register → Raw → List (Register × Raw) → List (Register × Raw)
insert r raw [] = (r, raw) ∷ []
insert r raw ((k, held) ∷ rest) =
    let below = insert r raw rest in
    if r == k
    then (r, raw) ∷ rest
    else if ltb r k
    then (r, raw) ∷ ((k, held) ∷ rest)
    else (k, held) ∷ below

unfoldable pub held_at : Register → List (Register × Raw) → Option Raw
held_at r [] = none
held_at r ((k, held) ∷ rest) = if r == k then some held else held_at r rest

-- `Session::start_next_read`, on what `self.reads.pop_front()` finds.
unfoldable pub start_first : ℕ → List PendingRead → Session → Session
start_first now [] s = record s { awaiting = none; read_deadline = none }
start_first now (next ∷ rest) s = record s {
  reads = rest;
  pending_read = some next.entry.register;
  awaiting = some next;
  read_deadline = some (now + read_reply_timeout);
}

unfoldable pub start_next_read : ℕ → Session → Session
unfolding start_first
start_next_read now s = start_first now s.reads s

-- `Option::as_ref().is_some_and(PendingRead::is_resync)`
unfoldable pub awaits_resync : Option PendingRead → Bool
awaits_resync none = false
awaits_resync (some r) = is_resync r

-- `Session::resync_outstanding`
unfoldable pub resync_outstanding : Session → Bool
unfolding awaits_resync
resync_outstanding s = awaits_resync s.awaiting || any is_resync s.reads

-- Telling whoever waits on a read, if anyone does.
unfoldable pub tell : Option Caller → Outcome → Session → Session
tell none outcome s = s
tell (some caller) outcome s = note (answers caller outcome) s

-- The body of the `ReadTimedOut` arm of `Session::run` on the read that it takes.
unfoldable pub give_up : Option PendingRead → Session → Session
unfolding tell
give_up none s = s
give_up (some r) s = tell (take_reply r) (timed_out r.entry (requested r)) s

-- `Session::enqueue_verification` once the driver has described the register: the read is queued
-- first, and started if none is in flight.
unfoldable pub start_if_idle : ℕ → Option PendingRead → Session → Session
unfolding start_next_read
start_if_idle now none s = start_next_read now s
start_if_idle now (some busy) s = s

unfoldable pub enqueue : ℕ → PendingRead → Session → Session
unfolding start_if_idle
enqueue now r s = start_if_idle now s.awaiting (record s { reads = r ∷ s.reads })

-- The read that `Session::begin_resync` queues for a setting.
abbrev pub resync_of : Setting → PendingRead
resync_of entry = record { entry = entry; purpose = resync }

abbrev pub verify_of : Setting → Option Raw → Option Caller → PendingRead
verify_of entry wanted reply = record { entry = entry; purpose = verify wanted reply }

module _ (D : Driver) where
  abbrev view : Option Setting → Raw → List (Setting × Raw) → List (Setting × Raw)
  view none raw rest = rest
  view (some entry) raw rest = (entry, raw) ∷ rest

  -- The settings that the driver documents, with their values.
  unfoldable pub views : List (Register × Raw) → List (Setting × Raw)
  views [] = []
  views ((r, raw) ∷ rest) = view (D.setting r) raw (views rest)

  -- `Session::publish_settings`
  unfoldable pub publish_settings : Session → Session
  unfolding views
  publish_settings s = note_if s.registered (shows_settings (views s.settings)) s

  -- `Session::settle`; `finish_resync` publishes and logs.
  unfoldable pub settle_as : ReadPurpose → PendingRead → Raw → Session → Session
  unfolding publish_settings tell resync_outstanding
  settle_as resync r stored s = if not (resync_outstanding s) then publish_settings s else s
  settle_as (verify wanted reply) r stored s = tell reply (read_back r.entry wanted stored) s

  unfoldable pub settle : PendingRead → Raw → Session → Session
  unfolding settle_as
  settle r stored s = settle_as r.purpose r stored s

  -- The value of an answer, kept and published whether or not it was asked for.
  unfoldable pub keep : Register → Raw → Session → Session
  unfolding publish_settings insert
  keep register raw s = publish_settings (record s { settings = insert register raw s.settings })

  -- `Session::accept_read`, on the read in flight.
  unfoldable pub accept_as : ℕ → Option PendingRead → Register → Raw → Session → Session
  unfolding settle start_next_read keep
  accept_as now none register raw s = keep register raw s
  accept_as now (some r) register raw s =
      if r.entry.register == register
      then start_next_read now (settle r raw (keep register raw (record s { awaiting = none })))
      else keep register raw s

  unfoldable pub accept_read : ℕ → Register → Raw → Session → Session
  unfolding accept_as
  accept_read now register raw s = accept_as now s.awaiting register raw s

  -- The loop of `Session::accept_snapshot`: the settings after it, and whether any changed.
  unfoldable pub changes : Option Raw → Raw → Bool
  changes none raw = true
  changes (some held) raw = not (held == raw)

  unfoldable pub insert_all :
      List (Register × Raw) → List (Register × Raw) → Bool → List (Register × Raw) × Bool
  unfolding insert held_at changes
  insert_all [] settings changed = (settings, changed)
  insert_all ((r, raw) ∷ more) settings changed =
      insert_all more (insert r raw settings) (changed || changes (held_at r settings) raw)

  -- `Session::accept_snapshot`
  unfoldable pub accept_snapshot : List (Register × Raw) → Session → Session
  unfolding insert_all publish_settings
  accept_snapshot values s =
      let after : List (Register × Raw) × Bool = insert_all values s.settings false in
      let kept : Session = record s { settings = after.0 } in
      if after.1 then publish_settings kept else kept

  -- `Session::begin_resync`
  unfoldable pub begin_resync : ℕ → Session → Session
  unfolding start_next_read
  begin_resync now s =
      start_next_read now (record s { reads = s.reads ++ map resync_of (D.settings s.slots) })

  -- `Session::enqueue_verification`
  unfoldable pub enqueue_verification :
      ℕ → Register → Option Raw → Option Caller → Session → Session
  unfolding enqueue
  enqueue_verification now register wanted reply s =
      enqueue now (verify_of (D.describe register) wanted reply) s

  -- The loop over `verify` of `Session::handle_control`: the first takes the reply.
  unfoldable pub enqueue_all : ℕ → List (Register × Option Raw) → Option Caller → Session → Session
  unfolding enqueue_verification
  enqueue_all now [] reply s = s
  enqueue_all now ((register, wanted) ∷ more) reply s =
      enqueue_all now more none (enqueue_verification now register wanted reply s)
