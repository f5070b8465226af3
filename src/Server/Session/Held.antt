-- ===== src/Server/Session/Held.antt =====
-- A write that awaits its acknowledgement in src/server/session.rs: nothing is read meanwhile, and
-- what becomes of the reads when it needs no read-back.
use heliobridge.Base.{◌≡◌, refl, ap, ◌∙◌, ℕ, Option, none, some, List, [], ◌∷◌, All}
use heliobridge.Base.Results.{ok}
use heliobridge.Model.{Register}
use heliobridge.Mqtt.{Packet}
use heliobridge.Mqtt.Stream.{StreamError}
use heliobridge.Driver.Seam.{Driver}
use heliobridge.Control.{Caller, refresh}
use heliobridge.Server.Session.{Session, PendingRead, Moment}
use heliobridge.Server.Session.Core.{Core}
use heliobridge.Server.Session.Reads.{
  start_first, start_next_read, start_if_idle, enqueue, enqueue_verification, give_up,
}
use heliobridge.Server.Session.Device.{
  send_pending_read, send_unless_held, handle_control, carry_out,
}
use heliobridge.Server.Session.Turn.{
  Woke, continue, read_timed_out, control, turn, run, on_read_timeout,
}
use heliobridge.Server.Session.Drain.{core-give_up}

-- What may wake a session without a word from the device: a read's timeout, or a request to read.
pub data Waits : Woke → Type 0 where
  a_timeout : Waits read_timed_out
  a_refresh :
      (register : Register) (caller : Caller)
      → Waits (control (some (record { action = refresh register; reply = caller })))

-- What has been written, and the hold that a write has on reads.
abbrev hold_of : Session → List Packet × Option ℕ
hold_of s = (s.written, s.awaiting_ack)

start_first-hold_of :
    (now : ℕ) (rs : List PendingRead) (s : Session) → hold_of (start_first now rs s) ≡ hold_of s
unfolding start_first
start_first-hold_of now [] s = refl
start_first-hold_of now (r ∷ rs) s = refl

start_if_idle-hold_of :
    (now : ℕ) (busy : Option PendingRead) (s : Session)
    → hold_of (start_if_idle now busy s) ≡ hold_of s
unfolding start_if_idle start_next_read
start_if_idle-hold_of now none s = start_first-hold_of now s.reads s
start_if_idle-hold_of now (some r) s = refl

expired-hold_of :
    (now : ℕ) (s : Session)
    → hold_of (start_next_read now (give_up s.awaiting (record s { awaiting = none }))) ≡ hold_of s
unfolding start_next_read
expired-hold_of now s =
    start_first-hold_of now _ (give_up s.awaiting (record s { awaiting = none }))
    ∙ ap {A = Core} {B = List Packet × Option ℕ} (λ c. (c.written, c.awaiting_ack))
        (core-give_up s.awaiting (record s { awaiting = none }))

module _ (D : Driver) (refuses : List Packet → Packet → Option StreamError) where
  -- A turn that writes nothing and lets the hold be.
  abbrev pub WritesNothing : Moment → Woke → Session → Type 0
  WritesNothing at woke s =
      (t : Session) × (turn D refuses at woke s ≡ (t, ok continue)) × (hold_of t ≡ hold_of s)

  held_back :
      (s t : Session) (deadline : ℕ)
      → hold_of t ≡ hold_of s
      → s.awaiting_ack ≡ some deadline
      → send_pending_read D refuses t ≡ (t, ok tt)
  unfolding send_pending_read send_unless_held
  held_back s t deadline same held =
      let e : t.awaiting_ack ≡ some deadline = ap (λ h. h.1) same ∙ held in rw e refl

  waiting_turn :
      (at : Moment) (woke : Woke) (s : Session) (deadline : ℕ)
      → Waits woke
      → s.awaiting_ack ≡ some deadline
      → WritesNothing at woke s
  unfolding turn on_read_timeout handle_control carry_out enqueue_verification enqueue
  waiting_turn at woke s deadline a_timeout held =
      let t : Session =
        start_next_read at.instant (give_up s.awaiting (record s { awaiting = none })) in
      (
        t,
        rw (held_back s t deadline (expired-hold_of at.instant s) held) refl,
        expired-hold_of at.instant s,
      )
  waiting_turn at woke s deadline (a_refresh register caller) held =
      let t : Session = enqueue_verification D at.instant register none (some caller) s in
      let same : hold_of t ≡ hold_of s = start_if_idle-hold_of at.instant s.awaiting _ in
      (t, rw (held_back s t deadline same held) refl, same)

  -- while a write awaits its acknowledgement, whatever reads time out or are asked for, the run goes on,
  -- writes nothing to the device and leaves the hold
  pub run-Waits :
      (wakes : List (Moment × Woke)) (s : Session) (deadline : ℕ)
      → All (λ w. Waits w.1) wakes
      → s.awaiting_ack ≡ some deadline
      → (t : Session) × (run D refuses wakes s ≡ (t, ok tt))
        × (t.written ≡ s.written)
        × (t.awaiting_ack ≡ some deadline)
  unfolding run
  run-Waits [] s deadline waits held = (s, refl, refl, held)
  run-Waits ((at, woke) ∷ more) s deadline waits held =
      let first : WritesNothing at woke s = waiting_turn at woke s deadline waits.0 held in
      let later : (t : Session) × (run D refuses more first.0 ≡ (t, ok tt))
          × (t.written ≡ first.0.written)
          × (t.awaiting_ack ≡ some deadline) =
        run-Waits more first.0 deadline waits.1 (ap (λ h. h.1) (first.2) ∙ held) in
      (later.0, rw (first.1) (later.1), later.2 ∙ ap (λ h. h.0) (first.2), later.3)
