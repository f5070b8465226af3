-- ===== src/Server/Session/Moves/Keep.antt =====
-- What every turn of the loop of src/server/session.rs keeps, whether or not it succeeds.
use heliobridge.Base.{
  ◌≡◌, refl, sym, subst, ℕ, Option, none, some, List, [], ◌∷◌, ◌++◌, map, ◌⊎◌, inl, inr,
}
use heliobridge.Base.Results.{Result, ok, err}
use heliobridge.Mqtt.{
  Packet, connect, conn_ack, publish, pub_ack, subscribe, sub_ack, ping_req, ping_resp, disconnect,
  Subscribe,
}
use heliobridge.Mqtt.Stream.{StreamError}
use heliobridge.Driver.Seam.{Driver}
use heliobridge.Control.{Request, Caller}
use heliobridge.Server.Session.{Session, PendingRead, SessionError, continues, Moment}
use heliobridge.Server.Session.Core.{Core, core}
use heliobridge.Server.Session.Reads.{start_first, start_next_read, begin_resync, resync_of}
use heliobridge.Server.Session.Device.{
  write_unless, send_packet, send_pending_read, carry_out, handle_control,
}
use heliobridge.Server.Session.Turn.{
  Woke, Flow, continue, stop, replaced, time_push_due, read_timed_out, ack_timed_out, control,
  from_cloud, packet, broken, turn, handle_packet, on_subscribe, run,
}
use heliobridge.Server.Session.Moves.{Move, Moves-keep, writes, then_made}
use heliobridge.Server.Session.Moves.Reads.{Leads, begin_resync-Leads}
use heliobridge.Server.Session.Moves.Packets.{ends-Leads}
use heliobridge.Server.Session.Moves.Requests.{carry_out-moves}
use heliobridge.Server.Session.Moves.Loop.{Undisturbed, quiet_turn, callers}

start_first-forgets :
    (now : ℕ) (rs : List PendingRead) (s : Session)
    → start_first now rs s ≡ start_first now rs (record s { awaiting = none })
unfolding start_first
start_first-forgets now [] s = refl
start_first-forgets now (r ∷ rs) s = refl

-- Starting the read-back does not look at the read in flight.
begin_resync-forgets :
    (D : Driver) (now : ℕ) (s : Session)
    → begin_resync D now s ≡ begin_resync D now (record s { awaiting = none })
unfolding begin_resync start_next_read
begin_resync-forgets D now s =
    start_first-forgets now (s.reads ++ map resync_of (D.settings s.slots)) _

calm_or_subscribes :
    (woke : Woke) (s : Session)
    → Undisturbed woke s ⊎ ((sub : Subscribe) × (woke ≡ packet (some (subscribe sub))))
unfolding Undisturbed
calm_or_subscribes (packet (some (subscribe sub))) s = inr (sub, refl)
calm_or_subscribes (packet (some (connect c))) s = inl λ sub e. absurd cc
calm_or_subscribes (packet (some (conn_ack present code))) s = inl λ sub e. absurd cc
calm_or_subscribes (packet (some (publish p))) s = inl λ sub e. absurd cc
calm_or_subscribes (packet (some (pub_ack id))) s = inl λ sub e. absurd cc
calm_or_subscribes (packet (some (sub_ack id granted))) s = inl λ sub e. absurd cc
calm_or_subscribes (packet (some ping_req)) s = inl λ sub e. absurd cc
calm_or_subscribes (packet (some ping_resp)) s = inl λ sub e. absurd cc
calm_or_subscribes (packet (some disconnect)) s = inl λ sub e. absurd cc
calm_or_subscribes (packet none) s = inl λ sub e. absurd cc
calm_or_subscribes replaced s = inl λ sub e. absurd cc
calm_or_subscribes time_push_due s = inl λ sub e. absurd cc
calm_or_subscribes read_timed_out s = inl λ sub e. absurd cc
calm_or_subscribes ack_timed_out s = inl λ sub e. absurd cc
calm_or_subscribes (control request) s = inl λ sub e. absurd cc
calm_or_subscribes (from_cloud m) s = inl λ sub e. absurd cc
calm_or_subscribes (broken e) s = inl λ sub e. absurd cc

request_or_quiet :
    (woke : Woke) → (callers woke ≡ []) ⊎ ((request : Request) × (woke ≡ control (some request)))
request_or_quiet (control (some request)) = inr (request, refl)
request_or_quiet (control none) = inl refl
request_or_quiet (packet p) = inl refl
request_or_quiet replaced = inl refl
request_or_quiet time_push_due = inl refl
request_or_quiet read_timed_out = inl refl
request_or_quiet ack_timed_out = inl refl
request_or_quiet (from_cloud m) = inl refl
request_or_quiet (broken e) = inl refl

-- A turn that goes on leaves the state of the operation that it made.
state_of_continued :
    (out : Session × Result SessionError (Unit {0}))
    → (continues (λ _ t. (t, ok continue)) out).0 ≡ out.0
state_of_continued (t, ok u) = refl
state_of_continued (t, err e) = refl

module _ (D : Driver) (refuses : List Packet → Packet → Option StreamError) (P : Core → Type 0)
    (keeps : (xs : List Caller) (c d : Core) → Move xs c d → P c → P d)
    (forgets : (c : Core) → P c → P (record c { awaiting = none })) where
  -- After the read-back has begun, and what is held has been sent.
  begun :
      (at : Moment) (s : Session)
      → P (core s)
      → P (
          core
            (continues
              (λ _ u. (u, ok continue))
              (send_pending_read D refuses (begin_resync D at.instant s))).0)
  begun at s p =
      let idle : Session = record s { awaiting = none } in
      subst (λ t. P (core (continues (λ _ u. (u, ok continue)) (send_pending_read D refuses t)).0))
        (sym (begin_resync-forgets D at.instant s))
        (Moves-keep P keeps
          (then_made (begin_resync-Leads D at.instant idle refl)
            (ends-Leads D refuses continue (begin_resync D at.instant idle)))
          (forgets (core s) p))

  subscribed :
      (at : Moment) (e : Option StreamError) (id : ℕ) (granted : List ℕ) (s : Session)
      → P (core s)
      → P (
          core
            (continues
              (λ _ t.
                continues
                  (λ _ u. (u, ok continue))
                  (send_pending_read D refuses (begin_resync D at.instant t)))
              (write_unless D refuses e (sub_ack id granted) s)).0)
  unfolding write_unless
  subscribed at none id granted s p =
      begun at (record s { written = sub_ack id granted ∷ s.written })
        (keeps _ _ _ (writes (sub_ack id granted) tt) p)
  subscribed at (some e) id granted s p = p

  on_subscribe-keeps :
      (at : Moment) (sub : Subscribe) (s : Session)
      → P (core s)
      → P (core (turn D refuses at (packet (some (subscribe sub))) s).0)
  unfolding turn handle_packet on_subscribe send_packet
  on_subscribe-keeps at sub s p = subscribed at _ _ _ _ p

  requested-keeps :
      (at : Moment) (request : Request) (s : Session)
      → P (core s)
      → P (core (turn D refuses at (control (some request)) s).0)
  unfolding turn handle_control
  requested-keeps at request s p =
      let moves : (xs : List Caller) × Leads xs s
            (carry_out D refuses at request.action request.reply s).0 =
        carry_out-moves D refuses at request.action request.reply s in
      subst (λ t. P (core t))
        (sym (state_of_continued (carry_out D refuses at request.action request.reply s)))
        (Moves-keep P keeps moves.1 p)

  -- What moves keep, and the loss of the read in flight, every turn keeps.
  pub turn-keeps :
      (at : Moment) (woke : Woke) (s : Session) → P (core s) → P (core (turn D refuses at woke s).0)
  turn-keeps at woke s p = elim (request_or_quiet woke) [
    | inr (request, e) ↦ rw e (requested-keeps at request s p)
    | inl quiet ↦ elim (calm_or_subscribes woke s) [
      | inl calm ↦ Moves-keep P keeps (quiet_turn D refuses at woke s quiet calm) p
      | inr (sub, e) ↦ rw e (on_subscribe-keeps at sub s p)
    ]
  ]

  goes_on :
      (more : List (Moment × Woke)) (out : Session × Result SessionError Flow)
      → P (core out.0)
      → ((t : Session) → P (core t) → P (core (run D refuses more t).0))
      → P (
          core
            (continues
              (λ flow. elim flow [ continue ↦ run D refuses more | stop ↦ λ t. (t, ok tt) ])
              out).0)
  goes_on more (t, ok continue) q rest = rest t q
  goes_on more (t, ok stop) q rest = q
  goes_on more (t, err e) q rest = q

  -- And so does a whole run.
  pub run-keeps :
      (wakes : List (Moment × Woke)) (s : Session) → P (core s) → P (core (run D refuses wakes s).0)
  unfolding run
  run-keeps [] s p = p
  run-keeps ((at, woke) ∷ more) s p =
      goes_on more (turn D refuses at woke s) (turn-keeps at woke s p) (run-keeps more)
