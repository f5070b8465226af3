-- ===== src/Server/Session/Refinement.antt =====
-- What src/server/session.rs promises of reads and of callers, turn by turn.
use heliobridge.Base.{◌≡◌, ◌+◌, Option, List}
use heliobridge.Base.Results.{ok}
use heliobridge.Mqtt.{Packet}
use heliobridge.Mqtt.Stream.{StreamError}
use heliobridge.Driver.Seam.{Driver}
use heliobridge.Control.{Caller}
use heliobridge.Server.Session.{Session, Moment}
use heliobridge.Server.Session.Core.{core}
use heliobridge.Server.Session.Book.{Steps, book, account, asked, account-Steps}
use heliobridge.Server.Session.Turn.{Woke, Flow, turn}
use heliobridge.Server.Session.Moves.{Moves-Steps}
use heliobridge.Server.Session.Moves.Loop.{callers, Undisturbed, turn-Leads}

module _ (D : Driver) (refuses : List Packet → Packet → Option StreamError) where
  -- a turn that succeeds is a sequence of the book's steps that takes on the callers it heard, if the
  -- device does not subscribe while a read is in flight
  pub turn-Steps :
      (at : Moment) (woke : Woke) (s : Session) {t : Session} {flow : Flow}
      → Undisturbed woke s
      → turn D refuses at woke s ≡ (t, ok flow)
      → Steps (callers woke) (book (core s)) (book (core t))
  turn-Steps at woke s calm e = Moves-Steps (turn-Leads D refuses at woke s calm e)

  -- of every caller, a turn that succeeds leaves as many answers given and owed as there were, and one
  -- more for each request of that caller in it, if the device does not subscribe while a read is in flight
  pub account-turn :
      (caller : Caller) (at : Moment) (woke : Woke) (s : Session) {t : Session} {flow : Flow}
      → Undisturbed woke s
      → turn D refuses at woke s ≡ (t, ok flow)
      → account caller (book (core t))
        ≡ account caller (book (core s)) + asked caller (callers woke)
  account-turn caller at woke s calm e = account-Steps caller (turn-Steps at woke s calm e)
