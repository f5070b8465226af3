-- ===== src/Server/Session/Moves/Requests.antt =====
-- What a request of the control API does in src/server/session.rs, as moves.
use heliobridge.Base.{◌≡◌, subst, Option, none, some, List, [], ◌∷◌}
use heliobridge.Base.Results.{Result, ok, err}
use heliobridge.Model.{Register, Raw}
use heliobridge.Mqtt.{Packet}
use heliobridge.Mqtt.Stream.{StreamError}
use heliobridge.Driver.Commands.{Command}
use heliobridge.Driver.Seam.{Driver}
use heliobridge.Control.{Action, apply, refresh, send, Caller}
use heliobridge.Server.Session.{Session, SessionError, continues, Moment}
use heliobridge.Server.Session.Core.{answered}
use heliobridge.Server.Session.Moves.{made, then_made, answers_at_once}
use heliobridge.Server.Session.Moves.Reads.{Leads, enqueue_verification-Leads, enqueue_all-Leads}
use heliobridge.Server.Session.Moves.Sends.{send_pending_read-Still, transmit-Still}
use heliobridge.Server.Session.Device.{transmit, confirm, report_sent, carry_out}

module _ (D : Driver) (refuses : List Packet → Packet → Option StreamError) where
  confirm-Leads :
      (at : Moment) (caller : Caller) (verify : List (Register × Option Raw)) (s : Session)
      → Leads (caller ∷ []) s (confirm D refuses at caller verify s).0
  unfolding confirm answered
  confirm-Leads at caller [] s = made (answers_at_once caller _)
  confirm-Leads at caller (first ∷ more) s =
      then_made (enqueue_all-Leads D at.instant first more caller s)
        (send_pending_read-Still D refuses _)

  report_sent-Leads :
      (caller : Caller) (command : Command)
      (out : Session × Result SessionError (List (Register × Option Raw)))
      → Leads (caller ∷ []) out.0 (report_sent D refuses caller command out).0
  unfolding report_sent answered
  report_sent-Leads caller command (s, ok verify) =
      then_made (made (answers_at_once caller _)) (send_pending_read-Still D refuses _)
  report_sent-Leads caller command (s, err e) = made (answers_at_once caller _)

  -- A command is transmitted before its caller is taken on.
  applied-Leads :
      (at : Moment) (caller : Caller) (s : Session)
      (out : Session × Result SessionError (List (Register × Option Raw))) {t : Session}
      {u : Unit {0}}
      → Leads [] s out.0
      → continues (confirm D refuses at caller) out ≡ (t, ok u)
      → Leads (caller ∷ []) s t
  applied-Leads at caller s (m, ok verify) l e =
      subst (λ x. Leads (caller ∷ []) s x.0) e (then_made l (confirm-Leads at caller verify m))
  applied-Leads at caller s (m, err failure) l e = absurd cc

  pub carry_out-Leads :
      (at : Moment) (action : Action) (caller : Caller) (s : Session) {t : Session} {u : Unit {0}}
      → carry_out D refuses at action caller s ≡ (t, ok u)
      → Leads (caller ∷ []) s t
  unfolding carry_out
  carry_out-Leads at (refresh r) caller s e =
      subst (λ x. Leads (caller ∷ []) s x.0) e
        (then_made (enqueue_verification-Leads D at.instant r none (some caller) s)
          (send_pending_read-Still D refuses _))
  carry_out-Leads at (apply command) caller s e =
      applied-Leads at caller s (transmit D refuses at command s)
        (transmit-Still D refuses at command s) e
  carry_out-Leads at (send command) caller s e =
      subst (λ x. Leads (caller ∷ []) s x.0) e
        (then_made (transmit-Still D refuses at command s)
          (report_sent-Leads caller command (transmit D refuses at command s)))

  applied-moves :
      (at : Moment) (caller : Caller) (s : Session)
      (out : Session × Result SessionError (List (Register × Option Raw)))
      → Leads [] s out.0
      → (xs : List Caller) × Leads xs s (continues (confirm D refuses at caller) out).0
  applied-moves at caller s (m, ok verify) l =
      (caller ∷ [], then_made l (confirm-Leads at caller verify m))
  applied-moves at caller s (m, err failure) l = ([], l)

  -- Whether or not it succeeds.
  pub carry_out-moves :
      (at : Moment) (action : Action) (caller : Caller) (s : Session)
      → (xs : List Caller) × Leads xs s (carry_out D refuses at action caller s).0
  unfolding carry_out
  carry_out-moves at (refresh r) caller s = (
    caller ∷ [],
    then_made (enqueue_verification-Leads D at.instant r none (some caller) s)
        (send_pending_read-Still D refuses _),
  )
  carry_out-moves at (apply command) caller s =
      applied-moves at caller s (transmit D refuses at command s)
        (transmit-Still D refuses at command s)
  carry_out-moves at (send command) caller s = (
    caller ∷ [],
    then_made (transmit-Still D refuses at command s)
        (report_sent-Leads caller command (transmit D refuses at command s)),
  )
