-- ===== src/Growatt/Commands/Reads.antt =====
-- That src/growatt/commands.rs can express every read for a device whose id a frame can hold, so that
-- the Growatt driver meets what the session's reads ask of a driver.
use heliobridge.Base.{arith, ℕ, ◌≤◌, ◌≡◌, refl, ap, subst, ◌∙◌, true, all, some, List, length}
use heliobridge.Base.Text.{is_ascii_graphic}
use heliobridge.Base.Octets.{be16}
use heliobridge.Base.Results.{Result, ok, err, some-injective}
use heliobridge.Model.{Register}
use heliobridge.Driver.Commands.{Outgoing}
use heliobridge.Driver.Commands as Asked
use heliobridge.Driver.Seam.{Driver}
use heliobridge.Growatt.MessageType.{MessageType}
use heliobridge.Growatt.Encode.{EncodeError, read_single, frame}
use heliobridge.Growatt.Encode.Body.{to_frame, body, message_type}
use heliobridge.Growatt.Frame.{Frame}
use heliobridge.Growatt.Frame.New
use heliobridge.Growatt.Commands.{prepare, outgoing, translate}
use heliobridge.Server.Session.Drain.{Expresses}

-- What the id field of a frame can hold.
pub record IsNamed (id : List ℕ) : Type 0 where
  pub short : length id ≤ 30
  pub graphic : all is_ascii_graphic id ≡ true

-- An error as its text, as a session sees it.
abbrev pub with_text :
    (EncodeError → List ℕ) → Result EncodeError Outgoing → Result (List ℕ) Outgoing
with_text text (ok out) = ok out
with_text text (err e) = err (text e)

to_frame-read :
    (id : List ℕ) (r : Register) → IsNamed id → (f : Frame) × (to_frame (read_single r) id ≡ ok f)
unfolding to_frame be16
to_frame-read id r h =
    let fits : New.Fits (message_type (read_single r)) id (body (read_single r)) = record {
      id_fits = h.short;
      graphic = h.graphic;
      body_fits = unfold body in omega arith;
    } in
    (
      _,
      ap (λ x. elim x [ ok f ↦ ok f | err e ↦ err (frame e) ])
          (New.new-Fits (message_type (read_single r)) id (body (read_single r)) fits),
    )

module _ (checksum : List ℕ → ℕ) (describes : MessageType → List ℕ)
    (text : EncodeError → List ℕ) where
  prepare-read :
      (id : List ℕ) (r : Register)
      → IsNamed id
      → (out : Outgoing) × (prepare checksum describes id (Asked.read r) ≡ ok out)
  unfolding prepare translate
  prepare-read id r h =
      let (f, e) = to_frame-read id r h in
      (outgoing checksum describes (read_single r) f, rw e refl)

  -- A driver with Growatt's `prepare` can express every read for a device whose id fits a frame.
  pub prepare-Expresses :
      (D : Driver)
      → ((id : List ℕ) (asked : Asked.Command)
          → D.prepare id asked ≡ with_text text (prepare checksum describes id asked))
      → (id : List ℕ) → IsNamed id
      → Expresses D (some id)
  prepare-Expresses D same id fits asked_for e r =
      let (out, made) = prepare-read asked_for r (subst IsNamed (some-injective e) fits) in
      (out, same asked_for (Asked.read r) ∙ ap (with_text text) made)
