-- ===== src/Server/Session/Refused.antt =====
-- A message of the cloud that the policy does not let through, in src/server/session.rs.
use heliobridge.Base.{
  ◌≡◌, refl, ap, ◌∙◌, ℕ, Bool, true, false, Option, some, List, [], ◌∷◌, if◌then◌else◌,
}
use heliobridge.Base.Results.{ok}
use heliobridge.Mqtt.{Packet}
use heliobridge.Mqtt.Stream.{StreamError}
use heliobridge.Recorder.{Stream, down, blocked}
use heliobridge.Driver.Arbiter.{
  to_device, Intent, Originator, Decision, allow, refuse, allowed, refusal, Refusal, CloudCommands,
  evaluate,
}
use heliobridge.Driver.Arbiter.Authority.{Reaches, allowed-iff_Reaches}
use heliobridge.Driver.Seam.{Driver, CloudMessage}
use heliobridge.Server.Session.{
  Session, Moment, bump, Effect, records, answers, forwards, offers, shows_settings, shows_identity,
  shows_telemetry, shows_accessory, shows_status, record_frame, note_if,
}
use heliobridge.Server.Session.Cloud.{
  forward_to_device, downlink, receive, decided, offer_to_firmware, intent_of, parse,
}

-- The frames recorded, the newest first.
unfoldable pub recorded : List Effect → List (Stream × List ℕ)
recorded [] = []
recorded (records channel payload ∷ es) = (channel, payload) ∷ recorded es
recorded (answers caller outcome ∷ es) = recorded es
recorded (forwards m ∷ es) = recorded es
recorded (offers payload refused ∷ es) = recorded es
recorded (shows_settings v ∷ es) = recorded es
recorded (shows_identity d r ∷ es) = recorded es
recorded (shows_telemetry t ∷ es) = recorded es
recorded (shows_accessory r ∷ es) = recorded es
recorded (shows_status ∷ es) = recorded es

-- Nothing went to the device, no later answer can be put down to the message, and it was counted and
-- recorded as it came and as blocked.
pub record Withheld (m : CloudMessage) (s t : Session) : Type 0 where
  pub unwritten : t.written ≡ s.written
  pub unremembered : t.cloud_commands ≡ s.cloud_commands
  pub received : t.stats.relay_received ≡ bump s.stats.relay_received
  pub counted : t.stats.refused_to_device ≡ bump s.stats.refused_to_device
  pub audited :
      s.recorder ≡ true
      → recorded t.effects ≡ (blocked, m.payload) ∷ ((down, m.payload) ∷ recorded s.effects)

refused_decision : (d : Decision) → ¬ (allowed d ≡ true) → (r : Refusal) × (refusal d ≡ some r)
unfolding allowed refusal
refused_decision allow h = absurd (h refl)
refused_decision (refuse r) h = (r, refl)

-- The part of a session that refusing a message is about.
record Audit : Type 0 where
  written : List Packet
  cloud_commands : CloudCommands
  received : ℕ
  refused : ℕ
  frames : List (Stream × List ℕ)
  recorder : Bool

abbrev audit : Session → Audit
audit s = record {
  written = s.written;
  cloud_commands = s.cloud_commands;
  received = s.stats.relay_received;
  refused = s.stats.refused_to_device;
  frames = recorded s.effects;
  recorder = s.recorder;
}

audit-if :
    (test : Bool) (t u s : Session)
    → audit t ≡ audit s
    → audit u ≡ audit s
    → audit (if test then t else u) ≡ audit s
audit-if true t u s h k = h
audit-if false t u s h k = k

abbrev recording : Stream → List ℕ → Audit → Audit
recording channel payload a = record a {
  frames = if a.recorder then (channel, payload) ∷ a.frames else a.frames;
}

audit-note_if :
    (test : Bool) (channel : Stream) (payload : List ℕ) (s : Session)
    → audit (note_if test (records channel payload) s) ≡ record (audit s) {
      frames = if test then (channel, payload) ∷ recorded s.effects else recorded s.effects;
    }
unfolding recorded
audit-note_if true channel payload s = refl
audit-note_if false channel payload s = refl

audit-record_frame :
    (channel : Stream) (payload : List ℕ) (s : Session)
    → audit (record_frame channel payload s) ≡ recording channel payload (audit s)
unfolding record_frame
audit-record_frame channel payload s = audit-note_if s.recorder channel payload s

-- What refusing a message makes of that part.
abbrev refusing : CloudMessage → Audit → Audit
refusing m a =
    let came : Audit = recording down m.payload (record a { received = bump a.received }) in
    recording blocked m.payload (record came { refused = bump came.refused })

refusing-Withheld :
    (m : CloudMessage) (s t : Session) → audit t ≡ refusing m (audit s) → Withheld m s t
refusing-Withheld m s t h = record {
  unwritten = ap (λ a. a.written) h;
  unremembered = ap (λ a. a.cloud_commands) h;
  received = ap (λ a. a.received) h;
  counted = ap (λ a. a.refused) h;
  audited = λ r. ap (λ a. a.frames) h ∙ rw r refl;
}

module _ (D : Driver) (refuses : List Packet → Packet → Option StreamError) where
  audit-offer_to_firmware :
      (m : CloudMessage) (refused : Bool) (s : Session)
      → audit (offer_to_firmware D m refused s) ≡ audit s
  unfolding offer_to_firmware recorded
  audit-offer_to_firmware m refused s = audit-if s.firmware _ s s (audit-if _ _ _ s refl refl) refl

  audit-receive :
      (m : CloudMessage) (s : Session)
      → audit (receive D refuses m s)
        ≡ recording down m.payload (record (audit s) { received = bump s.stats.relay_received })
  unfolding receive
  audit-receive m s = audit-record_frame down m.payload _

  refused_state :
      (at : Moment) (m : CloudMessage) (r : Refusal) (intent : Intent) (s : Session)
      → (t : Session) × (downlink D refuses at.instant
            (some r)
            intent
            m
            (offer_to_firmware D m true (receive D refuses m s))
          ≡ (t, ok tt))
        × Withheld m s t
  unfolding downlink
  refused_state at m r intent s =
      let offered : Session = offer_to_firmware D m true (receive D refuses m s) in
      let counted : Session = record offered {
        stats = record offered.stats { refused_to_device = bump offered.stats.refused_to_device };
      } in
      (
        record_frame blocked m.payload counted,
        refl,
        refusing-Withheld m s (record_frame blocked m.payload counted) (
            audit-record_frame blocked m.payload counted
            ∙ ap {A = Audit} {B = Audit}
                (λ a. recording blocked m.payload (record a { refused = bump a.refused }))
                (audit-offer_to_firmware m true (receive D refuses m s) ∙ audit-receive m s)),
      )

  -- a message of the cloud whose intent is none that may reach the device goes no further: the session
  -- goes on, nothing is written or remembered, and the message is counted and, if frames are recorded,
  -- recorded as it came and as blocked
  pub forward_to_device-Withheld :
      (at : Moment) (m : CloudMessage) (s : Session)
      → ¬ Reaches s.policy (intent_of D (parse D m.payload) to_device)
      → (t : Session) × (forward_to_device D refuses at m s ≡ (t, ok tt)) × Withheld m s t
  unfolding forward_to_device decided
  forward_to_device-Withheld at m s barred =
      let intent : Intent = intent_of D (parse D m.payload) to_device in
      let spoken : (r : Refusal) × (refusal (evaluate s.policy to_device intent Originator.cloud)
            ≡ some r) =
        refused_decision (evaluate s.policy to_device intent Originator.cloud)
          λ a. barred ((allowed-iff_Reaches s.policy intent Originator.cloud).0 a) in
      rw (spoken.1) (refused_state at m spoken.0 intent s)
