-- ===== src/HomeAssistant/Link/Timer.antt =====
-- When a link of src/homeassistant/publisher.rs stays silent, and when its timer.
use heliobridge.Base.{
  ℕ, ◌≡◌, refl, sym, ◌∙◌, Bool, true, false, Option, none, some, List, [], ◌∷◌, All, if◌then◌else◌,
  arith, ◌==◌,
}
use heliobridge.HomeAssistant.Views.{TelemetryView}
use heliobridge.HomeAssistant.Link.{Publication, Surroundings, Link}
use heliobridge.HomeAssistant.Link.Says.{
  publish, publish_over, say_availability, publish_presence, settings_changed, announce,
  publish_telemetry,
}
use heliobridge.HomeAssistant.Link.Turns.{
  republish, heard, telemetry_arrived, telemetry_again, fresh, went_quiet, quiet_at, is_due, Woke,
  generation_changed, telemetry_changed, settings_were, identity_was, timer, turn, run,
}
use heliobridge.HomeAssistant.Link.Talks.{Talks, Talks-trans, announce-Talks}
use heliobridge.HomeAssistant.Link.Speech.{
  publish_config-Talks, publish_telemetry-Talks, publish_gates-Talks, settings_changed-Talks,
  telemetry_again-Talks,
}
use heliobridge.HomeAssistant.Link.Presence.{say_status-Talks}
use mathlib.Core.List.{append-nil}

-- Anything but a frame of telemetry.
abbrev pub IsNoFrame : Woke → Type 0
IsNoFrame (telemetry_changed now stamp view) = ⊥
IsNoFrame _ = Unit

-- Anything but the news that the broker was reached.
abbrev pub IsNoConnection : Woke → Type 0
IsNoConnection (generation_changed now generation) = generation ≡ 0
IsNoConnection _ = Unit

module _ (w : Surroundings) where
  availability_present :
      (o : Option ℕ) (p : Publication) (l : Link) → (publish_over o p l).present ≡ l.present
  unfolding publish_over
  availability_present none p l = refl
  availability_present (some g) p l = refl

  presence-publish_presence : (l : Link) → (publish_presence w l).present ≡ l.present
  unfolding publish_presence say_availability publish
  presence-publish_presence l =
      let t = say_status-Talks w (say_availability w l) in
      t.present ∙ availability_present l.published_for _ l

  if-absent :
      (b : Bool) (l m : Link)
      → l.present ≡ false
      → (b ≡ false → m.present ≡ false)
      → (if b then l else m).present ≡ false
  if-absent true l m x y = x
  if-absent false l m x y = y refl

  present-went_quiet : (l : Link) → (went_quiet w l).present ≡ false
  unfolding went_quiet
  present-went_quiet l =
      if-absent l.present (publish_presence w (record l { present = false })) l
        (presence-publish_presence (record l { present = false })) (λ p. p)

  republish-absent :
      (now generation : ℕ) (l : Link)
      → l.present ≡ false
      → (republish w now generation l).present ≡ false
  unfolding republish
  republish-absent now generation l h =
      let cleared = record l { announced = none; published_for = some generation } in
      let here = publish_presence w (announce w cleared) in
      let told = settings_changed w here in
      let a = announce-Talks w cleared in
      let s = settings_changed-Talks w here in
      let t = telemetry_again-Talks w now (fresh w now told) told.telemetry told in
      if-absent (generation == 0) l (telemetry_again w now (fresh w now told) told.telemetry told) h
        (λ z.
          t.present ∙ s.present ∙ presence-publish_presence (announce w cleared) ∙ a.present ∙ h)

  turn-absent :
      (woke : Woke) (l : Link)
      → IsNoFrame woke
      → l.present ≡ false
      → (turn w woke l).present ≡ false
  unfolding turn
  turn-absent (generation_changed now g) l n h = republish-absent now g l h
  turn-absent (telemetry_changed now stamp view) l n h = absurd n
  turn-absent (settings_were views) l n h =
      let t = settings_changed-Talks w (record l { settings = views }) in t.present ∙ h
  turn-absent (identity_was report) l n h =
      let heard = record l { identity = report } in
      let t = announce-Talks w heard in
      let u = publish_config-Talks w (announce w heard) in u.present ∙ t.present ∙ h
  turn-absent (timer now) l n h =
      if-absent (is_due now (quiet_at w l)) (went_quiet w l) l (present-went_quiet l) (λ z. h)

  run-absent :
      (wokes : List Woke) (l : Link)
      → All IsNoFrame wokes
      → l.present ≡ false
      → (run w wokes l).present ≡ false
  unfolding run
  run-absent [] l n h = h
  run-absent (woke ∷ more) l n h = run-absent more (turn w woke l) n.1 (turn-absent woke l n.0 h)

  quiet_at-absent : (l : Link) → l.present ≡ false → quiet_at w l ≡ none
  unfolding quiet_at
  quiet_at-absent l h = rw h

  -- A timer that has fired when it was due is not armed again until a frame arrives, whatever else
  -- wakes the link.
  pub run-quiet :
      (now : ℕ) (wokes : List Woke) (l : Link)
      → is_due now (quiet_at w l) ≡ true
      → All IsNoFrame wokes
      → quiet_at w (run w (timer now ∷ wokes) l) ≡ none
  unfolding run turn
  run-quiet now wokes l due n = quiet_at-absent (run w wokes (turn w (timer now) l)) (
      run-absent wokes (turn w (timer now) l) n (
        if-absent (is_due now (quiet_at w l)) (went_quiet w l) l (present-went_quiet l)
          (λ z. absurd (ground arith))))

  -- before the broker was reached, and with this much said
  record IsSilent (said : List Publication) (l : Link) : Type 0 where
    unreached : l.published_for ≡ none
    unsaid : l.said ≡ said

  Talks-IsSilent :
      {l m : Link} (said : List Publication) → Talks w l m → IsSilent said l → IsSilent said m
  Talks-IsSilent {l} {m} said t s = record {
    unreached = t.published_for ∙ s.unreached;
    unsaid = t.grown ∙ rw (t.silent s.unreached, append-nil) s.unsaid;
  }

  publish_over-IsSilent :
      (o : Option ℕ) (said : List Publication) (p : Publication) (l : Link)
      → l.published_for ≡ o
      → IsSilent said l
      → IsSilent said (publish_over o p l)
  unfolding publish_over
  publish_over-IsSilent none said p l e s = s
  publish_over-IsSilent (some g) said p l e s = absurd (some_is_no_none (sym e ∙ s.unreached))
    where
      some_is_no_none : some g ≡ none → ⊥
      some_is_no_none h = cc

  publish_presence-IsSilent :
      (said : List Publication) (l : Link) → IsSilent said l → IsSilent said (publish_presence w l)
  unfolding publish_presence say_availability publish
  publish_presence-IsSilent said l s =
      Talks-IsSilent said (say_status-Talks w (say_availability w l))
        (publish_over-IsSilent l.published_for said _ l refl s)

  heard-IsSilent :
      (said : List Publication) (now : ℕ) (stamp : List ℕ) (o : Option TelemetryView) (l : Link)
      → IsSilent said l
      → IsSilent said (heard w now stamp o l)
  unfolding heard
  heard-IsSilent said now stamp none l s = s
  heard-IsSilent said now stamp (some view) l s =
      let dated = record l { arrived = some now; last_update = some stamp } in
      let noted = announce w dated in
      let here = publish_presence w (record noted { present = true }) in
      let t : IsSilent said noted =
        Talks-IsSilent said (announce-Talks w dated)
          (record { unreached = s.unreached; unsaid = s.unsaid }) in
      Talks-IsSilent said
        (Talks-trans w (publish_telemetry-Talks w now view here)
          (publish_gates-Talks w (publish_telemetry w now view here)))
        (publish_presence-IsSilent said (record noted { present = true })
          (record { unreached = t.unreached; unsaid = t.unsaid }))

  if-IsSilent :
      (said : List Publication) (b : Bool) (l m : Link)
      → IsSilent said l
      → IsSilent said m
      → IsSilent said (if b then l else m)
  if-IsSilent said true l m x y = x
  if-IsSilent said false l m x y = y

  went_quiet-IsSilent :
      (said : List Publication) (l : Link) → IsSilent said l → IsSilent said (went_quiet w l)
  unfolding went_quiet
  went_quiet-IsSilent said l s =
      if-IsSilent said l.present (publish_presence w (record l { present = false })) l
        (publish_presence-IsSilent said (record l { present = false })
          (record { unreached = s.unreached; unsaid = s.unsaid }))
        s

  turn-IsSilent :
      (said : List Publication) (woke : Woke) (l : Link)
      → IsNoConnection woke
      → IsSilent said l
      → IsSilent said (turn w woke l)
  unfolding turn telemetry_arrived republish
  turn-IsSilent said (generation_changed now g) l n s = rw n s
  turn-IsSilent said (telemetry_changed now stamp view) l n s =
      heard-IsSilent said now stamp view (record l { telemetry = view })
        (record { unreached = s.unreached; unsaid = s.unsaid })
  turn-IsSilent said (settings_were views) l n s =
      Talks-IsSilent said (settings_changed-Talks w (record l { settings = views }))
        (record { unreached = s.unreached; unsaid = s.unsaid })
  turn-IsSilent said (identity_was report) l n s =
      let read = record l { identity = report } in
      Talks-IsSilent said
        (Talks-trans w (announce-Talks w read) (publish_config-Talks w (announce w read)))
        (record { unreached = s.unreached; unsaid = s.unsaid })
  turn-IsSilent said (timer now) l n s =
      if-IsSilent said (is_due now (quiet_at w l)) (went_quiet w l) l (went_quiet-IsSilent said l s)
        s

  run-IsSilent :
      (said : List Publication) (wokes : List Woke) (l : Link)
      → All IsNoConnection wokes
      → IsSilent said l
      → IsSilent said (run w wokes l)
  unfolding run
  run-IsSilent said [] l n s = s
  run-IsSilent said (woke ∷ more) l n s =
      run-IsSilent said more (turn w woke l) n.1 (turn-IsSilent said woke l n.0 s)

  -- A link says nothing before the broker was reached, whatever else wakes it.
  pub said-run :
      (wokes : List Woke) (l : Link)
      → l.published_for ≡ none
      → All IsNoConnection wokes
      → (run w wokes l).said ≡ l.said
  said-run wokes l h n =
      let s = run-IsSilent l.said wokes l n (record { unreached = h; unsaid = refl }) in s.unsaid
