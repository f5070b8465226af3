-- ===== src/HomeAssistant/Link/Turns.antt =====
-- The loop of a link of src/homeassistant/publisher.rs, and what it does for each thing that wakes it.
-- Times are milliseconds.
use heliobridge.Base.{
  ℕ, ◌+◌, ◌-◌, Bool, true, false, Option, none, some, List, [], ◌∷◌, ltb, leb, ◌==◌, if◌then◌else◌,
}
use heliobridge.HomeAssistant.Views.{TelemetryView, SettingView, IdentityView}
use heliobridge.HomeAssistant.Link.{Surroundings, Link}
use heliobridge.HomeAssistant.Link.Says.{
  announce, publish_config, publish_gates, publish_presence, publish_telemetry, settings_changed,
}

-- What wakes a link: a broker connection, and the channels of its session. The timer fires at its
-- deadline or later.
pub data Woke : Type 0 where
  generation_changed : ℕ → ℕ → Woke
  -- when, the host's time stamp, and what the channel holds
  telemetry_changed : ℕ → List ℕ → Option TelemetryView → Woke
  settings_were : List SettingView → Woke
  identity_was : Option IdentityView → Woke
  timer : ℕ → Woke

abbrev pub is_due : ℕ → Option ℕ → Bool
is_due now none = false
is_due now (some deadline) = leb deadline now

module _ (w : Surroundings) where
  -- `fresh` and `quiet_at`
  unfoldable pub fresh : ℕ → Link → Bool
  fresh now l = elim l.arrived [ none ↦ false | some at ↦ ltb (now - at) w.offline_after ]

  unfoldable pub quiet_at : Link → Option ℕ
  quiet_at l =
      if l.present
      then elim l.arrived [ none ↦ none | some at ↦ some (at + w.offline_after) ]
      else none

  unfoldable pub telemetry_again : ℕ → Bool → Option TelemetryView → Link → Link
  unfolding publish_telemetry
  telemetry_again now true (some view) l = publish_telemetry w now view l
  telemetry_again now _ view l = l

  -- `republish`, for a connection of this generation
  unfoldable pub republish : ℕ → ℕ → Link → Link
  unfolding announce publish_presence settings_changed telemetry_again fresh
  republish now generation l =
      if generation == 0
      then l
      else let cleared : Link = record l { announced = none; published_for = some generation } in
        let told : Link = settings_changed w (publish_presence w (announce w cleared)) in
        telemetry_again now (fresh now told) told.telemetry told

  unfoldable pub heard : ℕ → List ℕ → Option TelemetryView → Link → Link
  unfolding announce publish_presence publish_telemetry publish_gates
  heard now stamp none l = l
  heard now stamp (some view) l =
      let noted : Link = announce w (record l { arrived = some now; last_update = some stamp }) in
      publish_gates w
        (publish_telemetry w now view (publish_presence w (record noted { present = true })))

  -- `telemetry_arrived`
  unfoldable pub telemetry_arrived : ℕ → List ℕ → Link → Link
  unfolding heard
  telemetry_arrived now stamp l = heard now stamp l.telemetry l

  -- `went_quiet`
  unfoldable pub went_quiet : Link → Link
  unfolding publish_presence
  went_quiet l = if l.present then publish_presence w (record l { present = false }) else l

  -- A turn of the loop of `run`.
  unfoldable pub turn : Woke → Link → Link
  unfolding republish telemetry_arrived settings_changed announce publish_config quiet_at went_quiet
  turn (generation_changed now generation) l = republish now generation l
  turn (telemetry_changed now stamp view) l =
      telemetry_arrived now stamp (record l { telemetry = view })
  turn (settings_were views) l = settings_changed w (record l { settings = views })
  turn (identity_was report) l = publish_config w (announce w (record l { identity = report }))
  turn (timer now) l = if is_due now (quiet_at l) then went_quiet l else l

  unfoldable pub run : List Woke → Link → Link
  unfolding turn
  run [] l = l
  run (woke ∷ more) l = run more (turn woke l)
