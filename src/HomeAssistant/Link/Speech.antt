-- ===== src/HomeAssistant/Link/Speech.antt =====
-- That the operations of a link but `publish_presence` say nothing about the device's availability.
use heliobridge.Base.{ℕ, Bool, true, false, not, Option, none, some, List, [], ◌∷◌, any, ◌==◌}
use heliobridge.Base.Dict.{get, insert}
use heliobridge.HomeAssistant.State.{Fields, contains}
use heliobridge.HomeAssistant.Topics.{Source}
use heliobridge.HomeAssistant.Views.{SettingView, TelemetryView, IdentityView, RestWatch, observe}
use heliobridge.HomeAssistant.Link.{
  retained, state, Surroundings, Announcement, Link, or_empty, unshared, gated_by_setting,
  gated_by_reading,
}
use heliobridge.HomeAssistant.Link.Says.{
  unshared_of, gates_if, say_update, say_firmware, config_of, publish_config, publish_settings,
  publish_telemetry, say_alone, publish_unshared_settings, is_said, presence_text, say_gate,
  say_dependents, gate_settings, say_all, gate_readings, frame_of, gates_of, publish_gates,
  settings_changed,
}
use heliobridge.HomeAssistant.Link.Turns.{telemetry_again}
use heliobridge.HomeAssistant.Link.Talks.{
  Talks, Talks-refl, Talks-trans, publish-Talks, publish_object-Talks, if-Talks, shared-IsElsewhere,
  field-IsElsewhere, entity-IsElsewhere,
}

module _ (w : Surroundings) where
  pub say_update-Talks : (o : Option (List ℕ)) (l : Link) → Talks w l (say_update w o l)
  unfolding say_update retained
  say_update-Talks none l = Talks-refl w l
  say_update-Talks (some stamp) l = publish-Talks w _ l (field-IsElsewhere w Source.status _)

  pub say_firmware-Talks : (o : Option (List ℕ)) (l : Link) → Talks w l (say_firmware w o l)
  unfolding say_firmware retained
  say_firmware-Talks none l = Talks-refl w l
  say_firmware-Talks (some version) l = publish-Talks w _ l (field-IsElsewhere w Source.status _)

  config_of-Talks : (o : Option IdentityView) (l : Link) → Talks w l (config_of w o l)
  unfolding config_of retained
  config_of-Talks none l = Talks-refl w l
  config_of-Talks (some entries) l =
      publish_object-Talks w _ _ l (λ payload. shared-IsElsewhere w Source.config)

  pub publish_config-Talks : (l : Link) → Talks w l (publish_config w l)
  unfolding publish_config
  publish_config-Talks l = config_of-Talks l.identity l

  publish_settings-Talks : (l : Link) → Talks w l (publish_settings w l)
  unfolding publish_settings retained
  publish_settings-Talks l =
      publish_object-Talks w _ _ l (λ payload. shared-IsElsewhere w Source.settings)

  rest-Talks :
      (l : Link) (rest : RestWatch) (m : Link) → Talks w (record l { rest = rest }) m → Talks w l m
  rest-Talks l rest m t = record {
    more = t.more;
    grown = t.grown;
    apart = t.apart;
    silent = t.silent;
    present = t.present;
    published_for = t.published_for;
    arrived = t.arrived;
  }

  pub publish_telemetry-Talks :
      (now : ℕ) (view : TelemetryView) (l : Link) → Talks w l (publish_telemetry w now view l)
  unfolding publish_telemetry state
  publish_telemetry-Talks now view l =
      rest-Talks l (observe w.is_idle now view l.rest) _
        (publish_object-Talks w _ _ _ (λ payload. shared-IsElsewhere w Source.telemetry))

  say_alone-Talks :
      (alone : Fields) (views : List SettingView) (l : Link) → Talks w l (say_alone w alone views l)
  unfolding say_alone retained
  say_alone-Talks alone [] l = Talks-refl w l
  say_alone-Talks alone (s ∷ more) l =
      Talks-trans w
        (if-Talks w (contains alone s.name)
          (publish_object-Talks w _ _ l (λ payload. field-IsElsewhere w Source.settings s.name))
          (Talks-refl w l))
        (say_alone-Talks alone more _)

  unshared_of-Talks : (o : Option Announcement) (l : Link) → Talks w l (unshared_of w o l)
  unfolding unshared_of
  unshared_of-Talks none l = Talks-refl w l
  unshared_of-Talks (some a) l = say_alone-Talks (unshared a.entities) l.settings l

  publish_unshared_settings-Talks : (l : Link) → Talks w l (publish_unshared_settings w l)
  unfolding publish_unshared_settings
  publish_unshared_settings-Talks l = unshared_of-Talks _ l

  gates-Talks :
      (l : Link) (gates : List (List ℕ × List ℕ)) (m : Link)
      → Talks w (record l { gates = gates }) m
      → Talks w l m
  gates-Talks l gates m t = record {
    more = t.more;
    grown = t.grown;
    apart = t.apart;
    silent = t.silent;
    present = t.present;
    published_for = t.published_for;
    arrived = t.arrived;
  }

  say_gate-Talks :
      (key : List ℕ) (open_now : Bool) (l : Link) → Talks w l (say_gate w key open_now l)
  unfolding say_gate retained
  say_gate-Talks key open_now l =
      if-Talks w (is_said (get key l.gates) (presence_text open_now)) (Talks-refl w l) (
        gates-Talks l (insert key (presence_text open_now) l.gates) _
          (publish-Talks w _ _ (entity-IsElsewhere w key)))

  say_dependents-Talks :
      (raw : ℕ) (dependents : List (List ℕ × List ℕ)) (l : Link)
      → Talks w l (say_dependents w raw dependents l)
  unfolding say_dependents
  say_dependents-Talks raw [] l = Talks-refl w l
  say_dependents-Talks raw ((key, inert) ∷ more) l =
      Talks-trans w (say_gate-Talks key (not (any (λ value. value == raw) inert)) l)
        (say_dependents-Talks raw more _)

  gate_settings-Talks :
      (index : List (List ℕ × List (List ℕ × List ℕ))) (views : List SettingView) (l : Link)
      → Talks w l (gate_settings w index views l)
  unfolding gate_settings
  gate_settings-Talks index [] l = Talks-refl w l
  gate_settings-Talks index (s ∷ more) l =
      Talks-trans w (say_dependents-Talks s.raw (or_empty (get s.name index)) l)
        (gate_settings-Talks index more _)

  say_all-Talks :
      (open_now : Bool) (keys : List (List ℕ)) (l : Link) → Talks w l (say_all w open_now keys l)
  unfolding say_all
  say_all-Talks open_now [] l = Talks-refl w l
  say_all-Talks open_now (key ∷ more) l =
      Talks-trans w (say_gate-Talks key open_now l) (say_all-Talks open_now more _)

  gate_readings-Talks :
      (index : List (List ℕ × List (List ℕ))) (view : TelemetryView) (l : Link)
      → Talks w l (gate_readings w index view l)
  unfolding gate_readings
  gate_readings-Talks index [] l = Talks-refl w l
  gate_readings-Talks index (r ∷ more) l =
      Talks-trans w (say_all-Talks (not (r.raw == 0)) (or_empty (get r.name index)) l)
        (gate_readings-Talks index more _)

  gates_if-Talks : (o : Option Announcement) (l : Link) → Talks w l (gates_if w o l)
  unfolding gates_if gates_of
  gates_if-Talks none l = Talks-refl w l
  gates_if-Talks (some a) l =
      Talks-trans w (gate_settings-Talks (gated_by_setting a.entities []) l.settings l)
        (gate_readings-Talks (gated_by_reading a.entities []) (frame_of l.telemetry) _)

  pub publish_gates-Talks : (l : Link) → Talks w l (publish_gates w l)
  unfolding publish_gates
  publish_gates-Talks l = gates_if-Talks _ l

  pub settings_changed-Talks : (l : Link) → Talks w l (settings_changed w l)
  unfolding settings_changed
  settings_changed-Talks l =
      Talks-trans w (publish_settings-Talks l)
        (Talks-trans w (publish_unshared_settings-Talks _) (publish_gates-Talks _))

  pub telemetry_again-Talks :
      (now : ℕ) (fresh : Bool) (o : Option TelemetryView) (l : Link)
      → Talks w l (telemetry_again w now fresh o l)
  unfolding telemetry_again
  telemetry_again-Talks now true none l = Talks-refl w l
  telemetry_again-Talks now true (some view) l = publish_telemetry-Talks now view l
  telemetry_again-Talks now false o l = Talks-refl w l
