-- ===== src/HomeAssistant/Link/Says.antt =====
-- The operations of `Link` of src/homeassistant/publisher.rs that publish. Times are milliseconds.
use heliobridge.Base.{
  ℕ, Bool, false, not, Option, none, some, List, [], ◌∷◌, ◌++◌, any, map, ◌==◌, if◌then◌else◌,
}
use heliobridge.Base.Dict.{get, insert}
use heliobridge.Base.Decimal.{decimal}
use heliobridge.Base.Text.{codes}
use heliobridge.Base.Text.Parsing.{same_text}
use heliobridge.HomeAssistant.Entity.{Entity, Component, component_name}
use heliobridge.HomeAssistant.Entity.Catalogue.{
  EntityCatalogue, entities, everything, retired, entity_key,
}
use heliobridge.HomeAssistant.State.{
  Fields, StatePayload, settings_payload, telemetry_payload, config_payload, status_payload,
  firmware_payload, last_update_payload, contains,
}
use heliobridge.HomeAssistant.Topics.{
  Source, online, offline, device_availability, entity_availability, shared, field, discovery,
}
use heliobridge.HomeAssistant.Views.{
  TelemetryView, SettingView, IdentityView, RestWatch, observe, reading,
}
use heliobridge.HomeAssistant.Link.{
  Publication, retained, state, DeviceBlock, config_value, Surroundings, Announcement, Link,
  or_empty, unshared, gated_by_setting, gated_by_reading, describes, retractions,
}

unfoldable pub publish_over : Option ℕ → Publication → Link → Link
publish_over none p l = l
publish_over (some generation) p l = record l { said = l.said ++ (p ∷ []) }

-- `packs`
abbrev pub or_one : Option ℕ → ℕ
or_one none = 1
or_one (some n) = n

abbrev pub pack_count : Option TelemetryView → ℕ
pack_count none = 1
pack_count (some view) = or_one (reading view (codes "battery_pack_count"))

abbrev pub presence_text : Bool → List ℕ
presence_text present = if present then online else offline

-- what `firmware_version` finds a field's value in
abbrev pub or_reading : Option (List ℕ) → Option TelemetryView → List ℕ → Option (List ℕ)
or_reading (some value) view name = some value
or_reading none none name = none
or_reading none (some view) name = elim (reading view name) [
  | none ↦ none
  | some raw ↦ some (decimal raw)
]

abbrev pub is_said : Option (List ℕ) → List ℕ → Bool
is_said none payload = false
is_said (some before) payload = same_text before payload

abbrev pub frame_of : Option TelemetryView → TelemetryView
frame_of none = []
frame_of (some view) = view

module _ (w : Surroundings) where
  -- `DeviceBlock::new`
  unfoldable pub device_block : Option IdentityView → DeviceBlock
  unfolding config_value
  device_block report = record {
    serial = w.device;
    product = w.product_name (config_value report (codes "device_type"));
    model = config_value report (codes "model_id");
    firmware = config_value report (codes "sw_version");
    hardware = config_value report (codes "hw_version");
  }

  -- `publish`: nothing is said before the broker was reached.
  unfoldable pub publish : Publication → Link → Link
  unfolding publish_over
  publish p l = publish_over l.published_for p l

  unfoldable pub publish_all : List Publication → Link → Link
  unfolding publish
  publish_all [] l = l
  publish_all (p ∷ more) l = publish_all more (publish p l)

  -- Publishing an object, unless it is empty.
  unfoldable pub publish_object : StatePayload → (List ℕ → Publication) → Link → Link
  unfolding publish
  publish_object [] as_publication l = l
  publish_object (entry ∷ object) as_publication l =
      publish (as_publication (w.to_vec (entry ∷ object))) l

  unfoldable pub packs : Link → ℕ
  unfolding reading
  packs l = pack_count l.telemetry

  unfoldable pub catalogue_of : Link → EntityCatalogue
  unfolding packs
  catalogue_of l = record { slots = w.slots; permitted = w.permitted; packs = packs l }

  -- The withdrawals of `withdraw`: an empty retained payload each.
  unfoldable pub withdrawal : Component × List ℕ → Publication
  unfolding retained discovery component_name
  withdrawal (component, key) =
      retained (discovery w.topics (component_name component) w.device key) []

  unfoldable pub gone : Option Announcement → List Entity → List (Component × List ℕ)
  unfolding retractions everything
  gone none keeping = retractions (everything w.catalogue) keeping retired
  gone (some a) keeping = retractions a.entities keeping []

  unfoldable pub discovery_of : DeviceBlock → Entity → Publication
  unfolding retained discovery component_name
  discovery_of block e =
      retained (discovery w.topics (component_name e.component) block.serial e.key)
        (w.document e block)

  -- What `announce` does when there is something new to say.
  unfoldable pub announce_anew : DeviceBlock → EntityCatalogue → Link → Link
  unfolding entities gone withdrawal discovery_of publish_all
  announce_anew block catalogue l =
      let es : List Entity = entities catalogue w.catalogue in
      record (publish_all (map withdrawal (gone l.announced es) ++ map (discovery_of block) es) l) {
        fields = map entity_key es;
        announced = some (record { device = block; catalogue = catalogue; entities = es });
      }

  unfoldable pub announce_if : Option ℕ → Link → Link
  unfolding announce_anew device_block catalogue_of describes
  announce_if none l = l
  announce_if (some generation) l =
      if describes l.announced (device_block l.identity) (catalogue_of l)
      then l
      else announce_anew (device_block l.identity) (catalogue_of l) l

  -- `announce`
  unfoldable pub announce : Link → Link
  unfolding announce_if
  announce l = announce_if l.published_for l

  unfoldable pub firmware_version : Link → Option (List ℕ)
  unfolding config_value reading decimal
  firmware_version l =
      w.firmware_version (λ name. or_reading (config_value l.identity name) l.telemetry name)

  unfoldable pub say_update : Option (List ℕ) → Link → Link
  unfolding publish retained field last_update_payload
  say_update none l = l
  say_update (some stamp) l =
      publish
        (retained (field w.topics Source.status w.device (codes "last_update"))
          (w.to_vec (last_update_payload stamp)))
        l

  unfoldable pub say_firmware : Option (List ℕ) → Link → Link
  unfolding publish retained field firmware_payload
  say_firmware none l = l
  say_firmware (some version) l =
      publish
        (retained (field w.topics Source.status w.device (codes "firmware_version"))
          (w.to_vec (firmware_payload version)))
        l

  -- `publish_presence`: the availability, and what goes with it
  unfoldable pub say_availability : Link → Link
  unfolding publish retained device_availability
  say_availability l =
      publish (retained (device_availability w.topics w.device) (presence_text l.present)) l

  unfoldable pub say_status : Link → Link
  unfolding publish retained shared status_payload say_update say_firmware firmware_version
  say_status l =
      let told : Link =
        publish
          (retained (shared w.topics Source.status w.device)
            (w.to_vec (status_payload w.version l.present)))
          l in
      say_firmware (firmware_version told) (say_update told.last_update told)

  unfoldable pub publish_presence : Link → Link
  unfolding say_availability say_status
  publish_presence l = say_status (say_availability l)

  -- `publish_config`, `publish_settings`
  unfoldable pub config_of : Option IdentityView → Link → Link
  unfolding publish_object config_payload retained shared
  config_of none l = l
  config_of (some entries) l =
      publish_object (config_payload entries l.fields)
        (retained (shared w.topics Source.config w.device)) l

  unfoldable pub publish_config : Link → Link
  unfolding config_of
  publish_config l = config_of l.identity l

  unfoldable pub publish_settings : Link → Link
  unfolding publish_object settings_payload retained shared
  publish_settings l =
      publish_object (settings_payload w.fraction l.settings l.fields)
        (retained (shared w.topics Source.settings w.device)) l

  -- `publish_telemetry`
  unfoldable pub publish_telemetry : ℕ → TelemetryView → Link → Link
  unfolding observe publish_object telemetry_payload state shared
  publish_telemetry now view l =
      let rest : RestWatch = observe w.is_idle now view l.rest in
      publish_object (telemetry_payload w.fraction view l.fields rest.sample)
        (state (shared w.topics Source.telemetry w.device)) (record l { rest = rest })

  -- `publish_unshared_settings`
  unfoldable pub say_alone : Fields → List SettingView → Link → Link
  unfolding contains publish_object settings_payload retained field
  say_alone alone [] l = l
  say_alone alone (s ∷ more) l = say_alone alone more (
      if contains alone s.name
      then publish_object (settings_payload w.fraction (s ∷ []) l.fields)
          (retained (field w.topics Source.settings w.device s.name)) l
      else l)

  unfoldable pub unshared_of : Option Announcement → Link → Link
  unfolding say_alone unshared
  unshared_of none l = l
  unshared_of (some a) l = say_alone (unshared a.entities) l.settings l

  unfoldable pub publish_unshared_settings : Link → Link
  unfolding unshared_of
  publish_unshared_settings l =
      unshared_of (elim l.published_for [ none ↦ none | some generation ↦ l.announced ]) l

  -- `say` of `publish_gates`: only what changes
  unfoldable pub say_gate : List ℕ → Bool → Link → Link
  unfolding get insert publish retained entity_availability same_text
  say_gate key open_now l =
      if is_said (get key l.gates) (presence_text open_now)
      then l
      else publish (retained (entity_availability w.topics w.device key) (presence_text open_now))
          (record l { gates = insert key (presence_text open_now) l.gates })

  unfoldable pub say_dependents : ℕ → List (List ℕ × List ℕ) → Link → Link
  unfolding say_gate
  say_dependents raw [] l = l
  say_dependents raw ((key, inert) ∷ more) l =
      say_dependents raw more (say_gate key (not (any (λ value. value == raw) inert)) l)

  unfoldable pub gate_settings :
      List (List ℕ × List (List ℕ × List ℕ)) → List SettingView → Link → Link
  unfolding say_dependents get
  gate_settings index [] l = l
  gate_settings index (s ∷ more) l =
      gate_settings index more (say_dependents s.raw (or_empty (get s.name index)) l)

  unfoldable pub say_all : Bool → List (List ℕ) → Link → Link
  unfolding say_gate
  say_all open_now [] l = l
  say_all open_now (key ∷ more) l = say_all open_now more (say_gate key open_now l)

  unfoldable pub gate_readings : List (List ℕ × List (List ℕ)) → TelemetryView → Link → Link
  unfolding say_all get
  gate_readings index [] l = l
  gate_readings index (r ∷ more) l =
      gate_readings index more (say_all (not (r.raw == 0)) (or_empty (get r.name index)) l)

  unfoldable pub gates_of : Announcement → Link → Link
  unfolding gate_settings gate_readings gated_by_setting gated_by_reading
  gates_of a l =
      gate_readings (gated_by_reading a.entities []) (frame_of l.telemetry)
        (gate_settings (gated_by_setting a.entities []) l.settings l)

  unfoldable pub gates_if : Option Announcement → Link → Link
  unfolding gates_of
  gates_if none l = l
  gates_if (some a) l = gates_of a l

  -- `publish_gates`
  unfoldable pub publish_gates : Link → Link
  unfolding gates_if
  publish_gates l =
      gates_if (elim l.published_for [ none ↦ none | some generation ↦ l.announced ]) l

  -- `settings_changed`
  unfoldable pub settings_changed : Link → Link
  unfolding publish_gates publish_unshared_settings publish_settings
  settings_changed l = publish_gates (publish_unshared_settings (publish_settings l))
