-- ===== src/HomeAssistant/Link.antt =====
-- The link of src/homeassistant/publisher.rs, which publishes for one session: its state, what each
-- of its operations says to the broker, and its loop. What a broker's queue drops is not modelled,
-- and the discovery document is a parameter.
pub mod Says
pub mod Turns
pub mod Talks
pub mod Speech
pub mod Presence
pub mod Timer
use heliobridge.Base.{
  ℕ, ◌+◌, ◌-◌, Bool, true, false, not, ◌&&◌, ◌||◌, Option, none, some, List, [], ◌∷◌, ◌++◌, any,
  map, find, ltb, leb, ◌==◌, if◌then◌else◌,
}
use heliobridge.Base.Dict.{get, insert}
use heliobridge.Base.Decimal.{decimal}
use heliobridge.Base.Text.{codes}
use heliobridge.Base.Text.Parsing.{same_text}
use heliobridge.Driver.Catalogue
use heliobridge.HomeAssistant.Command.{Json, Permitted}
use heliobridge.HomeAssistant.Entity.{
  Entity, Component, component_name, Gate, setting_is_not, reading_is_set, published_alone,
}
use heliobridge.HomeAssistant.Entity.Catalogue.{
  EntityCatalogue, entities, everything, retired, entity_key,
}
use heliobridge.HomeAssistant.State.{
  Fields, StatePayload, settings_payload, telemetry_payload, config_payload, status_payload,
  firmware_payload, last_update_payload, contains,
}
use heliobridge.HomeAssistant.Topics.{
  Topics, Source, settings, telemetry, status, config, online, offline, device_availability,
  entity_availability, shared, field, discovery,
}
use heliobridge.HomeAssistant.Views.{
  ReadingView, TelemetryView, SettingView, ConfigView, IdentityView, RestWatch, observe, reading,
}
use heliobridge.Mqtt.{QoS, at_most_once, at_least_once}

-- `Publication` of broker.rs
pub record Publication : Type 0 where
  pub topic : List ℕ
  pub payload : List ℕ
  pub qos : QoS
  pub retain : Bool

unfoldable pub retained : List ℕ → List ℕ → Publication
retained topic payload = record {
  topic = topic;
  payload = payload;
  qos = at_least_once;
  retain = true;
}

unfoldable pub state : List ℕ → List ℕ → Publication
state topic payload = record {
  topic = topic;
  payload = payload;
  qos = at_most_once;
  retain = false;
}

-- `DeviceBlock` of discovery.rs
pub record DeviceBlock : Type 0 where
  pub serial : List ℕ
  pub product : Option (List ℕ)
  pub model : Option (List ℕ)
  pub firmware : Option (List ℕ)
  pub hardware : Option (List ℕ)

abbrev is_named : List ℕ → ConfigView → Bool
is_named name e = elim e.name [ none ↦ false | some n ↦ same_text n name ]

abbrev value_of : Option ConfigView → Option (List ℕ)
value_of none = none
value_of (some e) = some e.value

unfoldable pub config_value : Option IdentityView → List ℕ → Option (List ℕ)
unfolding same_text
config_value none name = none
config_value (some entries) name = value_of (find (is_named name) entries)

-- A link's surroundings: the driver, the names, and what third-party code makes of texts.
pub record Surroundings : Type 0 where
  pub topics : Topics
  pub device : List ℕ
  pub slots : ℕ
  pub permitted : Permitted
  -- milliseconds
  pub offline_after : ℕ
  pub catalogue : Catalogue.Catalogue
  pub product_name : Option (List ℕ) → Option (List ℕ)
  pub firmware_version : (List ℕ → Option (List ℕ)) → Option (List ℕ)
  pub version : List ℕ
  pub document : Entity → DeviceBlock → List ℕ
  pub to_vec : StatePayload → List ℕ
  pub fraction : List ℕ → Json
  pub is_idle : List ℕ → Bool

pub record Announcement : Type 0 where
  pub device : DeviceBlock
  pub catalogue : EntityCatalogue
  pub entities : List Entity

pub record Link : Type 0 where
  -- what the session's channels hold
  pub telemetry : Option TelemetryView
  pub settings : List SettingView
  pub identity : Option IdentityView
  pub published_for : Option ℕ
  pub announced : Option Announcement
  pub arrived : Option ℕ
  pub last_update : Option (List ℕ)
  pub present : Bool
  pub fields : Fields
  pub gates : List (List ℕ × List ℕ)
  pub rest : RestWatch
  -- what was given to the broker's queue, in order
  pub said : List Publication

-- A link over a session that has these views.
abbrev pub fresh_link : Option TelemetryView → List SettingView → Option IdentityView → Link
fresh_link view views report = record {
  telemetry = view;
  settings = views;
  identity = report;
  published_for = none;
  announced = none;
  arrived = none;
  last_update = none;
  present = false;
  fields = [];
  gates = [];
  rest = record { since = none; sample = none };
  said = [];
}

-- `Indexed::of`, by what each entity adds
abbrev pub or_empty {ℓ} : {A : Type ℓ} → Option (List A) → List A
or_empty none = []
or_empty (some xs) = xs

abbrev is_settings : Option Source → Bool
is_settings (some Source.settings) = true
is_settings _ = false

unfoldable pub unshared : List Entity → Fields
unfolding published_alone
unshared [] = []
unshared (e ∷ more) =
    if is_settings e.source && published_alone e then e.key ∷ unshared more else unshared more

abbrev GatedBySetting : Type 0
GatedBySetting = List (List ℕ × List (List ℕ × List ℕ))

unfoldable pub gate_by_setting : Entity → GatedBySetting → GatedBySetting
unfolding get insert
gate_by_setting e m = elim e.gate [
  | none ↦ m
  | some g ↦ elim g [
    | setting_is_not name values ↦ insert name (or_empty (get name m) ++ ((e.key, values) ∷ [])) m
    | reading_is_set name ↦ m
  ]
]

unfoldable pub gated_by_setting : List Entity → GatedBySetting → GatedBySetting
unfolding gate_by_setting
gated_by_setting [] m = m
gated_by_setting (e ∷ more) m = gated_by_setting more (gate_by_setting e m)

abbrev GatedByReading : Type 0
GatedByReading = List (List ℕ × List (List ℕ))

unfoldable pub gate_by_reading : Entity → GatedByReading → GatedByReading
unfolding get insert
gate_by_reading e m = elim e.gate [
  | none ↦ m
  | some g ↦ elim g [
    | setting_is_not name values ↦ m
    | reading_is_set name ↦ insert name (or_empty (get name m) ++ (e.key ∷ [])) m
  ]
]

unfoldable pub gated_by_reading : List Entity → GatedByReading → GatedByReading
unfolding gate_by_reading
gated_by_reading [] m = m
gated_by_reading (e ∷ more) m = gated_by_reading more (gate_by_reading e m)

-- `==` of the two halves of an announcement
abbrev same_option : Option (List ℕ) → Option (List ℕ) → Bool
same_option none none = true
same_option (some a) (some b) = same_text a b
same_option _ _ = false

abbrev same_bool : Bool → Bool → Bool
same_bool true b = b
same_bool false b = not b

unfoldable pub same_device : DeviceBlock → DeviceBlock → Bool
unfolding same_text
same_device a b =
    same_text a.serial b.serial
    && same_option a.product b.product
    && same_option a.model b.model
    && same_option a.firmware b.firmware
    && same_option a.hardware b.hardware

unfoldable pub same_catalogue : EntityCatalogue → EntityCatalogue → Bool
same_catalogue a b =
    a.slots == b.slots
    && same_bool a.permitted.writes b.permitted.writes
    && same_bool a.permitted.power_plus b.permitted.power_plus
    && a.packs == b.packs

-- `Announcement::describes`
unfoldable pub describes : Option Announcement → DeviceBlock → EntityCatalogue → Bool
unfolding same_device same_catalogue
describes none device catalogue = false
describes (some a) device catalogue =
    same_device a.device device && same_catalogue a.catalogue catalogue

unfoldable pub same_component : Component → Component → Bool
unfolding component_name same_text
same_component a b = same_text (component_name a) (component_name b)

unfoldable pub is_kept : List Entity → Component → List ℕ → Bool
unfolding same_text same_component
is_kept keeping component key =
    any (λ (e : Entity). same_text e.key key && same_component e.component component) keeping

unfoldable pub has_entry : List (Component × List ℕ) → Component × List ℕ → Bool
unfolding same_text same_component
has_entry entries (component, key) =
    any (λ (entry : Component × List ℕ). same_component entry.0 component && same_text entry.1 key)
      entries

unfoldable pub gone_from : List Entity → List Entity → List (Component × List ℕ)
unfolding is_kept
gone_from keeping [] = []
gone_from keeping (e ∷ more) =
    if is_kept keeping e.component e.key
    then gone_from keeping more
    else (e.component, e.key) ∷ gone_from keeping more

unfoldable pub sweep :
    List Entity → List (Component × List ℕ) → List (Component × List ℕ) → List (Component × List ℕ)
unfolding is_kept has_entry
sweep keeping [] gone = gone
sweep keeping ((component, key) ∷ more) gone = sweep keeping more (
    if not (is_kept keeping component key) && not (has_entry gone (component, key))
    then gone ++ ((component, key) ∷ [])
    else gone)

-- `Link::retractions`
unfoldable pub retractions :
    List Entity → List Entity → List (Component × List ℕ) → List (Component × List ℕ)
unfolding gone_from sweep
retractions previous keeping swept = sweep keeping swept (gone_from keeping previous)
