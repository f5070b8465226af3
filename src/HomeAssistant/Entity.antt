-- ===== src/HomeAssistant/Entity.antt =====
-- src/homeassistant/entity.rs: what becomes an entity, and how it is kept. The
-- attributes that only the discovery document shows are left out: the name, the unit, the device and
-- state classes, the category, the precision and the texts of a signal.
pub mod Catalogue
pub mod Permits
use heliobridge.Base.{
  ℕ, Bool, true, false, not, ◌&&◌, ◌||◌, Option, none, some, List, [], ◌∷◌, ◌++◌, map, any, leb,
  take_while, if◌then◌else◌,
}
use heliobridge.Base.Int.{ℤ, pos, negsuc}
use heliobridge.Base.Text.{codes, is_ascii_digit}
use heliobridge.Base.Text.Parsing.{same_text, strip_prefix, parse_unsigned}
use heliobridge.Driver.Shapes
use heliobridge.Driver.Catalogue.{Setting, Measurement}
use heliobridge.HomeAssistant.Command.{Permitted, allows}
use heliobridge.HomeAssistant.Topics.{
  Topics, Source, telemetry, settings, status, config, bridge_availability, device_availability,
  entity_availability, shared, slash, strip_suffix,
}

pub data Component : Type 0 where
  sensor binary_sensor number switch select text button : Component

-- `Component::as_str`
unfoldable pub component_name : Component → List ℕ
component_name sensor = codes "sensor"
component_name binary_sensor = codes "binary_sensor"
component_name number = codes "number"
component_name switch = codes "switch"
component_name select = codes "select"
component_name text = codes "text"
component_name button = codes "button"

pub data Presence : Type 0 where
  device bridge : Presence

pub data Gate : Type 0 where
  -- the setting, and the values with which the entity is inert
  setting_is_not : List ℕ → List ℕ → Gate
  reading_is_set : List ℕ → Gate

pub data Shape : Type 0 where
  reading flags signal : Shape
  -- `Bounds`
  numeric : ℤ → ℤ → Shape
  toggle : Shape
  choice : List (List ℕ) → Shape
  time_of_day weekdays action : Shape

pub record Entity : Type 0 where
  pub key : List ℕ
  pub component : Component
  pub shape : Shape
  pub source : Option Source
  pub presence : Presence
  pub gate : Option Gate
  pub enabled : Bool

abbrev pub one_of : List (List ℕ) → List ℕ → Bool
one_of keys key = any (λ known. same_text known key) keys

-- `DISABLED` and `VERSION_PARTS`
abbrev pub disabled : List (List ℕ)
disabled = codes "ac_couple_enabled" ∷ []

abbrev pub version_parts : List (List ℕ)
version_parts = codes "inverter_mppt_version" ∷ (codes "pd_bms_version" ∷ [])

-- The component and the shape of a setting.
unfoldable pub control_of : Shapes.Shape → Component × Shape
control_of (Shapes.number least greatest) = (number, numeric (pos least) (pos greatest))
control_of Shapes.switch = (switch, toggle)
control_of Shapes.time_of_day = (text, time_of_day)
control_of Shapes.text = (text, time_of_day)
control_of Shapes.weekdays = (text, weekdays)
control_of (Shapes.choice labels) = (select, choice labels)

unfoldable pub superseding : Option (List ℕ × List ℕ) → Option Gate
superseding none = none
superseding (some (setting, values)) = some (setting_is_not setting values)

-- `Entity::for_setting`
unfoldable pub for_setting : Setting → Entity
unfolding control_of superseding
for_setting s = record {
  key = s.name;
  component = (control_of s.shape).0;
  shape = (control_of s.shape).1;
  source = some settings;
  presence = device;
  gate = superseding s.superseded_by;
  enabled = not (one_of disabled s.name);
}

-- `is_flags` and `signal_class`, the latter by whether there is a class
unfoldable pub is_flags : List ℕ → Bool
unfolding strip_suffix
is_flags name = elim (strip_suffix (codes "_faults") name) [ none ↦ false | some stem ↦ true ]

unfoldable pub is_signal : List ℕ → Bool
unfolding same_text
is_signal name = one_of (codes "meter_connected" ∷ (codes "off_grid_mode_active" ∷ [])) name

abbrev gated : Option (List ℕ) → Option Gate
gated none = none
gated (some name) = some (reading_is_set name)

abbrev pub is_text : Shapes.Shape → Bool
is_text Shapes.text = true
is_text _ = false

-- `Entity::for_reading`
unfoldable pub for_reading : Measurement → Option Entity
unfolding is_flags is_signal
for_reading m =
    if m.is_unknown || one_of version_parts m.name || is_text m.shape
    then none
    else some (record {
      key = m.name;
      component = if is_signal m.name then binary_sensor else sensor;
      shape = if is_flags m.name then flags else if is_signal m.name then signal else reading;
      source = some telemetry;
      presence = device;
      gate = gated m.gated_by;
      enabled = true;
    })

abbrev built : List ℕ → Component → Shape → Option Source → Presence → Option Gate → Entity
built key component shape source presence gate = record {
  key = key;
  component = component;
  shape = shape;
  source = source;
  presence = presence;
  gate = gate;
  enabled = true;
}

-- `Entity::connected`
unfoldable pub connected : Entity
connected = built (codes "connected") binary_sensor signal (some status) bridge none

-- `Entity::last_update`
unfoldable pub last_update : Entity
last_update = built (codes "last_update") sensor reading (some status) bridge none

-- `Entity::bridge_version`
unfoldable pub bridge_version : Entity
bridge_version = built (codes "bridge_version") sensor reading (some status) bridge none

-- `Entity::wifi_signal`
unfoldable pub wifi_signal : Entity
wifi_signal = built (codes "wifi_signal") sensor reading (some config) device none

-- `Entity::data_interval`
unfoldable pub data_interval : Entity
data_interval = built (codes "data_interval") sensor reading (some config) device none

-- `Entity::restart`
unfoldable pub restart : Entity
restart = built (codes "restart") button action (some config) device none

-- `Entity::meter_reading`
unfoldable pub meter_reading : Entity
meter_reading =
    built (codes "supplied_meter_reading") number (numeric (negsuc 19999) (pos 20000)) none device
      none

-- `Entity::withdraw_meter_reading`
unfoldable pub withdraw_meter_reading : Entity
withdraw_meter_reading =
    built (codes "withdraw_meter_reading") button action none device
      (some (reading_is_set (codes "meter_connected")))

-- `Entity::pair_lora_accessory`
unfoldable pub pair_lora_accessory : Entity
pair_lora_accessory = built (codes "pair_lora_accessory") button action none device none

-- `Entity::firmware_version`
unfoldable pub firmware_version : Entity
firmware_version = built (codes "firmware_version") sensor reading (some status) device none

-- `Entity::serial_number`
unfoldable pub serial_number : Entity
serial_number = built (codes "serial_number") sensor reading (some config) device none

-- `Entity::cell_spread`
unfoldable pub cell_spread : Entity
cell_spread = built (codes "battery_cell_spread") sensor reading (some telemetry) device none

-- `Entity::resting_voltage`
unfoldable pub resting_voltage : Entity
resting_voltage =
    built (codes "battery_resting_cell_voltage") sensor reading (some telemetry) device none

-- `Entity::soc_credible`
unfoldable pub soc_credible : Entity
soc_credible =
    built (codes "battery_soc_credible") binary_sensor signal (some telemetry) device none

unfoldable pub accessory_list : List ℕ → Entity
accessory_list key = built key sensor reading (some config) device none

unfoldable pub is_writable_shape : Shape → Bool
is_writable_shape (numeric least greatest) = true
is_writable_shape toggle = true
is_writable_shape (choice labels) = true
is_writable_shape time_of_day = true
is_writable_shape weekdays = true
is_writable_shape action = true
is_writable_shape reading = false
is_writable_shape flags = false
is_writable_shape signal = false

-- `Entity::is_writable`
unfoldable pub is_writable : Entity → Bool
unfolding is_writable_shape
is_writable e = is_writable_shape e.shape

-- `Entity::into_read_only`
unfoldable pub into_read_only : Entity → Entity
unfolding is_writable
into_read_only e =
    if not (is_writable e) then e else record e { component = sensor; shape = reading }

abbrev digits_in : Option (List ℕ) → Option ℕ
digits_in none = none
digits_in (some rest) = parse_unsigned 65535 (take_while is_ascii_digit rest)

-- `Entity::battery_pack`
unfoldable pub battery_pack : Entity → Option ℕ
unfolding strip_prefix parse_unsigned
battery_pack e = digits_in (strip_prefix (codes "battery") e.key)

abbrev validates : Shape → Bool
validates time_of_day = true
validates weekdays = true
validates _ = false

-- `Entity::published_alone`
unfoldable pub published_alone : Entity → Bool
unfolding same_text
published_alone e =
    validates e.shape
    || same_text e.key (codes "last_update")
    || same_text e.key (codes "firmware_version")

-- `Topics::availability` and `topic_for` of topics.rs
abbrev presence_topics : Topics → Presence → List ℕ → List (List ℕ)
presence_topics t bridge serial = bridge_availability t ∷ []
presence_topics t device serial = bridge_availability t ∷ (device_availability t serial ∷ [])

unfoldable pub availability : Topics → Entity → List ℕ → List (List ℕ)
unfolding bridge_availability device_availability entity_availability
availability t e serial =
    presence_topics t e.presence serial
    ++ elim e.gate [ none ↦ [] | some g ↦ entity_availability t serial e.key ∷ [] ]

unfoldable pub topic_for : Topics → Entity → List ℕ → Option (List ℕ)
unfolding shared published_alone
topic_for t e serial = elim e.source [
  | none ↦ none
  | some source ↦
      some
        (if published_alone e then slash (shared t source serial) e.key else shared t source serial)
]
