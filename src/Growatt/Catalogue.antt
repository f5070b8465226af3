-- ===== src/Growatt/Catalogue.antt =====
-- src/growatt/catalogue.rs, and the catalogue of src/growatt/driver.rs: the registers of the protocol
-- as the server and its clients see them. The measurements are left empty: their table is not modelled.
use heliobridge.Base.{
  ℕ, Bool, true, false, Option, none, some, List, [], ◌∷◌, map, min, find, ◌==◌, if◌then◌else◌,
}
use heliobridge.Base.Text.{codes}
use heliobridge.Base.Text.Parsing.{same_text}
use heliobridge.Model.{Register, unitless, inferred}
use heliobridge.Driver.Catalogue.{Setting, ConfigField, Catalogue}
use heliobridge.Driver.Shapes.{Shape}
use heliobridge.Driver.Shapes
use heliobridge.Growatt.Commands.{all_writable}
use heliobridge.Growatt.Encode.{
  WritableConfig, config_number, clock, restart, factory_reset, accessory_list, routed_modbus,
  remote_url, remote_port, server_address,
}
use heliobridge.Growatt.Registers.{
  HoldingRegister, Domain, Supersession, resync_set, slot_count, in_range, accepts, describe,
}
use heliobridge.Growatt.Registers.Config
use heliobridge.Growatt.Registers.Config.{ConfigRegister}

unfoldable pub shape_of : Domain → Shape
shape_of (Domain.range lo hi) = Shapes.number lo hi
shape_of Domain.flag = Shapes.switch
shape_of Domain.time_of_day = Shapes.time_of_day
shape_of (Domain.enumerated labels) = Shapes.choice (map codes labels)
shape_of Domain.weekdays = Shapes.weekdays

abbrev pub superseded : Option Supersession → Option (List ℕ × List ℕ)
superseded none = none
superseded (some by) = some (codes by.setting, by.ignored_when)

-- `impl Setting for HoldingRegister`
unfoldable pub setting_of : HoldingRegister → Setting
unfolding shape_of accepts describe
setting_of entry = record {
  register = entry.register;
  name = codes entry.name;
  shape = shape_of entry.domain;
  unit = entry.unit;
  accepts = accepts entry.domain;
  accepted = describe entry.domain;
  superseded_by = superseded entry.superseded_by;
}

-- `WritableConfig::name`, `is_retarget`, `is_action`, `is_destructive` and `trigger_value`
unfoldable pub writable_name : WritableConfig → List ℕ
writable_name clock = codes "datetime"
writable_name restart = codes "restart"
writable_name factory_reset = codes "factory_reset"
writable_name accessory_list = codes "accessory_list"
writable_name routed_modbus = codes "routed_modbus_enabled"
writable_name remote_url = codes "remote_url"
writable_name remote_port = codes "remote_port"
writable_name server_address = codes "server_address"

unfoldable pub is_retarget : WritableConfig → Bool
is_retarget remote_url = true
is_retarget remote_port = true
is_retarget server_address = true
is_retarget _ = false

unfoldable pub is_action : WritableConfig → Bool
is_action restart = true
is_action factory_reset = true
is_action _ = false

unfoldable pub is_destructive : WritableConfig → Bool
is_destructive factory_reset = true
is_destructive _ = false

unfoldable pub trigger_value : WritableConfig → Option (List ℕ)
unfolding is_action
trigger_value c = if is_action c then some (codes "1") else none

abbrev from_writable : {A : Type 0} → (WritableConfig → A) → A → Option WritableConfig → A
from_writable f otherwise none = otherwise
from_writable f otherwise (some c) = f c

abbrev field_name : Option ConfigRegister → Option WritableConfig → List ℕ
field_name (some entry) writable = codes entry.name
field_name none writable = from_writable writable_name (codes "unknown") writable

-- `impl ConfigField`, of a field that is documented, writable, or both
unfoldable pub field_of : Register → Option ConfigRegister → Option WritableConfig → ConfigField
unfolding writable_name trigger_value is_retarget is_destructive
field_of register documented writable = record {
  register = register;
  name = field_name documented writable;
  action = from_writable trigger_value none writable;
  is_retarget = from_writable is_retarget false writable;
  is_destructive = from_writable is_destructive false writable;
}

abbrev known : Register → Option ConfigRegister → Option WritableConfig → Option ConfigField
known register none none = none
known register (some entry) writable = some (field_of register (some entry) writable)
known register none (some c) = some (field_of register none (some c))

-- `ConfigField::lookup`
unfoldable pub config : Register → Option ConfigField
unfolding field_of Config.lookup config_number all_writable
config register =
    known register (Config.lookup register) (find (λ c. config_number c == register) all_writable)

-- `ConfigField::lookup_name`
abbrev named_writable : Option WritableConfig → Option ConfigField
named_writable none = none
named_writable (some c) = config (config_number c)

abbrev named : List ℕ → Option ConfigRegister → Option ConfigField
named name (some entry) = config entry.register
named name none = named_writable (find (λ c. same_text (writable_name c) name) all_writable)

unfoldable pub config_named : List ℕ → Option ConfigField
unfolding config Config.lookup_name writable_name all_writable config_number same_text
config_named name = named name (Config.lookup_name name)

abbrev keep_known : List (Option ConfigField) → List ConfigField
keep_known [] = []
keep_known (none ∷ more) = keep_known more
keep_known (some field ∷ more) = field ∷ keep_known more

-- `ConfigField::writable`
unfoldable pub writable : List ConfigField
unfolding config all_writable config_number
writable = keep_known (map (λ c. config (config_number c)) all_writable)

-- `placeholder`
unfoldable pub placeholder : Register → HoldingRegister
placeholder register = in_range register "unknown" 0 65535 unitless inferred

abbrev pub setting_of? : Option HoldingRegister → Option Setting
setting_of? none = none
setting_of? (some entry) = some (setting_of entry)

-- `setting_named` of the driver
unfoldable pub entry_named : List HoldingRegister → List ℕ → Option HoldingRegister
unfolding same_text
entry_named entries name =
    find (λ (entry : HoldingRegister). same_text (codes entry.name) name) entries

unfoldable pub setting_named : List ℕ → Option Setting
unfolding setting_of resync_set entry_named
setting_named name = setting_of? (entry_named (resync_set slot_count) name)

unfoldable pub settings : ℕ → List Setting
unfolding setting_of resync_set
settings slots = map setting_of (resync_set (min slots slot_count))

-- `impl Catalogue for Growatt`
unfoldable pub catalogue : Catalogue
unfolding settings setting_named writable
catalogue = record {
  settings = settings;
  setting_named = setting_named;
  slots = slot_count;
  measurements = [];
  writable_config = writable;
}
