-- ===== src/Tests/Bridge.antt =====
-- The registry of src/control.rs on concrete input, and the topics, commands and entities of
-- src/homeassistant over a driver of one setting and one action.
use heliobridge.Base.{
  refl, ◌≡◌, ◌↔◌, ℕ, true, false, Option, none, some, List, [], ◌∷◌, All, leb, arith, if◌then◌else◌,
}
use heliobridge.Base.Int.{pos}
use heliobridge.Base.Results.{ok}
use heliobridge.Base.Text.{codes}
use heliobridge.Base.Text.Parsing.{same_text}
use heliobridge.Model.{watt, verified}
use heliobridge.Driver.Shapes
use heliobridge.Driver.Catalogue.{Setting, ConfigField, Catalogue}
use heliobridge.Growatt.Catalogue as Growatt
use heliobridge.Growatt.Registers.{in_range}
use heliobridge.Control.Registry.{default, session}
use heliobridge.Control.Registry.History.{Event, arrive, leave, run, stands, session-run}
use heliobridge.HomeAssistant.Topics.{Topics, device_of_command, command}
use heliobridge.HomeAssistant.Topics.RoundTrip.{IsLevel, device_of_command_iff}
use heliobridge.HomeAssistant.Command.{
  Json, object, member, end, numeral, string, Permitted, Change, setting_change, action_change,
  from_payload, allows,
}
use heliobridge.HomeAssistant.Command.Offers.{IsPermitted, from_payload-IsPermitted}
use heliobridge.HomeAssistant.Command.Sends.{IsExpressible, Fits, from_payload-IsExpressible}
use heliobridge.HomeAssistant.Entity.Catalogue.{EntityCatalogue, entities}
use heliobridge.HomeAssistant.Entity.Permits.{IsTaken, entities-IsTaken}

abbrev pub serial : List ℕ
serial = codes "ABC123"

-- Two sessions of one device; the end of the first comes after the second has arrived.
abbrev pub shift : List (Event ℕ)
shift = arrive serial 7 ∷ (arrive serial 8 ∷ (leave serial 0 ∷ []))

session-run_example : session (run default shift) serial ≡ stands serial 0 shift
session-run_example = session-run serial shift (omega arith)

abbrev pub names : Topics
names = record {
  base = codes "heliobridge";
  discovery_prefix = codes "homeassistant";
  instance_name = codes "attic";
}

device_of_command_iff_example :
    (device_of_command names (codes "heliobridge/ABC123/set") ≡ some serial)
    ↔ (IsLevel serial × (codes "heliobridge/ABC123/set" ≡ command names serial))
device_of_command_iff_example = device_of_command_iff names (codes "heliobridge/ABC123/set") serial

abbrev power : Setting
power = record {
  register = 310;
  name = codes "power";
  shape = Shapes.number 0 800;
  unit = watt;
  accepts = λ raw. leb raw 800;
  accepted = codes "0 to 800";
  superseded_by = none;
}

abbrev restart : ConfigField
restart = record {
  register = 32;
  name = codes "restart";
  action = some (codes "1");
  is_retarget = false;
  is_destructive = false;
}

abbrev pub small : Catalogue
small = record {
  settings = λ slots. power ∷ [];
  setting_named = λ name. if same_text name (codes "power") then some power else none;
  slots = 0;
  measurements = [];
  writable_config = restart ∷ [];
}

abbrev pub all_writes : Permitted
all_writes = record { writes = true; power_plus = true }

-- An object of two members, whatever the octets are.
abbrev read_as : List ℕ → Json → List ℕ → Option Json
read_as key value octets =
    some (object (member key value (member (codes "restart") (string (codes "now")) end)))

abbrev five_hundred : Json
five_hundred =
    numeral (record { as_u64 = some 500; as_i64 = some (pos 500); to_string = codes "500" })

abbrev pub plain : List ℕ → List ℕ
plain text = text

abbrev two_changes : List Change
two_changes =
    setting_change (codes "power") power 500
    ∷ (action_change (codes "restart") restart (codes "1") ∷ [])

asked :
    from_payload plain (read_as (codes "power") five_hundred) small all_writes [] ≡ ok two_changes
unfolding from_payload allows same_text
asked = refl

from_payload-IsPermitted_example : All (IsPermitted small all_writes) two_changes
from_payload-IsPermitted_example =
    from_payload-IsPermitted plain small all_writes (read_as (codes "power") five_hundred) []
      two_changes asked

abbrev output_power : Setting
output_power = Growatt.setting_of (in_range 322 "default_output_power" 0 1000 watt verified)

abbrev one_change : List Change
one_change = setting_change (codes "default_output_power") output_power 500 ∷ []

abbrev pub lone : List ℕ → Option Json
lone octets = some (object (member (codes "default_output_power") five_hundred end))

asked_power : from_payload plain lone Growatt.catalogue all_writes [] ≡ ok one_change
unfolding from_payload allows Growatt.catalogue
asked_power = refl

from_payload-IsExpressible_example :
    All (λ (change : Change). Fits change.command → IsExpressible change.command) one_change
from_payload-IsExpressible_example =
    from_payload-IsExpressible plain lone all_writes [] one_change asked_power

abbrev offered : EntityCatalogue
offered = record { slots = 0; permitted = all_writes; packs = 1 }

entities-IsTaken_example : All (IsTaken plain offered small) (entities offered small)
entities-IsTaken_example = entities-IsTaken plain offered small
