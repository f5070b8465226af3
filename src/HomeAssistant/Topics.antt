-- ===== src/HomeAssistant/Topics.antt =====
-- src/homeassistant/topics.rs: what everything is called on the broker. `default_instance`, which
-- reads the host's name, is left out; `availability` and `topic_for` stand with the entities.
pub mod RoundTrip
use heliobridge.Base.{
  ℕ, Bool, true, Option, none, some, List, [], ◌∷◌, ◌++◌, any, ◌==◌, if◌then◌else◌,
}
use heliobridge.Base.Text.{codes}
use heliobridge.Base.Text.Parsing.{same_text, strip_prefix}
use heliobridge.Mqtt.{at_least_once, Will}

abbrev pub online : List ℕ
online = codes "online"

abbrev pub offline : List ℕ
offline = codes "offline"

pub record Topics : Type 0 where
  pub base : List ℕ
  pub discovery_prefix : List ℕ
  pub instance_name : List ℕ

-- `Source` of src/homeassistant/entity.rs
pub data Source : Type 0 where
  telemetry settings status config : Source

abbrev pub slash : List ℕ → List ℕ → List ℕ
slash a b = a ++ (0x2f ∷ b)

unfoldable pub bridge_availability : Topics → List ℕ
bridge_availability t =
    slash t.base (slash (codes "bridge") (slash t.instance_name (codes "availability")))

-- the first argument is the component's name
unfoldable pub discovery : Topics → List ℕ → List ℕ → List ℕ → List ℕ
discovery t component device key =
    slash t.discovery_prefix
      (slash component (slash t.base (slash (device ++ (0x5f ∷ key)) (codes "config"))))

unfoldable pub unique_id : Topics → List ℕ → List ℕ → List ℕ
unique_id t device key = t.base ++ (0x5f ∷ (device ++ (0x5f ∷ key)))

unfoldable pub device_availability : Topics → List ℕ → List ℕ
device_availability t device = slash t.base (slash device (codes "availability"))

unfoldable pub entity_availability : Topics → List ℕ → List ℕ → List ℕ
entity_availability t device key = slash t.base (slash device (slash (codes "availability") key))

unfoldable pub source_name : Source → List ℕ
source_name telemetry = codes "state"
source_name settings = codes "settings"
source_name status = codes "status"
source_name config = codes "config"

-- `state`, `settings`, `status` and `config`, by the source
unfoldable pub shared : Topics → Source → List ℕ → List ℕ
unfolding source_name
shared t source device = slash t.base (slash device (source_name source))

unfoldable pub field : Topics → Source → List ℕ → List ℕ → List ℕ
unfolding shared
field t source device key = slash (shared t source device) key

unfoldable pub command_filter : Topics → List ℕ
command_filter t = slash t.base (slash (codes "+") (codes "set"))

unfoldable pub command : Topics → List ℕ → List ℕ
command t device = slash t.base (slash device (codes "set"))

-- `str::strip_suffix`
unfoldable pub strip_suffix : List ℕ → List ℕ → Option (List ℕ)
strip_suffix suffix [] = if same_text suffix [] then some [] else none
strip_suffix suffix (a ∷ rest) =
    if same_text suffix (a ∷ rest)
    then some []
    else elim (strip_suffix suffix rest) [ none ↦ none | some kept ↦ some (a ∷ kept) ]

abbrev pub has_slash : List ℕ → Bool
has_slash = any (λ c. c == 0x2f)

-- a serial that one level of a topic can hold
unfoldable pub one_level : List ℕ → Option (List ℕ)
one_level [] = none
one_level (a ∷ rest) = if has_slash (a ∷ rest) then none else some (a ∷ rest)

unfoldable pub device_in : Option (List ℕ) → Option (List ℕ)
unfolding strip_suffix one_level
device_in none = none
device_in (some rest) = elim (strip_suffix (codes "/set") rest) [
  | none ↦ none
  | some device ↦ one_level device
]

unfoldable pub after_slash : Option (List ℕ) → Option (List ℕ)
unfolding strip_prefix
after_slash none = none
after_slash (some rest) = strip_prefix (codes "/") rest

unfoldable pub device_of_command : Topics → List ℕ → Option (List ℕ)
unfolding strip_prefix after_slash device_in
device_of_command t topic = device_in (after_slash (strip_prefix t.base topic))

-- What the broker is to say when this program is gone.
unfoldable pub will : Topics → Will
unfolding bridge_availability
will t = record {
  topic = bridge_availability t;
  payload = offline;
  qos = at_least_once;
  retain = true;
}
