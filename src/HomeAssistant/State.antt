-- ===== src/HomeAssistant/State.antt =====
-- src/homeassistant/state.rs: the objects that are published. A number with a fraction, and the
-- octets of an object, are what serde_json makes of them; text is its octets.
use heliobridge.Base.{
  ℕ, ◌-◌, ◌^◌, Bool, true, false, not, ◌&&◌, ◌||◌, Option, none, some, List, [], ◌∷◌, ◌++◌, length,
  take, leb, ltb, ◌==◌, if◌then◌else◌,
}
use heliobridge.Base.Dict.{insert}
use heliobridge.Base.Int.{ℤ, pos, neg, sub_ℕ}
use heliobridge.Base.Text.{codes, in_range}
use heliobridge.Base.Text.Parsing.{
  same_text, trim, parse_radix, digits_from, drop_spaces, space_width_back, reverse_onto,
}
use heliobridge.HomeAssistant.Command.{Json, numeral, string, signed}
use heliobridge.HomeAssistant.Entity.{one_of}
use heliobridge.HomeAssistant.Topics.{online, offline}
use heliobridge.HomeAssistant.Views.{TelemetryView, SettingView, IdentityView, Resting, raw_reading}

-- `Fields`: the keys of the entities that are announced
abbrev pub Fields : Type 0
Fields = List (List ℕ)

unfoldable pub contains : Fields → List ℕ → Bool
unfolding same_text
contains fields key = one_of fields key

abbrev pub StatePayload : Type 0
StatePayload = List (List ℕ × Json)

-- `i64::from_str`
abbrev negated : Option ℕ → Option ℤ
negated none = none
negated (some n) = some (neg (pos n))

abbrev positive : Option ℕ → Option ℤ
positive none = none
positive (some n) = some (pos n)

unfoldable pub parse_i64 : List ℕ → Option ℤ
unfolding parse_radix digits_from
parse_i64 [] = none
parse_i64 (a ∷ []) = positive (parse_radix 10 (2 ^ 63 - 1) (a ∷ []))
parse_i64 (a ∷ (b ∷ rest)) =
    if a == 0x2d
    then negated (digits_from 10 (2 ^ 63) 0 (b ∷ rest))
    else positive (parse_radix 10 (2 ^ 63 - 1) (a ∷ (b ∷ rest)))

abbrev u64_of : ℤ → Option ℕ
u64_of (ℤ.pos n) = some n
u64_of (ℤ.negsuc n) = none

-- `json!` of an integer
unfoldable pub whole : ℤ → Json
unfolding signed
whole n = numeral (record { as_u64 = u64_of n; as_i64 = some n; to_string = signed n })

abbrev continues : ℕ → Bool
continues b = in_range 0x80 0xbf b

abbrev extend : ℕ → List (List ℕ) → List (List ℕ)
extend b [] = (b ∷ []) ∷ []
extend b (c ∷ cs) = (b ∷ c) ∷ cs

abbrev starts : List ℕ → Bool
starts [] = true
starts (b ∷ rest) = not (continues b)

-- `str::chars`, each as its octets
unfoldable pub chars : List ℕ → List (List ℕ)
chars [] = []
chars (b ∷ rest) = if starts rest then (b ∷ []) ∷ chars rest else extend b (chars rest)

unfoldable pub is_control : List ℕ → Bool
is_control (b ∷ []) = ltb b 32 || b == 127
is_control (a ∷ (b ∷ [])) = a == 0xc2 && in_range 0x80 0x9f b
is_control _ = false

-- the replacement character, and an ellipsis
abbrev pub replacement : List ℕ
replacement = 0xef ∷ (0xbf ∷ (0xbd ∷ []))

abbrev pub ellipsis : List ℕ
ellipsis = 0xe2 ∷ (0x80 ∷ (0xa6 ∷ []))

unfoldable pub clean : List (List ℕ) → List (List ℕ)
unfolding is_control
clean [] = []
clean (c ∷ cs) = (if is_control c then replacement else c) ∷ clean cs

unfoldable pub joined : List (List ℕ) → List ℕ
joined [] = []
joined (c ∷ cs) = c ++ joined cs

-- `STATE_LIMIT`
abbrev pub state_limit : ℕ
state_limit = 255

-- The characters of `printable`, cut to the limit.
unfoldable pub limited : List (List ℕ) → List (List ℕ)
limited cs =
    if leb (length cs) state_limit then cs else take (state_limit - 1) cs ++ (ellipsis ∷ [])

-- `trim_end_matches(|c| c == '\0' || c.is_whitespace())`
unfoldable pub trim_end_nul : List ℕ → List ℕ
unfolding drop_spaces space_width_back reverse_onto
trim_end_nul text =
    reverse_onto (drop_spaces (space_width_back (λ a. a == 0)) 0 (reverse_onto text [])) []

unfoldable pub printable : List ℕ → List ℕ
unfolding joined limited clean chars trim_end_nul
printable text = joined (limited (clean (chars (trim_end_nul text))))

-- `StatePayload::status`, `firmware_version` and `last_update`; the version is this program's.
unfoldable pub status_payload : List ℕ → Bool → StatePayload
status_payload version connected =
    (codes "connected", string (if connected then online else offline))
    ∷ ((codes "bridge_version", string version) ∷ [])

unfoldable pub firmware_payload : List ℕ → StatePayload
firmware_payload version = (codes "firmware_version", string version) ∷ []

unfoldable pub last_update_payload : List ℕ → StatePayload
last_update_payload stamp = (codes "last_update", string stamp) ∷ []

unfoldable pub is_numeric : List ℕ → Bool
unfolding same_text
is_numeric name = same_text name (codes "wifi_signal") || same_text name (codes "data_interval")

abbrev insert_some : List ℕ → Option Json → StatePayload → StatePayload
insert_some name none object = object
insert_some name (some value) object = insert name value object

abbrev whole_of : Option ℤ → Option Json
whole_of none = none
whole_of (some n) = some (whole n)

-- What a config field shows, if its value can be read.
unfoldable pub config_json : List ℕ → List ℕ → Option Json
unfolding is_numeric parse_i64 trim printable whole
config_json name value =
    if is_numeric name then whole_of (parse_i64 (trim value)) else some (string (printable value))

unfoldable pub add_config : Fields → Option (List ℕ) → List ℕ → StatePayload → StatePayload
unfolding contains config_json insert
add_config fields none value object = object
add_config fields (some name) value object =
    if contains fields name then insert_some name (config_json name value) object else object

-- `StatePayload::config`
unfoldable pub config_from : Fields → IdentityView → StatePayload → StatePayload
unfolding add_config
config_from fields [] object = object
config_from fields (e ∷ more) object =
    config_from fields more (add_config fields e.name e.value object)

unfoldable pub config_payload : IdentityView → Fields → StatePayload
unfolding config_from
config_payload entries fields = config_from fields entries []

abbrev difference : Option ℕ → Option ℕ → Option ℤ
difference (some high) (some low) = some (sub_ℕ high low)
difference _ _ = none

-- `cell_spread`
unfoldable pub cell_spread : TelemetryView → Option ℤ
unfolding raw_reading
cell_spread view =
    difference (raw_reading view (codes "battery_cell_voltage_max"))
      (raw_reading view (codes "battery_cell_voltage_min"))

-- a field that is published only if its entity is
unfoldable pub add : Fields → List ℕ → Option Json → StatePayload → StatePayload
unfolding contains insert
add fields name value object =
    if contains fields name then insert_some name value object else object

abbrev verdict : Option Bool → Option Json
verdict none = none
verdict (some credible) = some (string (codes (if credible then "0" else "1")))

unfoldable pub add_resting : Fields → Option Resting → StatePayload → StatePayload
unfolding add whole
add_resting fields none object = object
add_resting fields (some r) object =
    add fields (codes "battery_soc_credible") (verdict r.credible)
      (add fields (codes "battery_resting_cell_voltage") (some (whole (pos r.millivolts))) object)

-- `fraction` is the JSON of a text that is no whole number: a float's, or the text itself.
module _ (fraction : List ℕ → Json) where
  abbrev whole_or : List ℕ → Option ℤ → Json
  whole_or text none = fraction text
  whole_or text (some n) = whole n

  unfoldable pub quantity : List ℕ → Json
  unfolding parse_i64 whole
  quantity text = whole_or text (parse_i64 text)

  unfoldable pub readings_from : Fields → TelemetryView → StatePayload → StatePayload
  unfolding add quantity
  readings_from fields [] object = object
  readings_from fields (r ∷ more) object =
      readings_from fields more (add fields r.name (some (quantity r.value)) object)

  -- `StatePayload::telemetry`
  unfoldable pub telemetry_payload : TelemetryView → Fields → Option Resting → StatePayload
  unfolding readings_from cell_spread add add_resting whole
  telemetry_payload view fields resting = add_resting fields resting (
      add fields (codes "battery_cell_spread") (whole_of (cell_spread view))
        (readings_from fields view []))

  unfoldable pub settings_from : Fields → List SettingView → StatePayload → StatePayload
  unfolding add quantity
  settings_from fields [] object = object
  settings_from fields (s ∷ more) object =
      settings_from fields more (add fields s.name (some (quantity s.value)) object)

  -- `StatePayload::settings`
  unfoldable pub settings_payload : List SettingView → Fields → StatePayload
  unfolding settings_from
  settings_payload views fields = settings_from fields views []
