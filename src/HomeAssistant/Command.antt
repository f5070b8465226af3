-- ===== src/HomeAssistant/Command.antt =====
-- src/homeassistant/command.rs: what a command topic may change, and a payload read into changes.
-- JSON is what serde_json makes of the octets; of a number it tells what the code asks of it. The
-- quoted form of a text in a message, `{:?}`, is a parameter.
pub mod Offers
pub mod Sends
use heliobridge.Base.{
  ℕ, Bool, true, false, not, ◌&&◌, ◌||◌, Option, none, some, List, [], ◌∷◌, ◌++◌, find, leb,
  if◌then◌else◌,
}
use heliobridge.Base.Int.{ℤ, pos, negsuc, magnitude}
use heliobridge.Base.Decimal.{decimal}
use heliobridge.Base.Results.{Result, ok, err, ◌>>=◌}
use heliobridge.Base.Text.{codes}
use heliobridge.Base.Text.Parsing.{same_text}
use heliobridge.Model.{Register}
use heliobridge.Driver.Shapes.{Shape, switch, number, choice, time_of_day, weekdays, text}
use heliobridge.Driver.Shapes
use heliobridge.Driver.Catalogue.{Setting, ConfigField, Catalogue}
use heliobridge.Driver.Commands
use heliobridge.Driver.Commands.{Command}

pub record JsonNumber : Type 0 where
  pub as_u64 : Option ℕ
  pub as_i64 : Option ℤ
  pub to_string : List ℕ

mutual
  pub data Json : Type 0 where
    null : Json
    boolean : Bool → Json
    numeral : JsonNumber → Json
    string : List ℕ → Json
    -- no code looks at its items
    array : Json
    object : Members → Json

  pub data Members : Type 0 where
    end : Members
    member : List ℕ → Json → Members → Members

pub record Permitted : Type 0 where
  pub writes : Bool
  pub power_plus : Bool

-- `METER_READING`, `WITHDRAW_METER_READING` and `PAIR_LORA_ACCESSORY` of entity.rs, and `POWER_PLUS`
abbrev pub meter_reading_key : List ℕ
meter_reading_key = codes "supplied_meter_reading"

abbrev pub withdraw_meter_reading_key : List ℕ
withdraw_meter_reading_key = codes "withdraw_meter_reading"

abbrev pub pair_lora_accessory_key : List ℕ
pair_lora_accessory_key = codes "pair_lora_accessory"

abbrev pub power_plus_key : List ℕ
power_plus_key = codes "power_plus"

-- `Permitted::allows`
unfoldable pub allows : Permitted → List ℕ → Bool
allows p name = p.writes && (p.power_plus || not (same_text name power_plus_key))

pub data CommandError : Type 0 where
  malformed empty : CommandError
  unknown refused : List ℕ → CommandError
  -- key, expected, got
  unshaped : List ℕ → List ℕ → List ℕ → CommandError
  -- key, accepted, value
  outside : List ℕ → List ℕ → ℕ → CommandError

pub data Delivery : Type 0 where
  confirmed fire_and_forget : Delivery

pub record Change : Type 0 where
  pub key : List ℕ
  pub register : Option Register
  pub command : Command
  pub delivery : Delivery
  pub requested : Option (List ℕ)

abbrev u16 : Option ℕ → Option ℕ
u16 none = none
u16 (some n) = if leb n 65535 then some n else none

abbrev i32 : Option ℤ → Option ℤ
i32 none = none
i32 (some (pos n)) = if leb n 2147483647 then some (pos n) else none
i32 (some (negsuc n)) = if leb n 2147483647 then some (negsuc n) else none

abbrev at_most_one : Option ℕ → Option ℕ
at_most_one none = none
at_most_one (some n) = if leb n 1 then some n else none

-- `raw_value`, by the shape for a number and by the value otherwise
unfoldable pub whole : Shape → Option ℕ → Option ℕ
whole switch n = at_most_one (u16 n)
whole (number least greatest) n = u16 n
whole (choice labels) n = none
whole text n = none
whole time_of_day n = none
whole weekdays n = none

unfoldable pub flag_value : Shape → Bool → Option ℕ
flag_value switch flag = some (if flag then 1 else 0)
flag_value _ flag = none

unfoldable pub raw_value : Shape → Json → Option ℕ
unfolding whole flag_value
raw_value shape (boolean flag) = flag_value shape flag
raw_value shape (string given) = Shapes.parse shape given
raw_value shape (numeral n) = whole shape n.as_u64
raw_value shape null = none
raw_value shape array = none
raw_value shape (object members) = none

-- `Value::as_i64`, within an `i32`
unfoldable pub watts_in : Json → Option ℤ
watts_in (numeral n) = i32 n.as_i64
watts_in _ = none

unfoldable pub signed : ℤ → List ℕ
signed (pos n) = decimal n
signed (negsuc n) = codes "-" ++ decimal (magnitude (negsuc n))

abbrev pub meter_change : List ℕ → Bool → ℤ → List ℕ → Change
meter_change key valid watts requested = record {
  key = key;
  register = none;
  command = Commands.meter_reading watts valid;
  delivery = fire_and_forget;
  requested = some requested;
}

abbrev pub pair_change : List ℕ → Change
pair_change key = record {
  key = key;
  register = none;
  command = Commands.pair_lora_accessory;
  delivery = fire_and_forget;
  requested = some (codes "pairing window opened");
}

abbrev pub action_change : List ℕ → ConfigField → List ℕ → Change
action_change key field value = record {
  key = key;
  register = some field.register;
  command = Commands.write_config field.register value;
  delivery = fire_and_forget;
  requested = none;
}

abbrev pub setting_change : List ℕ → Setting → ℕ → Change
setting_change key setting raw = record {
  key = key;
  register = some setting.register;
  command = Commands.set setting.register raw;
  delivery = confirmed;
  requested = none;
}

abbrev pub is_action : List ℕ → ConfigField → Bool
is_action key field = elim field.action [ none ↦ false | some v ↦ same_text field.name key ]

-- What `Change::action` makes of the field that its search found.
unfoldable pub operate :
    Permitted → List ℕ → Option ConfigField → Option (Result CommandError Change)
operate p key none = none
operate p key (some field) =
    if field.is_destructive || not (allows p key)
    then some (err (refused key))
    else elim field.action [ none ↦ none | some value ↦ some (ok (action_change key field value)) ]

-- `Change::action`
unfoldable pub action : Catalogue → Permitted → List ℕ → Option (Result CommandError Change)
unfolding operate
action c p key = operate p key (find (is_action key) c.writable_config)

-- `Change::pair_lora_accessory`
unfoldable pub pair_lora_accessory : Permitted → List ℕ → Option (Result CommandError Change)
pair_lora_accessory p key =
    if not (same_text key pair_lora_accessory_key)
    then none
    else if not (allows p key)
    then some (err (refused key))
    else some (ok (pair_change key))

abbrev pub or_else :
    Option (Result CommandError Change) → Result CommandError Change → Result CommandError Change
or_else none next = next
or_else (some answer) next = answer

module _ (quoted : List ℕ → List ℕ) where
  unfoldable pub rendered : Json → List ℕ
  rendered null = codes "null"
  rendered (boolean true) = codes "true"
  rendered (boolean false) = codes "false"
  rendered (numeral n) = n.to_string
  rendered (string given) = quoted given
  rendered array = codes "an array"
  rendered (object members) = codes "an object"

  -- `Change::meter_reading`, after its guards: a withdrawal or a reading
  unfoldable pub supply : List ℕ → Json → Option ℤ → Result CommandError Change
  unfolding signed rendered
  supply key value none = err (unshaped key (codes "a signed number of watts") (rendered value))
  supply key value (some watts) = ok (meter_change key true watts (signed watts ++ codes " W"))

  unfoldable pub reading_for : Permitted → List ℕ → Bool → Json → Result CommandError Change
  unfolding supply watts_in
  reading_for p key withdrawing value =
      if not (allows p key)
      then err (refused key)
      else if withdrawing
      then ok (meter_change key false (pos 0) (codes "withdrawn"))
      else supply key value (watts_in value)

  unfoldable pub meter_reading : Permitted → List ℕ → Json → Option (Result CommandError Change)
  unfolding reading_for
  meter_reading p key value =
      if same_text key meter_reading_key
      then some (reading_for p key false value)
      else if same_text key withdraw_meter_reading_key
      then some (reading_for p key true value)
      else none

  -- The end of `Change::one`, for a key that is a setting's name or nothing.
  unfoldable pub checked : List ℕ → Json → Setting → Option ℕ → Result CommandError Change
  unfolding rendered
  checked key value setting none =
      err (unshaped key (Shapes.accepts setting.shape) (rendered value))
  checked key value setting (some raw) =
      if not (setting.accepts raw)
      then err (outside key setting.accepted raw)
      else ok (setting_change key setting raw)

  unfoldable pub set_named : Permitted → List ℕ → Json → Option Setting → Result CommandError Change
  unfolding checked raw_value
  set_named p key value none = err (unknown key)
  set_named p key value (some setting) =
      if not (allows p key)
      then err (refused key)
      else checked key value setting (raw_value setting.shape value)

  -- `Change::one`
  unfoldable pub one : Catalogue → Permitted → List ℕ → Json → Result CommandError Change
  unfolding action meter_reading pair_lora_accessory set_named
  one c p key value = or_else (action c p key) (
      or_else (meter_reading p key value)
        (or_else (pair_lora_accessory p key) (set_named p key value (c.setting_named key))))

  -- the fields in order, up to the first that cannot be honoured
  unfoldable pub all_changes : Catalogue → Permitted → Members → Result CommandError (List Change)
  unfolding one
  all_changes c p end = ok []
  all_changes c p (member key value more) =
      one c p key value >>= λ change. all_changes c p more >>= λ rest. ok (change ∷ rest)

  unfoldable pub of_json : Catalogue → Permitted → Option Json → Result CommandError (List Change)
  unfolding all_changes
  of_json c p (some (object end)) = err empty
  of_json c p (some (object (member key value more))) = all_changes c p (member key value more)
  of_json c p _ = err malformed

  -- `Change::from_payload`; `from_slice` is serde_json's.
  unfoldable pub from_payload :
      (List ℕ → Option Json) → Catalogue → Permitted → List ℕ → Result CommandError (List Change)
  unfolding of_json
  from_payload from_slice c p payload = of_json c p (from_slice payload)

-- `Change::also_read`
unfoldable pub also_read : Change → Option Register
also_read change = if same_text change.key power_plus_key then some 322 else none
