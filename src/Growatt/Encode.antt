-- ===== src/Growatt/Encode.antt =====
-- src/growatt/v7/encode.rs: the commands sent to the device, what may be asked for, and the octets.
pub mod Writes
pub mod Slot
pub mod Body
pub mod Verify
use heliobridge.Base.{
  String, ℕ, zero, suc, ◌+◌, ◌-◌, ◌*◌, Bool, true, false, not, ◌&&◌, ◌||◌, Option, none, some, List,
  [], ◌∷◌, ◌++◌, length, get_elem?, any, map, leb, ltb, ◌==◌, if◌then◌else◌,
}
use heliobridge.Base.Octets.{be16, clamp_u16, sat_add_u16, u16_max}
use heliobridge.Base.Text.{codes}
use heliobridge.Base.Decimal.{padded}
use heliobridge.Base.Results.{Result, ok, err, ◌>>=◌, ◌>>◌, ensure, ok_or}
use heliobridge.Model.{Register, Raw, Timestamp, is_plausible}
use heliobridge.Growatt.MessageType.{
  MessageType, read_single_register, write_single_register, write_register_range,
}
use heliobridge.Growatt.Frame
use heliobridge.Growatt.Frame.{Frame, FrameError}
use heliobridge.Growatt.Registers
use heliobridge.Growatt.Registers.{HoldingRegister, accepts, describe}

abbrev pub companion_of_default_output_power : Register
companion_of_default_output_power = 321

abbrev pub default_output_power : Register
default_output_power = 322

abbrev pub power_plus : Register
power_plus = 325

-- The config registers that this program knows how to write.
pub data WritableConfig : Type 0 where
  clock restart factory_reset accessory_list : WritableConfig
  routed_modbus remote_url remote_port server_address : WritableConfig

-- `WritableConfig::register`
unfoldable pub config_number : WritableConfig → Register
config_number clock = 31
config_number restart = 32
config_number factory_reset = 35
config_number accessory_list = 122
config_number routed_modbus = 143
config_number remote_url = 19
config_number remote_port = 18
config_number server_address = 17

-- `WritableConfig::is_retarget`, `is_action`, `is_destructive` and `trigger_value`
unfoldable pub is_retarget : WritableConfig → Bool
is_retarget remote_url = true
is_retarget remote_port = true
is_retarget server_address = true
is_retarget _ = false

unfoldable pub is_action : WritableConfig → Bool
is_action restart = true
is_action factory_reset = true
is_action _ = false

unfoldable pub is_destructive : WritableConfig → Bool
is_destructive factory_reset = true
is_destructive _ = false

unfoldable pub trigger_value : WritableConfig → Option (List ℕ)
unfolding is_action
trigger_value c = if is_action c then some (codes "1") else none

pub data EncodeError : Type 0 where
  not_writable_config : Register → EncodeError
  accessory_serial : ℕ → EncodeError
  not_writable : Register → EncodeError
  -- the register's name and number, what it accepts, and the value
  out_of_range : String → Register → List ℕ → ℕ → EncodeError
  -- the one before, and the one that does not follow it
  not_consecutive : Register → Register → EncodeError
  empty_range : EncodeError
  no_such_slot : ℕ → ℕ → EncodeError
  implausible_timestamp : Timestamp → EncodeError
  empty_config_value : WritableConfig → EncodeError
  frame : FrameError → EncodeError

-- `WritableRegister`, a register of the allowlist
pub record WritableRegister : Type 0 where
  pub entry : HoldingRegister

-- `WritableRegister::lookup`, with the error of its callers
unfoldable pub writable : Register → Result EncodeError WritableRegister
writable r = elim (Registers.lookup r) [
  | none ↦ err (not_writable r)
  | some entry ↦ ok (record { entry = entry })
]

-- `WritableRegister::validate`
unfoldable pub validate : WritableRegister → ℕ → Result EncodeError Raw
validate w value =
    if accepts w.entry.domain value
    then ok value
    else err (out_of_range w.entry.name w.entry.register (describe w.entry.domain) value)

pub data Command : Type 0 where
  write_single : WritableRegister → Raw → Command
  write_range_of : Register → List Raw → Command
  read_single : Register → Command
  trigger : Register → Raw → Command
  write_config_of : WritableConfig → List ℕ → Command
  read_config_of : List Register → Command

-- `Command::write`
unfoldable pub write : Register → ℕ → Result EncodeError Command
write register value = do
  target ← writable register
  raw ← validate target value
  ok (write_single target raw)

-- The loop of `Command::write_range`; `expected` is the register that has to come next.
unfoldable pub range_values :
    Register → List (Register × ℕ) → List Raw → Result EncodeError (List Raw)
range_values expected [] values = ok values
range_values expected ((register, value) ∷ pairs) values = do
  ensure (register == expected) (not_consecutive (expected - 1) register)
  target ← writable register
  raw ← validate target value
  range_values (sat_add_u16 register 1) pairs (values ++ (raw ∷ []))

-- `Command::write_range`
unfoldable pub write_range : List (Register × ℕ) → Result EncodeError Command
write_range [] = err empty_range
write_range ((first, value) ∷ pairs) = do
  values ← range_values first ((first, value) ∷ pairs) []
  ok (write_range_of first values)

-- `Command::set_default_output_power`
unfoldable pub set_default_output_power : ℕ → Result EncodeError Command
set_default_output_power watts = do
  target ← writable default_output_power
  validated ← validate target watts
  ok (write_range_of companion_of_default_output_power (0 ∷ validated ∷ []))

-- `Command::set`
unfoldable pub set : Register → ℕ → Result EncodeError Command
set register value =
    if register == default_output_power
    then set_default_output_power value
    else write register value

-- The schedule of one slot.
pub record SlotConfig : Type 0 where
  pub start_hour : ℕ
  pub start_minute : ℕ
  pub end_hour : ℕ
  pub end_minute : ℕ
  pub work_mode : ℕ
  pub output_power : ℕ
  pub enabled : Bool

abbrev pub bit : Bool → ℕ
bit true = 1
bit false = 0

-- `SlotConfig::raw_values`; the hour and the minute are octets, so `<<` and `|` make a word of them.
unfoldable pub raw_values : SlotConfig → List ℕ
raw_values c =
    (c.start_hour * 256 + c.start_minute)
    ∷ (c.end_hour * 256 + c.end_minute)
    ∷ c.work_mode
    ∷ c.output_power
    ∷ bit c.enabled
    ∷ []

-- The loop of `Command::set_slot`, over the entries zipped with the values.
unfoldable pub slot_values : List HoldingRegister → List ℕ → Result EncodeError (List Raw)
slot_values [] values = ok []
slot_values (entry ∷ entries) [] = ok []
slot_values (entry ∷ entries) (value ∷ values) = do
  raw ← validate (record { entry = entry }) value
  rest ← slot_values entries values
  ok (raw ∷ rest)

-- `Command::set_slot`
unfoldable pub set_slot : ℕ → SlotConfig → Result EncodeError Command
set_slot slot config = do
  entries ← ok_or (Registers.slot slot) (no_such_slot slot Registers.slot_count)
  values ← slot_values entries (raw_values config)
  first ← ok_or (get_elem? entries 0) empty_range
  ok (write_range_of first.register values)

pub data SlotField : Type 0 where
  start_time end_time work_mode output_power enabled : SlotField

-- `SlotField::offset`
unfoldable pub offset : SlotField → ℕ
offset start_time = 0
offset end_time = 1
offset work_mode = 2
offset output_power = 3
offset enabled = 4

-- `SlotField::register`, by way of `slot_registers`
unfoldable pub field_register : SlotField → ℕ → Option Register
field_register field slot = elim (Registers.slot slot) [
  | none ↦ none
  | some entries ↦ get_elem? (map HoldingRegister.register entries) (offset field)
]

-- `Command::set_slot_field`
unfoldable pub set_slot_field : ℕ → SlotField → ℕ → Result EncodeError Command
set_slot_field slot field value = do
  register ← ok_or (field_register field slot) (no_such_slot slot Registers.slot_count)
  write register value

-- `format_time`
unfoldable pub format_time : Timestamp → List ℕ
format_time t =
    padded 4 t.year
    ++ (codes "-"
        ++ (padded 2 t.month
            ++ (codes "-"
                ++ (padded 2 t.day
                    ++ (codes " "
                        ++ (padded 2 t.hour
                            ++ (codes ":"
                                ++ (padded 2 t.minute ++ (codes ":" ++ padded 2 t.second)))))))))

-- `Command::time_push`
unfoldable pub time_push : Timestamp → Result EncodeError Command
time_push t = do
  ensure (is_plausible t) (implausible_timestamp t)
  ok (write_config_of clock (format_time t))

-- `Command::write_config`
unfoldable pub write_config : WritableConfig → List ℕ → Result EncodeError Command
write_config register value = do
  ensure (not (length value == 0)) (empty_config_value register)
  ok (write_config_of register value)

-- `Command::restart_datalogger` and `Command::factory_reset`
abbrev pub restart_datalogger : Command
restart_datalogger = write_config_of restart (codes "1")

abbrev pub reset_datalogger : Command
reset_datalogger = write_config_of factory_reset (codes "1")
