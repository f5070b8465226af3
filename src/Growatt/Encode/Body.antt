-- ===== src/Growatt/Encode/Body.antt =====
-- The octets of a command, the frame that carries it, and what is read back after it, of
-- src/growatt/v7/encode.rs.
use heliobridge.Base.{
  ℕ, ◌+◌, ◌-◌, Bool, true, false, not, ◌&&◌, Option, none, some, List, [], ◌∷◌, ◌++◌, length,
  get_elem?, any, leb, ◌==◌, if◌then◌else◌,
}
use heliobridge.Base.Octets.{be16, clamp_u16, sat_add_u16, u16_max}
use heliobridge.Base.Results.{Result, ok, err}
use heliobridge.Model.{Register, Raw}
use heliobridge.Growatt.MessageType.{
  MessageType, read_single_register, write_single_register, write_register_range, config_write,
  config_read,
}
use heliobridge.Growatt.Frame
use heliobridge.Growatt.Frame.{Frame, FrameError}
use heliobridge.Growatt.Registers
use heliobridge.Growatt.Encode.{
  Command, write_single, write_range_of, read_single, trigger, write_config_of, read_config_of,
  WritableConfig, config_number, EncodeError, frame, power_plus, default_output_power,
}

-- `Command::message_type`
unfoldable pub message_type : Command → MessageType
message_type (write_single w value) = write_single_register
message_type (trigger r value) = write_single_register
message_type (write_range_of start values) = write_register_range
message_type (read_single r) = read_single_register
message_type (write_config_of c value) = config_write
message_type (read_config_of rs) = config_read

-- The words of a list, one after another.
unfoldable pub words : List ℕ → List ℕ
words [] = []
words (n ∷ ns) = be16 n ++ words ns

-- `Command::body`
unfoldable pub body : Command → List ℕ
body (write_single w value) = be16 w.entry.register ++ be16 value
body (trigger r value) = be16 r ++ be16 value
body (write_range_of start values) =
    let last : ℕ = sat_add_u16 start (clamp_u16 (length values)) - 1 in
    be16 start ++ (be16 last ++ words values)
body (read_single r) = be16 r ++ be16 r
body (read_config_of rs) = be16 (clamp_u16 (length rs)) ++ words rs
body (write_config_of c value) =
    let value_len : ℕ = clamp_u16 (length value) in
    be16 1
    ++ (be16 (sat_add_u16 value_len 4) ++ (be16 (config_number c) ++ (be16 value_len ++ value)))

-- `Command::to_frame`
unfoldable pub to_frame : Command → List ℕ → Result EncodeError Frame
to_frame command device_id = elim (Frame.new (message_type command) device_id (body command)) [
  | ok f ↦ ok f
  | err e ↦ err (frame e)
]

-- `Command::is_acknowledged`
unfoldable pub is_acknowledged : Command → Bool
is_acknowledged (write_range_of start values) = true
is_acknowledged (write_single w value) = true
is_acknowledged (trigger r value) = true
is_acknowledged _ = false

-- `Command::config_register`, `config_target` and `config_value`
unfoldable pub config_register : Command → Option WritableConfig
config_register (write_config_of c value) = some c
config_register _ = none

unfoldable pub config_target : Command → Option Register
config_target (write_config_of c value) = some (config_number c)
config_target (read_config_of rs) = get_elem? rs 0
config_target _ = none

unfoldable pub config_value : Command → Option (List ℕ)
config_value (write_config_of c value) = some value
config_value _ = none

-- The registers of a range write that have a documented meaning, with what was written.
unfoldable pub range_to_verify : Register → List Raw → List (Register × Option Raw)
range_to_verify r [] = []
range_to_verify r (value ∷ values) =
    let rest = range_to_verify (r + 1) values in
    if leb r u16_max
    then elim (Registers.lookup r) [ none ↦ rest | some e ↦ (r, some value) ∷ rest ]
    else rest

unfoldable pub directly_verified : Command → List (Register × Option Raw)
unfolding range_to_verify
directly_verified (write_single w value) = (w.entry.register, some value) ∷ []
directly_verified (write_range_of start values) = range_to_verify start values
directly_verified _ = []

abbrev pub touches : Register → List (Register × Option Raw) → Bool
touches r = any (λ p. p.0 == r)

-- `Command::registers_to_verify`
unfoldable pub registers_to_verify : Command → List (Register × Option Raw)
registers_to_verify command =
    let out = directly_verified command in
    if touches power_plus out && not (touches default_output_power out)
    then out ++ ((default_output_power, none) ∷ [])
    else out
