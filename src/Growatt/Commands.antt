-- ===== src/Growatt/Commands.antt =====
-- src/growatt/commands.rs with src/growatt/v7/meter.rs and lora.rs: what the server asks for, as a
-- command of the protocol and the frame that carries it.
pub mod Reads
use heliobridge.Base.{
  ℕ, Bool, true, false, Option, none, some, List, [], ◌∷◌, find, leb, ◌==◌, if◌then◌else◌,
}
use heliobridge.Base.Int.{ℤ, magnitude, is_negative}
use heliobridge.Base.Octets.{u16_max}
use heliobridge.Base.Text.{codes}
use heliobridge.Base.Results.{Result, ok, err, ◌>>=◌}
use heliobridge.Model.{Register, Raw}
use heliobridge.Mqtt.{QoS, at_most_once, at_least_once}
use heliobridge.Driver.Commands.{Outgoing}
use heliobridge.Driver.Commands as Asked
use heliobridge.Growatt.MessageType.{MessageType}
use heliobridge.Growatt.Frame.{Frame, to_wire}
use heliobridge.Growatt.Encode
use heliobridge.Growatt.Encode.{
  Command, EncodeError, not_writable_config, accessory_serial, out_of_range, write_single,
  write_range_of, read_single, trigger, write_config_of, read_config_of, WritableConfig, clock,
  restart, factory_reset, accessory_list, routed_modbus, remote_url, remote_port, server_address,
  config_number, set, time_push,
}
use heliobridge.Growatt.Encode.Body.{to_frame, is_acknowledged, registers_to_verify, message_type}
use heliobridge.Growatt.Network.{new_serial, start, forget, pairing_command}

-- `FIRST_REGISTER`, `PAIR_REGISTER` and `PAIR_TRIGGER`
abbrev pub first_register : Register
first_register = 309

abbrev pub pair_register : Register
pair_register = 320

abbrev pub pair_trigger : Raw
pair_trigger = 1

abbrev flag : Bool → ℕ
flag true = 1
flag false = 0

unfoldable pub meter_values : Bool → ℕ → Bool → List Raw
meter_values export watts valid =
    0
    ∷ ((if valid then (if export then watts else 0) else 0)
        ∷ ((if valid then (if export then 0 else watts) else 0) ∷ (flag valid ∷ [])))

-- `meter::command`; the magnitude of an `i32` that has none is beyond the limit too.
unfoldable pub meter_command : ℤ → Bool → Result EncodeError Command
unfolding meter_values
meter_command watts valid =
    if leb (magnitude watts) u16_max
    then ok
        (write_range_of first_register (meter_values (is_negative watts) (magnitude watts) valid))
    else err (
        out_of_range "supplied meter power" (if is_negative watts then 310 else 311)
          (codes "a magnitude of at most 65535 W") 0)

-- `lora::pair`
unfoldable pub pair : Command
pair = trigger pair_register pair_trigger

-- `WritableConfig::ALL`
unfoldable pub all_writable : List WritableConfig
all_writable =
    clock
    ∷ (restart
        ∷ (factory_reset
            ∷ (accessory_list
                ∷ (routed_modbus ∷ (remote_url ∷ (remote_port ∷ (server_address ∷ [])))))))

abbrev found_or : {A : Type 0} → Option A → EncodeError → Result EncodeError A
found_or none e = err e
found_or (some a) e = ok a

-- `Command::write_accessories`
abbrev pub write_accessories : List ℕ → Command
write_accessories value = write_config_of accessory_list value

-- `translate`
unfoldable pub translate : Asked.Command → Result EncodeError Command
unfolding set meter_command pair all_writable config_number new_serial start forget pairing_command
translate (Asked.set register value) = set register value
translate (Asked.read register) = ok (read_single register)
translate (Asked.read_config registers) = ok (read_config_of registers)
translate (Asked.write_config register value) =
    found_or (find (λ c. config_number c == register) all_writable) (not_writable_config register)
    >>= λ field. Encode.write_config field value
translate (Asked.push_time time) = time_push time
translate (Asked.meter_reading watts valid) = meter_command watts valid
translate Asked.pair_lora_accessory = ok pair
translate (Asked.discover_accessories service accessory) =
    ok (write_accessories (start (record { service = service; accessory = accessory })))
translate (Asked.forget_discovered_accessory entry) = ok (write_accessories (forget entry))
translate (Asked.pair_discovered_accessory serial access) = elim (new_serial serial) [
  | none ↦ err (accessory_serial serial)
  | some s ↦ ok (write_accessories (pairing_command (record { serial = s; access = access })))
]

-- The QoS of `prepare`
unfoldable pub qos_of : Command → QoS
qos_of (write_config_of c value) = at_least_once
qos_of (read_single r) = at_least_once
qos_of (write_single w value) = at_most_once
qos_of (write_range_of first values) = at_most_once
qos_of (trigger r value) = at_most_once
qos_of (read_config_of rs) = at_most_once

-- The checksum of a frame, and the text of a message type that only a log line shows, are parameters.
module _ (checksum : List ℕ → ℕ) (describes : MessageType → List ℕ) where
  unfoldable pub outgoing : Command → Frame → Outgoing
  unfolding qos_of is_acknowledged registers_to_verify to_wire
  outgoing command f = record {
    payload = to_wire checksum f;
    qos = qos_of command;
    acknowledged = is_acknowledged command;
    description = describes (message_type command);
    verify = registers_to_verify command;
  }

  -- `prepare`
  unfoldable pub prepare : List ℕ → Asked.Command → Result EncodeError Outgoing
  unfolding translate outgoing to_frame
  prepare device_id asked =
      translate asked >>= λ command. to_frame command device_id >>= λ f. ok (outgoing command f)
