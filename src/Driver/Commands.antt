-- ===== src/Driver/Commands.antt =====
-- src/driver/commands.rs: what the server asks of a device, and what a driver makes of it.
use heliobridge.Base.{ℕ, Bool, Option, List}
use heliobridge.Base.Int.{ℤ}
use heliobridge.Model.{Register, Raw, Timestamp}
use heliobridge.Mqtt.{QoS}

pub data Command : Type 0 where
  set : Register → ℕ → Command
  read : Register → Command
  read_config : List Register → Command
  write_config : Register → List ℕ → Command
  push_time : Timestamp → Command
  -- watts, valid
  meter_reading : ℤ → Bool → Command
  pair_lora_accessory : Command
  -- service, accessory
  discover_accessories : List ℕ → ℕ → Command
  -- serial, access
  pair_discovered_accessory : ℕ → ℕ → Command
  forget_discovered_accessory : ℕ → Command

pub record Outgoing : Type 0 where
  pub payload : List ℕ
  pub qos : QoS
  pub acknowledged : Bool
  pub description : List ℕ
  pub verify : List (Register × Option Raw)
