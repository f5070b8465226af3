-- ===== src/Driver/Seam.antt =====
-- src/driver.rs and the traits of src/driver: what a session asks of a manufacturer's driver. A
-- driver is the record of its operations, and text is the list of its octets.
use heliobridge.Base.{ℕ, Bool, Option, List}
use heliobridge.Base.Results.{Result}
use heliobridge.Model.{Register, Raw}
use heliobridge.Mqtt.{QoS}
use heliobridge.Driver.Arbiter.{Direction, Intent}
use heliobridge.Driver.Commands.{Command, Outgoing}
use heliobridge.Driver.Report.{Said}

-- `Unreadable` of src/driver.rs
pub data Unreadable : Type 0 where
  too_short : Unreadable
  unsupported : List ℕ → Unreadable
  malformed : List ℕ → Unreadable

-- `Message` of src/driver/upstream.rs
pub record CloudMessage : Type 0 where
  pub topic : List ℕ
  pub qos : QoS
  pub payload : List ℕ

-- A setting and a config field as src/driver/catalogue.rs lets a session see them: `decode` is the
-- text of the decoded value.
pub record Setting : Type 0 where
  pub register : Register
  pub name : List ℕ
  pub decode : Raw → List ℕ

pub record ConfigField : Type 0 where
  pub register : Register
  pub name : List ℕ

-- `Driver`: of `prepare` and `relay` a failure is its text, and of a relay only whether it takes a
-- message. `offers_update` is what the firmware store makes of a cloud message's octets.
pub record Driver : Type 1 where
  pub Frame : Type 0
  pub read : List ℕ → Result Unreadable Frame
  pub intent : Frame → Direction → Intent
  pub report : Frame → List Said
  pub prepare : List ℕ → Command → Result (List ℕ) Outgoing
  pub settings : ℕ → List Setting
  pub setting : Register → Option Setting
  pub describe : Register → Setting
  pub config : Register → Option ConfigField
  pub starts_relay : List ℕ → Bool
  pub try_forward : CloudMessage → Bool
  pub product_name : Option (List ℕ) → Option (List ℕ)
  pub offers_update : List ℕ → Bool → Bool
