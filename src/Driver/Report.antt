-- ===== src/Driver/Report.antt =====
-- src/driver/report.rs: what a frame can say to a session. The calls that a driver makes of its
-- sink are the constructors of `Said`, in the order of the calls. The figures of telemetry and of
-- accessories are floating point and are left out.
use heliobridge.Base.{ℕ, Bool, Option, List}
use heliobridge.Model.{Register, Raw, Timestamp}

-- `Telemetry`, without its readings.
pub record Telemetry : Type 0 where
  pub at : Option Timestamp
  pub buffered : Bool

pub record Field : Type 0 where
  pub register : Register
  pub name : Option (List ℕ)
  pub role : Option (List ℕ)
  pub value : List ℕ

pub record Identity : Type 0 where
  pub declared : ℕ
  pub truncated : Bool
  pub stopped_at : Option Register
  pub endpoint : Option (List ℕ)
  pub summary : List ℕ
  pub fields : List Field

pub record Snapshot : Type 0 where
  pub first : Register
  pub last : Register
  pub values : List (Register × Raw)

pub record WriteAck : Type 0 where
  pub first : Register
  pub last : Register
  pub accepted : Bool
  pub value : Option Raw
  pub status : List ℕ

-- `AccessoryReading`, without its figures.
pub record AccessoryReading : Type 0 where
  pub manufacturer : List ℕ
  pub model : List ℕ
  pub serial : List ℕ
  pub access : ℕ
  pub communicating : Bool
  pub faulted : Bool

-- `Sink`: one constructor for each method.
pub data Said : Type 0 where
  telemetry : Telemetry → Said
  identity : Identity → Said
  read_answer : Register → Raw → Said
  write_ack : WriteAck → Said
  snapshot : Snapshot → Said
  accessory_reading : AccessoryReading → Said
  undecoded : List ℕ → ℕ → Said
  unknown : List ℕ → ℕ → Said
  unreadable : List ℕ → List ℕ → Said
