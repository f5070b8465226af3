-- ===== src/Growatt/MessageType.antt =====
-- `MessageType` of src/growatt/v7/frame.rs: the address and function octets read together.
use native.Mathlib.Decide.{ℕ_discrete}
use heliobridge.Base.{ℕ, ◌≡◌, refl, ◌⊎◌, ◌&&◌, arith, ◌==◌, if◌then◌else◌}
use heliobridge.Base.Octets.{IsByte, word}

pub data MessageType : Type 0 where
  telemetry settings_snapshot read_single_register write_single_register : MessageType
  write_register_range buffered_telemetry config_write config_read : MessageType
  identity_report accessory_telemetry : MessageType
  unrecognised : ℕ → ℕ → MessageType

-- `MessageType::from_parts`
unfoldable pub from_parts : ℕ → ℕ → MessageType
from_parts a f =
    if a == 0x01 && f == 0x03
    then settings_snapshot
    else if a == 0x01 && f == 0x04
    then telemetry
    else if a == 0x01 && f == 0x05
    then read_single_register
    else if a == 0x01 && f == 0x06
    then write_single_register
    else if a == 0x01 && f == 0x10
    then write_register_range
    else if a == 0x01 && f == 0x50
    then buffered_telemetry
    else if a == 0x6f && f == 0x64
    then accessory_telemetry
    else if f == 0x18
    then config_write
    else if a == 0x01 && f == 0x19
    then config_read
    else if a == 0xfe && f == 0x19
    then identity_report
    else unrecognised a f

-- `MessageType::address`
unfoldable pub address : MessageType → ℕ
address accessory_telemetry = 0x6f
address config_write = 0xfe
address identity_report = 0xfe
address (unrecognised a f) = a
address _ = 0x01

-- `MessageType::function`
unfoldable pub function : MessageType → ℕ
function settings_snapshot = 0x03
function telemetry = 0x04
function read_single_register = 0x05
function write_single_register = 0x06
function write_register_range = 0x10
function buffered_telemetry = 0x50
function config_write = 0x18
function accessory_telemetry = 0x64
function config_read = 0x19
function identity_report = 0x19
function (unrecognised a f) = f

-- `MessageType::as_u16`
unfoldable pub as_u16 : MessageType → ℕ
unfolding word address function
as_u16 m = word (address m) (function m)

-- The values that the octets' type allows, and that no other constructor stands for.
abbrev pub IsCanonical : MessageType → Type 0
IsCanonical (unrecognised a f) = IsByte a × IsByte f × (from_parts a f ≡ unrecognised a f)
IsCanonical _ = Unit

pub address-IsByte : (m : MessageType) → IsCanonical m → IsByte (address m) × IsByte (function m)
unfolding address function
address-IsByte (unrecognised a f) c = (c.0, c.1)
address-IsByte telemetry c = omega arith
address-IsByte _ c = omega arith

-- A canonical type is recovered from the octets that stand for it.
pub from_parts-address : (m : MessageType) → IsCanonical m → from_parts (address m) (function m) ≡ m
unfolding from_parts address function
from_parts-address (unrecognised a f) c = c.2
from_parts-address telemetry c = refl
from_parts-address _ c = refl

-- Reading octets gives them back, but for a config write: that is sent under one address and
-- accepted under any.
pub function-from_parts :
    (a f : ℕ)
    → IsByte a
    → IsByte f
    → (function (from_parts a f) ≡ f)
      × ((address (from_parts a f) ≡ a) ⊎ (from_parts a f ≡ config_write))
unfolding from_parts address function
function-from_parts a f ha hf = ground arith

-- `==` on message types
unfoldable pub MessageType-discrete : Discrete MessageType
MessageType-discrete = hlevel ℕ_discrete
