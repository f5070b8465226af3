-- ===== src/Growatt/Product.antt =====
-- src/growatt/product.rs and src/growatt/v7/version.rs: what a device says it is.
use heliobridge.Base.{
  ℕ, ◌/◌, ◌%◌, Bool, true, false, Option, none, some, List, [], ◌∷◌, ◌++◌, String, ◌==◌,
  if◌then◌else◌,
}
use heliobridge.Base.Text.{codes, is_ascii_digit}
use heliobridge.Base.Text.Parsing.{trim, parse_unsigned}
use heliobridge.Base.Decimal.{decimal, padded}
use heliobridge.Model.{Raw}

pub data Product : Type 0 where
  noah2000 nexa2000 aura5000 veta2200 unrecognised : Product

-- `Product::from_type_code`, `name`, `reported` and `telemetry_map_matches`
unfoldable pub from_type_code : ℕ → Product
from_type_code code =
    if code == 61
    then noah2000
    else if code == 72
    then nexa2000
    else if code == 73
    then aura5000
    else if code == 83
    then veta2200
    else unrecognised

unfoldable pub name : Product → Option String
name noah2000 = some "NOAH 2000"
name nexa2000 = some "NEXA 2000"
name aura5000 = some "AURA/NODE 5000"
name veta2200 = some "VETA 2200"
name unrecognised = none

abbrev of_code : Option ℕ → Product
of_code none = unrecognised
of_code (some code) = from_type_code code

unfoldable pub reported : Option (List ℕ) → Product
unfolding from_type_code
reported none = unrecognised
reported (some value) = of_code (parse_unsigned 65535 (trim value))

unfoldable pub telemetry_map_matches : Product → Bool
telemetry_map_matches nexa2000 = true
telemetry_map_matches _ = false

-- `CT_VERSION`
abbrev pub ct_version : ℕ
ct_version = 9000

pub record FirmwareVersion : Type 0 where
  pub inverter : ℕ
  pub mppt : ℕ
  pub pd : ℕ
  pub bms : ℕ
  pub ct : ℕ
  pub datalogger : List ℕ

unfoldable pub digits_of : List ℕ → List ℕ
digits_of [] = []
digits_of (a ∷ rest) = let kept = digits_of rest in if is_ascii_digit a then a ∷ kept else kept

abbrev version_of : Raw → Raw → List ℕ → Option FirmwareVersion
version_of inverter_mppt pd_bms [] = none
version_of inverter_mppt pd_bms (d ∷ digits) = some (record {
  inverter = inverter_mppt / 256;
  mppt = inverter_mppt % 256;
  pd = pd_bms / 256;
  bms = pd_bms % 256;
  ct = ct_version;
  datalogger = d ∷ digits;
})

-- `FirmwareVersion::assemble`
unfoldable pub assemble : Raw → Raw → List ℕ → Option FirmwareVersion
unfolding digits_of
assemble inverter_mppt pd_bms datalogger = version_of inverter_mppt pd_bms (digits_of datalogger)

abbrev dotted : List ℕ → List ℕ → List ℕ
dotted a b = a ++ (codes "." ++ b)

-- `FirmwareVersion` as it is displayed.
unfoldable pub display : FirmwareVersion → List ℕ
display v = dotted (padded 2 v.inverter) (
    dotted (padded 2 v.mppt)
      (dotted (padded 2 v.pd) (dotted (padded 2 v.bms) (dotted (decimal v.ct) v.datalogger))))
