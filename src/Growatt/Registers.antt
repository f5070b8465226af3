-- ===== src/Growatt/Registers.antt =====
-- src/growatt/v7/registers.rs: the holding registers, which are the settings, and what each accepts.
pub mod Config
pub mod Slots
use heliobridge.Base.{
  min, ℕ, zero, suc, ◌+◌, ◌-◌, ◌*◌, ◌/◌, ◌%◌, ◌^◌, Bool, ◌&&◌, ◌||◌, Option, none, some, List, [],
  ◌∷◌, ◌++◌, String, length, get_elem?, find, leb, ltb, ◌==◌, if◌then◌else◌,
}
use heliobridge.Base.Text.{codes}
use heliobridge.Base.Decimal.{decimal}
use heliobridge.Model.{Register, Measure, unitless, watt, percent, Confidence, verified, observed}

abbrev pub work_mode_labels : List String
work_mode_labels = "load_first" ∷ "battery_first" ∷ "smart_self_use" ∷ []

-- `OUTPUT_POWER_IGNORED_IN`: battery first and smart self-use
abbrev pub output_power_ignored_in : List ℕ
output_power_ignored_in = 1 ∷ 2 ∷ []

abbrev pub slot_base : ℕ
slot_base = 254

abbrev pub slot_stride : ℕ
slot_stride = 5

abbrev pub slot_count : ℕ
slot_count = 9

abbrev pub slot_repeat_base : ℕ
slot_repeat_base = 342

abbrev pub slot_repeat_stride : ℕ
slot_repeat_stride = 2

-- What values a holding register accepts.
pub data Domain : Type 0 where
  range : ℕ → ℕ → Domain
  flag : Domain
  time_of_day : Domain
  enumerated : List String → Domain
  weekdays : Domain

-- `Domain::accepts`
unfoldable pub accepts : Domain → ℕ → Bool
accepts (range lo hi) value = leb lo value && leb value hi
accepts flag value = leb value 1
accepts time_of_day value = ltb (value / 256) 24 && ltb (value % 256) 60
accepts (enumerated labels) value = ltb value (length labels)
accepts weekdays value = leb value 0x7f

-- `Domain::describe`
unfoldable pub describe : Domain → List ℕ
describe (range lo hi) = decimal lo ++ codes "..=" ++ decimal hi
describe flag = codes "0 or 1"
describe time_of_day = codes "HH<<8|MM with HH<24 and MM<60"
describe (enumerated labels) = codes "0..=" ++ decimal (length labels - 1)
describe weekdays =
    codes
      "a weekday mask, Monday in the lowest bit through Sunday in the seventh; an empty mask means every day"

pub record Supersession : Type 0 where
  pub setting : String
  pub ignored_when : List ℕ

pub record HoldingRegister : Type 0 where
  pub register : Register
  pub name : String
  pub domain : Domain
  pub unit : Measure
  pub confidence : Confidence
  pub superseded_by : Option Supersession

-- `HoldingRegister::range`, and the constructors of the other domains, which have no unit.
abbrev pub in_range : Register → String → ℕ → ℕ → Measure → Confidence → HoldingRegister
in_range r n lo hi u c = record {
  register = r;
  name = n;
  domain = range lo hi;
  unit = u;
  confidence = c;
  superseded_by = none;
}

abbrev pub plain : Domain → Register → String → Confidence → HoldingRegister
plain d r n c = record {
  register = r;
  name = n;
  domain = d;
  unit = unitless;
  confidence = c;
  superseded_by = none;
}

-- `HOLDING_REGISTERS`
abbrev pub holding_registers : List HoldingRegister
holding_registers =
    in_range 250 "charge_limit_upper" 70 100 percent verified
    ∷ in_range 251 "charge_limit_lower" 0 30 percent verified
    ∷ plain flag 303 "ac_couple_enabled" verified
    ∷ plain flag 304 "always_on" verified
    ∷ plain flag 305 "ac_output_always_on" verified
    ∷ in_range 322 "default_output_power" 0 1000 watt verified
    ∷ plain flag 323 "anti_backflow_enabled" verified
    ∷ in_range 324 "anti_backflow_power_percent" 0 100 percent verified
    ∷ plain flag 325 "power_plus" verified
    ∷ plain flag 326 "grid_power_allowed" verified
    ∷ plain flag 327 "off_grid_mode" verified
    ∷ []

-- `SLOT_REPEAT_NAMES`
abbrev pub slot_repeat_names : List String
slot_repeat_names =
    "slot1_repeat" ∷ "slot2_repeat" ∷ "slot3_repeat" ∷ "slot4_repeat" ∷ "slot5_repeat"
    ∷ "slot6_repeat" ∷ "slot7_repeat" ∷ "slot8_repeat" ∷ "slot9_repeat" ∷ []

abbrev names : String → String → String → String → String → List String
names a b c d e = a ∷ b ∷ c ∷ d ∷ e ∷ []

-- `SLOT_FIELD_NAMES`
abbrev pub slot_field_names : List (List String)
slot_field_names =
    names "slot1_start_time" "slot1_end_time" "slot1_work_mode" "slot1_output_power" "slot1_enabled"
    ∷ names "slot2_start_time" "slot2_end_time" "slot2_work_mode" "slot2_output_power"
        "slot2_enabled"
    ∷ names "slot3_start_time" "slot3_end_time" "slot3_work_mode" "slot3_output_power"
        "slot3_enabled"
    ∷ names "slot4_start_time" "slot4_end_time" "slot4_work_mode" "slot4_output_power"
        "slot4_enabled"
    ∷ names "slot5_start_time" "slot5_end_time" "slot5_work_mode" "slot5_output_power"
        "slot5_enabled"
    ∷ names "slot6_start_time" "slot6_end_time" "slot6_work_mode" "slot6_output_power"
        "slot6_enabled"
    ∷ names "slot7_start_time" "slot7_end_time" "slot7_work_mode" "slot7_output_power"
        "slot7_enabled"
    ∷ names "slot8_start_time" "slot8_end_time" "slot8_work_mode" "slot8_output_power"
        "slot8_enabled"
    ∷ names "slot9_start_time" "slot9_end_time" "slot9_work_mode" "slot9_output_power"
        "slot9_enabled"
    ∷ []

-- `HoldingRegister::slot_repeat`; slots are numbered from 1.
unfoldable pub slot_repeat : ℕ → Option HoldingRegister
slot_repeat zero = none
slot_repeat (suc k) = elim (get_elem? slot_repeat_names k) [
  | none ↦ none
  | some name ↦ some (plain weekdays (slot_repeat_base + k * slot_repeat_stride) name observed)
]

-- The five shapes of a slot's registers, by the offset in the slot.
unfoldable pub field_entry : Register → List String → ℕ → String → Option HoldingRegister
field_entry r ns zero name = some (plain time_of_day r name verified)
field_entry r ns (suc zero) name = some (plain time_of_day r name verified)
field_entry r ns (suc (suc zero)) name = some (plain (enumerated work_mode_labels) r name verified)
field_entry r ns (suc (suc (suc zero))) name = elim (get_elem? ns 2) [
  | none ↦ none
  | some mode ↦
      let entry : HoldingRegister = in_range r name 0 1000 watt verified in
      some (record entry {
        superseded_by = some (record { setting = mode; ignored_when = output_power_ignored_in });
      })
]
field_entry r ns _ name = some (plain flag r name verified)

-- The contiguous block of `slot_field`, from the offset above `SLOT_BASE`.
unfoldable pub block_field : Register → ℕ → Option HoldingRegister
block_field r offset =
    if leb slot_count (offset / slot_stride)
    then none
    else elim (get_elem? slot_field_names (offset / slot_stride)) [
      | none ↦ none
      | some ns ↦ elim (get_elem? ns (offset % slot_stride)) [
        | none ↦ none
        | some name ↦ field_entry r ns (offset % slot_stride) name
      ]
    ]

-- `HoldingRegister::slot_field`
unfoldable pub slot_field : Register → Option HoldingRegister
slot_field r =
    if leb slot_repeat_base r
    then if (r - slot_repeat_base) % slot_repeat_stride == 0
      then slot_repeat ((r - slot_repeat_base) / slot_repeat_stride + 1)
      else none
    else if leb slot_base r
    then block_field r (r - slot_base)
    else none

-- `HoldingRegister::lookup`
unfoldable pub lookup : Register → Option HoldingRegister
lookup r = elim (find (λ (entry : HoldingRegister). entry.register == r) holding_registers) [
  | some found ↦ some found
  | none ↦ slot_field r
]

-- The walk over a slot's contiguous registers, in `HoldingRegister::slot`.
unfoldable pub slot_fields : ℕ → Register → Option (List HoldingRegister)
slot_fields zero r = some []
slot_fields (suc n) r = elim (slot_field r) [
  | none ↦ none
  | some entry ↦ elim (slot_fields n (r + 1)) [ none ↦ none | some rest ↦ some (entry ∷ rest) ]
]

-- `HoldingRegister::slot`: the five contiguous registers and the repeat mask, which stands apart.
unfoldable pub slot : ℕ → Option (List HoldingRegister)
slot s =
    if s == 0 || ltb slot_count s
    then none
    else elim (slot_fields slot_stride (slot_base + (s - 1) * slot_stride)) [
      | none ↦ none
      | some fields ↦ elim (slot_repeat s) [
        | none ↦ none
        | some mask ↦ some (fields ++ (mask ∷ []))
      ]
    ]

unfoldable pub slots_from : ℕ → ℕ → List HoldingRegister
slots_from zero s = []
slots_from (suc n) s =
    let rest = slots_from n (s + 1) in
    elim (slot s) [ none ↦ rest | some entries ↦ entries ++ rest ]

-- `HoldingRegister::resync_set`
unfoldable pub resync_set : ℕ → List HoldingRegister
resync_set slots = holding_registers ++ slots_from (min slots slot_count) 1
