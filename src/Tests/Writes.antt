-- ===== src/Tests/Writes.antt =====
-- Settings writes of src/growatt/v7 on concrete registers.
use heliobridge.Base.{◌≡◌, ◌↔◌, true, [], ◌∷◌, ◌≤◌, ◌+◌, ◌*◌, arith}
use heliobridge.Base.Results.{ok}
use heliobridge.Growatt.Encode.{
  Command, write_range, write_range_of, SlotConfig, raw_values, set_slot,
}
use heliobridge.Growatt.Encode.Writes.{IsRun, values_of, write_range_iff}
use heliobridge.Growatt.Encode.Slot.{IsSchedule, IsConfig, set_slot_iff}

abbrev two : Command
two = write_range_of 254 (1536 ∷ (3072 ∷ []))

write_range_iff_example : (write_range ((254, 1536) ∷ ((255, 3072) ∷ [])) ≡ ok two) ↔ (
    IsRun 254 ((254, 1536) ∷ ((255, 3072) ∷ []))
    × (two ≡ write_range_of 254 (1536 ∷ values_of ((255, 3072) ∷ []))))
write_range_iff_example = write_range_iff 254 1536 ((255, 3072) ∷ []) two

-- From six to twelve, at half power.
abbrev schedule : SlotConfig
schedule = record {
  start_hour = 6;
  start_minute = 0;
  end_hour = 12;
  end_minute = 0;
  work_mode = 1;
  output_power = 400;
  enabled = true;
}

abbrev slot_write : Command
slot_write = write_range_of 259 (raw_values schedule)

schedule-IsConfig : IsConfig schedule
schedule-IsConfig = record { start_minute = omega arith; end_minute = omega arith }

set_slot_iff_example : (set_slot 2 schedule ≡ ok slot_write) ↔ (
    (1 ≤ 2)
    × (2 ≤ 9)
    × IsSchedule schedule
    × (slot_write ≡ write_range_of (249 + 2 * 5) (raw_values schedule)))
set_slot_iff_example = set_slot_iff 2 schedule slot_write schedule-IsConfig
