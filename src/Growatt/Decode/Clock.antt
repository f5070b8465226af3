-- ===== src/Growatt/Decode/Clock.antt =====
-- The clock that src/growatt/v7/encode.rs pushes to the device, as src/growatt/v7/decode.rs reads it.
use heliobridge.Base.{◌≡◌, ℕ, ◌≤◌, ◌<◌, true, ◌∷◌, length, length-append, arith}
use heliobridge.Base.Decimal.{padded, length-padded_two, length-padded_four}
use heliobridge.Model.{Timestamp, is_plausible}
use heliobridge.Growatt.Frame.{Frame}
use heliobridge.Growatt.Encode.{format_time}

-- A character of a clock text: a digit, or one of the separators.
abbrev IsClock : ℕ → Type 0
IsClock b = (32 ≤ b) × (b ≤ 58)

-- The text of a plausible time before the year 10000 has nineteen characters.
pub length-format_time :
    (t : Timestamp) → is_plausible t ≡ true → t.year < 10000 → length (format_time t) ≡ 19
unfolding format_time is_plausible
length-format_time t h y =
    let month : t.month < 100 = ground arith in
    let day : t.day < 100 = ground arith in
    let hour : t.hour < 100 = ground arith in
    let minute : t.minute < 100 = ground arith in
    let second : t.second < 100 = ground arith in
    omega (
      arith,
      length-padded_four t.year y,
      length-padded_two t.month month,
      length-padded_two t.day day,
      length-padded_two t.hour hour,
      length-padded_two t.minute minute,
      length-padded_two t.second second,
      length-append (padded 4 t.year) _,
      length-append (padded 2 t.month) _,
      length-append (padded 2 t.day) _,
      length-append (padded 2 t.hour) _,
      length-append (padded 2 t.minute) (58 ∷ padded 2 t.second),
    )
