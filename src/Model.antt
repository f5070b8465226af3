-- ===== src/Model.antt =====
-- src/model.rs: registers, raw words and the device's clock reading. A `u16` newtype is its number.
pub mod Repeat
use heliobridge.Base.{
  ℕ, ◌+◌, ◌*◌, Bool, ◌&&◌, ◌||◌, not, Option, none, some, leb, ltb, ◌==◌, if◌then◌else◌,
}
use heliobridge.Base.Int.{ℤ, sub_ℕ}

-- `Register(pub u16)`, the number of a register.
abbrev pub Register : Type 0
Register = ℕ

-- `Raw(pub u16)`, a word as the device holds it.
abbrev pub Raw : Type 0
Raw = ℕ

-- The device's clock reading.
pub record Timestamp : Type 0 where
  pub year : ℕ
  pub month : ℕ
  pub day : ℕ
  pub hour : ℕ
  pub minute : ℕ
  pub second : ℕ

unfoldable pub is_plausible : Timestamp → Bool
is_plausible t =
    leb 1 t.month
    && leb t.month 12
    && leb 1 t.day
    && leb t.day 31
    && ltb t.hour 24
    && ltb t.minute 60
    && ltb t.second 60

unfoldable pub seconds_into_day : Timestamp → ℕ
seconds_into_day t = t.hour * 3600 + t.minute * 60 + t.second

abbrev pub same_date : Timestamp → Timestamp → Bool
same_date a b = a.year == b.year && a.month == b.month && a.day == b.day

-- Seconds by which the first clock is ahead of the second, on one day.
unfoldable pub skew_from : Timestamp → Timestamp → Option ℤ
unfolding is_plausible seconds_into_day
skew_from a b =
    if not (is_plausible a) || not (is_plausible b)
    then none
    else if not (same_date a b)
    then none
    else some (sub_ℕ (seconds_into_day a) (seconds_into_day b))

-- `Confidence`, how well a register's meaning is established, and `Unit`.
pub data Confidence : Type 0 where
  inferred vendor observed verified : Confidence

pub data Measure : Type 0 where
  unitless watt percent celsius volt ampere kilowatt_hour second : Measure
