-- ===== src/HomeAssistant/Views.antt =====
-- The views of a session that src/control.rs hands out, as far as a broker is told of them, and
-- src/homeassistant/rest.rs, which watches one for a battery at rest.
use heliobridge.Base.{
  ℕ, ◌-◌, Bool, true, false, ◌&&◌, Option, none, some, List, find, leb, if◌then◌else◌,
}
use heliobridge.Base.Text.{codes}
use heliobridge.Base.Text.Parsing.{same_text, parse_unsigned}

pub record ReadingView : Type 0 where
  pub name : List ℕ
  pub raw : ℕ
  pub value : List ℕ

abbrev pub TelemetryView : Type 0
TelemetryView = List ReadingView

pub record SettingView : Type 0 where
  pub name : List ℕ
  pub raw : ℕ
  pub value : List ℕ

pub record ConfigView : Type 0 where
  pub name : Option (List ℕ)
  pub value : List ℕ

-- the entries of an `IdentityView`
abbrev pub IdentityView : Type 0
IdentityView = List ConfigView

abbrev is_reading : List ℕ → ReadingView → Bool
is_reading name r = same_text r.name name

-- The raw word of a reading, and the number that its text shows (`reading` of publisher.rs).
abbrev raw_of : Option ReadingView → Option ℕ
raw_of none = none
raw_of (some r) = some r.raw

unfoldable pub raw_reading : TelemetryView → List ℕ → Option ℕ
unfolding same_text
raw_reading view name = raw_of (find (is_reading name) view)

abbrev shown_of : Option ReadingView → Option ℕ
shown_of none = none
shown_of (some r) = parse_unsigned 65535 r.value

unfoldable pub reading : TelemetryView → List ℕ → Option ℕ
unfolding same_text parse_unsigned
reading view name = shown_of (find (is_reading name) view)

-- `SETTLE` in milliseconds, the knees in millivolts and the claims in percent
abbrev pub settle : ℕ
settle = 300000

abbrev pub low_knee : ℕ
low_knee = 3200

abbrev pub high_plateau : ℕ
high_plateau = 3250

abbrev pub claims_empty : ℕ
claims_empty = 10

abbrev pub claims_full : ℕ
claims_full = 50

pub record Resting : Type 0 where
  pub millivolts : ℕ
  pub credible : Option Bool

pub record RestWatch : Type 0 where
  pub since : Option ℕ
  pub sample : Option Resting

unfoldable pub credible : ℕ → ℕ → Option Bool
credible millivolts soc =
    if leb soc claims_empty
    then some (leb millivolts low_knee)
    else if leb claims_full soc && leb millivolts low_knee
    then some false
    else if leb high_plateau millivolts
    then some true
    else none

abbrev or_now : Option ℕ → ℕ → ℕ
or_now none now = now
or_now (some at) now = at

unfoldable pub sampled : Bool → Option ℕ → Option ℕ → Option Resting → Option Resting
unfolding credible
sampled true (some low) (some soc) before =
    some (record { millivolts = low; credible = credible low soc })
sampled _ _ _ before = before

-- What an idle pack does to the watch.
unfoldable pub rested : ℕ → TelemetryView → RestWatch → RestWatch
unfolding raw_reading sampled
rested now view w =
    let since : ℕ = or_now w.since now in
    record {
      since = some since;
      sample =
          sampled (leb settle (now - since)) (raw_reading view (codes "battery_cell_voltage_min"))
            (raw_reading view (codes "battery_soc_total")) w.sample;
    }

-- `RestWatch::observe`; whether the text of a power is a float of at most 5 watts, either way, is
-- the parameter. Times are milliseconds.
abbrev idle_text : (List ℕ → Bool) → Option ReadingView → Bool
idle_text is_idle none = false
idle_text is_idle (some r) = is_idle r.value

unfoldable pub observe : (List ℕ → Bool) → ℕ → TelemetryView → RestWatch → RestWatch
unfolding rested same_text
observe is_idle now view w =
    if idle_text is_idle (find (is_reading (codes "battery_charge_power")) view)
    then rested now view w
    else record w { since = none }
