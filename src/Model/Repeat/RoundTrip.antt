-- ===== src/Model/Repeat/RoundTrip.antt =====
-- The text of a slot's weekdays in src/model.rs, there and back.
use heliobridge.Base.Text.Parsing.{trim, split}
use heliobridge.Base.{
  ◌≡◌, refl, ℕ, ◌<◌, Bool, true, false, Option, none, some, all_below, all_below_sound, ◌==◌,
  ==_iff, ap,
}
use heliobridge.Model.Repeat.{Repeat, parse, display}

abbrev is_repeat : Option Repeat → ℕ → Bool
is_repeat none r = false
is_repeat (some q) r = q == r

is_repeat_sound : (o : Option Repeat) (r : ℕ) → is_repeat o r ≡ true → o ≡ some r
is_repeat_sound none r h = absurd cc
is_repeat_sound (some q) r h = ap some ((==_iff q r).0 h)

abbrev comes_back : ℕ → Bool
comes_back r = is_repeat (parse (display r)) r

table : all_below 128 comes_back ≡ true
unfolding all_below parse display trim split
table = refl

-- a mask of weekdays is read back from its text
pub parse-display : (r : ℕ) → r < 128 → parse (display r) ≡ some r
parse-display r h = is_repeat_sound _ r (all_below_sound 128 comes_back r table h)
