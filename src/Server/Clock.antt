-- ===== src/Server/Clock.antt =====
-- `Skew` of src/server/clock.rs: how far the device's clock is from ours, and what may explain it. The
-- saturation of an `i64` is out of reach of a difference within one day.
use heliobridge.Base.{
  ◌∷◌, ℕ, ◌+◌, ◌-◌, ◌*◌, ◌/◌, ◌%◌, Bool, ◌||◌, Option, none, some, List, ◌++◌, ltb, ◌==◌,
  if◌then◌else◌,
}
use heliobridge.Base.Int.{ℤ, magnitude, is_negative}
use heliobridge.Base.Text.{codes}
use heliobridge.Base.Decimal.{padded}
use heliobridge.Model.{Timestamp, skew_from}

-- `Skew::SIGNIFICANT`, 60 s
abbrev pub significant : ℕ
significant = 60

abbrev quarter_hour : ℕ
quarter_hour = 900

abbrev tolerance : ℕ
tolerance = 120

-- `Skew::between` and `is_significant`
unfoldable pub between : Timestamp → Timestamp → Option ℤ
unfolding skew_from
between ours theirs = skew_from ours theirs

unfoldable pub is_significant : ℤ → Bool
is_significant skew = ltb significant (magnitude skew)

-- The quarter of an hour that is nearest.
unfoldable pub nearest_quarter : ℕ → ℕ
nearest_quarter seconds = (seconds + quarter_hour / 2) / quarter_hour * quarter_hour

abbrev distance : ℕ → ℕ → ℕ
distance a b = (a - b) + (b - a)

abbrev side : ℤ → List ℕ
side skew = if is_negative skew || magnitude skew == 0 then codes "behind" else codes "ahead of"

unfoldable pub hint_text : ℤ → ℕ → List ℕ
hint_text skew nearest =
    codes "this is within two minutes of "
    ++ (padded 2 (nearest / 3600)
        ++ (codes ":"
            ++ (padded 2 (nearest % 3600 / 60)
                ++ (codes ", so our clock is most likely "
                    ++ (side skew
                        ++ (codes " the device by a whole timezone offset "
                            ++ (0xe2 ∷ (0x80 ∷ (0x94 ∷ codes " check TZ")))))))))

-- `Skew::timezone_hint`
unfoldable pub timezone_hint : ℤ → Option (List ℕ)
unfolding hint_text nearest_quarter
timezone_hint skew =
    let nearest : ℕ = nearest_quarter (magnitude skew) in
    if ltb (magnitude skew) (quarter_hour - tolerance)
    then none
    else if nearest == 0 || ltb tolerance (distance (magnitude skew) nearest)
    then none
    else some (hint_text skew nearest)

abbrev or_drifted : Option (List ℕ) → List ℕ
or_drifted none = codes "the device's clock has probably drifted, which this push will correct"
or_drifted (some hint) = hint

-- `Skew::diagnosis`
unfoldable pub diagnosis : ℤ → List ℕ
unfolding timezone_hint
diagnosis skew = or_drifted (timezone_hint skew)
