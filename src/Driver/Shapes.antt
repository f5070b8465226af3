-- ===== src/Driver/Shapes.antt =====
-- `Shape` of src/driver/catalogue.rs: the texts that a setting accepts.
use heliobridge.Base.Decimal.{decimal}
use heliobridge.Base.{ℕ, suc, ◌+◌, ◌*◌, Option, none, some, List, [], ◌∷◌, ◌++◌, leb, if◌then◌else◌}
use heliobridge.Base.Text.{codes}
use heliobridge.Base.Text.Parsing.{trim, same_text, parse_unsigned, splitn}
use heliobridge.Model.Repeat

pub data Shape : Type 0 where
  switch : Shape
  -- least and greatest value
  number : ℕ → ℕ → Shape
  choice : List (List ℕ) → Shape
  time_of_day weekdays text : Shape

-- `iter().position(..)` of a label
unfoldable pub position : List ℕ → List (List ℕ) → Option ℕ
position wanted [] = none
position wanted (known ∷ more) =
    if same_text known wanted
    then some 0
    else elim (position wanted more) [ none ↦ none | some n ↦ some (suc n) ]

abbrev in_u16 : ℕ → Option ℕ
in_u16 n = if leb n 65535 then some n else none

abbrev checked : Option ℕ → Option ℕ
checked none = none
checked (some n) = in_u16 n

-- `hour.checked_mul(256)?.checked_add(minute)`
unfoldable pub clock_word : Option ℕ → Option ℕ → Option ℕ
clock_word none minute = none
clock_word (some hour) none = none
clock_word (some hour) (some minute) = in_u16 (hour * 256 + minute)

-- Both halves of `split_once(':')`, if there are two.
unfoldable pub time_in : List (List ℕ) → Option ℕ
unfolding clock_word
time_in (hours ∷ (minutes ∷ [])) =
    clock_word (parse_unsigned 65535 hours) (parse_unsigned 65535 minutes)
time_in _ = none

-- `Shape::parse`
unfoldable pub parse : Shape → List ℕ → Option ℕ
unfolding position time_in
parse switch given = none
parse (number least greatest) given = none
parse text given = parse_unsigned 65535 (trim given)
parse (choice labels) given = checked (position (trim given) labels)
parse time_of_day given = time_in (splitn 2 0x3a (trim given))
parse weekdays given = Repeat.parse given

unfoldable pub join : List ℕ → List (List ℕ) → List ℕ
join by [] = []
join by (one ∷ []) = one
join by (one ∷ (two ∷ more)) = one ++ (by ++ join by (two ∷ more))

-- `Shape::accepts`
unfoldable pub accepts : Shape → List ℕ
unfolding join
accepts switch = codes "0 or 1"
accepts (number least greatest) =
    codes "a whole number " ++ (decimal least ++ (codes "..=" ++ decimal greatest))
accepts (choice labels) = codes "one of " ++ join (codes ", ") labels
accepts time_of_day = codes "a time as \"HH:MM\""
accepts weekdays = codes "days as \"mon,tue\", or \"daily\" for every day"
accepts text = codes "text"
