-- ===== src/Model/Repeat.antt =====
-- The weekdays of src/model.rs: on which days a schedule slot repeats.
pub mod RoundTrip
use heliobridge.Base.{
  ℕ, Bool, true, false, not, ◌||◌, Option, none, some, List, [], ◌∷◌, ◌++◌, find, ◌==◌,
  if◌then◌else◌, String,
}
use heliobridge.Base.Text.{codes}
use heliobridge.Base.Text.Parsing.{trim, split, same_text, to_ascii_lowercase}
use Prim.Native.Nat.{bit_and, bit_or}

pub data Weekday : Type 0 where
  monday tuesday wednesday thursday friday saturday sunday : Weekday

-- `Weekday::ALL`, `bit` and `name`
unfoldable pub all_days : List Weekday
all_days = monday ∷ (tuesday ∷ (wednesday ∷ (thursday ∷ (friday ∷ (saturday ∷ (sunday ∷ []))))))

unfoldable pub bit : Weekday → ℕ
bit monday = 0x01
bit tuesday = 0x02
bit wednesday = 0x04
bit thursday = 0x08
bit friday = 0x10
bit saturday = 0x20
bit sunday = 0x40

unfoldable pub name : Weekday → String
name monday = "mon"
name tuesday = "tue"
name wednesday = "wed"
name thursday = "thu"
name friday = "fri"
name saturday = "sat"
name sunday = "sun"

-- `str::eq_ignore_ascii_case`
unfoldable pub same_letters : List ℕ → List ℕ → Bool
unfolding same_text to_ascii_lowercase
same_letters a b = same_text (to_ascii_lowercase a) (to_ascii_lowercase b)

-- `Weekday::from_name`
unfoldable pub from_name : List ℕ → Option Weekday
unfolding same_letters all_days name
from_name text = find (λ day. same_letters (codes (name day)) text) all_days

-- `Repeat(u8)`; `Repeat::DAILY` is 0.
abbrev pub Repeat : Type 0
Repeat = ℕ

unfoldable pub from_mask : ℕ → Repeat
from_mask mask = bit_and mask 0x7f

unfoldable pub contains : Repeat → Weekday → Bool
unfolding bit
contains r day = r == 0 || not (bit_and r (bit day) == 0)

unfoldable pub days_in : Repeat → List Weekday → List Weekday
unfolding bit
days_in r [] = []
days_in r (day ∷ rest) =
    let kept = days_in r rest in if bit_and r (bit day) == 0 then kept else day ∷ kept

-- `Repeat::days`
unfoldable pub days : Repeat → List Weekday
unfolding days_in all_days
days r = days_in r all_days

unfoldable pub add_day : Option Weekday → ℕ → Option ℕ
unfolding bit
add_day none mask = none
add_day (some day) mask = some (bit_or mask (bit day))

-- The loop of `Repeat::parse`.
unfoldable pub mask_of : List (List ℕ) → ℕ → Option Repeat
unfolding add_day from_name
mask_of [] mask = some mask
mask_of (part ∷ parts) mask = elim (add_day (from_name (trim part)) mask) [
  | none ↦ none
  | some more ↦ mask_of parts more
]

abbrev is_empty_text : List ℕ → Bool
is_empty_text [] = true
is_empty_text (a ∷ rest) = false

-- `Repeat::parse`
unfoldable pub parse : List ℕ → Option Repeat
unfolding mask_of
parse untrimmed =
    let text : List ℕ = trim untrimmed in
    if is_empty_text text || same_letters text (codes "daily")
    then some 0
    else mask_of (split 0x2c text) 0

unfoldable pub names : List Weekday → List ℕ
unfolding name
names [] = []
names (day ∷ []) = codes (name day)
names (day ∷ (next ∷ more)) = codes (name day) ++ (0x2c ∷ names (next ∷ more))

-- `Repeat` as it is displayed.
unfoldable pub display : Repeat → List ℕ
unfolding names days
display r = if r == 0 then codes "daily" else names (days r)
