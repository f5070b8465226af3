-- ===== src/Base/Text/Parsing.antt =====
-- Rust's `str` methods on octets that are valid UTF-8: trimming, splitting, and reading numbers.
use heliobridge.Base.Tests.{ltb, leb, ◌==◌, if◌then◌else◌}
use heliobridge.Base.Text.{in_range, is_ascii_digit}
use Prim.Native.Nat.{ℕ, zero, suc, ◌+◌, ◌-◌, ◌*◌}
use mathlib.Core.Path.{◌≡◌, refl}
use mathlib.Core.Bool.{Bool, true, false, ◌&&◌, ◌||◌}
use mathlib.Core.Option.{Option, none, some}
use mathlib.Core.List.{List, [], ◌∷◌}

-- `==` of two strings
unfoldable pub same_text : List ℕ → List ℕ → Bool
same_text [] [] = true
same_text (a ∷ xs) (b ∷ ys) = if a == b then same_text xs ys else false
same_text _ _ = false

-- The characters of White_Space: those of one octet, and the rest by their octets.
abbrev is_space1 : ℕ → Bool
is_space1 a = in_range 0x09 0x0d a || a == 0x20

abbrev is_space2 : ℕ → ℕ → Bool
is_space2 a b = a == 0xc2 && (b == 0x85 || b == 0xa0)

abbrev is_space3 : ℕ → ℕ → ℕ → Bool
is_space3 a b c =
    (a == 0xe1 && b == 0x9a && c == 0x80)
    || (a == 0xe2
        && ((b == 0x80 && (in_range 0x80 0x8a c || c == 0xa8 || c == 0xa9 || c == 0xaf))
            || (b == 0x81 && c == 0x9f)))
    || (a == 0xe3 && b == 0x80 && c == 0x80)

-- How many octets the white space at the front of a text has, given what octets also count as it.
unfoldable pub space_width : (ℕ → Bool) → List ℕ → ℕ
space_width also [] = 0
space_width also (a ∷ []) = if is_space1 a || also a then 1 else 0
space_width also (a ∷ (b ∷ [])) =
    if is_space1 a || also a then 1 else if is_space2 a b then 2 else 0
space_width also (a ∷ (b ∷ (c ∷ rest))) =
    if is_space1 a || also a
    then 1
    else if is_space2 a b
    then 2
    else if is_space3 a b c
    then 3
    else 0

-- The same at the end of a text, which is given from its end.
unfoldable pub space_width_back : (ℕ → Bool) → List ℕ → ℕ
space_width_back also [] = 0
space_width_back also (a ∷ []) = if is_space1 a || also a then 1 else 0
space_width_back also (a ∷ (b ∷ [])) =
    if is_space1 a || also a then 1 else if is_space2 b a then 2 else 0
space_width_back also (a ∷ (b ∷ (c ∷ rest))) =
    if is_space1 a || also a
    then 1
    else if is_space2 b a
    then 2
    else if is_space3 c b a
    then 3
    else 0

-- Dropping white space as long as there is some: `skip` octets of the last are still to go.
unfoldable pub drop_spaces : (List ℕ → ℕ) → ℕ → List ℕ → List ℕ
drop_spaces width skip [] = []
drop_spaces width (suc skip) (a ∷ rest) = drop_spaces width skip rest
drop_spaces width zero (a ∷ rest) = elim (width (a ∷ rest)) [
  | zero ↦ a ∷ rest
  | suc more ↦ drop_spaces width more rest
]

unfoldable pub reverse_onto : List ℕ → List ℕ → List ℕ
reverse_onto [] acc = acc
reverse_onto (a ∷ rest) acc = reverse_onto rest (a ∷ acc)

unfoldable pub trim_with : (ℕ → Bool) → List ℕ → List ℕ
unfolding space_width space_width_back drop_spaces reverse_onto
trim_with also text =
    let front : List ℕ = drop_spaces (space_width also) 0 text in
    reverse_onto (drop_spaces (space_width_back also) 0 (reverse_onto front [])) []

-- `str::trim`
unfoldable pub trim : List ℕ → List ℕ
unfolding trim_with
trim text = trim_with (λ a. false) text

-- `trim_matches(|character| character == '\0' || character.is_whitespace())`
unfoldable pub trim_nul : List ℕ → List ℕ
unfolding trim_with
trim_nul text = trim_with (λ a. a == 0) text

-- Putting a character in front of the first part.
unfoldable pub cons_to_first : ℕ → List (List ℕ) → List (List ℕ)
cons_to_first a [] = (a ∷ []) ∷ []
cons_to_first a (part ∷ parts) = (a ∷ part) ∷ parts

-- `str::split` at an ASCII character: there is always a part.
unfoldable pub split : ℕ → List ℕ → List (List ℕ)
unfolding cons_to_first
split at [] = [] ∷ []
split at (a ∷ rest) = if a == at then [] ∷ split at rest else cons_to_first a (split at rest)

-- `str::splitn`: the last of `n` parts is all that is left.
unfoldable pub splitn : ℕ → ℕ → List ℕ → List (List ℕ)
unfolding cons_to_first
splitn zero at text = []
splitn (suc zero) at text = text ∷ []
splitn (suc (suc n)) at [] = [] ∷ []
splitn (suc (suc n)) at (a ∷ rest) =
    if a == at then [] ∷ splitn (suc n) at rest else cons_to_first a (splitn (suc (suc n)) at rest)

-- `str::strip_prefix`
unfoldable pub strip_prefix : List ℕ → List ℕ → Option (List ℕ)
strip_prefix [] text = some text
strip_prefix (p ∷ ps) [] = none
strip_prefix (p ∷ ps) (a ∷ rest) = if p == a then strip_prefix ps rest else none

-- `str::to_ascii_lowercase`
unfoldable pub to_ascii_lowercase : List ℕ → List ℕ
to_ascii_lowercase [] = []
to_ascii_lowercase (a ∷ rest) =
    (if in_range 0x41 0x5a a then a + 32 else a) ∷ to_ascii_lowercase rest

-- The value of a digit in a base of at most sixteen.
unfoldable pub digit : ℕ → Option ℕ
digit a =
    if is_ascii_digit a
    then some (a - 48)
    else if in_range 0x41 0x46 a
    then some (a - 55)
    else if in_range 0x61 0x66 a
    then some (a - 87)
    else none

unfoldable pub digits_from : ℕ → ℕ → ℕ → List ℕ → Option ℕ
unfolding digit
digits_from base limit value [] = some value
digits_from base limit value (a ∷ rest) = elim (digit a) [
  | none ↦ none
  | some d ↦
      let next : ℕ = value * base + d in
      if ltb d base && leb next limit then digits_from base limit next rest else none
]

-- `from_str_radix`, and `parse`, of an unsigned integer with a greatest value.
unfoldable pub parse_radix : ℕ → ℕ → List ℕ → Option ℕ
unfolding digits_from
parse_radix base limit [] = none
parse_radix base limit (a ∷ []) = if a == 0x2b then none else digits_from base limit 0 (a ∷ [])
parse_radix base limit (a ∷ (b ∷ rest)) =
    if a == 0x2b
    then digits_from base limit 0 (b ∷ rest)
    else digits_from base limit 0 (a ∷ (b ∷ rest))

unfoldable pub parse_unsigned : ℕ → List ℕ → Option ℕ
unfolding parse_radix
parse_unsigned limit text = parse_radix 10 limit text

trims :
    trim (0x20 ∷ (0x61 ∷ (0x20 ∷ (0x62 ∷ (0xe2 ∷ (0x80 ∷ (0x8a ∷ [])))))))
    ≡ 0x61 ∷ (0x20 ∷ (0x62 ∷ []))
unfolding trim
trims = refl

splits : split 0x2c (0x61 ∷ (0x2c ∷ (0x2c ∷ (0x62 ∷ [])))) ≡ (0x61 ∷ []) ∷ ([] ∷ ((0x62 ∷ []) ∷ []))
unfolding split
splits = refl
