-- ===== src/Base/Text.antt =====
-- Rust's `str`: octets that are valid UTF-8, and the tests on characters that the source uses.
pub mod Lossy
pub mod Parsing
use Prim.Native.Char.{code}
use Prim.Native.Nat.{ℕ, zero, suc, ◌<◌}
use Prim.Native.String.{String}
use mathlib.Core.Path.{◌≡◌, refl}
use mathlib.Core.Bool.{Bool, true, false, ◌&&◌}
use mathlib.Core.Option.{Option, none, some}
use mathlib.Core.List.{List, [], ◌∷◌}
use native.Mathlib.Omega.{arith}
use heliobridge.Base.Tests.{ltb, leb, ◌==◌, if◌then◌else◌}
use heliobridge.Base.Lists.{All}

-- The octets of a literal; every literal of the source that is modelled so is ASCII.
abbrev pub codes : String → List ℕ
codes String.[] = []
codes (String.◌∷◌ c s) = code c ∷ codes s

abbrev pub in_range : ℕ → ℕ → ℕ → Bool
in_range lo hi b = leb lo b && leb b hi

-- `u8::is_ascii_graphic`, `u8::is_ascii_digit`
abbrev pub is_ascii_graphic : ℕ → Bool
is_ascii_graphic b = in_range 0x21 0x7e b

abbrev pub is_ascii_digit : ℕ → Bool
is_ascii_digit b = in_range 0x30 0x39 b

-- What may follow a leading octet: how many continuation octets, and the range of the first one.
pub record Pending : Type 0 where
  pub count : ℕ
  pub low : ℕ
  pub high : ℕ

abbrev pub pending : ℕ → ℕ → ℕ → Option Pending
pending n lo hi = some (record { count = n; low = lo; high = hi })

lead : ℕ → Option Pending
lead b =
    if ltb b 0x80
    then pending 0 0x80 0xbf
    else if in_range 0xc2 0xdf b
    then pending 1 0x80 0xbf
    else if b == 0xe0
    then pending 2 0xa0 0xbf
    else if b == 0xed
    then pending 2 0x80 0x9f
    else if in_range 0xe1 0xef b
    then pending 2 0x80 0xbf
    else if b == 0xf0
    then pending 3 0x90 0xbf
    else if in_range 0xf1 0xf3 b
    then pending 3 0x80 0xbf
    else if b == 0xf4
    then pending 3 0x80 0x8f
    else none

-- What follows a leading octet, given how the rest is scanned.
utf8_start : Option Pending → (ℕ → ℕ → ℕ → Bool) → Bool
utf8_start none scan = false
utf8_start (some p) scan = scan p.count p.low p.high

utf8_from : ℕ → ℕ → ℕ → List ℕ → Bool
unfolding utf8_start
utf8_from zero lo hi [] = true
utf8_from (suc n) lo hi [] = false
utf8_from zero lo hi (b ∷ bs) = utf8_start (lead b) (λ n l h. utf8_from n l h bs)
utf8_from (suc n) lo hi (b ∷ bs) = in_range lo hi b && utf8_from n 0x80 0xbf bs

-- `core::str::from_utf8(raw).is_ok()`
unfoldable pub is_utf8 : List ℕ → Bool
unfolding lead utf8_from
is_utf8 = utf8_from 0 0x80 0xbf

utf8_from-ascii : (s : List ℕ) → All (λ b. b < 128) s → utf8_from 0 0x80 0xbf s ≡ true
unfolding utf8_from lead
utf8_from-ascii [] h = refl
utf8_from-ascii (b ∷ bs) h = ground (arith, utf8_from-ascii bs h.1)

-- ASCII text is valid UTF-8.
pub is_utf8-ascii : (s : List ℕ) → All (λ b. b < 128) s → is_utf8 s ≡ true
unfolding is_utf8
is_utf8-ascii = utf8_from-ascii

degree_sign : is_utf8 (0xc2 ∷ 0xb0 ∷ codes "C") ≡ true
unfolding is_utf8
degree_sign = refl

overlong : is_utf8 (0xc0 ∷ 0xaf ∷ []) ≡ false
unfolding is_utf8
overlong = refl
