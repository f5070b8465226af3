-- ===== src/Base/Octets.antt =====
-- Octets and big-endian words: `to_be_bytes`, `from_be_bytes`, and the conversions that saturate.
use Prim.Native.Nat.{bit_xor}
use heliobridge.Base.Tests.{all_below, all_below_sound, ◌==◌, ==_iff, ltb, ltb→lt}
use heliobridge.Base.Lists.{length, slice?, slice?-drop, All, drop}
use Prim.Native.Nat.{ℕ, ◌+◌, ◌*◌, ◌/◌, ◌%◌, ◌≤◌, ◌<◌, min}
use mathlib.Core.Path.{◌≡◌, refl, ap}
use mathlib.Core.Bool.{Bool, true}
use mathlib.Core.Option.{Option, none, some}
use mathlib.Core.List.{List, [], ◌∷◌, ◌++◌}
use native.Mathlib.Omega.{arith}

abbrev pub IsByte : ℕ → Type 0
IsByte b = b < 256

abbrev pub IsU16 : ℕ → Type 0
IsU16 n = n < 65536

abbrev pub u16_max : ℕ
u16_max = 65535

-- `u16::to_be_bytes`
unfoldable pub be16 : ℕ → List ℕ
be16 n = (n / 256) ∷ (n % 256) ∷ []

-- `u16::from_be_bytes`
unfoldable pub word : ℕ → ℕ → ℕ
word hi lo = hi * 256 + lo

-- `u16::try_from(n).unwrap_or(u16::MAX)`
unfoldable pub clamp_u16 : ℕ → ℕ
clamp_u16 n = min n u16_max

-- `u16::saturating_add`
unfoldable pub sat_add_u16 : ℕ → ℕ → ℕ
sat_add_u16 a b = min (a + b) u16_max

-- A two-octet slice taken as a big-endian word: `match *pair { [hi, lo] => Some(..), _ => None }`.
unfoldable pub pair_word : List ℕ → Option ℕ
unfolding word
pair_word (hi ∷ lo ∷ []) = some (word hi lo)
pair_word _ = none

-- `read_u16(buf, offset)`: the word at an offset, or `none` if it would run off the end.
unfoldable pub word_at : List ℕ → ℕ → Option ℕ
unfolding pair_word
word_at buf offset = elim (slice? buf offset (offset + 2)) [
  | none ↦ none
  | some pair ↦ pair_word pair
]

pub be16-IsByte : (n : ℕ) → IsU16 n → All IsByte (be16 n)
unfolding be16
be16-IsByte n h = omega arith

pub length-be16 : (n : ℕ) → length (be16 n) ≡ 2
unfolding be16
length-be16 n = refl

pub word-be16 : (n : ℕ) → word (n / 256) (n % 256) ≡ n
unfolding word
word-be16 n = omega arith

pub word-IsU16 : (hi lo : ℕ) → IsByte hi → IsByte lo → IsU16 (word hi lo)
unfolding word
word-IsU16 hi lo h l = omega arith

pub be16-word : (hi lo : ℕ) → IsByte lo → be16 (word hi lo) ≡ hi ∷ lo ∷ []
unfolding be16 word
be16-word hi lo l = ground arith

pub clamp_u16-eq : (n : ℕ) → IsU16 n → clamp_u16 n ≡ n
unfolding clamp_u16
clamp_u16-eq n h = omega arith

pub clamp_u16-IsU16 : (n : ℕ) → IsU16 (clamp_u16 n)
unfolding clamp_u16
clamp_u16-IsU16 n = omega arith

pub sat_add_u16-eq : (a b : ℕ) → IsU16 (a + b) → sat_add_u16 a b ≡ a + b
unfolding sat_add_u16
sat_add_u16-eq a b h = omega arith

-- A word that stands at an offset is read there.
pub word_at-drop :
    (buf : List ℕ) (offset n : ℕ) (rest : List ℕ)
    → drop offset buf ≡ be16 n ++ rest
    → offset ≤ length buf
    → word_at buf offset ≡ some n
unfolding word_at
word_at-drop buf offset n rest e h =
    rw (slice?-drop buf offset 2 (be16 n) rest e h (length-be16 n), word_at)
      (unfold be16 in ap some (word-be16 n))

-- Toggling an octet twice by one key gives it back: a table over keys and octets.
abbrev toggles_back : ℕ → Bool
toggles_back k = all_below 256 (λ x. bit_xor (bit_xor x k) k == x)

toggle_table : all_below 256 toggles_back ≡ true
unfolding all_below
toggle_table = refl

pub xor-xor_key : (k x : ℕ) → IsByte k → IsByte x → bit_xor (bit_xor x k) k ≡ x
xor-xor_key k x hk hx =
    (==_iff _ x).0 (all_below_sound 256 _ x (all_below_sound 256 toggles_back k toggle_table hk) hx)

abbrev stays_octet : ℕ → Bool
stays_octet k = all_below 256 (λ x. ltb (bit_xor x k) 256)

stays_table : all_below 256 stays_octet ≡ true
unfolding all_below
stays_table = refl

pub xor-IsByte : (k x : ℕ) → IsByte k → IsByte x → IsByte (bit_xor x k)
xor-IsByte k x hk hx =
    ltb→lt _ 256 (all_below_sound 256 _ x (all_below_sound 256 stays_octet k stays_table hk) hx)

-- Two octets are the serialised word that is read from them.
pub be16-word_at :
    (xs : List ℕ) (n : ℕ) → length xs ≡ 2 → All IsByte xs → word_at xs 0 ≡ some n → be16 n ≡ xs
unfolding word_at
be16-word_at (hi ∷ lo ∷ []) n l v e = ground (arith, be16-word hi lo)
be16-word_at [] n l v e = absurd (omega arith)
be16-word_at (a ∷ []) n l v e = absurd (omega arith)
be16-word_at (a ∷ b ∷ c ∷ xs) n l v e = absurd (omega arith)
