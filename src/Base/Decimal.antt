-- ===== src/Base/Decimal.antt =====
-- Decimal rendering: `{n}` and `{n:0width}` of Rust's formatting.
use heliobridge.Base.Tests.{ltb}
use heliobridge.Base.Lists.{
  length-append, length-replicate, All-append, All-replicate, length, replicate, All,
}
use Prim.Native.Nat.{ℕ, zero, suc, ◌+◌, ◌-◌, ◌/◌, ◌%◌, ◌≤◌, ◌<◌}
use mathlib.Core.Path.{◌≡◌, refl}
use mathlib.Core.Bool.{true, false}
use mathlib.Core.List.{List, [], ◌∷◌, ◌++◌}
use native.Mathlib.Omega.{arith}

-- `fuel` bounds the number of digits after the first.
digits_onto : ℕ → ℕ → List ℕ → List ℕ
digits_onto zero n acc = (48 + n % 10) ∷ acc
digits_onto (suc fuel) n acc = elim (ltb n 10) [
  | true ↦ (48 + n) ∷ acc
  | false ↦ digits_onto fuel (n / 10) ((48 + n % 10) ∷ acc)
]

-- `format!("{n}")`; a number has fewer digits than its value plus two.
unfoldable pub decimal : ℕ → List ℕ
unfolding digits_onto
decimal n = digits_onto n n []

-- `format!("{n:0width}")`
unfoldable pub padded : ℕ → ℕ → List ℕ
unfolding decimal
padded width n = replicate (width - length (decimal n)) 48 ++ decimal n

two_digits : padded 2 7 ≡ 48 ∷ 55 ∷ []
unfolding padded
two_digits = refl

abbrev pub IsDigit : ℕ → Type 0
IsDigit b = (48 ≤ b) × (b ≤ 57)

digits_onto-IsDigit :
    (fuel n : ℕ) (acc : List ℕ) → All IsDigit acc → All IsDigit (digits_onto fuel n acc)
unfolding digits_onto
digits_onto-IsDigit zero n acc h = (omega arith, h)
digits_onto-IsDigit (suc fuel) n acc h =
    ground (arith, digits_onto-IsDigit fuel (n / 10) ((48 + n % 10) ∷ acc))

pub decimal-IsDigit : (n : ℕ) → All IsDigit (decimal n)
unfolding decimal
decimal-IsDigit n = digits_onto-IsDigit n n [] tt

-- One digit more for a number ten times as large.
length-one_digit :
    (fuel n : ℕ) (acc : List ℕ) → n < 10 → length (digits_onto fuel n acc) ≤ 1 + length acc
unfolding digits_onto
length-one_digit zero n acc h = omega arith
length-one_digit (suc fuel) n acc h = ground arith

length-more_digits :
    (k n : ℕ)
    → ((fuel : ℕ) (acc : List ℕ) → length (digits_onto fuel (n / 10) acc) ≤ k + length acc)
    → (fuel : ℕ) (acc : List ℕ) → length (digits_onto fuel n acc) ≤ suc k + length acc
unfolding digits_onto
length-more_digits k n h zero acc = omega arith
length-more_digits k n h (suc fuel) acc = ground (arith, h fuel ((48 + n % 10) ∷ acc))

pub length-padded_two : (n : ℕ) → n < 100 → length (padded 2 n) ≡ 2
unfolding padded decimal
length-padded_two n h =
    let d = length-more_digits 1 n (λ f a. length-one_digit f (n / 10) a (omega arith)) n [] in
    omega (
      arith,
      d,
      length-append (replicate (2 - length (digits_onto n n [])) 48) (digits_onto n n []),
      length-replicate {A = ℕ} (2 - length (digits_onto n n [])) 48,
    )

pub length-padded_four : (n : ℕ) → n < 10000 → length (padded 4 n) ≡ 4
unfolding padded decimal
length-padded_four n h =
    let a = n / 10 in
    let b = a / 10 in
    let d =
      length-more_digits 3 n
        (length-more_digits 2 a
          (length-more_digits 1 b (λ f acc. length-one_digit f (b / 10) acc (omega arith))))
        n [] in
    omega (
      arith,
      d,
      length-append (replicate (4 - length (digits_onto n n [])) 48) (digits_onto n n []),
      length-replicate {A = ℕ} (4 - length (digits_onto n n [])) 48,
    )

pub padded-IsDigit : (width n : ℕ) → All IsDigit (padded width n)
unfolding padded
padded-IsDigit width n =
    All-append IsDigit (replicate (width - length (decimal n)) 48) (decimal n)
      (All-replicate IsDigit (width - length (decimal n)) 48 (omega arith)) (decimal-IsDigit n)
