-- ===== src/Growatt/Encode/Verify.antt =====
-- What is read back after a command: `Command::registers_to_verify` of src/growatt/v7/encode.rs.
use mathlib.Core.List.{append-nil}
use heliobridge.Base.{
  ℕ, ◌+◌, ◌≡◌, refl, inl, inr, true, not, ◌&&◌, ◌||◌, Option, none, some, List, [], ◌∷◌, ◌++◌,
  arith, Bool-cases, if◌then◌else◌,
}
use heliobridge.Model.{Register, Raw}
use heliobridge.Base.Results.{ok}
use heliobridge.Growatt.Registers.Slots.{lookup-lt}
use heliobridge.Growatt.Encode.{Command, write_range, power_plus, default_output_power}
use heliobridge.Growatt.Encode.Body.{
  registers_to_verify, directly_verified, range_to_verify, touches,
}
use heliobridge.Growatt.Encode.Writes.{IsRun, values_of, write_range_iff}

-- The read-backs of the pairs of a range write.
abbrev pub expected : List (Register × ℕ) → List (Register × Option Raw)
expected [] = []
expected ((r, value) ∷ pairs) = (r, some value) ∷ expected pairs

range_to_verify-IsRun :
    (first : Register) (pairs : List (Register × ℕ))
    → IsRun first pairs
    → range_to_verify first (values_of pairs) ≡ expected pairs
unfolding range_to_verify
range_to_verify-IsRun first [] h = refl
range_to_verify-IsRun first ((r, value) ∷ pairs) (e, v, run) =
    ground (
      arith,
      e,
      v.listed,
      lookup-lt r v.entry v.listed,
      range_to_verify-IsRun (first + 1) pairs run,
    )

-- `registers_to_verify` only ever adds to what is verified directly.
extra-append :
    (out : List (Register × Option Raw))
    → (more : List (Register × Option Raw)) × ((if touches power_plus out
            && not (touches default_output_power out)
          then out ++ ((default_output_power, none) ∷ [])
          else out)
        ≡ out ++ more)
extra-append out =
    elim (Bool-cases (touches power_plus out && not (touches default_output_power out))) [
      | inl h ↦ ((default_output_power, none) ∷ [], rw h)
      | inr h ↦ ([], rw (h, append-nil))
    ]

-- After a range write each register that was written is read back and compared with its value,
-- in the order of the write and ahead of anything else that is read.
pub verify-write_range :
    (first : Register) (value : ℕ) (pairs : List (Register × ℕ)) (c : Command)
    → write_range ((first, value) ∷ pairs) ≡ ok c
    → (more : List (Register × Option Raw)) × (registers_to_verify c
        ≡ expected ((first, value) ∷ pairs) ++ more)
unfolding registers_to_verify
verify-write_range first value pairs c h =
    let (run, e) = (write_range_iff first value pairs c).0 h in
    let d : directly_verified c ≡ expected ((first, value) ∷ pairs) =
      unfold directly_verified in rw e (range_to_verify-IsRun first ((first, value) ∷ pairs) run) in
    rw d (extra-append (expected ((first, value) ∷ pairs)))

touches-append :
    (r : Register) (xs ys : List (Register × Option Raw))
    → touches r (xs ++ ys) ≡ touches r xs || touches r ys
touches-append r [] ys = refl
touches-append r (x ∷ xs) ys = ground (arith, touches-append r xs ys)

-- Whatever the command, if the flag that gates it is read back, so is the default output power.
pub power_plus-touches :
    (c : Command)
    → touches power_plus (registers_to_verify c) ≡ true
    → touches default_output_power (registers_to_verify c) ≡ true
unfolding registers_to_verify
power_plus-touches c h = ground (
  arith,
  touches-append default_output_power (directly_verified c) ((default_output_power, none) ∷ []),
)
