-- ===== src/Growatt/Encode/Writes.antt =====
-- Only registers of the allowlist are written, with values that they accept: the single and the
-- range writes of src/growatt/v7/encode.rs.
use mathlib.Core.List.{append-nil, append_assoc}
use heliobridge.Growatt.Registers.Slots.{lookup-lt}
use heliobridge.Base.{
  ◌⊎◌, subst, ==_iff, ℕ, ◌+◌, ◌≡◌, ◌↔◌, ap, sym, ◌∙◌, inl, inr, true, some, List, [], ◌∷◌, ◌++◌,
  arith, ◌==◌, Option-cases,
}
use heliobridge.Base.Octets.{sat_add_u16, sat_add_u16-eq}
use heliobridge.Base.Results.{ok, ensure, >>=-eq-ok}
use heliobridge.Model.{Register, Raw}
use heliobridge.Growatt.Registers.{HoldingRegister, accepts, lookup}
use heliobridge.Growatt.Encode.{
  write_range_of, write_range, WritableRegister, writable, validate, Command, write_single, write,
  range_values,
}

-- A register of the allowlist and a value that it accepts.
pub record IsWritable (r : Register) (value : ℕ) : Type 0 where
  pub entry : HoldingRegister
  pub listed : lookup r ≡ some entry
  pub accepted : accepts entry.domain value ≡ true

writable-IsWritable :
    (r : Register) (value : ℕ) (w : WritableRegister) (raw : Raw)
    → writable r ≡ ok w
    → validate w value ≡ ok raw
    → (lookup r ≡ some w.entry) × (accepts w.entry.domain value ≡ true) × (raw ≡ value)
unfolding writable validate
writable-IsWritable r value w raw h k = elim (Option-cases (lookup r)) [
  | inl n ↦ absurd (ground arith)
  | inr (e, f) ↦ ground arith
]

pub writable-lookup :
    (r : Register) (e : HoldingRegister)
    → lookup r ≡ some e
    → writable r ≡ ok (record { entry = e })
unfolding writable
writable-lookup r e h = rw (h, writable)

pub validate-accepts :
    (w : WritableRegister) (value : ℕ)
    → accepts w.entry.domain value ≡ true
    → validate w value ≡ ok value
unfolding validate
validate-accepts w value h = rw h

-- A single write succeeds exactly for a register of the allowlist and a value in its domain.
pub write_iff :
    (r : Register) (value : ℕ) (c : Command)
    → (write r value ≡ ok c)
      ↔ ((v : IsWritable r value) × (c ≡ write_single (record { entry = v.entry }) value))
unfolding write
write_iff r value c = (forth, back)
  where
    forth :
        write r value ≡ ok c
        → (v : IsWritable r value) × (c ≡ write_single (record { entry = v.entry }) value)
    forth h =
        let (w, hw, k) = >>=-eq-ok (writable r) _ h in
        let (raw, hr, l) = >>=-eq-ok (validate w value) _ k in
        let (f, a, e) = writable-IsWritable r value w raw hw hr in
        (record { entry = w.entry; listed = f; accepted = a }, ground (arith, l, e))

    back :
        ((v : IsWritable r value) × (c ≡ write_single (record { entry = v.entry }) value))
        → write r value ≡ ok c
    back (v, e) =
        rw
          (
            writable-lookup r v.entry v.listed,
            validate-accepts (record { entry = v.entry }) value v.accepted,
          )
          (ap ok (sym e))

-- Pairs that a range write takes: consecutive registers from `expected` on, each writable.
abbrev pub IsRun : Register → List (Register × ℕ) → Type 0
IsRun expected [] = Unit
IsRun expected ((r, value) ∷ pairs) =
    (r ≡ expected) × IsWritable r value × IsRun (expected + 1) pairs

abbrev pub values_of : List (Register × ℕ) → List ℕ
values_of [] = []
values_of ((r, value) ∷ pairs) = value ∷ values_of pairs

IsWritable-next : (r : Register) (value : ℕ) → IsWritable r value → sat_add_u16 r 1 ≡ r + 1
IsWritable-next r value v = sat_add_u16-eq r 1 (omega (arith, lookup-lt r v.entry v.listed))

range_values-IsRun :
    (expected : Register) (pairs : List (Register × ℕ)) (acc : List Raw)
    → IsRun expected pairs
    → range_values expected pairs acc ≡ ok (acc ++ values_of pairs)
unfolding range_values
range_values-IsRun expected [] acc h = ap ok (sym (append-nil acc))
range_values-IsRun expected ((r, value) ∷ pairs) acc (e, v, run) =
    let same : (r == expected) ≡ true = (==_iff r expected).1 e in
    let next : sat_add_u16 r 1 ≡ expected + 1 = omega (arith, IsWritable-next r value v) in
    rw
      (
        same,
        writable-lookup r v.entry v.listed,
        validate-accepts (record { entry = v.entry }) value v.accepted,
        next,
      )
      (range_values-IsRun (expected + 1) pairs (acc ++ (value ∷ [])) run
        ∙ ap ok (append_assoc acc (value ∷ []) (values_of pairs)))

IsRun-range_values :
    (expected : Register) (pairs : List (Register × ℕ)) (acc values : List Raw)
    → range_values expected pairs acc ≡ ok values
    → IsRun expected pairs × (values ≡ acc ++ values_of pairs)
unfolding range_values
IsRun-range_values expected [] acc values h = (tt, ground (arith, append-nil acc))
IsRun-range_values expected ((r, value) ∷ pairs) acc values h =
    let (u, e, k) = >>=-eq-ok (ensure (r == expected) _) _ h in
    let (w, hw, l) = >>=-eq-ok (writable r) _ k in
    let (raw, hr, m) = >>=-eq-ok (validate w value) _ l in
    let (f, a, same) = writable-IsWritable r value w raw hw hr in
    let v : IsWritable r value = record { entry = w.entry; listed = f; accepted = a } in
    let x : r ≡ expected = ground arith in
    let next : sat_add_u16 r 1 ≡ expected + 1 = omega (arith, IsWritable-next r value v) in
    let (run, s) =
      IsRun-range_values (expected + 1) pairs (acc ++ (raw ∷ [])) values (rw next at m) in
    (
      (x, v, run),
      s
          ∙ append_assoc acc (raw ∷ []) (values_of pairs)
          ∙ ap (λ y. acc ++ (y ∷ values_of pairs)) same,
    )

-- A range write succeeds exactly for consecutive registers of the allowlist with values that each
-- of them accepts, and then names the first register and the values in their order.
pub write_range_iff :
    (first : Register) (value : ℕ) (pairs : List (Register × ℕ)) (c : Command)
    → (write_range ((first, value) ∷ pairs) ≡ ok c) ↔ (
        IsRun first ((first, value) ∷ pairs) × (c ≡ write_range_of first (value ∷ values_of pairs)))
unfolding write_range
write_range_iff first value pairs c = (forth, back)
  where
    all : List (Register × ℕ)
    all = (first, value) ∷ pairs

    forth :
        write_range all ≡ ok c
        → IsRun first all × (c ≡ write_range_of first (value ∷ values_of pairs))
    forth h =
        let (vs, e, k) = >>=-eq-ok (range_values first all []) _ h in
        let (run, s) = IsRun-range_values first all [] vs e in (run, ground (arith, k, s))

    back :
        (IsRun first all × (c ≡ write_range_of first (value ∷ values_of pairs)))
        → write_range all ≡ ok c
    back (run, e) = rw (range_values-IsRun first all [] run) (ap ok (sym e))

-- What a command may write: values that registers of the allowlist accept, and a zero into the
-- unnamed companion of the default output power.
abbrev pub IsSafeRange : Register → List Raw → Type 0
IsSafeRange r [] = Unit
IsSafeRange r (value ∷ values) =
    (IsWritable r value ⊎ ((r ≡ 321) × (value ≡ 0))) × IsSafeRange (r + 1) values

abbrev pub IsSafe : Command → Type 0
IsSafe (write_single w value) = IsWritable w.entry.register value
IsSafe (write_range_of start values) = IsSafeRange start values
IsSafe _ = Unit

IsSafeRange-IsRun :
    (r : Register) (pairs : List (Register × ℕ)) → IsRun r pairs → IsSafeRange r (values_of pairs)
IsSafeRange-IsRun r [] h = tt
IsSafeRange-IsRun r ((x, value) ∷ pairs) (e, v, run) =
    (inl (subst (λ y. IsWritable y value) e v), IsSafeRange-IsRun (r + 1) pairs run)

-- A range write names only registers of the allowlist, each with a value that it accepts.
pub write_range-IsSafe :
    (pairs : List (Register × ℕ)) (c : Command) → write_range pairs ≡ ok c → IsSafe c
write_range-IsSafe [] c h = unfold write_range in absurd (ground arith)
write_range-IsSafe ((first, value) ∷ pairs) c h =
    let (run, e) = (write_range_iff first value pairs c).0 h in
    subst IsSafe (sym e) (IsSafeRange-IsRun first ((first, value) ∷ pairs) run)
