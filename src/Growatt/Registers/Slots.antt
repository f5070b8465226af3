-- ===== src/Growatt/Registers/Slots.antt =====
-- Which registers src/growatt/v7/registers.rs knows, and that its tables agree with one another.
use heliobridge.Base.{
  ap, ◌∙◌, ltb→lt, leb→le, ℕ, zero, suc, ◌+◌, ◌-◌, ◌*◌, ◌/◌, ◌%◌, ◌≤◌, ◌<◌, ◌≡◌, refl, sym, inl,
  inr, Bool, true, false, ◌&&◌, ◌||◌, not, Option, none, some, List, [], ◌∷◌, String, map, arith,
  get_elem?, find, any, All, leb, ltb, ◌==◌, all_below, all_below_sound, Bool-cases, Option-cases,
}
use heliobridge.Model.{Register}
use heliobridge.Growatt.Registers.{
  Domain, time_of_day, enumerated, range, flag, weekdays, work_mode_labels, slot_fields,
  HoldingRegister, holding_registers, slot_field_names, slot_repeat, field_entry, block_field,
  slot_field, lookup, slot, slot_base, slot_repeat_base,
}

pub find-eq_some {ℓ} :
    {A : Type ℓ} (p : A → Bool) (xs : List A) {x : A} → find p xs ≡ some x → p x ≡ true
find-eq_some p [] e = cc
find-eq_some p (y ∷ ys) {x} e = elim (Bool-cases (p y)) [
  | inl h ↦ ground (arith, h)
  | inr h ↦ find-eq_some p ys (ground (arith, h))
]

field_entry-register :
    (r : Register) (ns : List String) (k : ℕ) (name : String) (e : HoldingRegister)
    → field_entry r ns k name ≡ some e
    → e.register ≡ r
unfolding field_entry
field_entry-register r ns zero name e h = ground arith
field_entry-register r ns (suc zero) name e h = ground arith
field_entry-register r ns (suc (suc zero)) name e h = ground arith
field_entry-register r ns (suc (suc (suc zero))) name e h = ground arith
field_entry-register r ns (suc (suc (suc (suc k)))) name e h = ground arith

block_field-register :
    (r : Register) (offset : ℕ) (e : HoldingRegister)
    → block_field r offset ≡ some e
    → e.register ≡ r
unfolding block_field
block_field-register r offset e h = elim (Option-cases (get_elem? slot_field_names (offset / 5))) [
  | inl n ↦ absurd (ground arith)
  | inr (ns, n) ↦ elim (Option-cases (get_elem? ns (offset % 5))) [
    | inl m ↦ absurd (ground arith)
    | inr (name, m) ↦ field_entry-register r ns (offset % 5) name e (ground arith)
  ]
]

slot_repeat-register :
    (k : ℕ) (e : HoldingRegister)
    → slot_repeat (suc k) ≡ some e
    → (e.register ≡ slot_repeat_base + k * 2) × (k < 9)
unfolding slot_repeat
slot_repeat-register k e h = ground arith

slot_field-register : (r : Register) (e : HoldingRegister) → slot_field r ≡ some e → e.register ≡ r
unfolding slot_field
slot_field-register r e h = elim (Bool-cases (leb slot_repeat_base r)) [
  | inl high ↦
      let k : ℕ = (r - slot_repeat_base) / 2 in
      let n : k + 1 ≡ suc k = omega arith in
      let even : (r - slot_repeat_base) % 2 ≡ 0 = ground arith in
      let found : slot_repeat (suc k) ≡ some e = rw (← n) (ground arith) in
      omega (arith, leb→le _ _ high, (slot_repeat-register k e found).0)
  | inr low ↦ block_field-register r (r - slot_base) e (ground arith)
]

-- What `lookup` finds is the entry of the register that was asked for.
pub register-lookup : (r : Register) (e : HoldingRegister) → lookup r ≡ some e → e.register ≡ r
unfolding lookup
register-lookup r e h =
    elim (Option-cases (find (λ (x : HoldingRegister). x.register == r) holding_registers)) [
      | inl n ↦ slot_field-register r e (ground arith)
      | inr (x, f) ↦
          let t = find-eq_some (λ (x : HoldingRegister). x.register == r) holding_registers f in
          ground (arith, f, t)
    ]

-- A register is known if it is in the table, in the block of the nine slots or a repeat mask.
abbrev pub is_known : Register → Bool
is_known r =
    any (λ (x : HoldingRegister). x.register == r) holding_registers
    || (leb 254 r && ltb r 299)
    || (leb 342 r && leb r 358 && r % 2 == 0)

abbrev pub is_some {ℓ} : {A : Type ℓ} → Option A → Bool
is_some none = false
is_some (some x) = true

abbrev same : Bool → Bool → Bool
same true b = b
same false b = not b

same-eq : (a b : Bool) → same a b ≡ true → a ≡ b
same-eq true true h = refl
same-eq true false h = sym h
same-eq false false h = refl
same-eq false true h = cc

known_table : all_below 400 (λ r. same (is_some (lookup r)) (is_known r)) ≡ true
unfolding all_below lookup slot_field slot_repeat block_field field_entry
known_table = refl

high_repeat : (k : ℕ) → 9 ≤ k → slot_repeat (suc k) ≡ none
high_repeat k h = elim (Option-cases (slot_repeat (suc k))) [
  | inl n ↦ n
  | inr (e, f) ↦ absurd (omega (arith, (slot_repeat-register k e f).1))
]

high_slot_field : (r : Register) → 400 ≤ r → slot_field r ≡ none
unfolding slot_field
high_slot_field r h =
    let k : ℕ = (r - 342) / 2 in
    let n : k + 1 ≡ suc k = omega arith in
    let e : slot_repeat ((r - 342) / 2 + 1) ≡ none = rw n (high_repeat k (omega arith)) in
    ground (arith, e)

-- A register can be looked up exactly if it is one of the eleven, in the block of the nine slots,
-- or a slot's repeat mask.
pub lookup-is_known : (r : Register) → is_some (lookup r) ≡ is_known r
lookup-is_known r = elim (Bool-cases (ltb r 400)) [
  | inl low ↦ same-eq _ _ (
      all_below_sound 400 (λ r. same (is_some (lookup r)) (is_known r)) r known_table
        (ltb→lt r 400 low))
  | inr high ↦ high_known (ground arith)
]
  where
    high_known : 400 ≤ r → is_some (lookup r) ≡ is_known r
    high_known h = unfold lookup in ground (arith, high_slot_field r h)

-- The registers of a slot, in the order in which `slot` gives them.
abbrev pub slot_registers : ℕ → List Register
slot_registers s =
    let base : ℕ = 249 + s * 5 in
    base ∷ (base + 1) ∷ (base + 2) ∷ (base + 3) ∷ (base + 4) ∷ (340 + s * 2) ∷ []

-- What the registers of a slot accept, in the same order.
abbrev pub slot_domains : List Domain
slot_domains =
    time_of_day ∷ time_of_day ∷ enumerated work_mode_labels ∷ range 0 1000 ∷ flag ∷ weekdays ∷ []

-- What a read of one slot is expected to give.
pub record IsSlot (s : ℕ) (entries : List HoldingRegister) : Type 0 where
  pub given : slot s ≡ some entries
  pub numbered : map HoldingRegister.register entries ≡ slot_registers s
  pub shaped : map HoldingRegister.domain entries ≡ slot_domains
  pub found : All (λ e. lookup (HoldingRegister.register e) ≡ some e) entries

abbrev entries_of : ℕ → List HoldingRegister
unfolding slot
entries_of s = elim (slot s) [ none ↦ [] | some es ↦ es ]

-- Every one of the nine slots has its six registers, where the layout puts them, and a look-up of
-- each by its number finds the same entry.
pub slot_lem : (s : ℕ) → 1 ≤ s → s ≤ 9 → (entries : List HoldingRegister) × IsSlot s entries
unfolding slot slot_fields slot_field slot_repeat block_field field_entry lookup
slot_lem (suc zero) lo hi = (
  entries_of 1,
  record {
    given = refl;
    numbered = refl;
    shaped = refl;
    found = (refl, (refl, (refl, (refl, (refl, (refl, tt))))));
  },
)
slot_lem (suc (suc zero)) lo hi = (
  entries_of 2,
  record {
    given = refl;
    numbered = refl;
    shaped = refl;
    found = (refl, (refl, (refl, (refl, (refl, (refl, tt))))));
  },
)
slot_lem (suc (suc (suc zero))) lo hi = (
  entries_of 3,
  record {
    given = refl;
    numbered = refl;
    shaped = refl;
    found = (refl, (refl, (refl, (refl, (refl, (refl, tt))))));
  },
)
slot_lem (suc (suc (suc (suc zero)))) lo hi = (
  entries_of 4,
  record {
    given = refl;
    numbered = refl;
    shaped = refl;
    found = (refl, (refl, (refl, (refl, (refl, (refl, tt))))));
  },
)
slot_lem (suc (suc (suc (suc (suc zero))))) lo hi = (
  entries_of 5,
  record {
    given = refl;
    numbered = refl;
    shaped = refl;
    found = (refl, (refl, (refl, (refl, (refl, (refl, tt))))));
  },
)
slot_lem (suc (suc (suc (suc (suc (suc zero)))))) lo hi = (
  entries_of 6,
  record {
    given = refl;
    numbered = refl;
    shaped = refl;
    found = (refl, (refl, (refl, (refl, (refl, (refl, tt))))));
  },
)
slot_lem (suc (suc (suc (suc (suc (suc (suc zero))))))) lo hi = (
  entries_of 7,
  record {
    given = refl;
    numbered = refl;
    shaped = refl;
    found = (refl, (refl, (refl, (refl, (refl, (refl, tt))))));
  },
)
slot_lem (suc (suc (suc (suc (suc (suc (suc (suc zero)))))))) lo hi = (
  entries_of 8,
  record {
    given = refl;
    numbered = refl;
    shaped = refl;
    found = (refl, (refl, (refl, (refl, (refl, (refl, tt))))));
  },
)
slot_lem (suc (suc (suc (suc (suc (suc (suc (suc (suc zero))))))))) lo hi = (
  entries_of 9,
  record {
    given = refl;
    numbered = refl;
    shaped = refl;
    found = (refl, (refl, (refl, (refl, (refl, (refl, tt))))));
  },
)
slot_lem (suc (suc (suc (suc (suc (suc (suc (suc (suc (suc s)))))))))) lo hi = absurd (omega arith)
slot_lem zero lo hi = absurd (omega arith)

-- Register numbers stay far below the end of their type.
pub lookup-lt : (r : Register) (e : HoldingRegister) → lookup r ≡ some e → r < 400
lookup-lt r e h = elim (Bool-cases (ltb r 400)) [
  | inl low ↦ ltb→lt r 400 low
  | inr high ↦
      let k : is_known r ≡ true = sym (lookup-is_known r) ∙ ap is_some h in absurd (ground arith)
]
