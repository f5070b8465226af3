-- ===== src/Growatt/Encode/Slot.antt =====
-- Schedule slots: `Command::set_slot` and `Command::set_slot_field` of src/growatt/v7/encode.rs.
use heliobridge.Base.{
  length-map, subst, ℕ, ◌+◌, ◌*◌, ◌≤◌, ◌<◌, ◌≡◌, ◌↔◌, refl, ap, sym, ◌∙◌, Bool, true, false, some,
  List, [], ◌∷◌, map, arith, length, get_elem?,
}
use heliobridge.Base.Results.{>>=-eq-ok, ok, ok_or}
use heliobridge.Growatt.Registers.{HoldingRegister, Domain, flag, accepts, slot}
use heliobridge.Growatt.Registers.Slots.{slot_domains, IsSlot, slot_lem}
use heliobridge.Growatt.Encode.{
  Command, write_range_of, SlotConfig, raw_values, slot_values, validate, set_slot, bit,
}

-- A schedule that the device can hold.
pub record IsSchedule (c : SlotConfig) : Type 0 where
  pub start_hour : c.start_hour < 24
  pub start_minute : c.start_minute < 60
  pub end_hour : c.end_hour < 24
  pub end_minute : c.end_minute < 60
  pub work_mode : c.work_mode < 3
  pub output_power : c.output_power ≤ 1000

-- The octets that the fields' types allow.
pub record IsConfig (c : SlotConfig) : Type 0 where
  pub start_minute : c.start_minute < 256
  pub end_minute : c.end_minute < 256

abbrev Accepted : List Domain → List ℕ → Type 0
Accepted ds [] = Unit
Accepted [] (v ∷ vs) = ⊥
Accepted (d ∷ ds) (v ∷ vs) = (accepts d v ≡ true) × Accepted ds vs

Accepted-slot_values :
    (es : List HoldingRegister) (vs : List ℕ)
    → Accepted (map HoldingRegister.domain es) vs
    → slot_values es vs ≡ ok vs
unfolding slot_values validate
Accepted-slot_values [] [] h = refl
Accepted-slot_values (e ∷ es) [] h = refl
Accepted-slot_values [] (v ∷ vs) h = absurd h
Accepted-slot_values (e ∷ es) (v ∷ vs) h = ground (arith, Accepted-slot_values es vs h.1)

slot_values-Accepted :
    (es : List HoldingRegister) (vs out : List ℕ)
    → length vs ≤ length es
    → slot_values es vs ≡ ok out
    → Accepted (map HoldingRegister.domain es) vs
unfolding slot_values validate
slot_values-Accepted es [] out l h = tt
slot_values-Accepted [] (v ∷ vs) out l h = absurd (omega arith)
slot_values-Accepted (e ∷ es) (v ∷ vs) out l h =
    let (raw, a, k) = >>=-eq-ok (validate (record { entry = e }) v) _ h in
    let (rest, b, m) = >>=-eq-ok (slot_values es vs) _ k in
    (ground arith, slot_values-Accepted es vs rest (omega arith) b)

flag_table : (b : Bool) → accepts flag (bit b) ≡ true
unfolding accepts
flag_table true = refl
flag_table false = refl

Accepted-IsSchedule :
    (c : SlotConfig) → IsConfig c → Accepted slot_domains (raw_values c) ↔ IsSchedule c
unfolding raw_values accepts
Accepted-IsSchedule c k = (
  λ h. record {
    start_hour = ground (arith, h.0);
    start_minute = ground (arith, h.0);
    end_hour = ground (arith, h.1.0);
    end_minute = ground (arith, h.1.0);
    work_mode = ground (arith, h.1.1.0);
    output_power = ground (arith, h.1.1.1.0);
  },
  λ s. (ground arith, (ground arith, (ground arith, (ground arith, (flag_table c.enabled, tt))))),
)

slot-in_range : (s : ℕ) (es : List HoldingRegister) → slot s ≡ some es → (1 ≤ s) × (s ≤ 9)
unfolding slot
slot-in_range s es h = ground arith

first-IsSlot :
    (s : ℕ) (es : List HoldingRegister)
    → IsSlot s es
    → (e : HoldingRegister) × (get_elem? es 0 ≡ some e) × (e.register ≡ 249 + s * 5)
first-IsSlot s [] v = absurd (omega (arith, ap length v.numbered))
first-IsSlot s (e ∷ es) v = (e, refl, ground (arith, v.numbered))

found-IsSlot :
    (s : ℕ) (es : List HoldingRegister) → slot s ≡ some es → (1 ≤ s) × (s ≤ 9) × IsSlot s es
found-IsSlot s es h =
    let (lo, hi) = slot-in_range s es h in
    let (es', v) = slot_lem s lo hi in (lo, hi, subst (IsSlot s) (ground (arith, v.given)) v)

-- A slot's schedule, whose minutes are octets, is written exactly if the slot is one of the nine and the device can hold the
-- schedule; the command then writes its five words from the slot's first register on.
pub set_slot_iff :
    (s : ℕ) (config : SlotConfig) (c : Command)
    → IsConfig config
    → (set_slot s config ≡ ok c) ↔ (
        (1 ≤ s)
        × (s ≤ 9)
        × IsSchedule config
        × (c ≡ write_range_of (249 + s * 5) (raw_values config)))
unfolding set_slot
set_slot_iff s config c k = (forth, back)
  where
    forth :
        set_slot s config ≡ ok c
        → (1 ≤ s)
          × (s ≤ 9)
          × IsSchedule config
          × (c ≡ write_range_of (249 + s * 5) (raw_values config))
    forth h =
        let (es, a, m) = >>=-eq-ok (ok_or (slot s) _) _ h in
        let (vs, b, n) = >>=-eq-ok (slot_values es (raw_values config)) _ m in
        let (lo, hi, v) = found-IsSlot s es (ground arith) in
        let (e, f, r) = first-IsSlot s es v in
        let fits : length (raw_values config) ≤ length es =
          unfold raw_values in
          omega (arith, ap length v.numbered, length-map es HoldingRegister.register) in
        let took = slot_values-Accepted es (raw_values config) vs fits b in
        let took' : Accepted slot_domains (raw_values config) =
          subst (λ ds. Accepted ds (raw_values config)) v.shaped took in
        let same : ok vs ≡ ok (raw_values config) =
          sym b ∙ Accepted-slot_values es (raw_values config) took in
        (lo, hi, (Accepted-IsSchedule config k).0 took', ground (arith, f, r, same, n))

    back :
        ((1 ≤ s)
          × (s ≤ 9)
          × IsSchedule config
          × (c ≡ write_range_of (249 + s * 5) (raw_values config)))
        → set_slot s config ≡ ok c
    back (lo, hi, v, e) =
        let (es, w) = slot_lem s lo hi in
        let (x, f, r) = first-IsSlot s es w in
        let took : Accepted (map HoldingRegister.domain es) (raw_values config) =
          subst (λ ds. Accepted ds (raw_values config)) (sym w.shaped)
            ((Accepted-IsSchedule config k).1 v) in
        ground (arith, w.given, Accepted-slot_values es (raw_values config) took, f, r)
