-- ===== src/HomeAssistant/Command/Sends.antt =====
-- A change of src/homeassistant/command.rs over the registers of src/growatt: what the one accepts
-- the encoder of the other can express.
use heliobridge.Base.{
  ℕ, zero, suc, ◌+◌, ◌≤◌, ◌≡◌, refl, sym, subst, Bool, true, Option, none, some, List, [], ◌∷◌,
  ◌++◌, All, All-append, find, arith, Bool-cases, inl, inr, ◌==◌, ==_iff, le→leb,
}
use heliobridge.Base.Int.{is_negative, ℤ, magnitude}
use heliobridge.Base.Results.{some-injective, ok}
use heliobridge.Model.{Register}
use heliobridge.Driver.Catalogue.{Setting, ConfigField}
use heliobridge.Driver.Commands as Asked
use heliobridge.Growatt.Catalogue.{
  entry_named, catalogue, setting_named, setting_of, writable, setting_of?,
}
use heliobridge.Growatt.Commands.{meter_values, first_register, translate, meter_command, pair}
use heliobridge.Growatt.Encode.{
  write_range_of, write_single, Command, default_output_power, set_default_output_power, write,
}
use heliobridge.Growatt.Encode
use heliobridge.Growatt.Encode.Writes.{IsWritable, write_iff, writable-lookup, validate-accepts}
use heliobridge.Growatt.Registers.{
  HoldingRegister, lookup, resync_set, slots_from, slot, holding_registers, slot_count,
}
use heliobridge.Growatt.Registers.Slots.{slot_lem}
use heliobridge.HomeAssistant.Command.{
  codes, same_text, Json, Permitted, Change, from_payload, is_action,
}
use heliobridge.HomeAssistant.Command.Offers.{from_payload-IsPermitted, IsOffered, IsPermitted}

abbrev IsListed : HoldingRegister → Type 0
IsListed entry = lookup entry.register ≡ some entry

find_All {ℓ κ} :
    {A : Type ℓ} (P : A → Type κ) (p : A → Bool) (xs : List A) (x : A)
    → All P xs
    → find p xs ≡ some x
    → P x
find_All P p [] x h e = cc
find_All P p (y ∷ ys) x h e = elim (Bool-cases (p y)) [
  | inl q ↦ subst P (ground (arith, q, e)) h.0
  | inr q ↦ find_All P p ys x h.1 (ground (arith, q, e))
]

slots_from-slot :
    (n s : ℕ) (entries : List HoldingRegister)
    → slot s ≡ some entries
    → slots_from (suc n) s ≡ entries ++ slots_from n (s + 1)
unfolding slots_from
slots_from-slot n s entries h = rw (h, slots_from)

slots_from-IsListed : (n s : ℕ) → 1 ≤ s → s + n ≤ 10 → All IsListed (slots_from n s)
slots_from-IsListed zero s lo hi = unfold slots_from in tt
slots_from-IsListed (suc n) s lo hi =
    let (entries, known) = slot_lem s lo (omega arith) in
    subst (All IsListed) (sym (slots_from-slot n s entries known.given)) (
      All-append IsListed entries (slots_from n (s + 1)) known.found
        (slots_from-IsListed n (s + 1) (omega arith) (omega arith)))

fixed-IsListed : All IsListed holding_registers
unfolding lookup
fixed-IsListed =
    (refl, (refl, (refl, (refl, (refl, (refl, (refl, (refl, (refl, (refl, (refl, tt)))))))))))

resync_set-IsListed : All IsListed (resync_set slot_count)
unfolding resync_set
resync_set-IsListed =
    All-append IsListed holding_registers (slots_from 9 1) fixed-IsListed
      (slots_from-IsListed 9 1 (omega arith) (omega arith))

-- The command that the encoder makes of what was asked for.
abbrev pub IsExpressible : Asked.Command → Type 0
IsExpressible asked = (command : Command) × (translate asked ≡ ok command)

set_default_output_power_ok :
    (value : ℕ)
    → (v : IsWritable default_output_power value)
    → set_default_output_power value ≡ ok (write_range_of 321 (0 ∷ value ∷ []))
unfolding set_default_output_power
set_default_output_power_ok value v = rw (
  writable-lookup default_output_power v.entry v.listed,
  validate-accepts (record { entry = v.entry }) value v.accepted,
)

set-IsExpressible :
    (r : Register) (value : ℕ) → IsWritable r value → IsExpressible (Asked.set r value)
unfolding translate Encode.set
set-IsExpressible r value v = elim (Bool-cases (r == default_output_power)) [
  | inl q ↦ (
    write_range_of 321 (0 ∷ value ∷ []),
    rw q (
        set_default_output_power_ok value
          (subst (λ n. IsWritable n value) ((==_iff r default_output_power).0 q) v)),
  )
  | inr q ↦
      (write_single (record { entry = v.entry }) value, rw q ((write_iff r value _).1 (v, refl)))
]

setting_of?-some :
    (o : Option HoldingRegister) (s : Setting)
    → setting_of? o ≡ some s
    → (entry : HoldingRegister) × (o ≡ some entry) × (setting_of entry ≡ s)
setting_of?-some none s h = cc
setting_of?-some (some entry) s h = (entry, refl, some-injective h)

entry_named-IsListed :
    (entries : List HoldingRegister) (name : List ℕ) (entry : HoldingRegister)
    → All IsListed entries
    → entry_named entries name ≡ some entry
    → IsListed entry
unfolding entry_named
entry_named-IsListed entries name entry h e =
    find_All IsListed (λ (x : HoldingRegister). same_text (codes x.name) name) entries entry h e

setting_of-IsWritable :
    (entry : HoldingRegister) (s : Setting) (value : ℕ)
    → setting_of entry ≡ s
    → IsListed entry
    → s.accepts value ≡ true
    → IsWritable s.register value
unfolding setting_of
setting_of-IsWritable entry s value e listed =
    subst (λ (t : Setting). t.accepts value ≡ true → IsWritable t.register value) e
      (λ a. record { entry = entry; listed = listed; accepted = a })

-- A setting that the catalogue names is one of the allowlist, and takes the same values there.
setting_named-IsWritable :
    (name : List ℕ) (s : Setting) (value : ℕ)
    → setting_named name ≡ some s
    → s.accepts value ≡ true
    → IsWritable s.register value
unfolding setting_named
setting_named-IsWritable name s value h a =
    let (entry, found, e) = setting_of?-some (entry_named (resync_set slot_count) name) s h in
    setting_of-IsWritable entry s value e
      (entry_named-IsListed (resync_set slot_count) name entry resync_set-IsListed found) a

-- Every action of the catalogue is one that the encoder writes.
abbrev ActsOn : ConfigField → Type 0
ActsOn field =
    (value : List ℕ)
    → field.action ≡ some value
    → IsExpressible (Asked.write_config field.register value)

-- what an action writes, which is the text "1"
triggered :
    (c : Encode.WritableConfig) (value : List ℕ)
    → ◌≡◌ {A = Option (List ℕ)} (some (codes "1")) (some value)
    → (command : Command) × (Encode.write_config c value ≡ ok command)
unfolding Encode.write_config
triggered c value h =
    subst (λ v. (command : Command) × (Encode.write_config c v ≡ ok command)) (some-injective h)
      (Encode.write_config_of c (codes "1"), refl)

writable-ActsOn : All ActsOn writable
unfolding writable translate
writable-ActsOn = (
  λ v h. cc,
  (
    triggered Encode.restart,
    (
      triggered Encode.factory_reset,
      (λ v h. cc, (λ v h. cc, (λ v h. cc, (λ v h. cc, (λ v h. cc, tt))))),
    ),
  ),
)

action-ActsOn :
    (key : List ℕ) (fields : List ConfigField) (f : ConfigField)
    → All ActsOn fields
    → find (is_action key) fields ≡ some f
    → ActsOn f
action-ActsOn key fields f h e = find_All ActsOn (is_action key) fields f h e

-- A meter reading has to fit the word that carries its magnitude.
abbrev pub Fits : Asked.Command → Type 0
Fits (Asked.meter_reading watts valid) = magnitude watts ≤ 65535
Fits _ = Unit

meter_reading-IsExpressible :
    (watts : ℤ) (valid : Bool)
    → magnitude watts ≤ 65535
    → IsExpressible (Asked.meter_reading watts valid)
unfolding translate meter_command
meter_reading-IsExpressible watts valid h = (
  write_range_of first_register (meter_values (is_negative watts) (magnitude watts) valid),
  rw (le→leb _ _ h),
)

IsOffered-IsExpressible :
    (change : Change)
    → IsOffered catalogue change
    → Fits change.command
    → IsExpressible change.command
IsOffered-IsExpressible change (IsOffered.set key s raw h a) f =
    set-IsExpressible s.register raw (setting_named-IsWritable key s raw (unfold catalogue in h) a)
IsOffered-IsExpressible change (IsOffered.act key g value h d e) f =
    action-ActsOn key writable g writable-ActsOn (unfold catalogue in h) value e
IsOffered-IsExpressible change (IsOffered.meter key valid watts r) f =
    meter_reading-IsExpressible watts valid f
IsOffered-IsExpressible change (IsOffered.pair key) f = unfold translate in (pair, refl)

IsPermitted-IsExpressible :
    (p : Permitted) (changes : List Change)
    → All (IsPermitted catalogue p) changes
    → All (λ (change : Change). Fits change.command → IsExpressible change.command) changes
IsPermitted-IsExpressible p [] h = tt
IsPermitted-IsExpressible p (change ∷ rest) h =
    (IsOffered-IsExpressible change h.0.offered, IsPermitted-IsExpressible p rest h.1)

-- Over the Growatt catalogue, whatever octets arrive, the encoder has a command for each change that
-- they turn into, if a meter reading fits its word.
pub from_payload-IsExpressible :
    (quoted : List ℕ → List ℕ) (from_slice : List ℕ → Option Json) (p : Permitted)
    (payload : List ℕ) (changes : List Change)
    → from_payload quoted from_slice catalogue p payload ≡ ok changes
    → All (λ (change : Change). Fits change.command → IsExpressible change.command) changes
from_payload-IsExpressible quoted from_slice p payload changes h =
    IsPermitted-IsExpressible p changes
      (from_payload-IsPermitted quoted catalogue p from_slice payload changes h)
