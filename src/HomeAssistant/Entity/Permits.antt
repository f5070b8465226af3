-- ===== src/HomeAssistant/Entity/Permits.antt =====
-- What src/homeassistant/entity.rs offers as a control, src/homeassistant/command.rs does not refuse.
use heliobridge.Base.{
  subst, ℕ, ◌≡◌, ◌≢◌, refl, Bool, true, false, not, ◌&&◌, ◌||◌, Option, none, some, List, [], ◌∷◌,
  map, All, All-append, find, if◌then◌else◌, arith, Bool-cases, Option-cases, inl, inr,
}
use heliobridge.Base.Results.{some-injective, Result, err}
use heliobridge.Base.Text.Parsing.{same_text}
use heliobridge.Driver.Catalogue.{Setting, Measurement, ConfigField}
use heliobridge.Driver.Catalogue
use heliobridge.HomeAssistant.Command.{
  withdraw_meter_reading_key, pair_lora_accessory_key, meter_reading_key, Json, Permitted, allows,
  refused, CommandError, Change, one, is_action, action, operate, or_else, meter_reading,
  pair_lora_accessory, set_named, reading_for, supply, checked, watts_in, raw_value,
}
use heliobridge.HomeAssistant.Entity.{
  ℤ, Entity, Shape, flags, signal, reading, is_flags, is_signal, is_writable_shape, version_parts,
  is_text, is_writable, for_reading, into_read_only, for_setting, one_of,
}
use heliobridge.HomeAssistant.Entity.Catalogue.{
  EntityCatalogue, entities, setting_entities, readings, always, controls, offered, kept_reading,
  includes,
}

-- an entity that is no control, or one under a key that may be written
abbrev IsAllowed : Permitted → Entity → Type 0
IsAllowed p e = is_writable e ≡ true → allows p e.key ≡ true

offered-key :
    (p : Permitted) (measured : List (List ℕ)) (s : Setting) → (offered p measured s).key ≡ s.name
unfolding offered for_setting into_read_only
offered-key p measured s = ground arith

into_read_only-shown : (e : Entity) → is_writable (into_read_only e) ≡ false
unfolding into_read_only is_writable
into_read_only-shown e = elim (Bool-cases (is_writable e)) [ inl w ↦ rw w | inr w ↦ rw w w ]

offered-IsAllowed :
    (p : Permitted) (measured : List (List ℕ)) (s : Setting) → IsAllowed p (offered p measured s)
offered-IsAllowed p measured s = elim (Bool-cases (allows p s.name)) [
  | inl a ↦ λ h. rw (offered-key p measured s) a
  | inr a ↦ λ h.
      let shown : is_writable (offered p measured s) ≡ false =
        unfold offered in rw a (into_read_only-shown _) in
      cc
]

settings-IsAllowed :
    (p : Permitted) (measured : List (List ℕ)) (settings : List Setting)
    → All (IsAllowed p) (map (offered p measured) settings)
settings-IsAllowed p measured [] = tt
settings-IsAllowed p measured (s ∷ more) =
    (offered-IsAllowed p measured s, settings-IsAllowed p measured more)

shape_of_reading : (m : Measurement) → Shape
shape_of_reading m = if is_flags m.name then flags else if is_signal m.name then signal else reading

shape_of_reading-shown : (m : Measurement) → is_writable_shape (shape_of_reading m) ≡ false
unfolding shape_of_reading is_writable_shape
shape_of_reading-shown m = elim (Bool-cases (is_flags m.name)) [
  | inl f ↦ rw f
  | inr f ↦ elim (Bool-cases (is_signal m.name)) [ inl s ↦ rw (f, s) | inr s ↦ rw (f, s) ]
]

for_reading-shown : (m : Measurement) (e : Entity) → for_reading m ≡ some e → is_writable e ≡ false
unfolding for_reading is_writable shape_of_reading
for_reading-shown m e h =
    elim (Bool-cases (m.is_unknown || one_of version_parts m.name || is_text m.shape)) [
      | inl q ↦ let n : none ≡ some e = rw q at h in cc
      | inr q ↦
          subst (λ x. is_writable x ≡ false) (some-injective (rw q at h)) (shape_of_reading-shown m)
    ]

kept_reading-IsAllowed :
    (p : Permitted) (c : EntityCatalogue) (claimed : List (List ℕ)) (o : Option Entity)
    → ((e : Entity) → o ≡ some e → is_writable e ≡ false)
    → All (IsAllowed p) (kept_reading c claimed o)
unfolding kept_reading
kept_reading-IsAllowed p c claimed none h = tt
kept_reading-IsAllowed p c claimed (some e) h =
    elim (Bool-cases (includes c e && not (one_of claimed e.key))) [
      | inl k ↦ rw k (λ w. let shown : is_writable e ≡ false = h e refl in cc, tt)
      | inr k ↦ rw k tt
    ]

readings-IsAllowed :
    (p : Permitted) (c : EntityCatalogue) (claimed : List (List ℕ)) (ms : List Measurement)
    → All (IsAllowed p) (readings c claimed ms)
unfolding readings
readings-IsAllowed p c claimed [] = tt
readings-IsAllowed p c claimed (m ∷ more) =
    All-append (IsAllowed p) (kept_reading c claimed (for_reading m)) _
      (kept_reading-IsAllowed p c claimed (for_reading m) (for_reading-shown m))
      (readings-IsAllowed p c claimed more)

always-IsAllowed : (p : Permitted) → All (IsAllowed p) always
unfolding always is_writable
always-IsAllowed p = (
  λ h. cc,
  (
    λ h. cc,
    (
      λ h. cc,
      (
        λ h. cc,
        (λ h. cc, (λ h. cc, (λ h. cc, (λ h. cc, (λ h. cc, (λ h. cc, (λ h. cc, (λ h. cc, tt)))))))),
      ),
    ),
  ),
)

controls-IsAllowed : (p : Permitted) → All (IsAllowed p) (controls p)
unfolding controls allows same_text
controls-IsAllowed p = elim (Bool-cases p.writes) [
  | inl w ↦
      rw w (λ h. ground arith, (λ h. ground arith, (λ h. ground arith, (λ h. ground arith, tt))))
  | inr w ↦ rw w tt
]

entities-IsAllowed :
    (c : EntityCatalogue) (d : Catalogue.Catalogue) → All (IsAllowed c.permitted) (entities c d)
unfolding entities setting_entities
entities-IsAllowed c d =
    All-append (IsAllowed c.permitted) (readings c _ d.measurements) _
      (readings-IsAllowed c.permitted c _ d.measurements)
      (All-append (IsAllowed c.permitted) (setting_entities c d) _
        (settings-IsAllowed c.permitted _ (d.settings c.slots))
        (All-append (IsAllowed c.permitted) always (controls c.permitted)
          (always-IsAllowed c.permitted) (controls-IsAllowed c.permitted)))

abbrev Takes : Option (Result CommandError Change) → Type 0
Takes none = Unit
Takes (some r) = (k : List ℕ) → r ≢ err (refused k)

module _ (p : Permitted) (key : List ℕ) (a : allows p key ≡ true) where
  operate-Takes :
      (o : Option ConfigField)
      → ((f : ConfigField) → o ≡ some f → f.is_destructive ≡ false)
      → Takes (operate p key o)
  unfolding operate
  operate-Takes none h = tt
  operate-Takes (some f) h = elim (Option-cases f.action) [
    | inl n ↦ rw (h f refl, a, n) tt
    | inr (v, e) ↦ rw (h f refl, a, e) (λ k. λ q. cc)
  ]

  pair_lora_accessory-Takes : Takes (pair_lora_accessory p key)
  unfolding pair_lora_accessory
  pair_lora_accessory-Takes = elim (Bool-cases (same_text key pair_lora_accessory_key)) [
    | inl y ↦ rw (y, a) (λ k. λ q. cc)
    | inr n ↦ rw n tt
  ]

  module _ (quoted : List ℕ → List ℕ) (value : Json) where
    supply-Takes : (watts : Option ℤ) → Takes (some (supply quoted key value watts))
    unfolding supply
    supply-Takes none = λ k. λ q. cc
    supply-Takes (some watts) = λ k. λ q. cc

    reading_for-Takes :
        (withdrawing : Bool) → Takes (some (reading_for quoted p key withdrawing value))
    unfolding reading_for
    reading_for-Takes true = rw a (λ k. λ q. cc)
    reading_for-Takes false = rw a (supply-Takes (watts_in value))

    meter_reading-Takes : Takes (meter_reading quoted p key value)
    unfolding meter_reading
    meter_reading-Takes = elim (Bool-cases (same_text key meter_reading_key)) [
      | inl y ↦ rw y (reading_for-Takes false)
      | inr n ↦ elim (Bool-cases (same_text key withdraw_meter_reading_key)) [
        | inl y ↦ rw (n, y) (reading_for-Takes true)
        | inr m ↦ rw (n, m) tt
      ]
    ]

    checked-Takes : (s : Setting) (raw : Option ℕ) → Takes (some (checked quoted key value s raw))
    unfolding checked
    checked-Takes s none = λ k. λ q. cc
    checked-Takes s (some raw) = elim (Bool-cases (s.accepts raw)) [
      | inl y ↦ rw y (λ k. λ q. cc)
      | inr n ↦ rw n (λ k. λ q. cc)
    ]

    set_named-Takes : (o : Option Setting) → Takes (some (set_named quoted p key value o))
    unfolding set_named
    set_named-Takes none = λ k. λ q. cc
    set_named-Takes (some s) = rw a (checked-Takes s (raw_value s.shape value))

    or_else-Takes :
        (o : Option (Result CommandError Change)) (next : Result CommandError Change)
        → Takes o
        → Takes (some next)
        → Takes (some (or_else o next))
    or_else-Takes none next h k = k
    or_else-Takes (some r) next h k = h

    one-Takes :
        (d : Catalogue.Catalogue)
        → ((f : ConfigField)
            → find (is_action key) d.writable_config ≡ some f
            → f.is_destructive ≡ false)
        → Takes (some (one quoted d p key value))
    unfolding one action
    one-Takes d h =
        or_else-Takes (operate p key (find (is_action key) d.writable_config)) _ (operate-Takes _ h)
          (or_else-Takes (meter_reading quoted p key value) _ meter_reading-Takes (
            or_else-Takes (pair_lora_accessory p key) _ pair_lora_accessory-Takes
              (set_named-Takes (d.setting_named key))))

-- No action of the catalogue that destroys something is found under this key.
abbrev pub IsHarmless : Catalogue.Catalogue → List ℕ → Type 0
IsHarmless d key =
    (f : ConfigField) → find (is_action key) d.writable_config ≡ some f → f.is_destructive ≡ false

module _ (quoted : List ℕ → List ℕ) (c : EntityCatalogue) (d : Catalogue.Catalogue) where
  abbrev pub IsTaken : Entity → Type 0
  IsTaken e =
      is_writable e ≡ true
      → IsHarmless d e.key
      → (value : Json) (k : List ℕ) → one quoted d c.permitted e.key value ≢ err (refused k)

  IsTaken-of : (es : List Entity) → All (IsAllowed c.permitted) es → All IsTaken es
  IsTaken-of [] h = tt
  IsTaken-of (e ∷ es) h = (
    λ w harmless value k. one-Takes c.permitted e.key (h.0 w) quoted value d harmless k,
    IsTaken-of es h.1,
  )

  -- No control that is published is one that a command for it is refused: of every entity of the
  -- catalogue that is a control, and no destructive action's name, no value is answered so.
  pub entities-IsTaken : All IsTaken (entities c d)
  entities-IsTaken = IsTaken-of (entities c d) (entities-IsAllowed c d)
