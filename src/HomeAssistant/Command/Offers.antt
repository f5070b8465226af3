-- ===== src/HomeAssistant/Command/Offers.antt =====
-- What the payloads of src/homeassistant/command.rs may turn into.
use heliobridge.Base.{
  ℕ, ◌≡◌, refl, subst, Bool, true, false, not, Option, none, some, List, All, find, if◌then◌else◌,
  arith, Bool-cases, Option-cases, inl, inr,
}
use heliobridge.Base.Results.{Result, ok, err, >>=-eq-ok, ok-injective}
use heliobridge.Base.Int.{ℤ, pos}
use heliobridge.Base.Text.Parsing.{same_text}
use heliobridge.Driver.Catalogue.{Setting, ConfigField, Catalogue}
use heliobridge.HomeAssistant.Command.{
  watts_in, codes, Json, Members, end, member, null, boolean, numeral, string, array, object,
  Permitted, allows, CommandError, Change, meter_change, pair_change, action_change, setting_change,
  operate, action, pair_lora_accessory, supply, reading_for, meter_reading, checked, set_named, one,
  all_changes, of_json, from_payload, is_action, raw_value, or_else, pair_lora_accessory_key,
  meter_reading_key, withdraw_meter_reading_key,
}

-- What a change may be: a setting of the catalogue with a value that it accepts, an action that
-- destroys nothing, a meter reading or its withdrawal, or the pairing window.
pub data IsOffered (c : Catalogue) : Change → Type 0 where
  set :
      (key : List ℕ) (s : Setting) (raw : ℕ)
      → c.setting_named key ≡ some s
      → s.accepts raw ≡ true
      → IsOffered c (setting_change key s raw)
  act :
      (key : List ℕ) (f : ConfigField) (value : List ℕ)
      → find (is_action key) c.writable_config ≡ some f
      → f.is_destructive ≡ false
      → f.action ≡ some value
      → IsOffered c (action_change key f value)
  meter :
      (key : List ℕ) (valid : Bool) (watts : ℤ) (requested : List ℕ)
      → IsOffered c (meter_change key valid watts requested)
  pair : (key : List ℕ) → IsOffered c (pair_change key)

-- A change that was asked for under a key which may be written.
pub record IsPermitted (c : Catalogue) (p : Permitted) (change : Change) : Type 0 where
  pub offered : IsOffered c change
  pub allowed : allows p change.key ≡ true

abbrev Answers : Catalogue → Permitted → Option (Result CommandError Change) → Type 0
Answers c p none = Unit
Answers c p (some (err e)) = Unit
Answers c p (some (ok change)) = IsPermitted c p change

not_allowed : (p : Permitted) (key : List ℕ) → not (allows p key) ≡ false → allows p key ≡ true
not_allowed p key h = ground arith

module _ (c : Catalogue) (p : Permitted) (key : List ℕ) where
  operate-Answers :
      (o : Option ConfigField)
      → find (is_action key) c.writable_config ≡ o
      → Answers c p (operate p key o)
  unfolding operate
  operate-Answers none h = tt
  operate-Answers (some f) h = elim (Bool-cases (f.is_destructive)) [
    | inl d ↦ rw d tt
    | inr d ↦ elim (Bool-cases (allows p key)) [
      | inr a ↦ rw (d, a) tt
      | inl a ↦ elim (Option-cases f.action) [
        | inl n ↦ rw (d, a, n) tt
        | inr (v, e) ↦ rw (d, a, e) (record { offered = act key f v h d e; allowed = a })
      ]
    ]
  ]

  action-Answers : Answers c p (action c p key)
  unfolding action
  action-Answers = operate-Answers (find (is_action key) c.writable_config) refl

  pair_lora_accessory-Answers : Answers c p (pair_lora_accessory p key)
  unfolding pair_lora_accessory
  pair_lora_accessory-Answers = elim (Bool-cases (same_text key pair_lora_accessory_key)) [
    | inr n ↦ rw n tt
    | inl y ↦ elim (Bool-cases (allows p key)) [
      | inr a ↦ rw (y, a) tt
      | inl a ↦ rw (y, a) (record { offered = pair key; allowed = a })
    ]
  ]

  module _ (quoted : List ℕ → List ℕ) (value : Json) where
    supply-Answers :
        (watts : Option ℤ)
        → allows p key ≡ true
        → Answers c p (some (supply quoted key value watts))
    unfolding supply
    supply-Answers none a = tt
    supply-Answers (some watts) a = record { offered = meter key true watts _; allowed = a }

    reading_for-Answers :
        (withdrawing : Bool) → Answers c p (some (reading_for quoted p key withdrawing value))
    unfolding reading_for
    reading_for-Answers withdrawing = elim (Bool-cases (allows p key)) [
      | inr a ↦ rw a tt
      | inl a ↦ rw a (by_kind withdrawing a)
    ]
      where
        by_kind :
            (w : Bool)
            → allows p key ≡ true
            → Answers c p (
                some (
                  if w
                  then ok (meter_change key false (pos 0) (codes "withdrawn"))
                  else supply quoted key value (watts_in value)))
        by_kind true a = record { offered = meter key false (pos 0) _; allowed = a }
        by_kind false a = supply-Answers (watts_in value) a

    meter_reading-Answers : Answers c p (meter_reading quoted p key value)
    unfolding meter_reading
    meter_reading-Answers = elim (Bool-cases (same_text key meter_reading_key)) [
      | inl y ↦ rw y (reading_for-Answers false)
      | inr n ↦ elim (Bool-cases (same_text key withdraw_meter_reading_key)) [
        | inl y ↦ rw (n, y) (reading_for-Answers true)
        | inr m ↦ rw (n, m) tt
      ]
    ]

    checked-Answers :
        (s : Setting) (raw : Option ℕ)
        → c.setting_named key ≡ some s
        → allows p key ≡ true
        → Answers c p (some (checked quoted key value s raw))
    unfolding checked
    checked-Answers s none h a = tt
    checked-Answers s (some raw) h a = elim (Bool-cases (s.accepts raw)) [
      | inr n ↦ rw n tt
      | inl y ↦ rw y (record { offered = set key s raw h y; allowed = a })
    ]

    set_named-Answers :
        (o : Option Setting)
        → c.setting_named key ≡ o
        → Answers c p (some (set_named quoted p key value o))
    unfolding set_named
    set_named-Answers none h = tt
    set_named-Answers (some s) h = elim (Bool-cases (allows p key)) [
      | inr a ↦ rw a tt
      | inl a ↦ rw a (checked-Answers s (raw_value s.shape value) h a)
    ]

    or_else-Answers :
        (o : Option (Result CommandError Change)) (next : Result CommandError Change)
        → Answers c p o
        → Answers c p (some next)
        → Answers c p (some (or_else o next))
    or_else-Answers none next h k = k
    or_else-Answers (some r) next h k = h

    one-IsPermitted :
        (change : Change) → one quoted c p key value ≡ ok change → IsPermitted c p change
    unfolding one
    one-IsPermitted change h =
        subst (λ r. Answers c p (some r)) h
          (or_else-Answers (action c p key) _ action-Answers (
            or_else-Answers (meter_reading quoted p key value) _ meter_reading-Answers (
              or_else-Answers (pair_lora_accessory p key) _ pair_lora_accessory-Answers
                (set_named-Answers (c.setting_named key) refl))))

module _ (quoted : List ℕ → List ℕ) (c : Catalogue) (p : Permitted) where
  all_changes-IsPermitted :
      (members : Members) (changes : List Change)
      → all_changes quoted c p members ≡ ok changes
      → All (IsPermitted c p) changes
  unfolding all_changes
  all_changes-IsPermitted end changes h = subst (All (IsPermitted c p)) (ok-injective h) tt
  all_changes-IsPermitted (member key value more) changes h =
      let (change, e, k) = >>=-eq-ok (one quoted c p key value) _ h in
      let (rest, f, l) = >>=-eq-ok (all_changes quoted c p more) _ k in
      subst (All (IsPermitted c p)) (ok-injective l)
        (one-IsPermitted c p key quoted value change e, all_changes-IsPermitted more rest f)

  of_json-IsPermitted :
      (o : Option Json) (changes : List Change)
      → of_json quoted c p o ≡ ok changes
      → All (IsPermitted c p) changes
  unfolding of_json
  of_json-IsPermitted none changes h = cc
  of_json-IsPermitted (some null) changes h = cc
  of_json-IsPermitted (some (boolean b)) changes h = cc
  of_json-IsPermitted (some (numeral n)) changes h = cc
  of_json-IsPermitted (some (string t)) changes h = cc
  of_json-IsPermitted (some array) changes h = cc
  of_json-IsPermitted (some (object end)) changes h = cc
  of_json-IsPermitted (some (object (member key value more))) changes h =
      all_changes-IsPermitted (member key value more) changes h

  -- Whatever octets arrive, each change that they turn into is a setting of the catalogue with a
  -- value that it accepts, an action that destroys nothing, a meter reading or the pairing window,
  -- under a key that may be written.
  pub from_payload-IsPermitted :
      (from_slice : List ℕ → Option Json) (payload : List ℕ) (changes : List Change)
      → from_payload quoted from_slice c p payload ≡ ok changes
      → All (IsPermitted c p) changes
  unfolding from_payload
  from_payload-IsPermitted from_slice payload changes h =
      of_json-IsPermitted (from_slice payload) changes h
