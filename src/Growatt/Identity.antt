-- ===== src/Growatt/Identity.antt =====
-- src/growatt/v7/identity.rs: the datalogger's report of itself.
use heliobridge.Base.{
  ℕ, zero, suc, ◌+◌, Bool, true, false, Option, none, some, List, [], ◌∷◌, find, slice?, ◌==◌,
  if◌then◌else◌,
}
use heliobridge.Base.Octets.{word_at}
use heliobridge.Base.Text.Lossy.{from_utf8_lossy}
use heliobridge.Base.Results.{Result, ok, err}
use heliobridge.Model.{Register}
use heliobridge.Growatt.MessageType.{MessageType, identity_report, config_read}
use heliobridge.Growatt.Frame.{Frame, message_type, body}
use heliobridge.Growatt.Decode.{DecodeError, wrong_message_type}

-- `PREAMBLE_LEN`, `ENTRY_HEADER_LEN`
abbrev pub preamble_len : ℕ
preamble_len = 3

abbrev pub entry_header_len : ℕ
entry_header_len = 4

pub record Entry : Type 0 where
  pub register : Register
  pub value : List ℕ

pub record Identity : Type 0 where
  pub declared : ℕ
  pub entries : List Entry
  pub truncated : Bool
  pub stopped_at : Option Register

abbrev value_of : Option Entry → Option (List ℕ)
value_of none = none
value_of (some e) = some e.value

-- `Identity::value` and `Identity::reports`
unfoldable pub value : Identity → Register → Option (List ℕ)
value i register = value_of (find (λ e. e.register == register) i.entries)

abbrev is_there : Option (List ℕ) → Bool
is_there none = false
is_there (some v) = true

unfoldable pub reports : Identity → Register → Bool
unfolding value
reports i register = is_there (value i register)

-- One turn of the loop of `Identity::apply`.
unfoldable pub apply_one : Entry → List Entry → List Entry
apply_one newer [] = newer ∷ []
apply_one newer (held ∷ rest) =
    let kept = apply_one newer rest in
    if held.register == newer.register
    then record held { value = newer.value } ∷ rest
    else held ∷ kept

unfoldable pub apply_all : List Entry → List Entry → List Entry
unfolding apply_one
apply_all [] held = held
apply_all (newer ∷ more) held = apply_all more (apply_one newer held)

-- `Identity::apply`
unfoldable pub apply : Identity → Identity → Identity
unfolding apply_all
apply i newer = record i { entries = apply_all newer.entries i.entries }

-- Where the entries end, and why.
pub record Parsed : Type 0 where
  pub entries : List Entry
  pub truncated : Bool
  pub stopped_at : Option Register

abbrev stopped : Option Register → Parsed
stopped at = record { entries = []; truncated = true; stopped_at = at }

abbrev with_entry : Entry → Parsed → Parsed
with_entry e p = record p { entries = e ∷ p.entries }

-- The loop of `Identity::from_frame`, of which `declared` entries are still to be read.
unfoldable pub entries_from : List ℕ → ℕ → ℕ → Parsed
entries_from octets zero offset = record { entries = []; truncated = false; stopped_at = none }
entries_from octets (suc declared) offset = elim (word_at octets offset) [
  | none ↦ stopped none
  | some register ↦ elim (word_at octets (offset + 2)) [
    | none ↦ stopped (some register)
    | some length ↦
        elim (slice? octets (offset + entry_header_len) (offset + entry_header_len + length)) [
          | none ↦ stopped (some register)
          | some value ↦
              with_entry (record { register = register; value = from_utf8_lossy value })
                (entries_from octets declared (offset + entry_header_len + length))
        ]
  ]
]

abbrev or_zero : Option ℕ → ℕ
or_zero none = 0
or_zero (some n) = n

unfoldable pub identity_in : List ℕ → Identity
unfolding entries_from
identity_in octets =
    let declared : ℕ = or_zero (word_at octets 0) in
    let parsed : Parsed = entries_from octets declared preamble_len in
    record {
      declared = declared;
      entries = parsed.entries;
      truncated = parsed.truncated;
      stopped_at = parsed.stopped_at;
    }

-- `Identity::from_frame`, on the frame's type
unfoldable pub identity_as : MessageType → List ℕ → Result DecodeError Identity
unfolding identity_in
identity_as identity_report octets = ok (identity_in octets)
identity_as config_read octets = ok (identity_in octets)
identity_as actual octets = err (wrong_message_type identity_report actual)

unfoldable pub identity_of : Frame → Result DecodeError Identity
unfolding identity_as
identity_of f = identity_as (message_type f) (body f)
