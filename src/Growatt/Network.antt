-- ===== src/Growatt/Network.antt =====
-- src/growatt/v7/network.rs: accessories on the network, the commands that look for them, pair them
-- and forget them, and the list that the device reports.
use heliobridge.Base.{
  ℕ, ◌+◌, ◌/◌, ◌%◌, Bool, true, false, not, ◌&&◌, ◌||◌, Option, none, some, List, [], ◌∷◌, ◌++◌,
  length, all, any, ltb, ◌==◌, if◌then◌else◌, String,
}
use heliobridge.Base.Text.{codes, is_ascii_digit}
use heliobridge.Base.Text.Parsing.{
  trim, trim_nul, split, splitn, strip_prefix, same_text, to_ascii_lowercase, parse_unsigned,
  parse_radix, digit,
}
use heliobridge.Base.Decimal.{decimal}

abbrev pub prefix : List ℕ
prefix = codes "111-7"

abbrev pub mode : ℕ
mode = 7

-- 2 to the power of `SERIAL_BITS`, 48
abbrev pub serial_limit : ℕ
serial_limit = 281474976710656

abbrev u16_limit : ℕ
u16_limit = 65535

abbrev u64_limit : ℕ
u64_limit = 18446744073709551615

-- `MODELS`: a name, its mDNS service and its accessory type
unfoldable pub models : List (String × String × ℕ)
models =
    ("shelly-3em", "_http._tcp.", 1)
    ∷ (("shelly-pro-3em", "_http._tcp.", 2)
        ∷ (("shelly-pro-3em-3ct63", "_http._tcp.", 8)
            ∷ (("shelly-pro-em-50", "_http._tcp.", 7)
                ∷ (("shelly-pro-1pm", "_http._tcp.", 6)
                    ∷ (("everhome-ecotracker", "_everhome._tcp.", 3)
                        ∷ (("sparky-p1", "_chargee_p1._tcp.", 50) ∷ []))))))

-- `Serial(u64)`
abbrev pub Serial : Type 0
Serial = ℕ

-- `Serial::new`
unfoldable pub new_serial : ℕ → Option Serial
new_serial value = if ltb value serial_limit then some value else none

abbrev and_then : {A B : Type 0} → Option A → (A → Option B) → Option B
and_then none f = none
and_then (some a) f = f a

abbrev is_separator : ℕ → Bool
is_separator a = a == 0x3a || a == 0x2d

unfoldable pub without_separators : List ℕ → List ℕ
without_separators [] = []
without_separators (a ∷ rest) =
    let kept = without_separators rest in if is_separator a then kept else a ∷ kept

abbrev is_hexdigit : ℕ → Bool
is_hexdigit a = elim (digit a) [ none ↦ false | some d ↦ true ]

-- `Serial::from_mac`
unfoldable pub from_mac : List ℕ → Option Serial
unfolding without_separators digit new_serial
from_mac text =
    let digits : List ℕ = without_separators text in
    if length digits == 12 && all is_hexdigit digits
    then and_then (parse_radix 16 u64_limit digits) new_serial
    else none

abbrev is_empty_text : List ℕ → Bool
is_empty_text [] = true
is_empty_text (a ∷ rest) = false

-- `Serial::parse`
unfoldable pub parse_serial : List ℕ → Option Serial
unfolding from_mac new_serial
parse_serial untrimmed =
    let text : List ℕ = trim untrimmed in
    if any is_separator text
    then from_mac text
    else if not (is_empty_text text) && all is_ascii_digit text
    then and_then (parse_unsigned u64_limit text) new_serial
    else from_mac text

-- `format!("{octet:02x}")`
unfoldable pub hex_digit : ℕ → ℕ
hex_digit d = if ltb d 10 then 48 + d else 87 + d

unfoldable pub hex_octet : ℕ → List ℕ
unfolding hex_digit
hex_octet b = hex_digit (b / 16) ∷ (hex_digit (b % 16) ∷ [])

-- The last six octets of `to_be_bytes`.
unfoldable pub serial_octets : Serial → List ℕ
serial_octets n =
    (n / 1099511627776 % 256)
    ∷ ((n / 4294967296 % 256)
        ∷ ((n / 16777216 % 256) ∷ ((n / 65536 % 256) ∷ ((n / 256 % 256) ∷ ((n % 256) ∷ [])))))

unfoldable pub joined : List ℕ → List ℕ
unfolding hex_octet
joined [] = []
joined (b ∷ []) = hex_octet b
joined (b ∷ (c ∷ rest)) = hex_octet b ++ (0x3a ∷ joined (c ∷ rest))

-- `Serial::mac`
unfoldable pub mac : Serial → List ℕ
unfolding serial_octets joined
mac n = joined (serial_octets n)

pub record Search : Type 0 where
  pub service : List ℕ
  pub accessory : ℕ

unfoldable pub search_in : List ℕ → List (String × String × ℕ) → Option Search
search_in wanted [] = none
search_in wanted ((name, service, accessory) ∷ more) =
    if same_text (codes name) wanted
    then some (record { service = codes service; accessory = accessory })
    else search_in wanted more

-- `Search::of_model`
unfoldable pub of_model : List ℕ → Option Search
unfolding search_in models
of_model model = search_in (to_ascii_lowercase (trim model)) models

-- `Search::start`
unfoldable pub start : Search → List ℕ
start s =
    codes "ADD:" ++ (prefix ++ (codes "-" ++ (s.service ++ (codes "," ++ decimal s.accessory))))

-- `FORGET_PAYLOAD`, and `forget`
abbrev forget_payload : List ℕ
forget_payload = codes "_http._tcp.,0"

unfoldable pub forget : ℕ → List ℕ
forget entry =
    codes "DEL:"
    ++ (decimal entry ++ (codes "-" ++ (decimal mode ++ (codes "-" ++ forget_payload))))

pub record Pairing : Type 0 where
  pub serial : Serial
  pub access : ℕ

-- `Pairing::command` and `Pairing::in_use`
unfoldable pub pairing_command : Pairing → List ℕ
pairing_command p =
    codes "CRL:"
    ++ (prefix
        ++ (codes "-add:sn," ++ (decimal p.serial ++ (codes "|access," ++ decimal p.access))))

unfoldable pub in_use : Pairing → Bool
in_use p = p.access == 0

-- `State`
pub data State : Type 0 where
  registered paired deleted : State
  other : ℕ → State

-- `State::of`, `code`, `label` and `is_paired`
unfoldable pub state_of : ℕ → State
state_of value =
    if value == 0
    then registered
    else if value == 3
    then paired
    else if value == 5
    then deleted
    else other value

unfoldable pub code : State → ℕ
code registered = 0
code paired = 3
code deleted = 5
code (other value) = value

unfoldable pub label : State → String
label registered = "registered"
label paired = "paired"
label deleted = "deleted"
label (other value) = "unknown"

unfoldable pub is_paired : State → Bool
is_paired paired = true
is_paired registered = false
is_paired deleted = false
is_paired (other value) = false

pub record Entry : Type 0 where
  pub number : ℕ
  pub mode : ℕ
  pub state : State
  pub name : Option (List ℕ)
  pub serial : Option Serial
  pub address : Option (List ℕ)

-- `Entry::kind`
unfoldable pub kind : Entry → String
kind e = if e.mode == 1 then "dialled" else if e.mode == 7 then "discovered" else "unknown"

abbrev non_empty : List ℕ → Option (List ℕ)
non_empty [] = none
non_empty (a ∷ rest) = some (a ∷ rest)

-- The row's second and third fields, which may be missing.
abbrev field_or_empty : List (List ℕ) → List ℕ
field_or_empty [] = []
field_or_empty (f ∷ fs) = f

abbrev fields_after : List (List ℕ) → List (List ℕ)
fields_after [] = []
fields_after (f ∷ fs) = fs

-- The three numbers of a row's head.
unfoldable pub entry_of : List (List ℕ) → List ℕ → List ℕ → Option Entry
unfolding state_of parse_serial
entry_of (a ∷ (b ∷ (c ∷ []))) serial address = and_then (parse_unsigned u16_limit a) λ number.
    and_then (parse_unsigned u16_limit b) λ mode. and_then (parse_unsigned u16_limit c) λ state.
      some (record {
        number = number;
        mode = mode;
        state = state_of state;
        name = non_empty (trim serial);
        serial = parse_serial serial;
        address = non_empty (trim address);
      })
entry_of _ serial address = none

unfoldable pub entry_fields : List (List ℕ) → Option Entry
unfolding entry_of
entry_fields [] = none
entry_fields (head ∷ more) =
    entry_of (split 0x2d head) (field_or_empty more) (field_or_empty (fields_after more))

-- `Entry::parse_one`
unfoldable pub parse_one : List ℕ → Option Entry
unfolding entry_fields
parse_one untrimmed =
    let row : List ℕ = trim_nul untrimmed in
    if is_empty_text row then none else entry_fields (splitn 3 0x2c row)

unfoldable pub parse_rows : List (List ℕ) → List Entry
unfolding parse_one
parse_rows [] = []
parse_rows (row ∷ rows) =
    let rest = parse_rows rows in elim (parse_one row) [ none ↦ rest | some e ↦ e ∷ rest ]

-- `Entry::parse_list`
unfoldable pub parse_list : List ℕ → List Entry
unfolding parse_rows
parse_list value = elim (strip_prefix (codes "DEV:") (trim_nul value)) [
  | none ↦ []
  | some body ↦ parse_rows (split 0x26 body)
]

-- `found`
unfoldable pub found : List ℕ → Option Serial
unfolding parse_serial
found value =
    and_then (parse_serial (trim_nul value)) λ serial. if serial == 0 then none else some serial
