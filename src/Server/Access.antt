-- ===== src/Server/Access.antt =====
-- src/server/access.rs: which devices may be served. Filtering by network is the `ipnet` crate.
use heliobridge.Base.Text.Parsing.{same_text, trim, split}
use heliobridge.Base.{ℕ, Bool, true, false, ◌||◌, List, [], ◌∷◌, any, if◌then◌else◌}

pub record Devices : Type 0 where
  -- empty admits everything
  pub serials : List (List ℕ)

abbrev pub is_empty : {A : Type 0} → List A → Bool
is_empty [] = true
is_empty (x ∷ xs) = false

-- `Devices::is_open` and `Devices::admits`
unfoldable pub is_open : Devices → Bool
is_open d = is_empty d.serials

unfoldable pub admits : Devices → List ℕ → Bool
unfolding is_open same_text
admits d serial = is_open d || any (λ allowed. same_text allowed serial) d.serials

-- The entries of a list that are not empty once trimmed.
unfoldable pub named_in : List (List ℕ) → List (List ℕ)
named_in [] = []
named_in (entry ∷ more) =
    let rest = named_in more in
    let name : List ℕ = trim entry in if is_empty name then rest else name ∷ rest

-- `Devices::parse`
unfoldable pub parse : List ℕ → Devices
unfolding named_in
parse list = record { serials = named_in (split 0x2c list) }
