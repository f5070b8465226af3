-- ===== src/Control/Registry.antt =====
-- `Registry` of src/control.rs: which session serves each device. A session handle, a bundle of
-- channels, is any type `H`; what is locked is a state that each operation returns anew, and a
-- poisoned lock, which takes a panic, is not modelled.
pub mod History
use heliobridge.Base.{
  ℕ, ◌+◌, ◌-◌, ◌^◌, Bool, true, false, Option, none, some, List, [], ◌∷◌, any, ltb, ◌==◌,
  if◌then◌else◌,
}
use heliobridge.Base.Text.Parsing.{same_text}
use heliobridge.Base.Dict.{get, insert, remove}

abbrev pub SessionId : Type 0
SessionId = ℕ

-- `u64::MAX`
abbrev pub last_session : SessionId
last_session = 2 ^ 64 - 1

-- `Connected`: the devices in the order of their serials
abbrev pub Connected : Type 0
Connected = List (List ℕ × SessionId)

-- `str`'s order
unfoldable pub precedes : List ℕ → List ℕ → Bool
precedes [] b = true
precedes (x ∷ a) [] = false
precedes (x ∷ a) (y ∷ b) = if x == y then precedes a b else ltb x y

unfoldable pub sorted_insert : List ℕ × SessionId → Connected → Connected
unfolding precedes
sorted_insert (d, s) [] = (d, s) ∷ []
sorted_insert (d, s) ((e, t) ∷ more) =
    if precedes d e then (d, s) ∷ ((e, t) ∷ more) else (e, t) ∷ sorted_insert (d, s) more

unfoldable pub same_connected : Connected → Connected → Bool
unfolding same_text
same_connected [] [] = true
same_connected ((d, s) ∷ xs) ((e, t) ∷ ys) =
    if same_text d e then if s == t then same_connected xs ys else false else false
same_connected _ _ = false

unfoldable pub contains : Connected → List ℕ → Bool
contains connected device = any (λ (entry : List ℕ × SessionId). same_text entry.0 device) connected

pub record Registry (H : Type 0) : Type 0 where
  pub entries : List (List ℕ × (SessionId × H))
  pub next_session : SessionId
  -- what the watch channel holds, and how often it was sent anew
  pub connected : Connected
  pub changes : ℕ

abbrev session_in : {H : Type 0} → SessionId → Option (SessionId × H) → Bool
session_in session none = false
session_in session (some (current, handle)) = current == session

abbrev handle_of : {H : Type 0} → Option (SessionId × H) → Option H
handle_of none = none
handle_of (some (session, handle)) = some handle

module _ {H : Type 0} where
  unfoldable pub registered : List (List ℕ × (SessionId × H)) → Connected
  unfolding sorted_insert
  registered [] = []
  registered ((device, (session, handle)) ∷ more) =
      sorted_insert (device, session) (registered more)

  -- `announce`
  unfoldable pub announce : Registry H → Registry H
  unfolding registered same_connected
  announce r =
      if same_connected r.connected (registered r.entries)
      then r
      else record r { connected = registered r.entries; changes = r.changes + 1 }

  -- `session` and `handle`
  unfoldable pub session : Registry H → List ℕ → Option (SessionId × H)
  unfolding get
  session r device = get device r.entries

  unfoldable pub handle : Registry H → List ℕ → Option H
  unfolding session
  handle r device = handle_of (session r device)

  -- What `register` inserts; an id is refused rather than issued twice.
  unfoldable pub insert_session : List ℕ → H → Registry H → Registry H
  unfolding insert
  insert_session device h r =
      if ltb r.next_session last_session
      then record r {
        entries = insert device (r.next_session, h) r.entries;
        next_session = r.next_session + 1;
      }
      else r

  unfoldable pub issued : Registry H → Option SessionId
  issued r = if ltb r.next_session last_session then some r.next_session else none

  unfoldable pub displaced : List ℕ → Registry H → Option H
  unfolding handle
  displaced device r = if ltb r.next_session last_session then handle r device else none

  -- `register`: the registration's session, and the handle of the session that is to stop
  unfoldable pub register : List ℕ → H → Registry H → Registry H × Option SessionId × Option H
  unfolding insert_session announce issued displaced
  register device h r = (announce (insert_session device h r), issued r, displaced device r)

  unfoldable pub remove_session : List ℕ → Option SessionId → Registry H → Registry H
  unfolding session remove
  remove_session device none r = r
  remove_session device (some mine) r =
      if session_in mine (session r device)
      then record r { entries = remove device r.entries }
      else r

  -- `Drop` of a registration
  unfoldable pub drop_registration : List ℕ → Option SessionId → Registry H → Registry H
  unfolding remove_session announce
  drop_registration device mine r = announce (remove_session device mine r)

abbrev pub default : {H : Type 0} → Registry H
default = record { entries = []; next_session = 0; connected = []; changes = 0 }
