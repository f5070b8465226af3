-- ===== src/HomeAssistant/Publisher.antt =====
-- The publisher of src/homeassistant/publisher.rs: which session each link publishes for, what a
-- broker's events and the end of a session do, and the changes that a command hands over. The links
-- run apart (HomeAssistant.Link); a link is known here by its session, and a handle says whether its
-- channel of requests is closed.
pub mod Linked
use heliobridge.Base.{
  ℕ, ◌+◌, ◌-◌, ◌^◌, Bool, true, false, Option, none, some, List, [], ◌∷◌, ◌++◌, map, min, ◌==◌,
  if◌then◌else◌,
}
use heliobridge.Base.Dict.{get, insert, remove}
use heliobridge.Base.Results.{Result, ok, err}
use heliobridge.Control.Registry.{SessionId, Registry, Connected, session, handle}
use heliobridge.Driver.Catalogue
use heliobridge.HomeAssistant.Command.{
  Json, Permitted, Change, CommandError, from_payload, confirmed, fire_and_forget, also_read,
  Delivery,
}
use heliobridge.HomeAssistant.Link.{Publication, retained}
use heliobridge.HomeAssistant.State.{status_payload, StatePayload}
use heliobridge.HomeAssistant.Topics.{
  Topics, Source, online, offline, bridge_availability, device_availability, shared,
  device_of_command,
}
use heliobridge.Control

-- What the publisher does besides keeping its state: links are spawned and stopped, and the changes
-- of a command are applied to a session in order.
pub data Deed (H : Type 0) : Type 0 where
  spawned : List ℕ → SessionId → H → Deed H
  aborted : List ℕ → SessionId → Deed H
  published : Publication → Deed H
  applied : H → List Change → Deed H

pub record Publisher (H : Type 0) : Type 0 where
  pub registry : Registry H
  -- the snapshot of the registry's watch channel
  pub devices : Connected
  pub generation : ℕ
  pub linked : List (List ℕ × SessionId)
  pub deeds : List (Deed H)

-- `Generation::next`
unfoldable pub next : ℕ → ℕ
next generation = min (generation + 1) (2 ^ 64 - 1)

pub record Surroundings (H : Type 0) : Type 0 where
  pub is_closed : H → Bool
  pub topics : Topics
  pub permitted : Permitted
  pub catalogue : Catalogue.Catalogue
  pub version : List ℕ
  pub to_vec : StatePayload → List ℕ
  pub quoted : List ℕ → List ℕ
  pub from_slice : List ℕ → Option Json

-- `Event` of broker.rs
pub data Event : Type 0 where
  connected : Event
  message : List ℕ → List ℕ → Event

abbrev device_of : List ℕ × SessionId → List ℕ
device_of entry = entry.0

abbrev is_linked : Option SessionId → SessionId → Bool
is_linked none s = false
is_linked (some t) s = t == s

module _ {H : Type 0} where
  abbrev stop_replaced : List ℕ → Option SessionId → List (Deed H)
  stop_replaced d none = []
  stop_replaced d (some s) = aborted d s ∷ []

  unfoldable pub spawn : List ℕ → SessionId → H → Publisher H → Publisher H
  unfolding get insert
  spawn d s h p = record p {
    linked = insert d s p.linked;
    deeds = p.deeds ++ (spawned d s h ∷ stop_replaced d (get d p.linked));
  }

  unfoldable pub say : Publication → Publisher H → Publisher H
  say publication p = record p { deeds = p.deeds ++ (published publication ∷ []) }

  module _ (w : Surroundings H) where
    -- One device of the walk of `link_devices`.
    unfoldable pub link_session : List ℕ → Option (SessionId × H) → Publisher H → Publisher H
    unfolding get spawn
    link_session d none p = p
    link_session d (some (s, h)) p =
        if is_linked (get d p.linked) s then p else if w.is_closed h then p else spawn d s h p

    unfoldable pub link_each : Registry H → List (List ℕ) → Publisher H → Publisher H
    unfolding link_session session
    link_each r [] p = p
    link_each r (d ∷ more) p = link_each r more (link_session d (session r d) p)

    -- `link_devices`; the registry is taken to stand still while it walks.
    unfoldable pub link_devices : Publisher H → Publisher H
    unfolding link_each
    link_devices p = link_each p.registry (map device_of p.devices) p

    -- What `session_ended` does for the session that the link serves, or when there is no link.
    unfoldable pub farewell : List ℕ → Publisher H → Publisher H
    unfolding remove say link_devices retained device_availability shared status_payload
    farewell d p = link_devices (
        say (retained (shared w.topics Source.status d) (w.to_vec (status_payload w.version false)))
          (say (retained (device_availability w.topics d) offline)
            (record p { linked = remove d p.linked })))

    abbrev is_replaced : Option SessionId → SessionId → Bool
    is_replaced none s = false
    is_replaced (some t) s = if t == s then false else true

    -- `session_ended`
    unfoldable pub session_ended : List ℕ → SessionId → Publisher H → Publisher H
    unfolding get farewell
    session_ended d s p = if is_replaced (get d p.linked) s then p else farewell d p

    unfoldable pub carry : H → Result CommandError (List Change) → Publisher H → Publisher H
    carry h (err e) p = p
    carry h (ok changes) p = record p { deeds = p.deeds ++ (applied h changes ∷ []) }

    abbrev command_for : Option H → List ℕ → Publisher H → Publisher H
    command_for none payload p = p
    command_for (some h) payload p =
        carry h (from_payload w.quoted w.from_slice w.catalogue w.permitted payload) p

    -- `handle_command`
    unfoldable pub handle_command : List ℕ → List ℕ → Publisher H → Publisher H
    unfolding handle carry from_payload
    handle_command d payload p = command_for (handle p.registry d) payload p

    abbrev command_on : Option (List ℕ) → List ℕ → Publisher H → Publisher H
    command_on none payload p = p
    command_on (some d) payload p = handle_command d payload p

    -- `handle`
    unfoldable pub handle_event : Event → Publisher H → Publisher H
    unfolding say retained bridge_availability next link_devices device_of_command handle_command
    handle_event connected p =
        let told : Publisher H = say (retained (bridge_availability w.topics) online) p in
        link_devices (record told { generation = next told.generation })
    handle_event (message topic payload) p = command_on (device_of_command w.topics topic) payload p

-- What `apply` asks of the session for a change: one request, and for a confirmed change of the
-- gating flag a second one, if the first was answered.
unfoldable pub first_request : Change → Control.Action
first_request change = elim change.delivery [
  | confirmed ↦ Control.apply change.command
  | fire_and_forget ↦ Control.send change.command
]

abbrev re_read : Option ℕ → List Control.Action
re_read none = []
re_read (some register) = Control.refresh register ∷ []

unfoldable pub second_request : Delivery → Bool → Change → List Control.Action
unfolding also_read
second_request fire_and_forget answered change = []
second_request confirmed false change = []
second_request confirmed true change = re_read (also_read change)

unfoldable pub requests_of : Bool → Change → List Control.Action
unfolding first_request second_request
requests_of answered change = first_request change ∷ second_request change.delivery answered change
