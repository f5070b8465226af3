-- ===== src/Tests/Links.antt =====
-- A link and the publisher of src/homeassistant/publisher.rs, and the probe of src/server/probe.rs,
-- on concrete input.
use heliobridge.Base.{refl, ◌≡◌, ◌⊎◌, inl, ℕ, true, false, none, some, List, [], ◌∷◌, take, drop}
use heliobridge.Base.Text.{codes}
use heliobridge.Base.Dict.{get}
use heliobridge.Control.Registry.{default, session, register, drop_registration}
use heliobridge.Control.Registry.History.{arrive, leave, run}
use heliobridge.HomeAssistant.Command.{string}
use heliobridge.HomeAssistant.Link.{Surroundings, Link, fresh_link}
use heliobridge.HomeAssistant.Link.Turns.{
  Woke, generation_changed, telemetry_changed, settings_were, timer, quiet_at,
}
use heliobridge.HomeAssistant.Link.Turns as Turns
use heliobridge.HomeAssistant.Link.Presence.{IsTold, run-IsTold}
use heliobridge.HomeAssistant.Link.Timer.{run-quiet, said-run}
use heliobridge.HomeAssistant.Publisher.{Publisher, link_devices}
use heliobridge.HomeAssistant.Publisher as Publisher
use heliobridge.HomeAssistant.Publisher.Linked.{linked-link_devices}
use heliobridge.Server.Probe.{
  not_a_probe, Wire, concat, is_http, request, serve, verdict, alive, not_a_probe,
}
use heliobridge.Server.Probe.Healthy.{verdict-serve, left-serve}
use heliobridge.Tests.Bridge.{serial, shift, names, small, all_writes, plain, lone}

abbrev around : Surroundings
around = record {
  topics = names;
  device = serial;
  slots = 0;
  permitted = all_writes;
  offline_after = 10;
  catalogue = small;
  product_name = λ code. none;
  firmware_version = λ value. none;
  version = codes "1.0";
  document = λ e block. e.key;
  to_vec = λ object. [];
  fraction = string;
  is_idle = λ text. true;
}

abbrev unheard : Link
unheard = fresh_link none [] none

-- The broker is reached, a frame arrives, and the device goes quiet.
abbrev evening : List Woke
evening =
    generation_changed 0 1
    ∷ (telemetry_changed 5 (codes "now") (some []) ∷ (timer 99 ∷ (settings_were [] ∷ [])))

run-IsTold_example : IsTold around (Turns.run around evening unheard)
run-IsTold_example = run-IsTold around evening unheard (inl refl)

abbrev heard_once : Link
heard_once = record unheard { arrived = some 0; present = true }

due : Turns.is_due 20 (quiet_at around heard_once) ≡ true
unfolding quiet_at
due = refl

run-quiet_example :
    quiet_at around
      (Turns.run around (timer 20 ∷ (generation_changed 25 1 ∷ (timer 40 ∷ []))) heard_once)
    ≡ none
run-quiet_example =
    run-quiet around 20 (generation_changed 25 1 ∷ (timer 40 ∷ [])) heard_once due (tt, (tt, tt))

abbrev before_the_broker : List Woke
before_the_broker = telemetry_changed 5 (codes "now") (some []) ∷ (timer 99 ∷ [])

said-run_example : (Turns.run around before_the_broker unheard).said ≡ []
said-run_example = said-run around before_the_broker unheard refl (tt, (tt, tt))

-- A session is its own handle, and every session is open.
abbrev bridge : Publisher.Surroundings ℕ
bridge = record {
  is_closed = λ h. false;
  topics = names;
  permitted = all_writes;
  catalogue = small;
  version = codes "1.0";
  to_vec = λ object. [];
  quoted = plain;
  from_slice = lone;
}

-- It is still linked to the first session of the device.
abbrev behind : Publisher ℕ
behind = record {
  registry = run default shift;
  devices = (run default shift).connected;
  generation = 1;
  linked = (serial, 0) ∷ [];
  deeds = [];
}

served : session behind.registry serial ≡ some (1, 8)
unfolding session register drop_registration
served = refl

linked-link_devices_example : get serial (link_devices bridge behind).linked ≡ some 1
linked-link_devices_example =
    linked-link_devices bridge default (arrive serial 7) (arrive serial 8 ∷ (leave serial 0 ∷ []))
      behind serial 1 8 refl refl served refl

-- A request that arrives in two pieces.
abbrev in_two : List (List ℕ)
in_two = take 10 request ∷ (drop 10 request ∷ [])

whole : concat in_two ≡ request
unfolding request
whole = refl

verdict-serve_example :
    verdict (serve (record { arrivals = in_two; closes = true })).written ≡ alive
verdict-serve_example = verdict-serve in_two true whole

-- A peer that begins a request and then stays silent.
abbrev stalled : Wire
stalled = record { arrivals = codes "GET /he" ∷ []; closes = false }

handed_on : (serve stalled).outcome ≡ not_a_probe
unfolding serve
handed_on = refl

left-serve_example :
    ((serve stalled).left ≡ concat stalled.arrivals)
    ⊎ ((is_http [] stalled.arrivals stalled.closes ≡ some true) × (stalled.closes ≡ false))
left-serve_example = left-serve stalled handed_on
