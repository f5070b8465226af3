-- ===== src/Control.antt =====
-- src/control.rs: what a request wants of a session, and what became of it. A `oneshot::Sender` is
-- the number of the caller that waits at the other end.
pub mod Registry
use heliobridge.Base.{ℕ, Bool, true, false, Option, none, some, List, ◌==◌}
use heliobridge.Base.Text.{codes}
use heliobridge.Model.{Register, Raw}
use heliobridge.Driver.Commands.{Command}
use heliobridge.Driver.Seam.{Setting, ConfigField}

abbrev pub Caller : Type 0
Caller = ℕ

pub data Action : Type 0 where
  apply : Command → Action
  refresh : Register → Action
  send : Command → Action

pub record Request : Type 0 where
  pub action : Action
  pub reply : Caller

pub record Outcome : Type 0 where
  pub name : Option (List ℕ)
  pub register : ℕ
  pub requested : Option ℕ
  pub stored : Option ℕ
  pub value : Option (List ℕ)
  pub confirmed : Bool
  pub error : Option (List ℕ)
  pub refused : Bool

-- `Outcome::timed_out`
unfoldable pub timed_out : Setting → Option Raw → Outcome
timed_out setting requested = record {
  name = some setting.name;
  register = setting.register;
  requested = requested;
  stored = none;
  value = none;
  confirmed = false;
  error = some (codes "the device did not answer the read-back");
  refused = false;
}

-- The value and the field that `Outcome::for_config` takes out of its arguments.
unfoldable pub config_value : Command → Option (List ℕ)
config_value (Command.write_config r value) = some value
config_value _ = none

unfoldable pub field_name : Option ConfigField → Option (List ℕ)
field_name none = none
field_name (some f) = some f.name

unfoldable pub field_register : Option ConfigField → ℕ
field_register none = 0
field_register (some f) = f.register

-- `Outcome::for_config`
unfoldable pub for_config : Command → Option ConfigField → Outcome
unfolding config_value field_name field_register
for_config command field = record {
  name = field_name field;
  register = field_register field;
  requested = none;
  stored = none;
  value = config_value command;
  confirmed = false;
  error = none;
  refused = false;
}

unfoldable pub caveat : Command → List ℕ
caveat (Command.write_config r value) =
    codes "sent; a config write draws no acknowledgement, so the device's action is unverified"
caveat _ =
    codes "sent; the answer arrives as a separate report, so read the register back to see it"

-- `Outcome::sent`, `Outcome::not_sent` and `Outcome::refused`
unfoldable pub sent : Command → Option ConfigField → Outcome
unfolding for_config caveat
sent command field = record (for_config command field) {
  confirmed = true;
  error = some (caveat command);
}

unfoldable pub not_sent : Command → Option ConfigField → List ℕ → Outcome
unfolding for_config
not_sent command field failure = record (for_config command field) {
  confirmed = false;
  error = some failure;
}

unfoldable pub refusal_of : Command → Option ConfigField → List ℕ → Outcome
unfolding not_sent
refusal_of command field failure = record (not_sent command field failure) { refused = true }

-- `requested.is_none_or(|wanted| wanted == stored)`
unfoldable pub agrees : Option Raw → Raw → Bool
agrees none stored = true
agrees (some wanted) stored = wanted == stored

-- `Outcome::read_back`
unfoldable pub read_back : Setting → Option Raw → Raw → Outcome
unfolding agrees
read_back setting requested stored = record {
  name = some setting.name;
  register = setting.register;
  requested = requested;
  stored = some stored;
  value = some (setting.decode stored);
  confirmed = agrees requested stored;
  error = none;
  refused = false;
}
