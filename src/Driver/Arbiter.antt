-- ===== src/Driver/Arbiter.antt =====
-- src/driver/arbiter.rs: what a frame intends, which party a command came from, and the relay policy.
-- An `Instant` is a number of milliseconds on the monotonic clock.
pub mod Authority
pub mod Claims
pub mod Queue
use heliobridge.Base.{
  ℕ, suc, ◌+◌, ◌-◌, Bool, true, false, ◌&&◌, Option, none, some, List, [], ◌∷◌, ◌++◌, ltb, leb,
  length, ◌==◌, if◌then◌else◌,
}
use heliobridge.Model.{Register}

-- `ACCESSORY_LIST`
abbrev pub accessory_list : Register
accessory_list = 122

-- `COMMAND_TTL`, 15 s
abbrev pub command_ttl : ℕ
command_ttl = 15000

pub data Direction : Type 0 where
  to_device to_cloud : Direction

pub data Intent : Type 0 where
  telemetry settings_snapshot identity : Intent
  write_settings : Register → Register → Intent
  write_config : Register → Intent
  read_request : Register → Intent
  read_response : Register → Intent
  write_ack : Register → Register → Intent
  unrecognised : Intent

-- `Intent::needs_attribution`
unfoldable pub needs_attribution : Intent → Bool
needs_attribution (read_response r) = true
needs_attribution (write_ack s e) = true
needs_attribution _ = false

pub data Originator : Type 0 where
  cloud unknown : Originator

-- One outstanding command: the registers it names, inclusive, and when it was remembered.
pub record Pending : Type 0 where
  pub from : Register
  pub to : Register
  pub at : ℕ

-- `CloudCommands`: the queue, oldest first.
abbrev pub CloudCommands : Type 0
CloudCommands = List Pending

abbrev pub is_live : ℕ → Pending → Bool
is_live now p = ltb (now - p.at) command_ttl

-- `CloudCommands::expire`; `saturating_duration_since` is the subtraction that stops at 0.
unfoldable pub expire : ℕ → CloudCommands → CloudCommands
expire now [] = []
expire now (p ∷ ps) = let rest = expire now ps in if is_live now p then p ∷ rest else rest

-- The registers that `remember` and `claim` read off an intent.
abbrev pub commanded : Intent → Option (Register × Register)
commanded (write_settings s e) = some (s, e)
commanded (read_request r) = some (r, r)
commanded _ = none

abbrev pub answered : Intent → Option (Register × Register)
answered (write_ack s e) = some (s, e)
answered (read_response r) = some (r, r)
answered _ = none

-- `CloudCommands::remember`
unfoldable pub remember : Intent → ℕ → CloudCommands → CloudCommands
remember intent now q = elim (commanded intent) [
  | none ↦ q
  | some (s, e) ↦ expire now q ++ (record { from = s; to = e; at = now } ∷ [])
]

abbrev pub covers : Register → Register → Pending → Bool
covers s e p = leb p.from s && leb e p.to

-- `iter().position(..)` and the `remove` of what it finds.
unfoldable pub take_first : Register → Register → CloudCommands → Option CloudCommands
take_first s e [] = none
take_first s e (p ∷ ps) =
    let rest = take_first s e ps in
    if covers s e p then some ps else elim rest [ none ↦ none | some qs ↦ some (p ∷ qs) ]

-- `CloudCommands::claim`
unfoldable pub claim : Intent → ℕ → CloudCommands → Originator × CloudCommands
claim intent now q = elim (answered intent) [
  | none ↦ (unknown, q)
  | some (s, e) ↦ elim (take_first s e (expire now q)) [
    | none ↦ (unknown, expire now q)
    | some left ↦ (cloud, left)
  ]
]

-- `CloudCommands::outstanding`
abbrev pub outstanding : CloudCommands → ℕ
outstanding q = length q

pub data Refusal : Type 0 where
  observer_mode config_write unrecognised not_cloud_originated : Refusal

pub data Decision : Type 0 where
  allow : Decision
  refuse : Refusal → Decision

-- `Decision::allowed` and `Decision::refusal`
unfoldable pub allowed : Decision → Bool
allowed allow = true
allowed (refuse r) = false

unfoldable pub refusal : Decision → Option Refusal
refusal allow = none
refusal (refuse r) = some r

pub data Mode : Type 0 where
  full controls observer : Mode

-- `Mode::cloud_may_write_config`
unfoldable pub cloud_may_write_config : Mode → Bool
cloud_may_write_config full = true
cloud_may_write_config controls = false
cloud_may_write_config observer = false

pub data Answers : Type 0 where
  all cloud_only : Answers

pub record Policy : Type 0 where
  pub mode : Mode
  pub answers : Answers
  pub cloud_may_pair_accessories : Bool

-- `Policy::OPEN`
abbrev pub open_policy : Policy
open_policy = record { mode = full; answers = all; cloud_may_pair_accessories = true }

-- The `Mode::Controls` arm of `Policy::to_device`.
unfoldable pub controls_to_device : Policy → Intent → Decision
controls_to_device p (write_settings s e) = allow
controls_to_device p (read_request r) = allow
controls_to_device p (write_config r) =
    if p.cloud_may_pair_accessories && r == accessory_list then allow else refuse config_write
controls_to_device p _ = refuse Refusal.unrecognised

-- `Policy::to_device`
unfoldable pub decide_to_device : Policy → Intent → Decision
unfolding controls_to_device
decide_to_device p intent = elim p.mode [
  | full ↦ allow
  | observer ↦ refuse observer_mode
  | controls ↦ controls_to_device p intent
]

abbrev by_originator : Originator → Decision
by_originator cloud = allow
by_originator unknown = refuse not_cloud_originated

-- `Policy::to_cloud`
unfoldable pub decide_to_cloud : Policy → Intent → Originator → Decision
decide_to_cloud p intent originator = elim p.answers [
  | all ↦ allow
  | cloud_only ↦ elim intent [
    | read_response r ↦ by_originator originator
    | write_ack s e ↦ by_originator originator
    | _ ↦ allow
  ]
]

-- `Policy::evaluate`
unfoldable pub evaluate : Policy → Direction → Intent → Originator → Decision
unfolding decide_to_device decide_to_cloud
evaluate p to_device intent originator = decide_to_device p intent
evaluate p to_cloud intent originator = decide_to_cloud p intent originator
