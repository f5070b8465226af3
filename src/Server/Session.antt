-- ===== src/Server/Session.antt =====
-- src/server/session.rs: the state of one device's session, what it does to the world, and the
-- monad of its operations. Times are milliseconds, text is the list of its octets, and a `u64`
-- counter stops at its greatest value.
pub mod Reads
pub mod Reported
pub mod Device
pub mod Cloud
pub mod Turn
pub mod Core
pub mod Book
pub mod Moves
pub mod Invariants
pub mod Refinement
pub mod Drain
pub mod Held
pub mod Stall
pub mod Refused
use heliobridge.Base.{
  ℕ, ◌+◌, Bool, true, false, not, ◌&&◌, ◌||◌, Option, none, some, List, [], ◌∷◌, ◌++◌, min, ◌==◌,
  if◌then◌else◌, find, any, length, ltb, map,
}
use heliobridge.Base.Text.{codes}
use heliobridge.Base.Decimal.{decimal}
use heliobridge.Base.Results.{Result, ok, err}
use heliobridge.Model.{Register, Raw, Timestamp}
use heliobridge.Mqtt.{Packet, QoS}
use heliobridge.Mqtt.Stream.{StreamError}
use heliobridge.Recorder.{Stream}
use heliobridge.Driver.Arbiter.{Policy, CloudCommands, Mode, Answers}
use heliobridge.Driver.Seam.{Setting, CloudMessage}
use heliobridge.Driver.Report.{Field, Identity, Telemetry, AccessoryReading}
use heliobridge.Control.{Caller, Outcome}
use heliobridge.Base.Text.Parsing.{same_text}
use heliobridge.Server.Access.{Devices}

-- `TIME_PUSH_DELAY`, `READ_REPLY_TIMEOUT`, `ACK_REPLY_TIMEOUT`
abbrev pub time_push_delay : ℕ
time_push_delay = 4500

abbrev pub read_reply_timeout : ℕ
read_reply_timeout = 10000

abbrev pub ack_reply_timeout : ℕ
ack_reply_timeout = 5000

-- `GRANTED_QOS`, `CONNACK_NOT_AUTHORISED`
abbrev pub granted_qos : ℕ
granted_qos = 1

abbrev pub connack_not_authorised : ℕ
connack_not_authorised = 5

abbrev u64_max : ℕ
u64_max = 18446744073709551615

-- `u64::saturating_add(1)`
unfoldable pub bump : ℕ → ℕ
bump n = min (n + 1) u64_max

pub data SessionError : Type 0 where
  stream : StreamError → SessionError
  idle : SessionError
  not_connect_first : List ℕ → SessionError
  unsupported_level : ℕ → SessionError
  encode : List ℕ → SessionError

-- The `display` of each error.
unfoldable pub display : SessionError → List ℕ
display (stream e) = codes "connection failed"
display idle = codes "no packet for 630s"
display (not_connect_first kind) = codes "first packet was " ++ (kind ++ codes ", not CONNECT")
display (unsupported_level level) =
    codes "client offered MQTT protocol level " ++ (decimal level ++ codes ", this server speaks 4")
display (encode e) = codes "the driver would not send that command"

pub record SessionStats : Type 0 where
  pub frames : ℕ
  pub telemetry : ℕ
  pub buffered : ℕ
  pub rejected : ℕ
  pub undecoded : ℕ
  pub pings : ℕ
  pub reads : ℕ
  pub relay_received : ℕ
  pub relay_dropped : ℕ
  pub refused_to_device : ℕ
  pub withheld_from_cloud : ℕ
  pub update_campaign : ℕ

abbrev pub no_stats : SessionStats
no_stats = record {
  frames = 0;
  telemetry = 0;
  buffered = 0;
  rejected = 0;
  undecoded = 0;
  pings = 0;
  reads = 0;
  relay_received = 0;
  relay_dropped = 0;
  refused_to_device = 0;
  withheld_from_cloud = 0;
  update_campaign = 0;
}

-- `Described`, what the datalogger last said about itself.
pub record Described : Type 0 where
  pub declared : ℕ
  pub truncated : Bool
  pub endpoint : Option (List ℕ)
  pub summary : List ℕ
  pub fields : List Field

abbrev pub undescribed : Described
undescribed = record { declared = 0; truncated = false; endpoint = none; summary = []; fields = [] }

-- One turn of the loop in `Described::absorb`: the first field of that register is replaced, or the
-- field comes last.
unfoldable pub fold_in : Field → List Field → List Field
fold_in field [] = field ∷ []
fold_in field (held ∷ rest) =
    let kept = fold_in field rest in
    if held.register == field.register then field ∷ rest else held ∷ kept

unfoldable pub fold_all : List Field → List Field → List Field
unfolding fold_in
fold_all [] held = held
fold_all (field ∷ more) held = fold_all more (fold_in field held)

-- `Described::absorb`
unfoldable pub absorb : Described → Identity → Described
unfolding fold_all
absorb d report =
    if ltb (length report.fields) (length d.fields)
    then record d { fields = fold_all report.fields d.fields }
    else record {
      declared = report.declared;
      truncated = report.truncated;
      endpoint = report.endpoint;
      summary = report.summary;
      fields = report.fields;
    }

abbrev named : List ℕ → Option (List ℕ) → Bool
named name none = false
named name (some n) = same_text n name

abbrev pub value_of : Option Field → Option (List ℕ)
value_of none = none
value_of (some f) = some f.value

-- `Described::get`
unfoldable pub get : Described → List ℕ → Option (List ℕ)
get d name = value_of (find (λ f. named name f.name) d.fields)

-- `ReadPurpose` and `PendingRead`
pub data ReadPurpose : Type 0 where
  resync : ReadPurpose
  -- requested, reply
  verify : Option Raw → Option Caller → ReadPurpose

pub record PendingRead : Type 0 where
  pub entry : Setting
  pub purpose : ReadPurpose

-- `PendingRead::is_resync`, `requested` and `take_reply`
abbrev pub is_resync_purpose : ReadPurpose → Bool
is_resync_purpose resync = true
is_resync_purpose (verify requested reply) = false

unfoldable pub is_resync : PendingRead → Bool
is_resync r = is_resync_purpose r.purpose

abbrev requested_by : ReadPurpose → Option Raw
requested_by resync = none
requested_by (verify requested reply) = requested

unfoldable pub requested : PendingRead → Option Raw
requested r = requested_by r.purpose

abbrev pub reply_to : ReadPurpose → Option Caller
reply_to resync = none
reply_to (verify requested reply) = reply

unfoldable pub take_reply : PendingRead → Option Caller
take_reply r = reply_to r.purpose

-- What a session does besides writing to its stream: records for the recorder, answers to callers,
-- messages for the cloud, offers to the firmware store, and what the control API may show.
pub data Effect : Type 0 where
  records : Stream → List ℕ → Effect
  answers : Caller → Outcome → Effect
  forwards : CloudMessage → Effect
  offers : List ℕ → Bool → Effect
  shows_settings : List (Setting × Raw) → Effect
  -- and the registers that the report carried
  shows_identity : Described → List Register → Effect
  shows_telemetry : Telemetry → Effect
  shows_accessory : AccessoryReading → Effect
  shows_status : Effect

-- `Session`: a sender that is present only once the session is registered is `registered`, and
-- `written` and `effects` hold what went out, the newest first. The clock is read by the caller, and
-- the battery's last condition, which decides a log line, is left out.
pub record Session : Type 0 where
  pub written : List Packet
  pub effects : List Effect
  pub device_id : Option (List ℕ)
  pub subscribed : Bool
  pub stats : SessionStats
  pub send_time_push : Bool
  pub time_push_due : Option ℕ
  pub next_packet_id : ℕ
  pub device_time : Option Timestamp
  pub warned_about_skew : Bool
  pub cloud : Bool
  pub relay : Bool
  pub policy : Policy
  pub cloud_commands : CloudCommands
  pub identity : Option Described
  pub product : Option (List ℕ)
  pub recorder : Bool
  pub firmware : Bool
  pub slots : ℕ
  pub reads : List PendingRead
  pub awaiting : Option PendingRead
  pub pending_read : Option Register
  pub read_deadline : Option ℕ
  pub awaiting_ack : Option ℕ
  pub settings : List (Register × Raw)
  pub registry : Bool
  pub devices : Devices
  pub registered : Bool

-- `Policy::default`
abbrev pub default_policy : Policy
default_policy = record {
  mode = Mode.controls;
  answers = Answers.cloud_only;
  cloud_may_pair_accessories = false;
}

-- `Session::with_clock`
unfoldable pub new : Session
new = record {
  written = [];
  effects = [];
  device_id = none;
  subscribed = false;
  stats = no_stats;
  send_time_push = true;
  time_push_due = none;
  next_packet_id = 1;
  device_time = none;
  warned_about_skew = false;
  cloud = false;
  relay = false;
  policy = default_policy;
  cloud_commands = [];
  identity = none;
  product = none;
  recorder = false;
  firmware = false;
  slots = 1;
  reads = [];
  awaiting = none;
  pending_read = none;
  read_deadline = none;
  awaiting_ack = none;
  settings = [];
  registry = false;
  devices = record { serials = [] };
  registered = false;
}

-- When an operation runs: `Instant::now()`, and the wall clock's `clock.now()`.
pub record Moment : Type 0 where
  pub instant : ℕ
  pub wall : Timestamp

-- An operation that may end the session: the state that it leaves, and its result.
abbrev pub Act : Type 0 → Type 0
Act A = Session → Session × Result SessionError A

abbrev pub done : {A : Type 0} → A → Act A
done a s = (s, ok a)

abbrev pub fail : {A : Type 0} → SessionError → Act A
fail e s = (s, err e)

abbrev pub modify : (Session → Session) → Act (Unit {0})
modify f s = (f s, ok tt)

abbrev pub continues :
    {A B : Type 0} → (A → Act B) → Session × Result SessionError A → Session × Result SessionError B
continues f (s, ok a) = f a s
continues f (s, err e) = (s, err e)

infixl 5 ◌>>=◌ ◌>>◌
abbrev pub ◌>>=◌ : {A B : Type 0} → Act A → (A → Act B) → Act B
(m >>= f) s = continues f (m s)

abbrev pub ◌>>◌ : {B : Type 0} → Act (Unit {0}) → Act B → Act B
m >> k = m >>= λ _. k

abbrev pub note : Effect → Session → Session
note e s = record s { effects = e ∷ s.effects }

-- What one statement logs happens only if there is someone to log it to.
abbrev pub note_if : Bool → Effect → Session → Session
note_if test e s = if test then note e s else s

-- `Session::record`
unfoldable pub record_frame : Stream → List ℕ → Session → Session
record_frame channel payload s = note_if s.recorder (records channel payload) s
