-- ===== src/Server/Session/Reported.antt =====
-- The sink of src/server/session.rs: what the session does about each thing that a frame says.
use heliobridge.Base.{ℕ, Option, none, some, List, [], ◌∷◌, map, if◌then◌else◌}
use heliobridge.Base.Text.{codes}
use heliobridge.Model.{Register, Timestamp, is_plausible}
use heliobridge.Driver.Seam.{Driver}
use heliobridge.Driver.Report.{
  Said, telemetry, identity, read_answer, write_ack, snapshot, accessory_reading, undecoded,
  unknown, unreadable, Telemetry, Identity, AccessoryReading,
}
use heliobridge.Server.Session.{
  Session, Described, undescribed, absorb, get, bump, note_if, shows_identity, shows_telemetry,
  shows_accessory, shows_status,
}
use heliobridge.Server.Session.Reads.{accept_read, accept_snapshot}

-- `Session::publish_status` and `Session::publish_telemetry`, without the contents
unfoldable pub publish_status : Session → Session
publish_status s = note_if s.registered shows_status s

unfoldable pub publish_telemetry : Telemetry → Session → Session
publish_telemetry t s = note_if s.registered (shows_telemetry t) s

-- `Session::publish_accessory`
unfoldable pub publish_accessory : AccessoryReading → Session → Session
publish_accessory r s = note_if s.registered (shows_accessory r) s

unfoldable pub show_identity : Option Described → List Register → Session → Session
show_identity none reported s = s
show_identity (some d) reported s = note_if s.registered (shows_identity d reported) s

-- `Session::publish_identity`
unfoldable pub publish_identity : List Register → Session → Session
unfolding show_identity
publish_identity reported s = show_identity s.identity reported s

-- `telemetry.at.filter(Timestamp::is_plausible)`, or the reading that is held already
unfoldable pub newer_time : Option Timestamp → Option Timestamp → Option Timestamp
unfolding is_plausible
newer_time none held = held
newer_time (some stamp) held = if is_plausible stamp then some stamp else held

-- `Reported::telemetry`
unfoldable pub take_telemetry : Telemetry → Session → Session
unfolding publish_telemetry publish_status bump newer_time
take_telemetry t s =
    if t.buffered
    then record s { stats = record s.stats { buffered = bump s.stats.buffered } }
    else publish_status (
        publish_telemetry t (record s {
          stats = record s.stats { telemetry = bump s.stats.telemetry };
          device_time = newer_time t.at s.device_time;
        }))

-- `identity.get_or_insert_with(Described::default).absorb(report)`
unfoldable pub described_by : Option Described → Identity → Described
unfolding absorb
described_by none report = absorb undescribed report
described_by (some d) report = absorb d report

abbrev device_type_of : Option Described → Option (List ℕ)
device_type_of none = none
device_type_of (some d) = get d (codes "device_type")

module _ (D : Driver) where
  -- `Session::note_product`
  unfoldable pub note_product : Session → Session
  note_product s = record s { product = D.product_name (device_type_of s.identity) }

  -- `Session::accept_identity`
  unfoldable pub accept_identity : Identity → Session → Session
  unfolding note_product publish_identity described_by
  accept_identity report s =
      publish_identity (map (λ f. f.register) report.fields)
        (note_product (record s { identity = some (described_by s.identity report) }))

  -- One call of the sink.
  unfoldable pub take : ℕ → Said → Session → Session
  unfolding take_telemetry accept_identity accept_read accept_snapshot publish_accessory bump
  take now (telemetry t) s = take_telemetry t s
  take now (identity i) s = accept_identity i s
  take now (read_answer register raw) s =
      accept_read D now register raw
        (record s { stats = record s.stats { reads = bump s.stats.reads } })
  take now (write_ack a) s = record s { awaiting_ack = none }
  take now (snapshot n) s = accept_snapshot D n.values s
  take now (accessory_reading r) s = publish_accessory r s
  take now (undecoded kind len) s = record s {
    stats = record s.stats { undecoded = bump s.stats.undecoded };
  }
  take now (unknown kind len) s = record s {
    stats = record s.stats { undecoded = bump s.stats.undecoded };
  }
  take now (unreadable kind failure) s = record s {
    stats = record s.stats { rejected = bump s.stats.rejected };
  }

  unfoldable pub take_all : ℕ → List Said → Session → Session
  unfolding take
  take_all now [] s = s
  take_all now (one ∷ more) s = take_all now more (take now one s)

  -- `Session::handle_frame`
  unfoldable pub handle_frame : ℕ → D.Frame → Session → Session
  unfolding take_all
  handle_frame now frame s = take_all now (D.report frame) s
