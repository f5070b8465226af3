-- ===== src/Lib.antt =====
-- Verification of heliobridge, a bridge between Growatt dataloggers, their vendor's cloud and Home
-- Assistant. The device speaks MQTT; each PUBLISH carries one frame of the vendor's protocol. The
-- bridge decodes the frames, sends settings writes of its own, and relays between device and cloud
-- what its policy allows.
--
-- Parts, and the code that each models:
--   Model            src/model.rs: registers, raw words, the device's clock reading
--   Model.Repeat     src/model.rs: the weekdays of a schedule slot
--   Driver.Arbiter   src/driver/arbiter.rs: Policy::evaluate, and the CloudCommands queue that tells
--                    which answers are the cloud's
--   Growatt.Header   src/growatt/header.rs: the header in front of every frame
--   Growatt.Frame, Growatt.MessageType
--                    src/growatt/v7/frame.rs: Frame::parse, new, to_wire and the obfuscation
--   Growatt.Registers
--                    src/growatt/v7/registers.rs: the allowlist of holding registers, their domains
--                    and the schedule slots
--   Growatt.Encode, Growatt.Encode.Body
--                    src/growatt/v7/encode.rs: the guards of Command, its bodies and its read-backs
--   Growatt.Decode   src/growatt/v7/decode.rs: answers, acknowledgements, config writes, snapshots
--   Growatt.Classify src/growatt/v7/classify.rs: Frame::intent, which the policy judges
--   Growatt.Commands src/growatt/commands.rs, v7/meter.rs and v7/lora.rs: what the server asks for, as
--                    a command and its frame
--   Growatt.Network  src/growatt/v7/network.rs: accessories on the network
--   Growatt.Identity src/growatt/v7/identity.rs: the datalogger's report of itself
--   Growatt.Product  src/growatt/product.rs and v7/version.rs: products and firmware versions
--   Mqtt             src/mqtt.rs: Packet::decode and encode with Reader and Writer (Cursor), the
--                    flags, and PacketStream::next_packet (Stream)
--   Recorder         src/record.rs: the format of a recorded frame
--   Driver.Seam, Driver.Commands, Driver.Report
--                    src/driver.rs and the traits of src/driver: what a session asks of a
--                    manufacturer's driver, as a record of operations
--   Driver.Shapes    src/driver/catalogue.rs: the texts that a setting accepts
--   Driver.Catalogue src/driver/catalogue.rs: settings, measurements, config fields and catalogues
--   Growatt.Catalogue, Growatt.Registers.Config
--                    src/growatt/catalogue.rs, driver.rs and v7/registers.rs: the registers of the
--                    protocol as that catalogue, and the table of config registers
--   Control          src/control.rs: requests and their outcomes
--   Control.Registry src/control.rs: Registry, which session serves each device
--   Server.Access    src/server/access.rs: the allowlist of devices
--   Server.Clock     src/server/clock.rs: the difference of two clocks
--   Server.Probe     src/server/probe.rs: a liveness probe told from a device, and the check of it
--   HomeAssistant    src/homeassistant, what a broker is told and what it may ask:
--     Topics         topics.rs: the names of topics, and the serial in a command topic
--     Command        command.rs: a payload into changes
--     Entity         entity.rs: what becomes an entity, and its Catalogue
--     Views          the views of control.rs, and rest.rs
--     State          state.rs: the objects that are published
--     Link           publisher.rs: the link of one session; Says holds what it publishes,
--                    Turns its loop
--     Publisher      publisher.rs: the links of all devices, and what a command asks of a session
--   Server.Session   src/server/session.rs: the state of a session; Reads is the read queue, Reported
--                    the sink, Device what is sent, Cloud the relay, Turn the packets and the loop.
--                    Core, Book and Moves describe the part of the state that the theorems are
--                    about, apart from the code
--   Base             Boolean tests, lists, octets, text and Result, as the standard library has them
--   Tests            runs on concrete input
--
-- How values are modelled: a u8, u16 or usize is a natural number, with its saturation written out
-- where the source saturates; octets and text are lists of numbers, and the theorems name the
-- bound of an octet where they need it. A &mut self becomes an argument and a result. An Instant
-- is a number of milliseconds. Errors are the values of a Result with the source's constructors.
-- The CRC of the frame, which the crc crate computes, is a parameter of parse and to_wire: the
-- theorems hold for any function. An MQTT reader is what it has still to read.
--
-- A session is given by its driver, a record of the driver's operations, and by a function that says
-- whether the stream takes a packet, given those written before. What wakes it, and in which order, is
-- a list. An operation that may end the session is a function from a state to a state and a result.
-- What a session does besides writing is a log of effects; the sender of an answer is its caller's
-- number.
--
-- Fuel: Writer::varint is given ten octets, as many as a usize can need, and Subscribe::decode one
-- turn for each octet of the body, of which each turn consumes at least three.
--
-- A link of the publisher is a state, its surroundings a record with the driver's catalogue and what
-- third-party code makes of texts: the discovery document, the octets of a JSON object, a number with a
-- fraction. What it says is a list of publications, in the order in which they are queued. The registry
-- and the publisher are states of their own; the handle of a session is any type.
--
-- Not modelled: telemetry and its scaling, which is floating point; sockets, TLS, files, tasks and
-- logging; the routes of the control interface and its accessory searches; the discovery documents and
-- the labels of entities; the client of a broker, and what its queue drops when it is full; of the
-- registry, a lock that a panic has poisoned, and of the publisher, a registry that changes while
-- devices are linked; of a session, which of several ready sources wakes it, and the log line about the
-- battery, which is floating point.
pub mod Base
pub mod Model
pub mod Driver
pub mod Growatt
pub mod Mqtt
pub mod Recorder
pub mod Control
pub mod Server
pub mod HomeAssistant
pub mod Tests
