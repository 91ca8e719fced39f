-- ===== src/Lib.antt =====
-- Uchi-Pulse: child devices (nodes) watch switches and send events over UDP; the parent device (the
-- hub) stores each event once, runs the action that it names, and acknowledges it.
--
-- The parts, each with the file that models it (a file's child modules hold what is proved of it):
--
--   crates/uchi-pulse-common: what both sides speak.
--     src/types.rs, src/action.rs      Common/Types     bounded texts and the enumerations
--     src/udp.rs                       Common/Message   UdpMessage, and the visitor that reads one
--     src/codec.rs                     Common/Codec     encode, decode, and lines that end in LF
--     src/cdc.rs                       Common/Cdc       requests and responses of the USB protocol
--   apps/uchi-pulse-node: a node.
--     src/input.rs                     Node/Detector    GestureDetector: debouncing and gestures
--     src/input.rs                     Node/Input       InputController: a detector for each pin
--     src/config.rs                    Node/Config      PersistedNodeConfig and its validation
--     src/storage.rs                   Node/Storage     ConfigManager over a storage device
--     src/udp.rs                       Node/Udp         event ids, retries, the node's messages
--     src/cdc.rs                       Node/Cdc         CdcLineParser, the queue of lines from USB,
--                                                       and NodeCdcHandler, which answers them
--     src/bin/uchi-pulse-node.rs       Node/Delivery    the delivery of an event, wait_for_ack
--     src/bin/uchi-pulse-node.rs       Node/Flash       FlashConfigStorage
--     src/bin/uchi-pulse-node.rs       Node/Network     network_config
--     src/bin/uchi-pulse-node.rs       Node/Discovery   the discovery and heartbeat task
--     src/bin/uchi-pulse-node.rs       Node/InputTask   the input task
--   apps/uchi-pulse-hub: the hub.
--     src/db/migrations.rs             Store            the tables, their constraints, transactions
--     src/db                           Hub/Database     the records, the queries as an interface, and
--                                                       the functions of repository.rs over Store
--     src/state.rs                     Hub/State        CommunicationStateManager
--     src/action.rs                    Hub/Action       ActionStateManager and ActionEngine
--     src/udp.rs                       Hub/Udp          HubUdpProcessor
--     src/cdc.rs                       Hub/Cdc          the serial lines, the check of a configuration,
--                                                       how it is saved and loaded, handle_line
--   apps/uchi-pulse-settings and apps/uchi-pulse-control: desktop programs that edit the hub's file.
--     settings: src/db.rs, labels.rs   Desktop          the edits and the labels of states
--     control: src/db.rs, protocol.rs  Desktop/Control, Desktop/Protocol
--   Link joins Node/Udp and Hub/Udp over one wire. Base holds what the files share.
--
-- How the parts interact. The node's input task gives each level of a pin to Node/Input, which asks
-- the detector of that pin for gestures and the mappings of Node/Config for action ids. Node/Udp
-- makes an event of each and Node/Delivery sends it until its ACK comes or the retries are used up.
-- Hub/Udp decodes a datagram, checks it and its device, asks Hub/Action whether the action may run,
-- notes the device in Hub/State, inserts the event by Hub/Database, runs the action, and answers.
--
-- The hub, its CDC worker and the desktop programs share one SQLite file, which Store models.
-- Hub/Cdc and Desktop write it in transactions, and Hub/Database reads it for Hub/Udp and
-- Hub/Action.
--
-- How state and operations correspond. A struct is a record with the source's fields and an enum a
-- data type with its constructors; a method on `&mut self` returns the new state beside its result,
-- so that the writes before an error are kept where the source keeps them. `Result` and `?` are
-- Base/Results, `heapless::Vec` is a list with a capacity (Base/Vectors), a `HashMap` is a list with
-- one entry for each key. Machine integers are natural numbers: a value that the source cuts or
-- checks is cut or checked here (the `u8` of an attempt's number, the `u64` of a sequence number,
-- the bytes of an address); a subtraction that saturates is the one that stops at 0. `Instant` and
-- `Duration` are milliseconds.
--
-- Parameters, for code that is not in the repository: serde_json_core is the record `Json`, with
-- `IsFaithful` for the values that it reads back, those whose texts need no escape (`IsPlain`): its
-- writer escapes quotation marks, backslashes and control characters, and its reader does not undo
-- that; for Hub/Udp and Hub/Action the database is the interface `Repository`, with `HasEventKeys`
-- for the unique key of the table `events`, which Hub/Database/Keys fills with the functions of
-- repository.rs; SQLite is the record `Sqlite`, which runs statements and reads the tables, with
-- `HasSession` for what a call that answers or fails has done; a statement is what its SQL text does
-- to the tables, refused where a constraint of the schema does not hold after it. A call of several
-- statements runs with no writes of other connections between them; ids and flags in the tables are
-- natural numbers; `core::str::from_utf8` is a function; a device of the node's storage is a
-- `ConfigStorage`, with `KeepsRecords`, which Node/Flash/Kept fills for the flash from what the
-- driver of embassy_rp promises of a sector, the record `HoldsBytes`; the socket and the clock of a
-- delivery are given as what they do, a `Try` for each attempt; those of discovery are given as a
-- `Round` for each turn of its loop. Hub/Database/Memory and the test modules hold concrete
-- instances.
--
-- Fuel and bounds. Loops over lists are recursions on them. The loop of the retry policy runs on
-- fuel, and any fuel above the number of attempts is enough. A delivery is given its tries as a
-- list; `none` says that the list ends before the delivery does, and a list of one more try than the
-- retries is long enough, where each wait ends.
--
-- Not modelled: the version loop of migrate and the opening of files; the arguments and sockets of
-- the hub's main loop; the firmware's tasks but the delivery of events, discovery, heartbeats and
-- inputs; the windows of the desktop programs and their worker threads; derived serialisation and
-- the text of most error messages; Wi-Fi, sockets, threads and the hardware.
pub mod Base
pub mod Common
pub mod Node
pub mod Hub
pub mod Link
pub mod Store
pub mod Desktop
