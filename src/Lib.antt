-- ===== src/Lib.antt =====
-- xaeroflux: a node of a peer-to-peer event mesh. An application sends events; a storage actor writes
-- them to SQLite and hands what is new to a network actor, which gossips it, and stores and hands to
-- the application what arrives. A discovery task keeps track of the peers of each group, joins the
-- groups' gossip topics and introduces peers to each other. Late joiners download snapshots, and blobs
-- are fetched from whoever holds them.
--
-- Prelude: tests, lists, dictionaries and signed numbers that the other files share.
-- Event, Sqlite, Storage: the event and its id, the two tables and the engine, and the storage actor
--   (src/lib.rs: Event, generate_event_id, ensure_schema, StorageActor::run). An engine runs a
--   statement whole, or fails and changes nothing; Sqlite.Memory has one that fails and one that does
--   not. A hypothesis NeverFails says that no statement fails.
-- Network, Node: the network actor's two branches, and a node of the two actors joined by queues
--   (src/lib.rs: NetworkActor::run). A run is any list of actions, so it covers every interleaving.
-- Mesh: any number of such nodes on one topic. A relation says how they may move; gossip delivers what has
--   been broadcast to whom, when and as often as it likes, or not at all.
-- Process: such a node with its discovery task, over the connection that they share. A wake-up of the task
--   is one step; in the program the actors' statements may fall between its own, on the other table.
-- Peers: the peer tracker, its statements and its cache (src/lib.rs: PeerTracker). The clock is an
--   argument. Specification is what a tracker promises.
-- Json, Discovery: the peer discovery task that NetworkActor::new spawns in src/lib.rs. An action
--   changes a state and goes on or panics, where a log event slices a text inside a character. Cascade
--   puts any number of these tasks on one topic.
-- Snapshot: src/snapshot.rs. Provider and Requester are its two sides, Transfer its wire format,
--   Session a whole download. u64 arithmetic is written out for builds with and
--   without overflow checks.
-- Swarm: src/swarm.rs. Negotiation is the registry of holders and the messages, Fetch the download,
--   Store the adding and reading of blobs, Share the way from one node to another.
-- Bootstrap: src/bin/xaeroflux_bootstrap.rs. Scope and Convert turn the events of groups into raw events,
--   Iggy is the connection to the stream, Serve the main loop, Settings and Launch its start,
--   Reports what it prints of its counters.
--   Discovery.Groups (src/lib.rs) feeds it.
-- Rendezvous: src/rendezvous.rs, the signing and the verification of a config; Publish is its way to a file
--   (also src/lib.rs: signed_rendezvous_config, and publish_rendezvous of the bootstrap server).
-- Startup: src/lib.rs from XaeroFluxConfig to the discovery task. Config is the builder and what it sets,
--   Identity the key file, Start from_config and the first half of NetworkActor::new. Steps that fail are
--   values of Boot. Restart and SharedKey are about several starts.
-- Cli: main.rs. A turn of the interactive loop is a line with the clock and the outcomes of its calls.
--   Session is a run of the tool from the start of its node to its end.
-- Tests: the theorems at concrete inputs, and small runs.
--
-- The crates are parameters: rusqlite, iroh, iroh-gossip, iroh-blobs, serde_json, blake3, chrono and
-- iggy, with what is assumed of them in Sqlite.Sqlite, Network.EventCodec, Json.Json, Discovery.Actions.World,
-- Discovery.Groups.Forwarder, Discovery.Cascade.Printing, Snapshot.Provider.Decoders,
-- Snapshot.Transfer.SnapshotCodec, Swarm.Blobs, Bootstrap.Convert.Printer, Bootstrap.Iggy.Client,
-- Rendezvous.Keys, Rendezvous.Publish.SignedCodec, Snapshot.Session.Peer, Startup.Files.Files,
-- Startup.Identity.Secrets and Startup.Start.Host. A HashMap is an association list; no theorem
-- depends on its order. The only fuel is in Event.decimal, where 20 digits are enough for a u64. Locks
-- are not modelled: each actor's critical section is one step.
--
-- Not modelled: the parsing of the command line (clap), the words around the values that main.rs and the
-- bootstrap server print, and the heartbeat of src/lib.rs, which only prints.
pub mod Prelude
pub mod Event
pub mod Sqlite
pub mod Storage
pub mod Network
pub mod Node
pub mod Mesh
pub mod Peers
pub mod Json
pub mod Discovery
pub mod Snapshot
pub mod Swarm
pub mod Bootstrap
pub mod Rendezvous
pub mod Startup
pub mod Cli
pub mod Process
pub mod Tests
