-- ===== src/Lib.antt =====
-- ZetMQ, a publish and subscribe message broker with streams: a model of its core, its store, its
-- protocol and its server, translated from the Rust sources, and what holds of it.
--
-- The crate zetmq-core routes messages. A subject and a subscription pattern are parsed from text
-- (Core.Subject, Core.Pattern: crates/zetmq-core/src/subject.rs, subject_pattern.rs, error.rs). The
-- routing engine keeps exact patterns in a hash map and patterns with wildcards in a trie, with a
-- flag that tells whether the trie is in use (Core.Trie, Core.Engine: routing/trie.rs,
-- routing/engine.rs). The registry keeps the subscriptions and the ids of each connection, and
-- calls the engine (Core.Registry: subscription/). The broker joins them with queue groups,
-- counters and the cache of parsed subjects (Core.Broker, Core.Broker.Batch, Core.QueueGroup,
-- Core.Metrics, Core.Delivery: broker/core.rs, queue_group.rs, metrics.rs, delivery.rs,
-- message.rs).
--
-- The crate zetmq-store keeps streams of messages with limits on number, size and age, by name, and
-- the consumers that read them (Store.Stream, Store.Memory, Store.Consumer:
-- crates/zetmq-store/src/stream.rs, memory.rs, consumer.rs), and log files with an index
-- (Store.Segment: segment.rs). Of zetmq-protocol the frames and their headers (Protocol.FrameType,
-- Protocol.Header, Protocol.Frame: crates/zetmq-protocol/src/frame/), the maps of message headers
-- (Protocol.Headers: headers.rs) and the commands that frames carry (Protocol.Payload,
-- Protocol.Command, Protocol.StreamInfo: command/) are modelled, of zetmq-client the frames that it
-- sends, the task that reads what the server sends and the reconnection (Client, Client.Connection,
-- Client.Reconnect: crates/zetmq-client/src/client.rs, connection.rs, subscription.rs).
--
-- The crate zetmq-server joins these. A session keeps the state of one connection (Server.Session:
-- crates/zetmq-server/src/session/handler.rs, state.rs): events wake it and at its end it is
-- cleaned up (Server.Session.Events), it takes frames out of its read buffer, PUB frames without a
-- copy and in batches (Server.Session.Layout, Server.Session.Publishing), checks credentials
-- (Server.Login), permissions (Server.Auth: session/auth.rs) and limits (Server.Config: config.rs),
-- and hands commands to the dispatcher (Server.Dispatcher: runtime/dispatcher.rs), which calls the
-- broker and spawns tasks for the stores (Server.StoreManager: store.rs). What it sends goes
-- through a channel to a task that encodes it (Server.Outbound: handler.rs). All sessions share one
-- World: the broker, the channels, the stores and the tasks that have not run.
--
-- Texts are lists of UTF-8 bytes (Text), hash maps are association lists that hold no key twice
-- (Map), and numbers of 64 bits wrap as in a release build (Core.Metrics, Store.Word). An operation
-- is a function from the state to the state, as each call holds its locks; Core.Engine.Race takes
-- two calls of the engine apart into the steps between which another thread runs. A delivery
-- handle, the channels of the server (Host) and of the client (Receivers), the order in which a
-- hash map is iterated over, the wording of error texts, the clock, and the file of a segment are
-- parameters. Most definitions recurse on lists, tokens and nodes. The loops over the frames, of
-- the server and of the client, recurse on fuel, one round more than there are bytes in the buffer,
-- as each round that goes on takes bytes away; a batch of PUB frames has its limit as fuel, the
-- decoding of UTF-8 the length of the text, decimal digits their number for 64 bits, and the scan
-- of a segment file one round more than it has bytes. Files named after a property (Parsing, Paths,
-- Matching, Counting, Table, Routing, Live, Removal, Fanout, Groups, Turns, Quiet, Log, Deque,
-- Retention, Pending, Stuck, Reading, Overwrite, Recovery, RoundTrip, Understood, Invariant, Runs,
-- Covered, Progress, Fronts, Machine, Rounds, Accounts, Limits, Lives, BeforeLogin, Idle, Messages,
-- Stalled, Flushes, Replay, EmptyStores, Payloads, Finishing, Consumed, Batches, Shrinking,
-- Scanning, Client.Publishing) hold proofs, Server.Session.Logins counts the logins of a session,
-- which the theorem on the counters of connections speaks of, and Witness applies the theorems to
-- concrete inputs.
--
-- Not modelled: the handshake of the client and its TLS, the listener, the administration over
-- HTTP, and the code that reads configuration files and sockets.
mod Prelude
pub mod Text
pub mod Map
pub mod Core
pub mod Store
pub mod Server
pub mod Protocol
pub mod Client
mod Witness
