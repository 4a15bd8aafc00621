-- ===== src/Lib.antt =====
-- The desktop program of SocketLens (apps/desktop/src) records the traffic of WebSocket connections.
-- Its core is four stores that call each other, and the pure functions they rest on:
--
--   Packet            models/packet.ts: packets, annotations, tags
--   PacketStore       store/packet-store.ts: packets newest first, batched, under a retention limit
--   Session           models/session.ts; SessionStore is store/session-store.ts: sessions and their
--                     counters, with batches of packets not yet counted
--   SessionRedaction  models/session-redaction.ts: what redaction replaces in what is exported
--   UiStore           store/ui-store.ts, models/app-log.ts, models/replay-history.ts
--   Connection        models/connection.ts: saved connections and which endpoints are accepted
--   ConnectionStore   store/connection-store.ts: connect, the handlers of a socket, disconnect,
--                     dispose, reconnect, sendMessage, the saved connections and their storage
--   Json              lib/json-payload.ts, and the values that JSON.parse gives
--   FilterState       models/filter-state.ts: the filter, its compilation, smart conditions
--   FilterEngine      extensions/filter-engine.ts, models/packet-filter.ts: which packets it keeps
--   PacketDecoder     extensions/packet-decoder.ts: the registry of decoders, Socket.IO frames
--                     (SocketIo), GraphQL messages (GraphQl), the decoders themselves (Builtin)
--   PacketAnalyzer    extensions/packet-analyzer.ts and the summaries of lib/packet-inspection.ts
--   Environment       models/environment.ts: variables in endpoints and their interpolation
--                     (Editing: making and cleaning environments)
--   EnvironmentStore  store/environment-store.ts: the environments and the active one
--   PacketInspection  the tests of lib/packet-inspection.ts on events, and on payloads (Payloads)
--   PacketRelationships  lib/packet-relationships.ts: which packets belong together: where the
--                     relationships come from (Sources, Replies) and their index (Building)
--   FlowAnalysis      lib/flow-analysis.ts: what a draft of a flow comes to (Drafts: their making)
--   PluginRegistry    extensions/plugin-registry.ts: plugins and which are enabled
--   Grouping          lib/packet-grouping.ts: runs of packets on the timeline
--   Platform          lib/friendly-errors.ts, lib/user-facing-errors.ts, lib/validation-messages.ts,
--                     and what the program takes from its platform
--   Common            texts, lists and tests that these share
--   Examples          concrete inputs
--
-- Paths in this list are below apps/desktop/src. A name of the source is spelled with underscores:
-- `addPackets` is `add_packets`.
--
-- A store is a record; a `let` variable of its module is a field of it, and a timer a flag whose
-- callback is an operation of its own. An operation takes the state and returns the next one. What it
-- reads from `Date.now()` and from the generator of ids is a stamp, or a sequence of stamps of which
-- it takes the members it needs. ConnectionStore works on a World of all stores and a heap of sockets
-- that is indexed by numbers, so that a handler which outlives its connection is a call that comes
-- late. ConnectionStore/Calls, PacketStore/Calls, SessionStore/Immediate and UiStore/Bounds put the
-- operations of a store together as one step function on a type of calls; a history is a list of
-- calls, in any order. `onmessage` reads its frame asynchronously, so the reading and what follows it
-- are two operations; so are the two halves of `reconnect` around its wait.
--
-- Texts are lists of UTF-16 code units, times and counts are natural numbers. The URL parser, JSON,
-- the UTF-8 encoder, translations, and which close codes `WebSocket.close` takes are the fields of the
-- record Platform. JSON values, regular expressions that the user types and the lower case of a text
-- are the fields of the record Runtime: a regular expression is its test. A number of JSON is natural,
-- or is given by its text; properties that objects inherit are left out. The regular expressions of
-- the program itself are written out as functions on texts: their parts are disjoint, so that they
-- need no backtracking, but those of SessionRedaction, which an Engine runs as it runs those of the
-- user: there an expression cuts a text into its matches and what stands between them, and the
-- replacing and the counting are the program's. A decoder that throws is one whose result says so. Numbers in a Socket.IO frame
-- have any size, where those of the program are exact up to 2^53. The summary of a packet is an
-- argument of Grouping and of FilterEngine; PacketAnalyzer defines it.
-- The loop of `groupTimelinePackets` runs on fuel, which starts as the number of packets: each round
-- takes at least one packet, so it does not run out. The loop of `createUniqueVariableKey` runs on as
-- much fuel as there are variables, which is shown to be enough.
--
-- Not modelled: session files, the settings, the import and export of
-- environments, the walk over connected packets in flow analysis, the export of AsyncAPI documents,
-- the export adapters, demo data, the AI providers, the React components, and the Rust shell;
-- normalizeFilterState; the stubs of planned decoders; the caches of PacketInspection and
-- FilterEngine, which are keyed by packets that do not change. The code and the
-- reason that a socket is closed with go to the peer and are not kept.
pub mod Common
pub mod Packet
pub mod Json
pub mod FilterState
pub mod UiStore
pub mod PacketStore
pub mod Session
pub mod SessionStore
pub mod PacketInspection
pub mod PacketRelationships
pub mod FlowAnalysis
pub mod FilterEngine
pub mod PacketDecoder
pub mod PacketAnalyzer
pub mod PluginRegistry
pub mod Grouping
pub mod Environment
pub mod EnvironmentStore
pub mod Platform
pub mod Connection
pub mod ConnectionStore
pub mod SessionRedaction
pub mod Examples
