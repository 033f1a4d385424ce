-- ===== src/Lib.antt =====
-- laye is a peer-to-peer layer for browser games: pages that run laye-p2p exchange messages over
-- libp2p gossipsub through a relay (relaye), which also bridges plain WebSocket clients to topics and
-- signs links between a page's key and an account elsewhere.
--
-- The parts, and the files that model them:
-- - Base: the names that every file shares: byte strings, lists over the native numbers, maps as
--   association lists, decimal printing, UTF-8, bounded queues, `?` on options and results.
-- - Gateway: crates/relaye/src/gateway.rs. Sink is the outbox of one client; Registry the sinks of
--   every topic, as a heap of shared objects with weak references as addresses; Upgrade the routing of
--   a connection by its first bytes; Client the two loops of a connection, as a step for each event;
--   Response the fixed answers.
-- - Me: crates/me/src/lib.rs. Hex, the key pair (Keys), the signed records (Claims), what is signed
--   (Canonical) and their JSON form (Wire).
-- - Net: crates/net/src and crates/protocol/src: the handle of the transport, how it is made (New), and
--   the loop of the swarm (Swarm).
-- - Frames: crates/laye-p2p/src/state.rs, `recv_bytes` of crates/laye-p2p/src/wasm.rs, and
--   `split_frames` of bevy-starter/src/laye_extern.rs.
-- - P2p: crates/laye-p2p/src and crates/laye-error/src. Errors, Chat, Identity, Store, and App, the
--   state of the page in wasm.rs: Boot is `init_inner`, Sends on what waits for a mesh, PublishChat a
--   line of chat that is sent, Pump the routing of events, Overlay the errors that are shown, SignIn the
--   login button with its poll, and Login the links that a login adds.
-- - Relaye: the rest of crates/relaye/src. Percent, Http (the reading of a
--   request), Routes (its handlers and their answers), Conn (a whole connection) and Stats of
--   status_page.rs and main.rs, Startup (the identity file and the client key) of main.rs, Sign of
--   sign_endpoint.rs. Of oauth_atproto.rs: Flows is the cache of logins, Resolve the way from a handle to
--   an authorization server, Jwt the signed tokens, Dpop the POST that is repeated under a fresh nonce,
--   and Start and Callback the handlers. Jwt.Opened writes down how a server checks a token.
-- - Host: the game around the page. Input is crates/laye-input and crates/bevy-input-capture, Log
--   crates/bevy-observability, Drawer crates/bevy-drawer, and Scene the other players of
--   bevy-starter/src/scene.rs.
-- - Tests: the theorems at concrete inputs.
--
-- How they interact: the relay's event loop and each client broadcast into one registry; a page's
-- pump takes the events of its transport and feeds the chat, the table of links, the mesh table and
-- the queues that the game reads through the framing; a link signed by the relay is read back and
-- checked by the page.
--
-- Conventions: a string is its UTF-8 bytes, a byte a natural number; `IsBytes` states the bound where a
-- theorem needs it. A 32-bit sum is taken modulo 2^32, the counters saturate at 2^64 - 1. Clocks, fresh
-- keys and the results of third-party calls are arguments. The signature scheme of libp2p_identity, the
-- JSON of serde_json, the HTTP client and the swarm of libp2p are records of operations; the theorems
-- name the documented laws that they use. Tasks that run at the same time are sequences of steps.
-- Two sums have no bound: the offsets of `split_frames`, whose 32 bits wrap only at a length that
-- `recv_bytes` never writes, and the count of a repeated error, whose 64 bits would take 2^64 errors.
-- What the loop of the swarm finds at each turn is a sequence of arguments, and bevy's choice of the order
-- of two systems is one too.
-- The order in which a hash map is walked is the order of its association list.
--
-- Fuel: `split_loop` takes the length of the buffer; a round takes four bytes at least. `poll_loop` takes
-- the 150 rounds of the source. The other loops recurse on what they read, and `post_loop` on the two
-- attempts of the source.
--
-- Not modelled: the elements of the page that are only drawn, the calls behind IndexedDB, building the
-- swarm, metrics and logging, the drawing of the status page (its HTML is an argument), the game's
-- camera, meshes and movement, which work on f32, the broker page and the deployment.
pub mod Base
pub mod Frames
pub mod Gateway
pub mod Host
pub mod Me
pub mod Net
pub mod P2p
pub mod Relaye
pub mod Tests
