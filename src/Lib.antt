-- ===== src/Lib.antt =====
-- Remote Ops MCP: a control plane that gives a language model checked access to servers.
--
-- The control plane keeps OAuth clients, authorization codes, sessions, device pairings, devices,
-- target switches and usage counts in one state file (src/state/store.ts). Targets are read from a
-- static and a dynamic registry (src/config/targets.ts); the dynamic one changes only through
-- approvals that a person confirms (src/config/target-approvals.ts,
-- src/config/deepharness-read-approval.ts), by presets of authority
-- (src/config/capability-baseline.ts). A root command is prepared, confirmed and signed as a ticket
-- by the control plane (src/config/managed-admin-approvals.ts), and checked and run once by the
-- broker on the device (src/privileged). Other commands run in the sessions of the exec broker
-- (src/exec/broker.ts) or as command lines of a remote shell (src/lib/quote.ts). Devices pair and
-- report over HTTP (src/agent/router.ts) and take operations over web sockets
-- (src/agent/gateway.ts). Docker is reached only through a proxy (src/docker/read-proxy.ts) that
-- admits configured containers, images, networks and ports, and that runs configured verifier
-- scripts in a PostgreSQL container (src/docker/postgres-readback.ts) and fixed operations in the
-- Paperclip container (src/docker/paperclip-semantic.ts). Remote files are read under the roots of
-- a target (src/security/paths.ts). A DeepHarness session may act for a user while the grant store
-- holds a current grant of the user (integrations/deepharness/persistent-grant-store.mjs), which
-- also makes the delivery of an instruction happen once.
--
-- Files:
-- - Prelude: library names, tests on numbers and texts, lists. Dict: JavaScript records and maps as
--   association lists in insertion order, and tables whose entries carry their key.
-- - Store: src/state/store.ts. Store/Model holds the records and `Process`, the state in memory, the
--   state file and `lastSessionTouch`; Clients, Sessions, Targets, Pairings, Devices and Purge hold
--   the operations under the names of the source; Calls has one constructor for each operation that
--   changes the state, `step` and `run` for histories of them. The other modules hold theorems.
-- - Errors: the codes of src/lib/errors.ts.
-- - Config: Target and Registry for src/config/targets.ts, Presets and Baseline for
--   src/config/capability-baseline.ts.
-- - Approvals: Utils, ManagedAdmin, AgentTarget and DeepharnessRead for the four files of approvals
--   in src/config. The calls read a `World` or an `Access`: settings, platform, store and registry.
-- - Privileged: Policy, Ticket and Broker for the three files of src/privileged.
-- - Remote: Quote for src/lib/quote.ts. Exec: Arguments and Sessions for src/exec/broker.ts.
-- - Agent: Gateway for src/agent/gateway.ts, whose steps return their effects on sockets and promises
--   as a list, and Routes for src/agent/router.ts.
-- - Security: SecretPaths and Paths for src/security/paths.ts; Cleaning and Confinement hold
--   theorems.
-- - Docker: Settings is the start-up of src/docker/read-proxy.ts. Its handlers are trees of requests
--   (`Script` in Docker/Requests): a leaf is the reply, a node is a request to Docker with what
--   is done for each answer. Checks, Demux, Exec, Operator, Reads and Proxy hold the functions of
--   that file, Postgres and Paperclip those of the two others. `Rule` says which requests the
--   settings permit, `Guarded` that a tree makes no other; Permits has the lemma of each handler.
-- - Deepharness: Model and Grants for the grant store. A queued call is a function of `Process`, the
--   state in memory and the file; `Persisted` says what becomes of its write: it succeeds, it fails
--   before the file is replaced, or it fails after.
-- - Tests: runs, and the theorems at concrete data.
--
-- Conventions. An operation takes the state and returns the new one with its result; an error is a
-- value. The time and all random values of a call are arguments, and a call reads the clock once
-- where the source may read it several times. Numbers are natural: times are milliseconds, and
-- where the source subtracts, the difference stops at 0, which the tests that use it do not tell
-- apart from a negative number. A text is a list of code points, its length is counted in UTF-16
-- units; the output of a session is a list of units. A key that an object inherits, such as
-- "constructor", is taken to be absent.
--
-- Bounds. All recursion is structural. `createPairing` draws codes until one is free; the model takes
-- the list of draws and returns `out_of_draws` when none of them is free. The loop over the frames
-- of a Docker stream runs on fuel, one unit for each byte: each frame takes eight bytes at least.
--
-- Arguments, since their code is not part of the repository: JSON, zod schemas, SHA-256, HMAC,
-- Ed25519, base64, `realpath`, `normalize`, `localeCompare`, `toUpperCase`, `String` and `Number`
-- on parsed values, `decodeURIComponent`, the decoding of UTF-8, the length of a file, and the
-- answers of Docker and of a remote shell. Files are written without failure, but for the file of
-- the grant store. A root ticket's signature is taken to verify under the key of the same secret
-- only where a theorem says so.
--
-- Not modelled: the HTTP and socket libraries, the MCP tools, SSH, the Portainer client, the bridges
-- to DeepHarness and OpenHands other than the grant store, the script that a Paperclip operation
-- runs in its container, the health reply of the proxy, audit events, the agent's own process,
-- messages and log texts.
pub mod Prelude
pub mod Dict
pub mod Security
pub mod Store
pub mod Errors
pub mod Privileged
pub mod Config
pub mod Approvals
pub mod Remote
pub mod Exec
pub mod Docker
pub mod Deepharness
pub mod Agent
pub mod Tests
