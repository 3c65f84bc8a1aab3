-- ===== src/Lib.antt =====
-- Concord, a collaborative code editor: the backend (backend/app, Python). Browsers edit a shared
-- document over a WebSocket in the frames of y-websocket; sessions have members with roles; code is
-- executed in containers by a worker that takes jobs from Redis. This library models the backend's own
-- logic and proves what it promises.
--
-- The parts, the files that model them, and how they meet:
-- - Base: Boolean tests on the native numbers, lists, results, and dicts as association lists.
-- - Lib0 and Protocol (backend/app/collaboration/protocol.py): variable-length integers and byte
--   strings, and the frames built from them. Functions carry the source's names; `raise` is `err`. The
--   loop of `encode_var_uint` runs on an accessibility proof and so needs no fuel; that of
--   `decode_var_uint` runs over the bytes of the frame. Texts, UTF-8 and `json.loads` are the
--   parameters `PyText`.
-- - Awareness (`AwarenessStore` of backend/app/collaboration/presence.py): the states of the clients in
--   each session, with the entries that Protocol decodes.
-- - Presence (`PresenceManager` of the same file): the users who are online in each session.
-- - Models (backend/app/models.py): the rows, the roles, and the state machine of executions.
-- - Sessions (backend/app/sessions/service.py): sessions and members, over one record of tables.
-- - Access (backend/app/auth/dependencies.py, and `_require_current_editor` of
--   backend/app/sessions/router.py): who may do what, on the tables of Sessions.
-- - Execution (backend/app/execution/service.py, queue.py): submitting and cancelling, over one record
--   of the execution table and the Redis lists and keys.
-- - Worker (backend/app/execution/worker.py): the worker's jobs and its recovery, on the same record.
--   Whether Docker raises, and whether Redis takes each event, are arguments, so the theorems cover those
--   failures wherever they occur. What a container prints is published while its job runs; Worker/Output
--   has the limits of that. Worker/History interleaves the worker with the API, whose submission is two
--   actions, before and after the call of Redis.
-- - Document (backend/app/collaboration/document.py): the live documents, their generations, their
--   checkpoints in Redis and their saves in PostgreSQL. The CRDT is the parameter `Crdt`. A storage call
--   takes the updates that are applied while it waits as an argument, so each theorem is about any
--   interleaving of those updates.
-- - Hub (backend/app/collaboration/websocket.py): the rooms and the fences of authorization. Hub/System is
--   a step relation in which connections authenticate, join, are checked and leave while the endpoints
--   that change sessions and members commit and fence, with the awaits between; the lock of a room is
--   its pending fence.
-- - Rooms (the same file): the handler of a frame, broadcasts, joining, leaving and the whole
--   `websocket_endpoint`, over the hub, Document and Awareness. Its receive loop runs over the list
--   of the messages that are received, so it needs no fuel, and with each message comes what other
--   tasks did to the rooms before it. Rooms/Flush has the checkpoints of backend/app/main.py.
-- - Endpoints (backend/app/sessions/router.py, execution/router.py, snapshots/router.py and
--   snapshots/service.py): the requests that change something, over all of the above. `Handler`s are
--   state-passing functions that return or end with a status code.
-- - Accounts (backend/app/auth/router.py): registering and logging in, over bcrypt and the JWT library as
--   the parameters `Secrets`.
-- - Relay (backend/app/execution/events.py): the events of the worker that reach the rooms. Its loop runs
--   over the list of the polls of Redis until the server stops, so it needs no fuel; json and `uuid.UUID`
--   are the parameters `Events`.
-- - Tests: the functions on concrete inputs.
--
-- Numbers stand for UUIDs, times and WebSockets, which the code only compares, hashes or subtracts.
-- Database transactions are taken to be atomic, with row locks that serialise the calls on one row.
-- Not modelled: HTTP and WebSocket transport, SQL, JWT and bcrypt, Docker, failures of the database
-- in the worker and of the deletion of a cancellation key, migrations, benchmarks and the frontend;
-- start-up, the endpoints that only read, other tasks within one broadcast or handler of a frame,
-- and the expiry of checkpoints in Redis.
pub mod Base
pub mod Lib0
pub mod Protocol
pub mod Awareness
pub mod Models
pub mod Sessions
pub mod Access
pub mod Execution
pub mod Worker
pub mod Document
pub mod Presence
pub mod Hub
pub mod Rooms
pub mod Endpoints
pub mod Accounts
pub mod Relay
pub mod Tests
