-- ===== src/Lib.antt =====
-- A verification of clean-node-server, the Node.js host that runs programs compiled to WebAssembly
-- behind an HTTP server.
--
-- The server takes an HTTP request, finds its route, and hands it to a pool of worker threads. Each
-- worker owns a WebAssembly instance; handlers reach the host through bridge functions, which read
-- and write the memory of the instance, and through them the session store.
--
-- The files, and the sources that they model:
--
--   Types               src/types/index.ts, the records that components pass to one another
--   RequestPool         src/workers/request-pool.ts and the messages of src/workers/worker-types.ts.
--                       A slot object is an entry of a list and `slots` holds its number, since a
--                       replaced object still receives the messages of its worker. A promise is an
--                       entry of `settled`; timers, terminations and starts under way are explicit.
--   RequestPool/Events  dispatch, the timeout, restarts and close; `step` is one callback of the event
--                       loop, `run` a sequence of callbacks in any order
--   Router              src/router/index.ts, compilePattern: the rewrites of a pattern over lists of UTF-16
--                       code units, and a reader and matcher for the regular expressions that they give
--   Router/Registry     the rest of src/router/index.ts: the routes, their lookup, and URLs
--   Session             src/session/store.ts, the store in memory. `get` is the lookup that deletes
--                       what has expired; the other operations begin with it, as in the source.
--   SessionChannel      src/session/broker-store.ts, src/session/session-channel.ts and
--                       src/session/broker-types.ts: the calls of a worker to the sessions of the main
--                       thread, each a few steps that interleave, over the component Session. An
--                       error that the main thread does not handle ends the process (src/index.ts).
--   SessionBridge       src/bridge/session.ts, over an interface of session stores
--   Auth                src/bridge/auth.ts over the component Session; what JSON.parse gives is an argument
--   Memory              src/wasm/memory.ts and the boxing of src/bridge/helpers.ts: bytes, the bump of
--                       __heap_ptr, and the errors thrown. The module's malloc is a parameter.
--   Memory/Stats        src/wasm/state.ts, the wrapper round malloc with its limit and statistics
--   Memory/Scopes       src/bridge/memory-runtime.ts, scopes and reference counts
--   InstancePool        src/wasm/pool.ts: instances are numbered in the order in which they are made,
--                       and what a module does to its memory comes with the release of its instance
--   Jobs                src/bridge/jobs.ts: the records, the table as a list of rows, whose writes all
--                       succeed or all fail, recovery and the bridge calls; times are arguments
--   Jobs/Worker         the poll, the claim of a job and its attempt. The module's exports are a parameter
--                       that gives the bridge calls of a handler, from what is known of the jobs when
--                       it starts; randomUUID is a parameter, a function of the number of the call.
--   Arrays              src/bridge/array.ts, with callbacks as functions on a state of the module
--   Lists               src/bridge/list.ts, over a type parameter for JavaScript numbers
--   MemoryGuard         src/telemetry/memory-guard.ts, the poll that starts the drain
--   Schedule            src/bridge/schedule.ts: the pieces of a cron expression, the search for the next
--                       tick over the local time, a parameter, and the registry with its timers
--   Websocket           src/bridge/websocket.ts: the module behind the handlers is a parameter that
--                       gives the bridge calls a handler makes
--
-- Common holds the shared lists, association lists, Boolean tests and their lemmas. The modules below
-- a component hold its proofs, and a module Tests its runs on concrete values.
--
-- Every loop is a recursion on a list or a number. Only the search for the next cron tick has a
-- bound, that of the source: 527040 minutes. A 32-bit pattern is a natural number below 2 ^ 32, and
-- the places where the source computes on 32 bits wrap around.
--
-- Not modelled: the contents of messages and of claims beyond what the code inspects, the wall clock
-- (a time is an argument), text encodings, logging, the request bridge, and every part that
-- only drives a library, such as the databases, HTTP clients, mail and files.
pub mod Arrays
pub mod Auth
pub mod Common
pub mod InstancePool
pub mod Jobs
pub mod Lists
pub mod Memory
pub mod MemoryGuard
pub mod RequestPool
pub mod Router
pub mod Schedule
pub mod Session
pub mod SessionBridge
pub mod SessionChannel
pub mod Types
pub mod Websocket
