-- ===== src/Lib.antt =====
-- A verification library for sol-rpc-router, a proxy in front of Solana RPC servers.
--
-- The program's parts and the files that model them:
--   src/config.rs     Config: the configuration and `load_config`. Config/Spec says what a valid
--                     configuration is, Config/Labels and Config/Laws prove the two agree.
--   src/health.rs     Status: `BackendHealthStatus` and `HealthState`. Health:
--                     `perform_health_check` and one iteration of `health_check_loop`, split into
--                     the checks (`check_all`), the tip (`max_slot`), the verdict on a backend
--                     (`judge`, `observe`) and the writes (`apply_results`). Health/Check says
--                     which checks succeed, Health/Streak has the runs of results, Health/Lag the
--                     slot lag, Health/Round a whole round and Health/Next what a round gives to each
--                     backend, field by field.
--   src/state.rs      State: `AppState::select_backend` and `select_ws_backend`, with the method
--                     routes in `routed`, the weighted draw in `choose` and `pick`. State/Weights,
--                     State/Draws, State/Select and State/Websocket have their properties.
--   src/keystore.rs   KeyStore: `RedisKeyStore`, with `fetch` for the part of `get_key_info` that
--                     asks Redis and `script` for the Lua script of the rate limit. The
--                     properties are in KeyStore/Lookup, KeyStore/Rate, KeyStore/Cached and
--                     KeyStore/Hashes. KeyStore/Steps takes the same calls apart into one step for
--                     each `await`, related to the whole call in KeyStore/Steps/Undisturbed and to
--                     what it reads in KeyStore/Steps/Moments. KeyStore/Concurrent runs any number
--                     of such calls at once: the rate limit in KeyStore/Concurrent/Limit, inactive
--                     keys in KeyStore/Concurrent/Phases, KeyStore/Concurrent/Settled and
--                     KeyStore/Concurrent/Revoked.
--   src/handlers.rs   Uri: the query without the API key and the target URI. Handlers: `proxy`, one
--                     function for each stretch of its body, `validated`, `route` and `forward`.
--                     Handlers/Endpoint: `health_endpoint`. Handlers/Middleware:
--                     `extract_rpc_method`. Handlers/Proxy, Handlers/Served, Handlers/Refusals
--                     and Handlers/Panics have the properties of `proxy`.
--                     Handlers/Ws: `ws_proxy` and `handle_ws_connection`, with the guards and
--                     counts in Handlers/Ws/Decisions, the turns of the two loops in
--                     Handlers/Ws/Turns, whole connections in Handlers/Ws/Relay, their end in
--                     Handlers/Ws/Ending and why it comes in Handlers/Ws/Causes.
--                     Handlers/Ws/Sends has the same loops with sends that take a while and may
--                     be cut off: one loop in Handlers/Ws/Sends/Loop, a step of both in
--                     Handlers/Ws/Sends/Whole, a run of steps in Handlers/Ws/Sends/Run, the
--                     messages in Handlers/Ws/Sends/Items and a connection in
--                     Handlers/Ws/Sends/Relayed.
--                     Handlers/Metrics: `track_metrics` and `log_requests`, which add what they
--                     count and log to what the service below them did.
--   src/main.rs       Router: the state at the start, the SIGHUP task and the health task, as
--                     events and steps. Router/Fresh, Router/Invariant and Router/Agreement have
--                     their properties; Router/Rounds says what many rounds record,
--                     Router/Rotation when they take a backend out of use and back, and
--                     Router/Service which requests are served after a round.
--                     Server: the routes and the layers of `http_app` and `ws_app`, with their
--                     counts in Server/Replies and Server/Counts, their refusals in Server/Refused
--                     and the rate limit in Server/Limited and Server/Window.
--                     Startup: `main` up to the servers, with `RedisKeyStore::new` and with its
--                     exits in Startup/Ports.
--   src/bin/rpc-admin.rs
--                     Admin: the commands create, revoke and update. Admin/Cli: list, inspect
--                     and `main`. Admin/Keys and Admin/Updates relate them to the router's lookup,
--                     Admin/Frame has what they leave alone, Admin/History the two programs at work
--                     on one Redis, Admin/Races a revocation among calls under way, and
--                     Admin/Revocation a revoked key at the HTTP server.
--   src/mock.rs       Mock: `MockKeyStore`; Mock/Verdicts gives its answers and its counts as
--                     functions of the history of its uses, which Mock/History describes.
--   src/bin/benchmark.rs
--                     Benchmark: the router that `start_router` builds and the request of a client;
--                     Benchmark/Flood says what becomes of it after any number of requests.
--                     Benchmark/Upstream: `start_mock_upstream`. Benchmark/Clients: the loops of the
--                     clients, with what they do to a server that answers in
--                     Benchmark/Clients/Answered; Benchmark/Whole puts a run together.
--                     Benchmark/Report: the totals of the clients and the report, with the places
--                     of a sorted list in Benchmark/Report/Percentiles and the theorem in
--                     Benchmark/Report/Summary.
-- Base has the shared types, tests, lists, maps and results; Samples has concrete data and Tests
-- the runs on it.
--
-- How the parts interact: `start` makes the first table (`RouterState`) from a configuration, a
-- SIGHUP replaces it, and a health round writes the flags of the table that it loaded when it
-- began. `proxy` asks the key store, then `select_backend` on the table, then the backend. The
-- handlers take the key store as a function (`KeyStore`), which `validate_key` of KeyStore and
-- that of Mock implement. `http_app` runs `extract_rpc_method`, then `log_requests`,
-- `track_metrics` and the handler of the route. The commands of rpc-admin write the Redis that
-- the router reads.
--
-- Shared mutable state: a table shares its flags (`Arc<AtomicBool>`) and its health state
-- (`Arc<HealthState>`) with earlier copies of it, so `Heap` maps an index to a flag and to a
-- health state, a table holds indices, and `System` holds the heap with the table in use. The
-- table that a round holds is part of the system, since a reload may come before the round
-- ends.
--
-- Numbers: `u32` sums wrap modulo 2 ^ 32, as in a release build, and the counters of
-- consecutive results too; the `u64` sum of latencies wraps modulo 2 ^ 64; `checked_add` on the
-- port is a test against 65535; `usize` lengths and counts are not bounded. No loop needs fuel:
-- each is a recursion on a list or a string. The two endless loops of the program, the health
-- task and the SIGHUP task, are sequences of steps of any length.
--
-- Parameters, since their code is not in the repository: the file system and the TOML parser
-- (`Files`), the HTTP clients, the JSON readers, the clock, the random draw (of which only the
-- range matters), the parser of URIs, Redis (`Redis`, `Reader`, `Writer`), the cache (`Cache`),
-- axum's routes and extractors with the preflight answers of the CORS layer (`Axum`, `JsonAxum`),
-- whether the upgrade of a WebSocket completes (`on_upgrade`), the connections and ports that
-- `main` opens (`Outside`), and two floating-point products of the benchmark (`Products`). What a
-- property needs of Redis or of the cache is among its hypotheses.
--
-- Steps: a round's writes are one step, as no wait stands between them, and so is the turn of a
-- WebSocket loop from the message read to the end of its send; in Handlers/Ws/Sends reading and
-- the end of the send are two steps, with those of the other loop between them. KeyStore/Steps
-- has one step of `validate_key` for each of its waits, and KeyStore/Concurrent lets the steps
-- of calls alternate with each other and with changes of Redis. In the other files a call of
-- `validate_key` is one step at one time, which is what the steps amount to where nothing comes
-- between them.
--
-- Not modelled: the headers that the CORS layer adds; the metrics recorder and its server; the
-- durations and their histograms; the command lines; the barrier, the average and the rate of
-- src/bin/benchmark.rs; the tests. Logging is output only, and is left out except for the request
-- log and where a log line can panic.
pub mod Base
pub mod Config
pub mod Status
pub mod State
pub mod Health
pub mod Uri
pub mod KeyStore
pub mod Handlers
pub mod Router
pub mod Server
pub mod Startup
pub mod Mock
pub mod Benchmark
pub mod Admin
pub mod Samples
pub mod Tests
