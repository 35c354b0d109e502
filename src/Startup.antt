-- ===== src/Startup.antt =====
-- src/main.rs: `main` up to the servers. `RedisKeyStore::new` of src/keystore.rs is here too. The redis
-- crate and the binding of a port are parameters; what the program serves from then on is in Server and Router.
pub mod Ports
use sol_rpc_router.Base.{
  ℕ, ◌+◌, String, Bool, Option, none, some, Result, ok, err, leb, if◌then◌else◌,
}
use sol_rpc_router.Config.{Config, ConfigError, Files, load_config}
use sol_rpc_router.State.{Heap}
use sol_rpc_router.Router.{System, start}

-- How `main` ends before it serves: an `expect` that fails, or `exit(1)` without Redis.
pub data Failure : Type 0 where
  no_config : ConfigError → Failure
  no_redis : String → Failure
  ws_port_overflow : Failure
  not_bound : ℕ → Failure

-- `Client::open` and `get_connection_manager` of the redis crate for a URL, and `TcpListener::bind`.
pub record Outside : Type 0 where
  pub opens : String → Result String (Unit {0})
  pub connects : String → Result String (Unit {0})
  pub binds : ℕ → Bool

-- The key store that is made: the Redis that it asks, and how many seconds its cache keeps a key.
pub record RedisKeyStore : Type 0 where
  pub redis_url : String
  pub time_to_live : ℕ

-- `RedisKeyStore::new`.
unfoldable pub new : Outside → String → Result String RedisKeyStore
new out redis_url = elim (out.opens redis_url) [
  | err e ↦ err e
  | ok _ ↦ elim (out.connects redis_url) [
    | err e ↦ err e
    | ok _ ↦ ok (record { redis_url = redis_url; time_to_live = 60 })
  ]
]

-- The running program: its state and the ports of its three servers.
pub record Serving : Type 0 where
  pub config : Config
  pub system : System
  pub keystore : RedisKeyStore
  pub http_port : ℕ
  pub ws_port : ℕ
  pub metrics_port : ℕ

-- `port.checked_add(1)`.
abbrev pub checked_add_one : ℕ → Option ℕ
checked_add_one port = if leb 65535 port then none else some (port + 1)

abbrev pub bound : Outside → ℕ → Result Failure Serving → Result Failure Serving
bound out port next = if out.binds port then next else err (not_bound port)

-- The three servers, with the WebSocket port that was computed.
abbrev pub serve_all : Outside → Config → System → RedisKeyStore → Option ℕ → Result Failure Serving
serve_all out c system keystore none = err ws_port_overflow
serve_all out c system keystore (some ws_port) = bound out c.port (
    bound out ws_port (
      bound out c.metrics_port (
        ok (record {
          config = c;
          system = system;
          keystore = keystore;
          http_port = c.port;
          ws_port = ws_port;
          metrics_port = c.metrics_port;
        }))))

unfoldable pub main : Files → Outside → String → Heap → Result Failure Serving
main files out path h = elim (load_config files path) [
  | err e ↦ err (no_config e)
  | ok c ↦ elim (new out c.redis_url) [
    | err e ↦ err (no_redis e)
    | ok keystore ↦ serve_all out c (start c h) keystore (checked_add_one c.port)
  ]
]
