-- ===== src/Config.antt =====
-- src/config.rs: the configuration, its defaults, and `load_config`. The file system and the TOML
-- parser are parameters.
pub mod Spec
mod Labels
pub mod Laws
use sol_rpc_router.Base.{
  ℕ, ◌+◌, String, Bool, not, Option, List, ◌∷◌, [], ◌==◌, eqb, leb, length, is_empty, HashMap,
  insert, contains_key, Result, ok, err, if◌then◌else◌,
}

pub record ProxyConfig : Type 0 where
  pub timeout_secs : ℕ

unfoldable pub default_proxy : ProxyConfig
default_proxy = record { timeout_secs = 30 }

pub record HealthCheckConfig : Type 0 where
  pub interval_secs : ℕ
  pub timeout_secs : ℕ
  pub method : String
  pub consecutive_failures_threshold : ℕ
  pub consecutive_successes_threshold : ℕ
  pub max_slot_lag : ℕ

unfoldable pub default_health_check : HealthCheckConfig
default_health_check = record {
  interval_secs = 30;
  timeout_secs = 5;
  method = "getSlot";
  consecutive_failures_threshold = 3;
  consecutive_successes_threshold = 2;
  max_slot_lag = 50;
}

pub record Backend : Type 0 where
  pub label : String
  pub url : String
  pub weight : ℕ
  pub ws_url : Option String

pub record Config : Type 0 where
  pub port : ℕ
  pub metrics_port : ℕ
  pub redis_url : String
  pub backends : List Backend
  pub method_routes : HashMap String
  pub health_check : HealthCheckConfig
  pub proxy : ProxyConfig

-- The messages of `load_config`, with what they print.
pub data ConfigError : Type 0 where
  file_not_found : String → ConfigError
  unreadable : String → ConfigError
  unparsable : String → ConfigError
  empty_redis_url : ConfigError
  no_backends : ConfigError
  duplicate_labels : ConfigError
  zero_weight : String → ConfigError
  empty_label : String → ConfigError
  zero_timeout : ConfigError
  unknown_route : String → String → ConfigError
  same_ports : ConfigError
  port_overflow : ConfigError
  ws_port_conflict : ℕ → ConfigError

infixl 5 ◌>>=◌ ◌>>◌
abbrev pub ◌>>=◌ {ℓ κ} :
    {A : Type ℓ} {B : Type κ}
    → Result ConfigError A
    → (A → Result ConfigError B)
    → Result ConfigError B
ok a >>= k = k a
err e >>= k = err e

abbrev pub ◌>>◌ {ℓ} :
    {B : Type ℓ} → Result ConfigError (Unit {0}) → Result ConfigError B → Result ConfigError B
m >> k = m >>= λ _. k

-- `if bad { return Err(e) }`.
abbrev pub reject_if : Bool → ConfigError → Result ConfigError (Unit {0})
reject_if b e = if b then err e else ok tt

-- `iter().map(|b| (label, url)).collect()` into a `HashMap`: a later label replaces an earlier one.
unfoldable pub collect_labels : HashMap String → List Backend → HashMap String
collect_labels m [] = m
collect_labels m (b ∷ bs) = collect_labels (insert b.label b.url m) bs

-- The loop over the backends.
unfoldable pub check_backends : List Backend → Result ConfigError (Unit {0})
check_backends [] = ok tt
check_backends (b ∷ bs) = do
  reject_if (eqb b.weight 0) (zero_weight b.label)
  reject_if (b.label == "") (empty_label b.url)
  check_backends bs

-- The loop over the method routes.
unfoldable pub check_routes : HashMap String → HashMap String → Result ConfigError (Unit {0})
check_routes labels [] = ok tt
check_routes labels ((method, label) ∷ routes) = do
  reject_if (not (contains_key label labels)) (unknown_route method label)
  check_routes labels routes

-- `port.checked_add(1)` on a `u16`.
unfoldable pub checked_next : ℕ → Result ConfigError ℕ
checked_next port = if leb 65535 port then err port_overflow else ok (port + 1)

-- The checks of `load_config`, from the parsed configuration on.
unfoldable pub validate : Config → Result ConfigError Config
validate c = do
  reject_if (c.redis_url == "") empty_redis_url
  reject_if (is_empty c.backends) no_backends
  let labels = collect_labels [] c.backends
  reject_if (not (eqb (length labels) (length c.backends))) duplicate_labels
  check_backends c.backends
  reject_if (eqb c.proxy.timeout_secs 0) zero_timeout
  check_routes labels c.method_routes
  reject_if (eqb c.port c.metrics_port) same_ports
  ws_port ← checked_next c.port
  reject_if (eqb ws_port c.metrics_port) (ws_port_conflict c.metrics_port)
  ok c

-- The file system, and `toml::from_str`.
pub record Files : Type 0 where
  pub exists : String → Bool
  pub read_to_string : String → Result String String
  pub parse : String → Result String Config

abbrev pub map_err {ℓ} :
    {A : Type ℓ} → (String → ConfigError) → Result String A → Result ConfigError A
map_err f (ok a) = ok a
map_err f (err e) = err (f e)

unfoldable pub load_config : Files → String → Result ConfigError Config
load_config files path = do
  reject_if (not (files.exists path)) (file_not_found path)
  contents ← map_err unreadable (files.read_to_string path)
  config ← map_err unparsable (files.parse contents)
  validate config
