-- ===== src/Samples.antt =====
-- Concrete data that the test modules share: two backends, a configuration, a table, and simple
-- stand-ins for the files, the HTTP client, Redis and the cache.
use sol_rpc_router.Base.{
  ℕ, ◌+◌, ◌<◌, String, ◌≡◌, refl, ◌⊎◌, inl, inr, Bool, true, ◌&&◌, Option, none, some, List, [],
  ◌∷◌, arith, ◌==◌, eq_iff, eqb, ltb, ok, Bool-cases, if◌then◌else◌,
}
use sol_rpc_router.Config.{Backend, Config, HealthCheckConfig, Files}
use sol_rpc_router.State.{Heap, RuntimeBackend, RouterState}
use sol_rpc_router.Health.{HttpClient, answered}
use sol_rpc_router.KeyStore.{KeyInfo, Redis, Cache}
use sol_rpc_router.KeyStore.Rate.{IsCounter}
use sol_rpc_router.KeyStore.Cached.{IsTtl}

abbrev pub alpha : Backend
alpha = record { label = "alpha"; url = "http://a/"; weight = 3; ws_url = some "ws://a" }

abbrev pub beta : Backend
beta = record { label = "beta"; url = "http://b"; weight = 5; ws_url = none }

abbrev pub checks : HealthCheckConfig
checks = record {
  interval_secs = 30;
  timeout_secs = 5;
  method = "getSlot";
  consecutive_failures_threshold = 3;
  consecutive_successes_threshold = 2;
  max_slot_lag = 50;
}

abbrev pub config : Config
config = record {
  port = 28899;
  metrics_port = 9090;
  redis_url = "redis://127.0.0.1";
  backends = alpha ∷ beta ∷ [];
  method_routes = ("getSlot", "beta") ∷ [];
  health_check = checks;
  proxy = record { timeout_secs = 30 };
}

-- One file, "config.toml", which reads "text" and parses to the given configuration.
abbrev pub disk : Config → Files
disk c = record {
  exists = λ path. path == "config.toml";
  read_to_string = λ _. ok "text";
  parse = λ _. ok c;
}

abbrev pub first : RuntimeBackend
first = record { config = alpha; healthy = 0 }

abbrev pub second : RuntimeBackend
second = record { config = beta; healthy = 1 }

abbrev pub state : RouterState
state = record {
  backends = first ∷ second ∷ [];
  method_routes = ("getSlot", "beta") ∷ [];
  health_state = 0;
  proxy_timeout_secs = 30;
  health_check_config = checks;
}

-- A heap on which every flag has the given value.
abbrev pub heap_of : (ℕ → Bool) → Heap
heap_of flags = record { flags = flags; healths = λ _. []; next = 2 }

abbrev pub all_up : Heap
all_up = heap_of (λ _. true)

abbrev pub only_first : Heap
only_first = heap_of (λ a. eqb a 0)

-- "http://a/" is at slot 100, and every other backend at slot 7.
abbrev pub client : HttpClient
client = record {
  build = λ b. ok b.url;
  request = λ r _. answered 200 (ok r.uri);
  result_u64 = λ body. ok (some (if body == "http://a/" then 100 else 7));
}

abbrev pub noon : String → ℕ
noon _ = 43200

-- A database of counters, with the texts of the fields `active` and `expires_at` of every key.
pub record Database : Type 0 where
  pub counters : String → ℕ
  pub active : String
  pub expires_at : String

abbrev field : String → Database → String
field f db =
    if f == "owner"
    then "acme"
    else if f == "active"
    then db.active
    else if f == "expires_at"
    then db.expires_at
    else ""

abbrev bump : String → Database → String → ℕ
bump k db j = if k == j then db.counters k + 1 else db.counters j

abbrev pub redis : Redis
redis = record {
  Db = Database;
  exists = λ _ _. ok true;
  hget = λ _ f db. ok (field f db);
  hget_u64 = λ _ _ _. ok 2;
  incr = λ k db. (db.counters k + 1, record db { counters = bump k db });
  expire = λ _ _ db. db;
  invoke = λ f db. (ok (f db).0, (f db).1);
}

abbrev pub database : String → String → Database
database active expires_at = record { counters = λ _. 0; active = active; expires_at = expires_at }

pub redis-IsCounter : IsCounter redis (λ k db. db.counters k)
redis-IsCounter = record {
  incr_self = λ _ _. refl;
  count-incr = λ _ _ _. refl;
  count-expire = λ _ _ _ _. refl;
  invoke_done = λ f db n e. (cc, refl);
  invoke_failed = λ f db why e. cc;
}

abbrev Entries : Type 0
Entries = List (String × (Option KeyInfo × ℕ))

abbrev lookup_live : String → ℕ → Entries → Option (Option KeyInfo)
lookup_live k now [] = none
lookup_live k now ((j, (v, t)) ∷ es) =
    if j == k && ltb now (t + 60) then some v else lookup_live k now es

abbrev pub cache : Cache
cache = record { Store = Entries; lookup = lookup_live; store = λ k v t es. (k, (v, t)) ∷ es }

live_cases :
    (k j : String) (v w : Option KeyInfo) (t now : ℕ) (es : Entries)
    → lookup_live k now ((j, (v, t)) ∷ es) ≡ some w
    → ((j ≡ k) × (v ≡ w) × (now < t + 60)) ⊎ (lookup_live k now es ≡ some w)
live_cases k j v w t now es h = elim (Bool-cases (j == k && ltb now (t + 60))) [
  | inl hit ↦ inl ((eq_iff j k).0 (ground arith), ground arith, ground arith)
  | inr miss ↦ inr (rw miss at h)
]

pub cache-IsTtl : IsTtl cache
cache-IsTtl = record { lookup-store = live_cases }
