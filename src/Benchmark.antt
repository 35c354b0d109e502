-- ===== src/Benchmark.antt =====
-- src/bin/benchmark.rs: the router that the benchmark starts, on a mock key store and one backend,
-- and the request of its clients. The mock backend is in Benchmark/Upstream, the loops of the
-- clients in Benchmark/Clients, their totals and the report in Benchmark/Report.
pub mod Flood
pub mod Upstream
pub mod Clients
pub mod Whole
pub mod Report
use Prim.Native.String
use sol_rpc_router.Base.{ℕ, ◌+◌, String, Bool, true, Option, none, some, List, [], ◌∷◌, Run, done}
use sol_rpc_router.Config.{Backend, default_health_check}
use sol_rpc_router.Status.{new}
use sol_rpc_router.State.{Heap, RuntimeBackend, RouterState}
use sol_rpc_router.Router.{new_flag}
use sol_rpc_router.KeyStore.{KeyStore}
use sol_rpc_router.Handlers.{Env}
use sol_rpc_router.Handlers.Middleware.{Incoming, bytes, extract_rpc_method}
use sol_rpc_router.Handlers.Metrics.{Service, Served, track_metrics}
use sol_rpc_router.Server.{Axum, Arrival, request_of, routes}
use sol_rpc_router.Mock.{MockKeyStore, add_key}

abbrev pub bench_keys : MockKeyStore
bench_keys = add_key "bench-key" "benchmark" 999_999_999 sol_rpc_router.Mock.new

abbrev pub upstream_url : String → String
upstream_url addr = String.◌++◌ "http://" addr

abbrev pub mock_upstream : String → Backend
mock_upstream addr = record {
  label = "mock-upstream";
  url = upstream_url addr;
  weight = 1;
  ws_url = none;
}

-- The heap and the table of `start_router`: one flag, then the health state.
abbrev pub bench_heap : Heap → Heap
bench_heap h =
    let h' = new_flag true h in
    record h' {
      healths = sol_rpc_router.Health.write h'.healths h'.next (new ("mock-upstream" ∷ []));
      next = h'.next + 1;
    }

abbrev pub bench_state : String → Heap → RouterState
bench_state addr h = record {
  backends = record { config = mock_upstream addr; healthy = h.next } ∷ [];
  method_routes = [];
  health_state = h.next + 1;
  proxy_timeout_secs = 30;
  health_check_config = default_health_check;
}

-- `app`: `track_metrics`, and around it `extract_rpc_method`.
unfoldable pub bench_app :
    Axum → Env → {S : Type 0} → KeyStore S → (String → Option String) → Arrival → S → Run Served × S
bench_app axum env store probe a s =
    track_metrics (routes axum env store) (extract_rpc_method probe a.incoming (request_of a)) s

-- The request of every client; the body is the JSON text of a `getSlot` call.
abbrev pub bench_request : Option (String × Option ℕ) → String → Arrival
bench_request host body = record {
  method = "POST";
  path = "/";
  query = some "api-key=bench-key";
  host = host;
  incoming = bytes body;
}
