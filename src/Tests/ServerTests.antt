-- ===== src/Tests/ServerTests.antt =====
-- Runs of the HTTP server, of the start of the program and of the mock key store.
use sol_rpc_router.Base.{ℕ}
use sol_rpc_router.Base.{
  String, ◌≡◌, refl, ◌⊎◌, Option, none, some, List, [], ◌∷◌, arith, ◌==◌, eqb, not, ok, err, done,
  if◌then◌else◌, get,
}
use sol_rpc_router.State.{select_backend, routed, choose, pick, gen_range, sum_u32}
use sol_rpc_router.Uri.{
  target_uri, cleaned_request_path, cleaned_query, clean_query, split, join, trim_end,
  ends_with_slash, starts_with_slash,
}
use sol_rpc_router.Handlers.{refuse, Reply, message, proxy, validated, route, forward}
use sol_rpc_router.Handlers.Middleware.{bytes, extract_rpc_method}
use sol_rpc_router.Handlers.Metrics.{Served, track_metrics, log_requests}
use sol_rpc_router.Server.{to_proxy, to_health, unrouted, Axum, Arrival, serve, http_app}
use sol_rpc_router.Server.Counts.{Accounted, http_app-Accounted}
use sol_rpc_router.Startup.{Failure, Outside, Serving, main}
use sol_rpc_router.Startup.Ports.{IsServing, Fails, main_cases}
use sol_rpc_router.Mock.{new, validate_key, get_call_count}
use sol_rpc_router.Mock.History.{Use, adds, disables, calls, use_all, expected, calls_of}
use sol_rpc_router.Mock.Verdicts.{validate_key-expected}
use sol_rpc_router.Tests.HandlerTests.{env, one_key}
use sol_rpc_router.Samples.{config, disk, all_up}

abbrev pub axum : Axum
axum = record {
  route = λ method path.
      if method == "POST" then to_proxy else if path == "/health" then to_health else unrouted 404;
  params = λ query. elim query [ none ↦ ok none | some q ↦ ok (some "secret") ];
  upgrade = λ req. some 426;
  preflight = λ a. if a.method == "OPTIONS" then some 200 else none;
  json = λ health. health.overall_status;
}

abbrev pub probe : String → Option String
probe body = if body == "{}" then none else some "getSlot"

abbrev arrival : Arrival
arrival = record {
  method = "POST";
  path = "/";
  query = some "api-key=secret";
  host = none;
  incoming = bytes "slot?";
}

server : Unit {0}
unfolding http_app log_requests track_metrics serve extract_rpc_method proxy validated route forward
    select_backend routed pick choose gen_range sum_u32 get target_uri cleaned_request_path
    cleaned_query clean_query split join trim_end ends_with_slash starts_with_slash
server = tt

abbrev reply : Reply
reply = record {
  response = record {
    status = 200;
    body = message "{}";
    selected_backend = some "beta";
    client_owner = some "acme";
  };
  sent = some (record {
    uri = record { spelled = "http://b"; host = some "b"; port = none };
    request = record {
      method = "POST";
      path = "/";
      query = some "api-key=secret";
      host = some ("b", none);
      body = "slot?";
      rpc_method = some "getSlot";
      client_owner = some "acme";
    };
  });
}

abbrev served : Served
served = record {
  reply = reply;
  counts =
      record {
        method = "POST";
        status = 200;
        rpc_method = "getSlot";
        backend = "beta";
        owner = "acme";
      }
      ∷ [];
  lines =
      record { method = "POST"; path = "/"; rpc_method = some "getSlot"; backend = some "beta" }
      ∷ [];
}

http_runs : (http_app axum env one_key probe arrival tt).0 ≡ done served
unfolding server
http_runs = refl

http_app-Accounted_example :
    ((status : ℕ) × (axum.preflight arrival ≡ some status)
      × (served ≡ record { reply = refuse status ""; counts = []; lines = [] }))
    ⊎ ((axum.preflight arrival ≡ none) × Accounted env one_key tt probe arrival served)
http_app-Accounted_example = http_app-Accounted axum env one_key probe arrival tt served http_runs

abbrev outside : Outside
outside = record { opens = λ _. ok tt; connects = λ _. ok tt; binds = λ port. not (eqb port 9090) }

main_cases_example :
    ((v : Serving) × (main (disk config) outside "config.toml" all_up ≡ ok v)
      × IsServing (disk config) outside "config.toml" all_up v)
    ⊎ ((f : Failure) × (main (disk config) outside "config.toml" all_up ≡ err f)
        × Fails (disk config) outside "config.toml" f)
main_cases_example = main_cases (disk config) outside "config.toml" all_up

abbrev history : List Use
history =
    adds "k" (record { owner = "a"; rate_limit = 1 })
    ∷ calls "k"
    ∷ adds "k" (record { owner = "b"; rate_limit = 2 })
    ∷ disables "j"
    ∷ calls "k"
    ∷ []

history_runs :
    (expected "k" history ≡ ok (some (record { owner = "b"; rate_limit = 2 })))
    × (expected "j" history ≡ ok none)
    × (calls_of "k" history ≡ 2)
history_runs = (refl, refl, refl)

validate_key-expected_example :
    ((validate_key "k" (use_all history new)).0 ≡ expected "k" history)
    × (get_call_count "k" (use_all history new) ≡ calls_of "k" history)
validate_key-expected_example = validate_key-expected "k" history (omega arith)
