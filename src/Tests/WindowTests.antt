-- ===== src/Tests/WindowTests.antt =====
-- Requests within one window of the rate limit.
use sol_rpc_router.Base.{arith, ℕ, ◌-◌, ◌≤◌, String, ◌≡◌, refl, none, some, List, [], ◌∷◌, ok}
use sol_rpc_router.Handlers.Middleware.{bytes}
use sol_rpc_router.Server.{Axum}
use sol_rpc_router.Server.Window.{Visit, sent_for, sent_for-le_limit}
use sol_rpc_router.State.{select_backend, routed, choose, pick, gen_range, sum_u32}
use sol_rpc_router.Uri.{
  target_uri, cleaned_request_path, cleaned_query, clean_query, split, join, trim_end,
  ends_with_slash, starts_with_slash,
}
use sol_rpc_router.Base.{get}
use sol_rpc_router.Handlers.{proxy, validated, route, forward}
use sol_rpc_router.Handlers.Middleware.{extract_rpc_method}
use sol_rpc_router.Handlers.Metrics.{track_metrics, log_requests}
use sol_rpc_router.Server.{serve, http_app}
use sol_rpc_router.KeyStore.{
  fetch, script, check_rate_limit, get_key_info, check_info, validate_key,
}
use sol_rpc_router.Samples.{redis, redis-IsCounter, cache}
use sol_rpc_router.Tests.KeyTests.{live, cold}
use sol_rpc_router.Tests.HandlerTests.{env}
use sol_rpc_router.Tests.ServerTests.{axum, probe}

abbrev asking : Axum
asking = record axum { params = λ query. ok query }

abbrev visit_with : String → ℕ → Visit redis
visit_with key now = record {
  env = env;
  arrival = record {
    method = "POST";
    path = "/";
    query = some key;
    host = none;
    incoming = bytes "slot?";
  };
  now = now;
  change = λ db. db;
}

-- The key "k" has a limit of 2 requests; five requests come, one of them for another key.
abbrev visits : List (Visit redis)
visits =
    visit_with "k" 0
    ∷ visit_with "j" 0
    ∷ visit_with "k" 0
    ∷ visit_with "k" 0
    ∷ visit_with "k" 0
    ∷ []

sent_for-le_limit_example :
    sent_for asking probe redis cache "k" 2 visits cold ≤ 2 - live.counters "rate_limit:k"
sent_for-le_limit_example =
    sent_for-le_limit asking probe redis cache "k" 2 (λ k db. db.counters k) redis-IsCounter visits
      cold
      (
        (λ db. omega arith),
        (
          (λ db. omega arith),
          ((λ db. omega arith), ((λ db. omega arith), ((λ db. omega arith), tt))),
        ),
      )

-- Two of the four are sent on.
window_run : sent_for asking probe redis cache "k" 2 visits cold ≡ 2
unfolding sent_for http_app log_requests track_metrics serve extract_rpc_method proxy validated
    route forward select_backend routed pick choose gen_range sum_u32 get target_uri
    cleaned_request_path cleaned_query clean_query split join trim_end ends_with_slash
    starts_with_slash fetch script check_rate_limit get_key_info check_info validate_key
window_run = refl
