-- ===== src/Tests/FloodTests.antt =====
-- Runs of the benchmark: one request, and two clients at once.
use sol_rpc_router.Base.{
  ℕ, String, ◌≡◌, refl, true, none, some, List, [], ◌∷◌, arith, Result, ok, Run, done, get, insert,
}
use sol_rpc_router.State.{select_backend, routed, choose, pick, gen_range, sum_u32}
use sol_rpc_router.Uri.{
  target_uri, cleaned_request_path, cleaned_query, clean_query, split, join, trim_end,
  ends_with_slash, starts_with_slash,
}
use sol_rpc_router.Handlers.{Uri, Forward, Upstream, responded, proxy, validated, route, forward}
use sol_rpc_router.Handlers.Middleware.{bytes, extract_rpc_method}
use sol_rpc_router.Handlers.Metrics.{Served, track_metrics, or_text}
use sol_rpc_router.Server.{Axum, serve}
use sol_rpc_router.Server.Counts.{method_of}
use sol_rpc_router.Mock.{validate_key, verdict, add_key, count_call}
use sol_rpc_router.Benchmark.{bench_app, bench_request}
use sol_rpc_router.Benchmark.Flood.{after_calls, bench_env, IsMeasured, bench_app-IsMeasured}
use sol_rpc_router.Tests.ServerTests.{axum, probe}
use sol_rpc_router.Benchmark.Upstream.{JsonAxum, start_mock_upstream}
use sol_rpc_router.Benchmark.Clients.{Reading, Looping, spawn, flood, reported}
use sol_rpc_router.Benchmark.Whole.{Flooded, IsAnswer, started, client_request, flood-IsClean}
use sol_rpc_router.Benchmark.Report.{
  Products, report, run_clients, run_client, sort, put_in_order, get_or_zero,
}
use sol_rpc_router.Base.{All, length}
use sol_rpc_router.Samples.{all_up}

abbrev bench_axum : Axum
bench_axum = record axum { params = λ query. ok (some "bench-key") }

abbrev parsed : String → Result String Uri
parsed t = ok (record { spelled = t; host = some "u"; port = some 80 })

abbrev upstream : Uri
upstream = record { spelled = "http://u:80"; host = some "u"; port = some 80 }

abbrev answers : Forward → ℕ → Upstream
answers _ _ = responded 200 "{}"

bench_app_run :
    (v : Served) × ((bench_app bench_axum
        (bench_env "u:80" all_up (λ _. 0) parsed answers true)
        validate_key
        probe
        (bench_request none "{}")
        (after_calls 3)).0
      ≡ done v)
    × IsMeasured
        (bench_env "u:80" all_up (λ _. 0) parsed answers true)
        upstream
        "{}"
        (or_text "unknown" (method_of probe (bytes "{}")))
        v
    × ((bench_app bench_axum
          (bench_env "u:80" all_up (λ _. 0) parsed answers true)
          validate_key
          probe
          (bench_request none "{}")
          (after_calls 3)).1
        ≡ after_calls 4)
unfolding target_uri trim_end
bench_app_run =
    bench_app-IsMeasured bench_axum "u:80" all_up (λ _. 0) parsed answers true probe none "{}"
      upstream 3 refl refl refl (omega arith)

abbrev jaxum : JsonAxum
jaxum = record { unrouted = λ m u. none; rejected = λ sent. none; json = λ members. "{…}" }

abbrev mocked : Forward → ℕ → Upstream
mocked sent timeout = start_mock_upstream jaxum sent

abbrev products : Products
products = record { p99_idx = λ n. n; p999_idx = λ n. n }

-- Two clients for 10 units of time, who take three turns in time and two too late.
abbrev readings : List Reading
readings =
    record { client = 0; elapsed = 1; micros = 50 }
    ∷ record { client = 1; elapsed = 2; micros = 70 }
    ∷ record { client = 1; elapsed = 9; micros = 60 }
    ∷ record { client = 0; elapsed = 10; micros = 5 }
    ∷ record { client = 1; elapsed = 11; micros = 5 }
    ∷ []

abbrev flooding : Flooded → Run Served × Flooded
flooding = client_request bench_axum "u:80" all_up (λ n limit. n) parsed mocked true probe none "{}"

abbrev after_flood : List Looping × Flooded
after_flood = flood 10 flooding readings (spawn 2) started

flood-IsClean_example :
    ((reported products after_flood.0).errors ≡ 0)
    × ((reported products after_flood.0).successful
        ≡ (reported products after_flood.0).total_requests)
    × ((reported products after_flood.0).total_requests ≡ length after_flood.1.served)
    × (after_flood.1.keys ≡ after_calls (reported products after_flood.0).total_requests)
    × All (IsAnswer "{…}" (or_text "unknown" (method_of probe (bytes "{}")))) after_flood.1.served
unfolding target_uri trim_end
flood-IsClean_example =
    flood-IsClean bench_axum jaxum "u:80" all_up (λ n limit. n) parsed mocked true probe none "{}"
      upstream refl refl refl (omega arith) (λ sent there. refl) refl (λ sent same. refl) 10 2
      readings products

flood_run :
    ((reported products after_flood.0).total_requests ≡ 3)
    × ((reported products after_flood.0).latency_sum ≡ 180)
    × ((reported products after_flood.0).p50 ≡ 60)
unfolding flood report run_clients run_client client_request bench_app track_metrics serve proxy
    validated route forward select_backend extract_rpc_method validate_key verdict add_key get
    insert count_call sort put_in_order get_or_zero choose pick gen_range sum_u32 routed
    cleaned_request_path cleaned_query clean_query split join trim_end target_uri ends_with_slash
    starts_with_slash start_mock_upstream
flood_run = (refl, refl, refl)
