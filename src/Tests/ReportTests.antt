-- ===== src/Tests/ReportTests.antt =====
-- A report of the benchmark.
use Prim.Native.Nat.{◌/◌}
use sol_rpc_router.Base.{◌*◌, ◌≡◌, refl, List, [], ◌∷◌}
use sol_rpc_router.Benchmark.Report.{
  Finished, responded, request_failed, fresh, run_client, run_clients, put_in_order, sort,
  get_or_zero, Products, Report, report,
}
use sol_rpc_router.Benchmark.Report.Summary.{all_results, IsSummary, report-IsSummary}

abbrev products : Products
products = record { p99_idx = λ n. n * 99 / 100; p999_idx = λ n. n * 999 / 1000 }

abbrev clients : List (List Finished)
clients =
    (responded 900 ∷ request_failed ∷ [])
    ∷ (responded 300 ∷ responded 500 ∷ responded 300 ∷ [])
    ∷ []

abbrev shown : Report
shown = record {
  total_requests = 5;
  successful = 4;
  errors = 1;
  latency_sum = 2000;
  p50 = 500;
  p99 = 900;
  p999 = 900;
}

report_runs : report products (run_clients clients fresh) ≡ shown
unfolding report run_clients run_client sort put_in_order get_or_zero
report_runs = refl

-- No request was answered: the percentiles are 0.
report_empty : (report products (run_clients ((request_failed ∷ []) ∷ []) fresh)).p50 ≡ 0
unfolding report run_clients run_client sort put_in_order get_or_zero
report_empty = refl

report-IsSummary_example :
    IsSummary products (all_results clients) (report products (run_clients clients fresh))
report-IsSummary_example = report-IsSummary products clients
