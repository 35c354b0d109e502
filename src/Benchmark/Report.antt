-- ===== src/Benchmark/Report.antt =====
-- src/bin/benchmark.rs: what the clients add up and what is reported, in microseconds. The indices
-- of the two high percentiles are products in floating point, and so parameters; the average and
-- the display of the numbers are left out.
pub mod Percentiles
pub mod Summary
use Prim.Native.Nat.{◌/◌}
use sol_rpc_router.Base.{
  ℕ, zero, suc, ◌+◌, ◌%◌, ◌^◌, Option, none, some, List, [], ◌∷◌, ◌++◌, length, sum, leb,
  if◌then◌else◌,
}

-- How a request of a client ends: with a response after some microseconds, or with an error.
pub data Finished : Type 0 where
  responded : ℕ → Finished
  request_failed : Finished

-- The two counters and the latencies that the clients share.
pub record Totals : Type 0 where
  pub success_count : ℕ
  pub error_count : ℕ
  pub latencies : List ℕ

abbrev pub fresh : Totals
fresh = record { success_count = 0; error_count = 0; latencies = [] }

-- The requests of one client, with the latencies that it keeps for itself until its loop is over.
unfoldable pub run_client : List Finished → List ℕ → Totals → Totals
run_client [] local_latencies t = record t { latencies = t.latencies ++ local_latencies }
run_client (responded micros ∷ rest) local_latencies t =
    run_client rest (local_latencies ++ micros ∷ [])
      (record t { success_count = t.success_count + 1 })
run_client (request_failed ∷ rest) local_latencies t =
    run_client rest local_latencies (record t { error_count = t.error_count + 1 })

-- The clients, in the order in which they hand in their latencies. The counters only grow, so how
-- the requests of different clients interleave makes no difference to them.
unfoldable pub run_clients : List (List Finished) → Totals → Totals
run_clients [] t = t
run_clients (results ∷ clients) t = run_clients clients (run_client results [] t)

-- `latencies.sort()`.
unfoldable pub put_in_order : ℕ → List ℕ → List ℕ
put_in_order x [] = x ∷ []
put_in_order x (y ∷ ys) = let rest = put_in_order x ys in if leb x y then x ∷ y ∷ ys else y ∷ rest

unfoldable pub sort : List ℕ → List ℕ
sort [] = []
sort (x ∷ xs) = put_in_order x (sort xs)

-- `latencies.get(i).copied().unwrap_or(0)`.
unfoldable pub get_or_zero : List ℕ → ℕ → ℕ
get_or_zero [] i = 0
get_or_zero (x ∷ xs) zero = x
get_or_zero (x ∷ xs) (suc i) = get_or_zero xs i

-- `(len as f64 * 0.99) as usize`, and with 0.999.
pub record Products : Type 0 where
  pub p99_idx : ℕ → ℕ
  pub p999_idx : ℕ → ℕ

pub record Report : Type 0 where
  pub total_requests : ℕ
  pub successful : ℕ
  pub errors : ℕ
  pub latency_sum : ℕ
  pub p50 : ℕ
  pub p99 : ℕ
  pub p999 : ℕ

unfoldable pub report : Products → Totals → Report
report f t =
    let latencies = sort t.latencies in
    let len = length latencies in
    record {
      total_requests = t.success_count + t.error_count;
      successful = t.success_count;
      errors = t.error_count;
      latency_sum = sum latencies % 2 ^ 64;
      p50 = get_or_zero latencies (len / 2);
      p99 = get_or_zero latencies (f.p99_idx len);
      p999 = get_or_zero latencies (f.p999_idx len);
    }
