-- ===== src/Benchmark/Report/Summary.antt =====
-- The report, in terms of the results of the requests.
use Prim.Native.Nat.{◌/◌}
use mathlib.Core.List.{append-nil, append_assoc}
use sol_rpc_router.Base.{
  ℕ, suc, ◌+◌, ◌%◌, ◌^◌, ◌≡◌, ◌∙◌, refl, sym, ap, List, [], ◌∷◌, ◌++◌, arith, length, sum,
}
use sol_rpc_router.Benchmark.Report.{
  Finished, responded, request_failed, Totals, fresh, run_client, run_clients, Products, Report,
  report,
}
use sol_rpc_router.Benchmark.Report.Percentiles.{IsRank, length-sort, sum-sort, sort-IsRank}

-- The results of all clients, their latencies, and how many failed.
abbrev pub all_results : List (List Finished) → List Finished
all_results [] = []
all_results (results ∷ clients) = results ++ all_results clients

abbrev pub measured : List Finished → List ℕ
measured [] = []
measured (responded micros ∷ rest) = micros ∷ measured rest
measured (request_failed ∷ rest) = measured rest

abbrev pub failures : List Finished → ℕ
failures [] = 0
failures (responded micros ∷ rest) = failures rest
failures (request_failed ∷ rest) = suc (failures rest)

pub record IsSummary (f : Products) (results : List Finished) (r : Report) : Type 0 where
  pub total : r.total_requests ≡ length results
  pub successes : r.successful ≡ length (measured results)
  pub failed : r.errors ≡ failures results
  pub summed : r.latency_sum ≡ sum (measured results) % 2 ^ 64
  pub half : IsRank (measured results) (length (measured results) / 2) r.p50
  pub high : IsRank (measured results) (f.p99_idx (length (measured results))) r.p99
  pub highest : IsRank (measured results) (f.p999_idx (length (measured results))) r.p999

pub length-append {ℓ} : {A : Type ℓ} (xs ys : List A) → length (xs ++ ys) ≡ length xs + length ys
length-append [] ys = omega arith
length-append (x ∷ xs) ys = omega (arith, length-append xs ys)

measured-append :
    (rs others : List Finished) → measured (rs ++ others) ≡ measured rs ++ measured others
measured-append [] others = refl
measured-append (responded micros ∷ rs) others = ap (◌∷◌ micros) (measured-append rs others)
measured-append (request_failed ∷ rs) others = measured-append rs others

pub failures-append :
    (rs others : List Finished) → failures (rs ++ others) ≡ failures rs + failures others
failures-append [] others = omega arith
failures-append (responded micros ∷ rs) others = failures-append rs others
failures-append (request_failed ∷ rs) others = omega (arith, failures-append rs others)

pub length_split :
    (results : List Finished) → length results ≡ length (measured results) + failures results
length_split [] = refl
length_split (responded micros ∷ rest) = omega (arith, length_split rest)
length_split (request_failed ∷ rest) = omega (arith, length_split rest)

-- The totals after some results more.
record Adds (results : List Finished) (xs : List ℕ) (t u : Totals) : Type 0 where
  successes : u.success_count ≡ t.success_count + length (measured results)
  failed : u.error_count ≡ t.error_count + failures results
  latencies : u.latencies ≡ t.latencies ++ xs

run_client-Adds :
    (results : List Finished) (own : List ℕ) (t : Totals)
    → Adds results (own ++ measured results) t (run_client results own t)
unfolding run_client
run_client-Adds [] own t = record {
  successes = omega arith;
  failed = omega arith;
  latencies = rw (append-nil own) refl;
}
run_client-Adds (responded micros ∷ rest) own t =
    let i =
      run_client-Adds rest (own ++ micros ∷ [])
        (record t { success_count = t.success_count + 1 }) in
    record {
      successes = omega (arith, i.successes);
      failed = i.failed;
      latencies =
          i.latencies
          ∙ ap (λ xs. t.latencies ++ xs) (append_assoc own (micros ∷ []) (measured rest));
    }
run_client-Adds (request_failed ∷ rest) own t =
    let i = run_client-Adds rest own (record t { error_count = t.error_count + 1 }) in
    record { successes = i.successes; failed = omega (arith, i.failed); latencies = i.latencies }

run_clients-Adds :
    (clients : List (List Finished)) (t : Totals)
    → Adds (all_results clients) (measured (all_results clients)) t (run_clients clients t)
unfolding run_clients
run_clients-Adds [] t = record {
  successes = omega arith;
  failed = omega arith;
  latencies = rw (append-nil t.latencies) refl;
}
run_clients-Adds (results ∷ clients) t =
    let here = run_client-Adds results [] t in
    let rest = run_clients-Adds clients (run_client results [] t) in
    let latest = measured-append results (all_results clients) in
    let both = length-append (measured results) (measured (all_results clients)) in
    record {
      successes = rw latest (omega (arith, rest.successes, here.successes, both));
      failed =
          omega (arith, rest.failed, here.failed, failures-append results (all_results clients));
      latencies =
          rest.latencies
          ∙ (ap (λ xs. xs ++ measured (all_results clients)) here.latencies
              ∙ (append_assoc t.latencies (measured results) (measured (all_results clients))
                  ∙ ap (λ xs. t.latencies ++ xs) (sym latest)));
    }

-- Whatever the clients' requests end with, and however they are shared among the clients, the
-- report counts every request once, the successful ones and the errors add up to all, the sum of
-- the latencies is that of the successful requests, modulo 2 ^ 64, and each percentile is the
-- latency that stands at its index when these are put in order, or 0 where the index is past the
-- end.
pub report-IsSummary :
    (f : Products) (clients : List (List Finished))
    → IsSummary f (all_results clients) (report f (run_clients clients fresh))
unfolding report
report-IsSummary f clients =
    let results = all_results clients in
    let i = run_clients-Adds clients fresh in
    let all = i.latencies in
    let len = length-sort (measured results) in
    record {
      total = omega (arith, i.successes, i.failed, length_split results);
      successes = omega (arith, i.successes);
      failed = omega (arith, i.failed);
      summed = rw (all, sum-sort) refl;
      half = rw (all, len) (sort-IsRank (measured results) _);
      high = rw (all, len) (sort-IsRank (measured results) _);
      highest = rw (all, len) (sort-IsRank (measured results) _);
    }
