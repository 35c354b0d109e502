-- ===== src/Benchmark/Whole.antt =====
-- A whole run of the benchmark: the clients, the router, its key store and the mock backend.
use sol_rpc_router.Base.{
  ℕ, suc, ◌≤◌, String, ◌≡◌, ◌∙◌, refl, sym, ap, subst, map, Bool, Option, none, some, List, [], ◌∷◌,
  arith, length, All, Result, ok, Run, done, panic,
}
use Prim.Native.String.{len}
use sol_rpc_router.State.{Heap}
use sol_rpc_router.Uri.{target_uri}
use sol_rpc_router.Handlers.{Uri, Forward, Upstream, message, responded, answered}
use sol_rpc_router.Handlers.Middleware.{bytes, max_body_size}
use sol_rpc_router.Handlers.Metrics.{Served, or_text}
use sol_rpc_router.Server.{Axum, to_proxy}
use sol_rpc_router.Server.Counts.{method_of}
use sol_rpc_router.Mock.{MockKeyStore, validate_key}
use sol_rpc_router.Benchmark.{bench_keys, upstream_url, bench_app, bench_request}
use sol_rpc_router.Benchmark.Flood.{after_calls, bench_env, IsMeasured, bench_app-IsMeasured}
use sol_rpc_router.Benchmark.Upstream.{
  JsonAxum, upstream_value, handled, payload_answer, start_mock_upstream,
}
use sol_rpc_router.Benchmark.Clients.{Reading, spawn, flood, reported}
use sol_rpc_router.Benchmark.Clients.Answered.{results_of, flood-answered}
use sol_rpc_router.Benchmark.Report.{Products}
use sol_rpc_router.Benchmark.Report.Summary.{report-IsSummary, length_split}

-- The router's key store, and what the router has served, the latest first.
pub record Flooded : Type 0 where
  pub keys : MockKeyStore
  pub served : List Served

abbrev note : Run Served → List Served → List Served
note (done v) served = v ∷ served
note (panic p) served = served

abbrev pub started : Flooded
started = record { keys = bench_keys; served = [] }

-- One request of a client to the router: `draws` gives the random draw of each request by its number.
unfoldable pub client_request :
    Axum
    → String
    → Heap
    → (ℕ → ℕ → ℕ)
    → (String → Result String Uri)
    → (Forward → ℕ → Upstream)
    → Bool
    → (String → Option String)
    → Option (String × Option ℕ)
    → String
    → Flooded
    → Run Served × Flooded
client_request axum addr h draws parse client logs probe host body s =
    let env = bench_env addr h (draws (length s.served)) parse client logs in
    let (ran, keys) = bench_app axum env validate_key probe (bench_request host body) s.keys in
    (ran, record { keys = keys; served = note ran s.served })

-- The mock backend's answer to the request, counted under its labels.
pub record IsAnswer (text rpc_method : String) (v : Served) : Type 0 where
  pub status : v.reply.response.status ≡ 200
  pub body : v.reply.response.body ≡ message text
  pub counts :
      v.counts
      ≡ record {
        method = "POST";
        status = 200;
        rpc_method = rpc_method;
        backend = "mock-upstream";
        owner = "benchmark";
      }
        ∷ []

-- After `n` requests, every one of them answered.
record HasServed (text rpc_method : String) (n : ℕ) (s : Flooded) : Type 0 where
  keys : s.keys ≡ after_calls n
  number : length s.served ≡ n
  answers : All (IsAnswer text rpc_method) s.served

mock_answer :
    (jaxum : JsonAxum) (sent : Forward) (uri : Uri)
    → sent.uri ≡ uri
    → sent.request.method ≡ "POST"
    → jaxum.unrouted "POST" uri ≡ none
    → jaxum.rejected sent ≡ none
    → start_mock_upstream jaxum sent ≡ responded 200 (jaxum.json upstream_value)
unfolding start_mock_upstream
mock_answer jaxum sent uri there posted routed accepted =
    ap (λ m. handled jaxum sent (jaxum.unrouted m sent.uri)) posted
    ∙ ap (λ u. handled jaxum sent (jaxum.unrouted "POST" u)) there
    ∙ ap (handled jaxum sent) routed
    ∙ ap (payload_answer jaxum) accepted

module _ (axum : Axum) (jaxum : JsonAxum) (addr : String) (h : Heap) (draws : ℕ → ℕ → ℕ)
    (parse : String → Result String Uri) (client : Forward → ℕ → Upstream) (logs : Bool)
    (probe : String → Option String) (host : Option (String × Option ℕ)) (body : String)
    (uri : Uri) where
  abbrev requests : Flooded → Run Served × Flooded
  requests = client_request axum addr h draws parse client logs probe host body

  module _ (routed_there : axum.route "POST" "/" ≡ to_proxy)
      (asked : axum.params (some "api-key=bench-key") ≡ ok (some "bench-key"))
      (parsed : parse (target_uri (upstream_url addr) "/") ≡ ok uri)
      (fits : len body ≤ max_body_size)
      (reaches : (sent : Forward)
        → sent.uri ≡ uri
        → client sent 30 ≡ start_mock_upstream jaxum sent)
      (routes : jaxum.unrouted "POST" uri ≡ none)
      (accepts : (sent : Forward) → sent.request.body ≡ body → jaxum.rejected sent ≡ none) where
    abbrev rpc_method : String
    rpc_method = or_text "unknown" (method_of probe (bytes body))

    abbrev text : String
    text = jaxum.json upstream_value

    measured-IsAnswer :
        (draw : ℕ → ℕ) (v : Served)
        → IsMeasured (bench_env addr h draw parse client logs) uri body rpc_method v
        → IsAnswer text rpc_method v
    measured-IsAnswer draw v i =
        let reply =
          reaches i.sent i.to_upstream
          ∙ mock_answer jaxum i.sent uri i.to_upstream i.posted routes
              (accepts i.sent i.same_body) in
        record {
          status = ap (λ r. r.status) i.answer ∙ ap (λ u. (answered u 30).status) reply;
          body = ap (λ r. r.body) i.answer ∙ ap (λ u. (answered u 30).body) reply;
          counts =
              i.counts
              ∙ ap
                  (λ u.
                    record {
                      method = "POST";
                      status = (answered u 30).status;
                      rpc_method = rpc_method;
                      backend = "mock-upstream";
                      owner = "benchmark";
                    }
                    ∷ [])
                  reply;
        }

    answers_one :
        (n : ℕ) (s : Flooded)
        → HasServed text rpc_method n s
        → (v : Served) × ((requests s).0 ≡ done v)
          × HasServed text rpc_method (suc n) (requests s).1
    unfolding client_request
    answers_one n s i =
        let draw = draws (length s.served) in
        let (v, ran, is_measured, kept) =
          bench_app-IsMeasured axum addr h draw parse client logs probe host body uri n routed_there
            asked parsed fits in
        let app =
          bench_app axum (bench_env addr h draw parse client logs) validate_key probe
            (bench_request host body) in
        let served : (requests s).0 ≡ done v = ap (λ m. (app m).0) i.keys ∙ ran in
        (
          v,
          served,
          record {
            keys = ap (λ m. (app m).1) i.keys ∙ kept;
            number = ap (λ o. length (note o s.served)) served ∙ omega (arith, i.number);
            answers =
                subst (λ o. All (IsAnswer text rpc_method) (note o s.served)) (sym served)
                  (measured-IsAnswer draw v is_measured, i.answers);
          },
        )

    -- Let the clients' requests reach the router's route and the router's the mock backend, and let
    -- the body be at most 10 MB and acceptable as JSON. Then, however many clients there are, in
    -- whatever order their loops take turns, at whatever times and with whatever random draws, the
    -- report shows no error; as many requests as the router has served, each of them as a success;
    -- the key store is as after as many calls for the key; and every request was answered 200 with
    -- the mock backend's object and counted once, for that backend and for the owner "benchmark".
    pub flood-IsClean :
        (duration concurrency : ℕ) (turns : List Reading) (f : Products)
        → let (clients, s) = flood duration requests turns (spawn concurrency) started in
          let r = reported f clients in
          (r.errors ≡ 0)
          × (r.successful ≡ r.total_requests)
          × (r.total_requests ≡ length s.served)
          × (s.keys ≡ after_calls r.total_requests)
          × All
              (IsAnswer
                (jaxum.json upstream_value)
                (or_text "unknown" (method_of probe (bytes body))))
              s.served
    unfolding after_calls
    flood-IsClean duration concurrency turns f =
        let (clients, s) = flood duration requests turns (spawn concurrency) started in
        let (none_failed, i) =
          flood-answered duration requests (HasServed text rpc_method) answers_one concurrency turns
            started (record { keys = refl; number = refl; answers = tt }) in
        let summary = report-IsSummary f (map (λ c. c.results) clients) in
        (
          summary.failed ∙ none_failed,
          omega (
            arith,
            summary.successes,
            summary.total,
            length_split (results_of clients),
            none_failed,
          ),
          summary.total ∙ sym i.number,
          i.keys ∙ ap after_calls (sym summary.total),
          i.answers,
        )
