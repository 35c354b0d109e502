-- ===== src/Benchmark/Flood.antt =====
-- What the benchmark measures: every request of a client goes through to the mock backend.
use sol_rpc_router.Base.{
  ℕ, zero, suc, ◌≤◌, filter, String, ◌≡◌, refl, inl, inr, Bool, true, Option, none, some, [], ◌∷◌,
  ltb, eqb, arith, get, insert, Result, ok, done, Bool-cases, Option-cases,
}
use sol_rpc_router.State.{
  is_healthy, RuntimeBackend, Heap, select_backend, routed, choose, pick, gen_range, sum_u32,
}
use sol_rpc_router.KeyStore.{KeyInfo}
use sol_rpc_router.Uri.{target_uri, cleaned_request_path, cleaned_query, clean_query, split, join}
use sol_rpc_router.Handlers.{
  Uri, Env, Request, Forward, Upstream, answered, proxy, validated, route, forward,
}
use Prim.Native.String.{len}
use sol_rpc_router.Handlers.Middleware.{extract_rpc_method, bytes, max_body_size, to_bytes}
use sol_rpc_router.Handlers.Metrics.{count_of, Served, track_metrics, or_text}
use sol_rpc_router.Server.{Axum, to_proxy, serve, request_of}
use sol_rpc_router.Server.Counts.{method_of}
use sol_rpc_router.Mock.{MockKeyStore, add_key, validate_key, verdict, count_call}
use sol_rpc_router.Benchmark.{
  bench_keys, upstream_url, mock_upstream, bench_heap, bench_state, bench_app, bench_request,
}

abbrev pub bench_info : KeyInfo
bench_info = record { owner = "benchmark"; rate_limit = 999_999_999 }

-- The key store after `n` calls for the benchmark's key.
unfoldable pub after_calls : ℕ → MockKeyStore
after_calls zero = bench_keys
after_calls (suc n) = (validate_key "bench-key" (after_calls n)).1

kept :
    (n : ℕ)
    → ((after_calls n).keys ≡ bench_keys.keys)
      × ((after_calls n).error_keys ≡ [])
      × ((after_calls n).inactive_keys ≡ [])
      × ((after_calls n).rate_limited_keys ≡ [])
unfolding after_calls validate_key count_call add_key
kept zero = (refl, refl, refl, refl)
kept (suc n) = kept n

accepts : (n : ℕ) → (validate_key "bench-key" (after_calls n)).0 ≡ ok (some bench_info)
unfolding validate_key verdict add_key get insert
accepts n =
    let (keys, errors, inactive, limited) = kept n in rw (errors, inactive, keys, limited) refl

module _ (addr : String) (h : Heap) where
  abbrev only : RuntimeBackend
  only = record { config = mock_upstream addr; healthy = h.next }

  only_up : filter (is_healthy (bench_heap h)) (only ∷ []) ≡ only ∷ []
  only_up = let here : eqb h.next h.next ≡ true = ground arith in rw here refl

  chooses : (draw : ℕ → ℕ) → choose draw (only ∷ []) ≡ done (some only)
  unfolding choose gen_range sum_u32 pick
  chooses draw = elim (Bool-cases (ltb (draw 1) 1)) [
    | inl first ↦ rw first refl
    | inr past ↦ rw past refl
  ]

  -- One backend, which is up: whatever is drawn, it is chosen.
  selects :
      (draw : ℕ → ℕ) (method : Option String)
      → select_backend draw (bench_heap h) (bench_state addr h) method
        ≡ done (some ("mock-upstream", upstream_url addr))
  unfolding select_backend routed get
  selects draw none = rw (only_up, chooses draw) refl
  selects draw (some m) = rw (only_up, chooses draw) refl

-- The benchmark's router with its key store, draw, parser, client and log.
abbrev pub bench_env :
    String → Heap → (ℕ → ℕ) → (String → Result String Uri) → (Forward → ℕ → Upstream) → Bool → Env
bench_env addr h draw parse client logs = record {
  state = bench_state addr h;
  later = bench_state addr h;
  heap = bench_heap h;
  draw = draw;
  parse = parse;
  client = client;
  logs_info = logs;
  logs_warn = logs;
}

-- What the benchmark gets for a request: the answer of the mock backend, counted under its labels.
pub record IsMeasured (env : Env) (uri : Uri) (body rpc_method : String) (v : Served) : Type 0 where
  pub sent : Forward
  pub was_sent : v.reply.sent ≡ some sent
  pub to_upstream : sent.uri ≡ uri
  pub same_body : sent.request.body ≡ body
  pub posted : sent.request.method ≡ "POST"
  pub answer : v.reply.response ≡ record (answered (env.client sent 30) 30) {
    selected_backend = some "mock-upstream";
    client_owner = some "benchmark";
  }
  pub counts :
      v.counts
      ≡ record {
        method = "POST";
        status = (answered (env.client sent 30) 30).status;
        rpc_method = rpc_method;
        backend = "mock-upstream";
        owner = "benchmark";
      }
        ∷ []

-- The request that the handler sees.
abbrev seen : Option (String × Option ℕ) → String → Option String → Request
seen host body rpc_method = record {
  method = "POST";
  path = "/";
  query = some "api-key=bench-key";
  host = host;
  body = body;
  rpc_method = rpc_method;
  client_owner = none;
}

extracts :
    (probe : String → Option String) (host : Option (String × Option ℕ)) (body : String)
    → len body ≤ max_body_size
    → extract_rpc_method probe (bytes body) (request_of (bench_request host body))
      ≡ seen host body (method_of probe (bytes body))
unfolding extract_rpc_method
extracts probe host body fits =
    let whole : to_bytes (bytes body) ≡ some body = ground arith in
    elim (Option-cases (probe body)) [
      | inl no_method ↦ rw (extract_rpc_method, method_of, whole, no_method) refl
      | inr (m, found) ↦ rw (extract_rpc_method, method_of, whole, found) refl
    ]

-- The key is the only parameter, so nothing of the query is left.
no_query : cleaned_request_path "/" (some "api-key=bench-key") ≡ "/"
unfolding cleaned_request_path cleaned_query clean_query split join
no_query = refl

module _ (addr : String) (h : Heap) (draw : ℕ → ℕ) (parse : String → Result String Uri)
    (client : Forward → ℕ → Upstream) (logs : Bool) (uri : Uri)
    (parsed : parse (target_uri (upstream_url addr) "/") ≡ ok uri) where
  abbrev env : Env
  env = bench_env addr h draw parse client logs

  forwards :
      (host : Option (String × Option ℕ)) (body : String) (m : Option String) (n : ℕ)
      → (proxy env validate_key (some "bench-key") (seen host body m) (after_calls n)).0
        ≡ done (
            forward env "mock-upstream" uri
              (record (seen host body m) { client_owner = some "benchmark" }))
  unfolding proxy validated route
  forwards host body m n = rw (accepts n) (rw (selects addr h draw m) (rw (no_query, parsed) refl))

-- Whatever is drawn and however many requests came before, a request of the benchmark's clients
-- whose body is at most 10 MB is sent to the mock backend and answered with that backend's status,
-- 502 or 504; it is counted once, for the backend and for the owner "benchmark"; and the key store
-- counts one more call. No request of theirs is refused.
pub bench_app-IsMeasured :
    (axum : Axum) (addr : String) (h : Heap) (draw : ℕ → ℕ) (parse : String → Result String Uri)
    (client : Forward → ℕ → Upstream) (logs : Bool) (probe : String → Option String)
    (host : Option (String × Option ℕ)) (body : String) (uri : Uri) (n : ℕ)
    → axum.route "POST" "/" ≡ to_proxy
    → axum.params (some "api-key=bench-key") ≡ ok (some "bench-key")
    → parse (target_uri (upstream_url addr) "/") ≡ ok uri
    → len body ≤ max_body_size
    → let env = bench_env addr h draw parse client logs in
      let ran = bench_app axum env validate_key probe (bench_request host body) (after_calls n) in
      (v : Served) × (ran.0 ≡ done v)
      × IsMeasured env uri body (or_text "unknown" (method_of probe (bytes body))) v
      × (ran.1 ≡ after_calls (suc n))
unfolding bench_app track_metrics serve proxy validated route forward after_calls
bench_app-IsMeasured axum addr h draw parse client logs probe host body uri n routed_there asked
      parsed fits =
    let env = bench_env addr h draw parse client logs in
    let m = method_of probe (bytes body) in
    let reply =
      forward env "mock-upstream" uri
        (record (seen host body m) { client_owner = some "benchmark" }) in
    let sends = forwards addr h draw parse client logs uri parsed host body m n in
    (
      record {
        reply = reply;
        counts = count_of (seen host body m) reply.response ∷ [];
        lines = [];
      },
      rw (extracts probe host body fits) (rw (routed_there, serve, asked) (rw sends refl)),
      record {
        sent = _;
        was_sent = refl;
        to_upstream = refl;
        same_body = refl;
        posted = refl;
        answer = refl;
        counts = refl;
      },
      rw (extracts probe host body fits) (rw (routed_there, serve, asked) refl),
    )
