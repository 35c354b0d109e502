-- ===== src/Tests/HandlerTests.antt =====
-- Runs of the handlers and of the rewriting of targets.
use mathlib.Core.List.{Memᴰ}
use sol_rpc_router.Base.{
  Panic, String, ◌≡◌, refl, ◌↔◌, ◌⊎◌, true, Option, none, some, [], map, ok, get, filter, done,
  panic, char_boundary, if◌then◌else◌, ◌==◌,
}
use sol_rpc_router.State.{RuntimeBackend, routed, pick, choose, gen_range, sum_u32, select_backend}
use sol_rpc_router.Uri.{
  split, join, clean_query, cleaned_query, cleaned_request_path, keeps, trim_end, ends_with_slash,
  starts_with_slash, target_uri,
}
use sol_rpc_router.Uri.Query.{split-clean_query}
use sol_rpc_router.KeyStore.{KeyStore}
use sol_rpc_router.Handlers.{
  Env, Request, Reply, message, Forward, responded, refuse, forward, route, validated, proxy,
}
use sol_rpc_router.Handlers.Proxy.{IsForwarded, proxy-IsForwarded}
use sol_rpc_router.Handlers.Refusals.{Refusal, proxy-Refusal}
use sol_rpc_router.Handlers.Panics.{Slices, proxy-panics_iff}
use sol_rpc_router.Handlers.Endpoint.{entry, health_endpoint, health_endpoint_lem}
use sol_rpc_router.Handlers.Middleware.{bytes, extract_rpc_method}
use sol_rpc_router.Samples.{state, all_up}

handler : Unit {0}
unfolding proxy validated route forward select_backend routed pick choose gen_range sum_u32 get
    target_uri cleaned_request_path cleaned_query clean_query split join trim_end ends_with_slash
    starts_with_slash
handler = tt

abbrev pub env : Env
env = record {
  state = state;
  later = state;
  heap = all_up;
  draw = λ _. 4;
  parse = λ t. ok (record { spelled = t; host = some "b"; port = none });
  client = λ _ _. responded 200 "{}";
  logs_info = true;
  logs_warn = true;
}

-- A store without state that knows one key.
abbrev pub one_key : KeyStore (Unit {0})
one_key key s =
    (if key == "secret" then ok (some (record { owner = "acme"; rate_limit = 0 })) else ok none, s)

abbrev pub post : Request
post = record {
  method = "POST";
  path = "/";
  query = some "x=1&api-key=secret&y=2";
  host = none;
  body = "{}";
  rpc_method = none;
  client_owner = none;
}

abbrev pub sent : Forward
sent = record {
  uri = record { spelled = "http://b/?x=1&y=2"; host = some "b"; port = none };
  request = record post { host = some ("b", none); client_owner = some "acme" };
}

abbrev pub reply : Reply
reply = record {
  response = record {
    status = 200;
    body = message "{}";
    selected_backend = some "beta";
    client_owner = some "acme";
  };
  sent = some sent;
}

proxy_runs :
    ((proxy env one_key (some "secret") post tt).0 ≡ done reply)
    × ((proxy env one_key (some "wrong") post tt).0 ≡ done (refuse 401 "Unauthorized"))
    × ((proxy env one_key none post tt).0 ≡ done (refuse 401 "Unauthorized"))
unfolding handler
proxy_runs = (refl, refl, refl)

proxy-IsForwarded_example :
    (key : String) × (some "secret" ≡ some key) × IsForwarded env (one_key key tt).0 post reply sent
proxy-IsForwarded_example =
    proxy-IsForwarded env one_key (some "secret") post tt reply sent proxy_runs.0 refl

proxy-Refusal_example : Refusal env one_key tt post (some "wrong") 401
proxy-Refusal_example =
    proxy-Refusal env one_key (some "wrong") post tt (refuse 401 "Unauthorized") proxy_runs.1 refl

split-clean_query_example :
    ((filter keeps (split "a=1&api-key=k") ≡ []) × (clean_query "a=1&api-key=k" ≡ ""))
    ⊎ (split (clean_query "a=1&api-key=k") ≡ filter keeps (split "a=1&api-key=k"))
split-clean_query_example = split-clean_query "a=1&api-key=k"

-- One slash between the URL and the path, whether or not the URL ends in one.
target_runs :
    (target_uri "http://a/" "/x" ≡ "http://a/x") × (target_uri "http://a" "/x" ≡ "http://a/x")
unfolding target_uri trim_end ends_with_slash starts_with_slash
target_runs = (refl, refl)

health_endpoint_example :
    ((health_endpoint all_up state).backends ≡ map (entry []) state.backends)
    × (((health_endpoint all_up state).overall_status ≡ "healthy")
        ↔ ((b : RuntimeBackend) × Memᴰ b state.backends × ((entry [] b).healthy ≡ true)))
health_endpoint_example = health_endpoint_lem all_up state

abbrev probe : String → Option String
probe _ = some "getSlot"

extract_runs :
    ((extract_rpc_method probe (bytes "{}") post).rpc_method ≡ some "getSlot")
    × ((extract_rpc_method probe (bytes "{}") post).body ≡ "{}")
unfolding extract_rpc_method
extract_runs = (refl, refl)

-- The sixth byte of this key lies inside its fourth character.
proxy-panics_iff_example : ((proxy env one_key (some "aéééé") post tt).0 ≡ panic char_boundary) ↔ (
    (key : String) × (some "aéééé" ≡ some key)
    × Slices env (one_key key tt).0 key
    × (◌≡◌ {A = Panic} char_boundary char_boundary))
proxy-panics_iff_example = proxy-panics_iff env one_key (some "aéééé") post tt char_boundary

proxy_panics : (proxy env one_key (some "aéééé") post tt).0 ≡ panic char_boundary
unfolding handler
proxy_panics = refl
