-- ===== src/Server/Refused.antt =====
-- What the HTTP server answers to a key that the key store does not accept.
use sol_rpc_router.Base.{
  ℕ, String, ◌≡◌, ◌≢◌, ◌∙◌, refl, ap, ◌⊎◌, inl, inr, Bool, true, false, Option, none, some, [], ◌∷◌,
  ◌==◌, ok, err, Run, done, and_then, Bool-cases, Option-cases,
}
use sol_rpc_router.KeyStore.{KeyInfo, Answer, KeyStore}
use sol_rpc_router.Handlers.{Env, Request, Reply, refuse, has_prefix, validated, proxy, log_prefix}
use sol_rpc_router.Handlers.Middleware.{to_bytes, extract_rpc_method}
use sol_rpc_router.Handlers.Metrics.{Served, or_text, track_metrics, log_requests}
use sol_rpc_router.Server.{Axum, Arrival, to_proxy, request_of, routes, cors, serve, http_app}
use sol_rpc_router.Server.Counts.{method_of, extracted}

-- 401 for an unknown or inactive key, 429 for a rate limit, 500 for a failure of the store.
abbrev pub IsRefusalStatus : ℕ → Type 0
IsRefusalStatus status = (status ≡ 401) ⊎ (status ≡ 429) ⊎ (status ≡ 500)

passes_log :
    (key : String) (logs : Bool) (r : Run Reply)
    → has_prefix key ≡ true
    → and_then (log_prefix logs key) (λ _. r) ≡ r
passes_log key true r prefix = rw prefix refl
passes_log key false r prefix = refl

validated-refuses :
    (env : Env) (key : String) (answer : Answer) (req : Request)
    → has_prefix key ≡ true
    → ((info : KeyInfo) → answer ≢ ok (some info))
    → (status : ℕ) × (words : String) × IsRefusalStatus status
      × (validated env key answer req ≡ done (refuse status words))
unfolding validated
validated-refuses env key (ok (some info)) req prefix denied = absurd (denied info refl)
validated-refuses env key (ok none) req prefix denied =
    (401, "Unauthorized", inl refl, passes_log key env.logs_info _ prefix)
validated-refuses env key (err e) req prefix denied =
    elim (Bool-cases (e == "Rate limit exceeded")) [
      | inl over ↦ (
        429,
        "Rate limit exceeded",
        inr (inl refl),
        rw over (passes_log key env.logs_warn _ prefix),
      )
      | inr other ↦ (500, "Internal Server Error", inr (inr refl), rw other refl)
    ]

-- A reply that was sent nowhere, counted and logged once without a backend or an owner.
abbrev turned : String → String → Option String → ℕ → String → Served
turned method path rpc_method status words = record {
  reply = refuse status words;
  counts =
      record {
        method = method;
        status = status;
        rpc_method = or_text "unknown" rpc_method;
        backend = "none";
        owner = "none";
      }
      ∷ [];
  lines = record { method = method; path = path; rpc_method = rpc_method; backend = none } ∷ [];
}

abbrev pub turned_down : Arrival → (String → Option String) → ℕ → String → Served
turned_down a probe status words = turned a.method a.path (method_of probe a.incoming) status words

pub extract-query :
    (probe : String → Option String) (a : Arrival)
    → (extract_rpc_method probe a.incoming (request_of a)).query ≡ a.query
unfolding extract_rpc_method
extract-query probe a = elim (Option-cases (to_bytes a.incoming)) [
  | inl missing ↦ rw (missing, extract_rpc_method) refl
  | inr (body, there) ↦ elim (Option-cases (probe body)) [
    | inl no_method ↦ rw (there, extract_rpc_method, no_method) refl
    | inr (m, found) ↦ rw (there, extract_rpc_method, found) refl
  ]
]

layers-refuse :
    {S : Type 0} (axum : Axum) (env : Env) (store : KeyStore S) (req : Request) (key : String)
    (s : S) (status : ℕ) (words : String)
    → axum.route req.method req.path ≡ to_proxy
    → axum.params req.query ≡ ok (some key)
    → validated env key (store key s).0 req ≡ done (refuse status words)
    → (log_requests (track_metrics (routes axum env store)) req s).0
      ≡ done (turned req.method req.path req.rpc_method status words)
unfolding log_requests track_metrics serve
layers-refuse axum env store req key s status words routed asked refused =
    rw (routed, serve, asked) (unfold proxy in rw refused refl)

-- A request that passes the CORS layer, for the proxy, whose key the store does not accept, with a
-- character boundary where the log cuts the key, is answered 401, 429 or 500. It is sent to no
-- backend.
pub http_app-refuses :
    {S : Type 0} (axum : Axum) (env : Env) (store : KeyStore S) (probe : String → Option String)
    (a : Arrival) (key : String) (s : S)
    → axum.preflight a ≡ none
    → axum.route a.method a.path ≡ to_proxy
    → axum.params a.query ≡ ok (some key)
    → has_prefix key ≡ true
    → ((info : KeyInfo) → (store key s).0 ≢ ok (some info))
    → (status : ℕ) × (words : String) × IsRefusalStatus status
      × ((http_app axum env store probe a s).0 ≡ done (turned_down a probe status words))
unfolding http_app
http_app-refuses axum env store probe a key s passes routed asked prefix denied =
    let req = extract_rpc_method probe a.incoming (request_of a) in
    let (m, p, x) = extracted probe a in
    let (status, words, is_refusal, refused) =
      validated-refuses env key (store key s).0 req prefix denied in
    (
      status,
      words,
      is_refusal,
      ap (λ o. (cors o (log_requests (track_metrics (routes axum env store)) req s) s).0) passes
          ∙ layers-refuse axum env store req key s status words
              (ap (λ t. axum.route t req.path) m ∙ ap (λ t. axum.route a.method t) p ∙ routed)
              (ap axum.params (extract-query probe a) ∙ asked) refused
          ∙ ap (λ t. done (turned t req.path req.rpc_method status words)) m
          ∙ ap (λ t. done (turned a.method t req.rpc_method status words)) p
          ∙ ap (λ t. done (turned a.method a.path t status words)) x,
    )
