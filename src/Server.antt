-- ===== src/Server.antt =====
-- src/main.rs: the routes and the layers of the HTTP server. axum is a parameter: which handler a
-- method and a path lead to, and whether it can take a request's query and its upgrade. A layer
-- that is added later runs first.
pub mod Replies
pub mod Counts
pub mod Refused
pub mod Limited
pub mod Window
use sol_rpc_router.Base.{ℕ, String, Option, none, some, Result, ok, err, Run, done, and_then}
use sol_rpc_router.KeyStore.{KeyStore}
use sol_rpc_router.Handlers.{Env, Request, Response, Reply, message, refuse, proxy}
use sol_rpc_router.Handlers.Endpoint.{HealthResponse, health_endpoint}
use sol_rpc_router.Handlers.Middleware.{Incoming, extract_rpc_method}
use sol_rpc_router.Handlers.Metrics.{Service, Served, bare, track_metrics, log_requests}
use sol_rpc_router.Handlers.Ws.{Decision, refused, upgraded, Handshake, ws_proxy}

-- The handlers that `http_app` routes to, and axum's own answer where no route fits.
pub data Endpoint : Type 0 where
  to_proxy : Endpoint
  to_ws_proxy : Endpoint
  to_health : Endpoint
  unrouted : ℕ → Endpoint

-- A request as the server gets it.
pub record Arrival : Type 0 where
  pub method : String
  pub path : String
  pub query : Option String
  pub host : Option (String × Option ℕ)
  pub incoming : Incoming

-- `route` gives the handler of a method and a path, `params` reads the query into `Params` or
-- refuses it with a status, `upgrade` refuses a request that asks for no WebSocket, `preflight` is
-- the status with which the CORS layer answers a request itself, as it does for the method OPTIONS,
-- and `json` is the body of a JSON response.
pub record Axum : Type 0 where
  pub route : String → String → Endpoint
  pub params : Option String → Result ℕ (Option String)
  pub upgrade : Request → Option ℕ
  pub preflight : Arrival → Option ℕ
  pub json : HealthResponse → String

abbrev pub request_of : Arrival → Request
request_of a = record {
  method = a.method;
  path = a.path;
  query = a.query;
  host = a.host;
  body = "";
  rpc_method = none;
  client_owner = none;
}

abbrev pub respond : ℕ → String → Reply
respond status words = refuse status words

abbrev pub switched : Handshake → Reply
switched handshake = elim handshake.decision [
  | refused status words ↦ refuse status words
  | upgraded url label owner ↦ respond 101 ""
]

-- The outermost layer, CORS: what it answers itself reaches nothing behind it. The headers that it
-- adds to other responses are left out.
abbrev pub cors : {S : Type 0} → Option ℕ → Run Served × S → S → Run Served × S
cors none behind s = behind
cors (some status) behind s = (done (bare (respond status "")), s)

module _ (axum : Axum) (env : Env) {S : Type 0} (store : KeyStore S) where
  -- A handler with its extractors.
  unfoldable pub serve : Endpoint → Service S
  serve to_proxy req s = elim (axum.params req.query) [
    | err status ↦ (done (bare (refuse status "")), s)
    | ok api_key ↦
        let (ran, s') = proxy env store api_key req s in
        (and_then ran (λ reply. done (bare reply)), s')
  ]
  serve to_ws_proxy req s = elim (axum.upgrade req) [
    | some status ↦ (done (bare (refuse status "")), s)
    | none ↦ elim (axum.params req.query) [
      | err status ↦ (done (bare (refuse status "")), s)
      | ok api_key ↦
          let (ran, s') = ws_proxy env store api_key s in
          (and_then ran (λ handshake. done (bare (switched handshake))), s')
    ]
  ]
  serve to_health req s =
      (done (bare (respond 200 (axum.json (health_endpoint env.heap env.state)))), s)
  serve (unrouted status) req s = (done (bare (refuse status "")), s)

  abbrev pub routes : Service S
  routes req s = serve (axum.route req.method req.path) req s

  -- `http_app`: the layers in the order in which they run.
  unfoldable pub http_app : (String → Option String) → Arrival → S → Run Served × S
  http_app probe a s =
      cors (axum.preflight a)
        (log_requests (track_metrics routes) (extract_rpc_method probe a.incoming (request_of a)) s)
        s

  -- `ws_app`, on the port of its own.
  unfoldable pub ws_app : Arrival → S → Run Served × S
  ws_app a s = cors (axum.preflight a) (log_requests routes (request_of a) s) s
