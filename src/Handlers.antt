-- ===== src/Handlers.antt =====
-- src/handlers.rs: the HTTP proxy. The HTTP client
-- and the parser of URIs are parameters, and so are the key store and the level of the log. A
-- handler gives its response with what it sent on; a slice off a character boundary panics.
pub mod Proxy
pub mod Refusals
pub mod Panics
pub mod Served
pub mod Endpoint
pub mod Middleware
pub mod Metrics
pub mod Ws
use text.Mathlib.Text.{is_char_boundary}
use Prim.Native.String.{len}
use sol_rpc_router.Base.{
  ℕ, ◌+◌, ◌*◌, String, Bool, true, false, not, ◌&&◌, ◌||◌, Option, none, some, List, [], ◌∷◌, ◌++◌,
  ◌==◌, leb, min, map, Result, ok, err, Run, done, panic, char_boundary, and_then, get,
  if◌then◌else◌,
}
use sol_rpc_router.Status.{BackendHealthStatus, CheckError, HealthState, get_all_statuses}
use sol_rpc_router.State.{Heap, RuntimeBackend, RouterState, select_backend}
use sol_rpc_router.Health.{or_default}
use sol_rpc_router.Uri.{target_uri, cleaned_request_path}
use sol_rpc_router.KeyStore.{KeyInfo, Answer, KeyStore}

pub record Uri : Type 0 where
  pub spelled : String
  pub host : Option String
  pub port : Option ℕ

-- A request as the handlers see it: its HTTP method, its URI in two parts, the host header, the body and the
-- extensions `RpcMethod` and `ClientOwner`.
pub record Request : Type 0 where
  pub method : String
  pub path : String
  pub query : Option String
  pub host : Option (String × Option ℕ)
  pub body : String
  pub rpc_method : Option String
  pub client_owner : Option String

-- A request as it is sent to a backend.
pub record Forward : Type 0 where
  pub uri : Uri
  pub request : Request

pub data Body : Type 0 where
  message : String → Body
  proxy_error : String → Body
  timed_out : ℕ → Body

-- A response with the extensions `SelectedBackend` and `ClientOwner`.
pub record Response : Type 0 where
  pub status : ℕ
  pub body : Body
  pub selected_backend : Option String
  pub client_owner : Option String

-- How the request to the backend ends under `timeout`.
pub data Upstream : Type 0 where
  responded : ℕ → String → Upstream
  failed : String → Upstream
  elapsed : Upstream

-- The router's state at the two times when `proxy` loads it, the heap of flags at the first, the
-- random draw, the parser of URIs, the client, and whether the log takes a level.
pub record Env : Type 0 where
  pub state : RouterState
  pub later : RouterState
  pub heap : Heap
  pub draw : ℕ → ℕ
  pub parse : String → Result String Uri
  pub client : Forward → ℕ → Upstream
  pub logs_info : Bool
  pub logs_warn : Bool

pub record Reply : Type 0 where
  pub response : Response
  pub sent : Option Forward

abbrev pub refuse : ℕ → String → Reply
refuse status words = record {
  response = record {
    status = status;
    body = message words;
    selected_backend = none;
    client_owner = none;
  };
  sent = none;
}

-- `&api_key[..api_key.len().min(6)]` lies on a character boundary.
abbrev pub has_prefix : String → Bool
has_prefix key = is_char_boundary key (min (len key) 6)

-- A log line that shows the key's prefix: the slice is taken if the log takes the level.
abbrev pub log_prefix : Bool → String → Run (Unit {0})
log_prefix enabled key = if enabled && not (has_prefix key) then panic char_boundary else done tt

abbrev host_header : Uri → Option (String × Option ℕ) → Option (String × Option ℕ)
host_header uri old = elim uri.host [ none ↦ old | some h ↦ some (h, uri.port) ]

abbrev pub answered : Upstream → ℕ → Response
answered (responded status body) timeout = record {
  status = status;
  body = message body;
  selected_backend = none;
  client_owner = none;
}
answered (failed e) timeout = record {
  status = 502;
  body = proxy_error e;
  selected_backend = none;
  client_owner = none;
}
answered elapsed timeout = record {
  status = 504;
  body = timed_out timeout;
  selected_backend = none;
  client_owner = none;
}

-- From the parsed URI on: the host header, the request, and the extensions of the response.
unfoldable pub forward : Env → String → Uri → Request → Reply
forward env label uri req =
    let sent : Forward = record {
      uri = uri;
      request = record req { host = host_header uri req.host };
    } in
    let timeout = env.later.proxy_timeout_secs in
    let resp = answered (env.client sent timeout) timeout in
    record {
      response = record resp { selected_backend = some label; client_owner = req.client_owner };
      sent = some sent;
    }

-- From the selected backend on.
unfoldable pub route : Env → String → String → Request → Reply
route env label url req =
    elim (env.parse (target_uri url (cleaned_request_path req.path req.query))) [
      | err e ↦ refuse 500 "Invalid backend configuration"
      | ok uri ↦ forward env label uri req
    ]

abbrev pub routed_to : Env → Request → Option (String × String) → Reply
routed_to env req none = refuse 503 "No healthy backends available"
routed_to env req (some (label, url)) = route env label url req

-- From the answer of the key store on.
unfoldable pub validated : Env → String → Answer → Request → Run Reply
validated env key (ok (some info)) req =
    let owned = record req { client_owner = some info.owner } in
    and_then (select_backend env.draw env.heap env.state owned.rpc_method)
      (λ selection. done (routed_to env owned selection))
validated env key (ok none) req =
    and_then (log_prefix env.logs_info key) (λ _. done (refuse 401 "Unauthorized"))
validated env key (err e) req =
    if e == "Rate limit exceeded"
    then and_then (log_prefix env.logs_warn key) (λ _. done (refuse 429 "Rate limit exceeded"))
    else done (refuse 500 "Internal Server Error")

unfoldable pub proxy : {S : Type 0} → Env → KeyStore S → Option String → Request → S → Run Reply × S
proxy env store none req s = (done (refuse 401 "Unauthorized"), s)
proxy env store (some key) req s =
    let (answer, s') = store key s in (validated env key answer req, s')
