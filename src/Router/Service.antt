-- ===== src/Router/Service.antt =====
-- The requests that the router answers between two rounds of health checks.
use mathlib.Core.List.{Memᴰ}
use sol_rpc_router.Base.{
  String, ℕ, ◌≡◌, ◌∙◌, sym, ap, Option, true, none, some, List, ok, done, All-mem,
}
use sol_rpc_router.Config.{Config, Files, load_config}
use sol_rpc_router.Config.Laws.{load_config_iff}
use sol_rpc_router.State.{Heap, RuntimeBackend}
use sol_rpc_router.Health.{HttpClient, current_status}
use sol_rpc_router.Health.Round.{label}
use sol_rpc_router.Uri.{target_uri, cleaned_request_path}
use sol_rpc_router.KeyStore.{KeyInfo, KeyStore}
use sol_rpc_router.Handlers.{Env, Request, Reply, Forward, proxy}
use sol_rpc_router.Handlers.Proxy.{proxy-IsForwarded}
use sol_rpc_router.Handlers.Served.{Parses, proxy-served}
use sol_rpc_router.Router.{System, Event, begin_round, end_round, start, step, run}
use sol_rpc_router.Router.Invariant.{reachable-IsSound}
use sol_rpc_router.Router.Agreement.{Agrees, round-Agrees}

-- The handlers' view of the system at a time when no reload comes between.
abbrev pub facing : Env → System → Env
facing env s = record env { state = s.current; later = s.current; heap = s.heap }

-- The recorded status of a backend says that it is healthy.
abbrev pub IsRecordedHealthy : System → RuntimeBackend → Type 0
IsRecordedHealthy s b = (current_status (s.heap.healths s.persistent) (label b)).healthy ≡ true

-- A backend that is on record as healthy, to which a request was sent.
pub record IsServed (s : System) (env : Env) (req : Request) (reply : Reply) (sent : Forward)
    : Type 0 where
  pub backend : RuntimeBackend
  pub listed : Memᴰ backend s.current.backends
  pub recorded : IsRecordedHealthy s backend
  pub named : reply.response.selected_backend ≡ some (label backend)
  pub target :
      env.parse (target_uri backend.config.url (cleaned_request_path req.path req.query))
      ≡ ok sent.uri

agreeing-IsServed :
    {S : Type 0} (s : System) (env : Env) (store : KeyStore S) (api_key : Option String)
    (req : Request) (st : S) (reply : Reply) (sent : Forward)
    → Agrees s
    → (proxy (facing env s) store api_key req st).0 ≡ done reply
    → reply.sent ≡ some sent
    → IsServed s env req reply sent
agreeing-IsServed s env store api_key req st reply sent agrees ran was =
    let (key, given, f) =
      proxy-IsForwarded (facing env s) store api_key req st reply sent ran was in
    let t = f.target in
    let name : label t.backend ≡ f.label = ap (λ (p : String × String). p.0) t.same in
    let at_url : t.backend.config.url ≡ f.url = ap (λ (p : String × String). p.1) t.same in
    record {
      backend = t.backend;
      listed = t.listed;
      recorded = sym (All-mem _ s.current.backends agrees t.listed) ∙ t.healthy;
      named = f.backend ∙ ap some (sym name);
      target = rw at_url f.parsed;
    }

agreeing-served :
    {S : Type 0} (s : System) (env : Env) (store : KeyStore S) (key : String) (req : Request)
    (st : S) (info : KeyInfo) (b : RuntimeBackend)
    → Agrees s
    → (store key st).0 ≡ ok (some info)
    → Memᴰ b s.current.backends
    → IsRecordedHealthy s b
    → ((d : RuntimeBackend) → Memᴰ d s.current.backends → Parses env req d)
    → (reply : Reply) × (sent : Forward) × ((proxy (facing env s) store (some key) req st).0
        ≡ done reply)
      × (reply.sent ≡ some sent)
agreeing-served s env store key req st info b agrees accepted listed up parses =
    proxy-served (facing env s) store key req st info b accepted listed
      (All-mem _ s.current.backends agrees listed ∙ up) (λ d m _. parses d m)

module _ (files : Files) (path : String) (c : Config) (h : Heap) (es : List Event)
    (client : HttpClient) (now : String → ℕ) (loaded : load_config files path ≡ ok c)
    (idle : (run es (start c h)).held ≡ none) where
  -- The program, started with a configuration that loads, after any reloads and rounds, and then a
  -- whole round that no reload overtakes.
  abbrev pub after : System
  after = step (end_round client now) (step begin_round (run es (start c h)))

  after-Agrees : Agrees after
  after-Agrees =
      round-Agrees client now (run es (start c h))
        (reachable-IsSound c h es ((load_config_iff files path c).0 loaded).1) idle

  -- Let the program start with a configuration that loads, and let any reloads and rounds follow,
  -- and then a whole round that no reload overtakes. A request that `proxy` sends on before the
  -- next event goes to a backend of the table that is on record as healthy, under its label, and to
  -- the target at its URL.
  pub proxy-IsServed :
      {S : Type 0} (env : Env) (store : KeyStore S) (api_key : Option String) (req : Request)
      (st : S) (reply : Reply) (sent : Forward)
      → (proxy (facing env after) store api_key req st).0 ≡ done reply
      → reply.sent ≡ some sent
      → IsServed after env req reply sent
  proxy-IsServed env store api_key req st reply sent =
      agreeing-IsServed after env store api_key req st reply sent after-Agrees

  -- Let the program start with a configuration that loads, and let any reloads and rounds follow,
  -- and then a whole round that no reload overtakes. A request with a key that the store accepts is
  -- sent on before the next event, whatever is drawn and whatever its RPC method, if some backend
  -- of the table is on record as healthy and the request's target at every backend parses.
  pub accepted-served :
      {S : Type 0} (env : Env) (store : KeyStore S) (key : String) (req : Request) (st : S)
      (info : KeyInfo) (b : RuntimeBackend)
      → (store key st).0 ≡ ok (some info)
      → Memᴰ b after.current.backends
      → IsRecordedHealthy after b
      → ((d : RuntimeBackend) → Memᴰ d after.current.backends → Parses env req d)
      → (reply : Reply) × (sent : Forward) × ((proxy (facing env after) store (some key) req st).0
          ≡ done reply)
        × (reply.sent ≡ some sent)
  accepted-served env store key req st info b =
      agreeing-served after env store key req st info b after-Agrees
