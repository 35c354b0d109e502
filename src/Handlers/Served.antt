-- ===== src/Handlers/Served.antt =====
-- `proxy`: when a request is sent on.
use mathlib.Core.List.{Memᴰ}
use sol_rpc_router.Base.{String, ◌≡◌, ap, inl, inr, true, some, ok, done, All-mem, refl}
use sol_rpc_router.State.{RuntimeBackend, is_healthy}
use sol_rpc_router.State.Select.{select_backend-IsTarget}
use sol_rpc_router.Uri.{target_uri, cleaned_request_path}
use sol_rpc_router.KeyStore.{KeyInfo, KeyStore}
use sol_rpc_router.Handlers.{
  Uri, Env, Request, Reply, Forward, host_header, forward, route, validated, proxy,
}

-- The target that a request has at a backend parses.
abbrev pub Parses : Env → Request → RuntimeBackend → Type 0
Parses env req b =
    (uri : Uri) × (env.parse (target_uri b.config.url (cleaned_request_path req.path req.query))
      ≡ ok uri)

route-served :
    (env : Env) (label url : String) (req : Request) (uri : Uri)
    → env.parse (target_uri url (cleaned_request_path req.path req.query)) ≡ ok uri
    → (sent : Forward) × ((route env label url req).sent ≡ some sent)
unfolding route forward
route-served env label url req uri parsed =
    let sent : Forward = record {
      uri = uri;
      request = record req { host = host_header uri req.host };
    } in
    (sent, rw (parsed, route) refl)

-- A request with a key that the store accepts is sent on, whatever is drawn and whatever its RPC
-- method, if some backend of the table is healthy and its target at every healthy backend parses.
pub proxy-served :
    {S : Type 0} (env : Env) (store : KeyStore S) (key : String) (req : Request) (s : S)
    (info : KeyInfo) (b : RuntimeBackend)
    → (store key s).0 ≡ ok (some info)
    → Memᴰ b env.state.backends
    → is_healthy env.heap b ≡ true
    → ((d : RuntimeBackend)
        → Memᴰ d env.state.backends
        → is_healthy env.heap d ≡ true
        → Parses env req d)
    → (reply : Reply) × (sent : Forward) × ((proxy env store (some key) req s).0 ≡ done reply)
      × (reply.sent ≡ some sent)
unfolding proxy validated
proxy-served env store key req s info b accepted listed up parses =
    elim (select_backend-IsTarget env.draw env.heap env.state req.rpc_method) [
      | inl (nothing, down) ↦ absurd (cc (up, All-mem _ env.state.backends down listed))
      | inr ((label, url), chosen, found) ↦
          let owned : Request = record req { client_owner = some info.owner } in
          let (uri, parsed) = parses found.backend found.listed found.healthy in
          let at_url : found.backend.config.url ≡ url =
            ap (λ (p : String × String). p.1) found.same in
          let (sent, was) = route-served env label url owned uri (rw at_url at parsed) in
          (route env label url owned, sent, rw (accepted, validated) (rw chosen refl), was)
    ]
