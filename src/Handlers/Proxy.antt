-- ===== src/Handlers/Proxy.antt =====
-- `proxy`: what lies behind a request that is sent on to a backend.
use sol_rpc_router.Base.{
  ℕ, String, ◌≡◌, ◌∙◌, refl, sym, ap, inl, inr, Option, none, some, arith, ok, err, done,
  Result-cases,
}
use sol_rpc_router.State.Select.{IsTarget, select_backend-IsTarget}
use sol_rpc_router.Uri.{target_uri, cleaned_request_path}
use sol_rpc_router.KeyStore.{KeyInfo, Answer, KeyStore}
use sol_rpc_router.Handlers.{
  Uri, Env, Request, Reply, Forward, Upstream, responded, failed, elapsed, answered, forward, route,
  validated, proxy,
}

-- The status for each way in which the request to the backend ends.
abbrev pub given_status : Upstream → ℕ
given_status (responded status body) = status
given_status (failed e) = 502
given_status elapsed = 504

answered-status : (u : Upstream) (timeout : ℕ) → (answered u timeout).status ≡ given_status u
answered-status (responded status body) timeout = refl
answered-status (failed e) timeout = refl
answered-status elapsed timeout = refl

-- Everything that lies behind a request that was sent on.
pub record IsForwarded (env : Env) (answer : Answer) (req : Request) (reply : Reply)
    (sent : Forward) : Type 0 where
  pub info : KeyInfo
  pub label : String
  pub url : String
  pub valid : answer ≡ ok (some info)
  pub target : IsTarget env.heap env.state (label, url)
  pub parsed : env.parse (target_uri url (cleaned_request_path req.path req.query)) ≡ ok sent.uri
  pub owner : sent.request.client_owner ≡ some info.owner
  pub same_body : sent.request.body ≡ req.body
  pub backend : reply.response.selected_backend ≡ some label
  pub owned : reply.response.client_owner ≡ some info.owner
  pub status : reply.response.status ≡ given_status (env.client sent env.later.proxy_timeout_secs)

pub done-injective {ℓ} : {A : Type ℓ} {a b : A} → done a ≡ done b → a ≡ b
done-injective h = cc

-- The request that `forward` sends.
forward-sent :
    (env : Env) (label : String) (uri : Uri) (req : Request) (sent : Forward)
    → (forward env label uri req).sent ≡ some sent
    → (sent.uri ≡ uri)
      × (sent.request.client_owner ≡ req.client_owner)
      × (sent.request.body ≡ req.body)
      × ((forward env label uri req).response.status
          ≡ (answered
              (env.client sent env.later.proxy_timeout_secs)
              env.later.proxy_timeout_secs).status)
unfolding forward
forward-sent env label uri req sent e = ground arith

forward-labels :
    (env : Env) (label : String) (uri : Uri) (req : Request)
    → ((forward env label uri req).response.selected_backend ≡ some label)
      × ((forward env label uri req).response.client_owner ≡ req.client_owner)
unfolding forward
forward-labels env label uri req = (refl, refl)

route-sent :
    (env : Env) (label url : String) (req : Request) (sent : Forward)
    → (route env label url req).sent ≡ some sent
    → (uri : Uri) × (env.parse (target_uri url (cleaned_request_path req.path req.query)) ≡ ok uri)
      × (route env label url req ≡ forward env label uri req)
unfolding route
route-sent env label url req sent e =
    elim (Result-cases (env.parse (target_uri url (cleaned_request_path req.path req.query)))) [
      | inl (uri, parsed) ↦ (uri, parsed, rw (parsed, route))
      | inr (bad, parsed) ↦ absurd (ground arith)
    ]

-- What stands behind a reply that carries a request sent on.
validated-sent :
    (env : Env) (key : String) (answer : Answer) (req : Request) (reply : Reply) (sent : Forward)
    → validated env key answer req ≡ done reply
    → reply.sent ≡ some sent
    → (info : KeyInfo) × (label : String) × (url : String) × (answer ≡ ok (some info))
      × IsTarget env.heap env.state (label, url)
      × (route env label url (record req { client_owner = some info.owner }) ≡ reply)
unfolding validated
validated-sent env key (ok (some info)) req reply sent e s =
    elim (select_backend-IsTarget env.draw env.heap env.state req.rpc_method) [
      | inl (nothing, _) ↦ absurd (ground arith)
      | inr ((label, url), chosen, target) ↦
          (info, label, url, refl, target, done-injective (rw chosen at e))
    ]
validated-sent env key (ok none) req reply sent e s = absurd (ground arith)
validated-sent env key (err m) req reply sent e s = absurd (ground arith)

-- `proxy` sends a request on only for a key that the store accepts, and to the label and URL of a
-- backend that is healthy. The URI sent is what the joined target parses to, the body is the
-- client's, the request and the response carry the owner of the key and the response the backend's
-- label, and its status is the backend's, 502 where the request failed and 504 where its time ended.
pub proxy-IsForwarded :
    {S : Type 0} (env : Env) (store : KeyStore S) (api_key : Option String) (req : Request) (s : S)
    (reply : Reply) (sent : Forward)
    → (proxy env store api_key req s).0 ≡ done reply
    → reply.sent ≡ some sent
    → (key : String) × (api_key ≡ some key) × IsForwarded env (store key s).0 req reply sent
unfolding proxy
proxy-IsForwarded env store none req s reply sent e p = absurd (ground arith)
proxy-IsForwarded env store (some key) req s reply sent e p =
    let (info, label, url, valid, target, routed) =
      validated-sent env key (store key s).0 req reply sent e p in
    let owned : Request = record req { client_owner = some info.owner } in
    let (uri, parsed, same) =
      route-sent env label url owned sent (ap (λ (t : Reply). t.sent) routed ∙ p) in
    let is_forward : forward env label uri owned ≡ reply = sym same ∙ routed in
    let (same_uri, owner, body, status) =
      forward-sent env label uri owned sent (ap (λ (t : Reply). t.sent) is_forward ∙ p) in
    (
      key,
      refl,
      record {
        info = info;
        label = label;
        url = url;
        valid = valid;
        target = target;
        parsed = rw same_uri parsed;
        owner = owner;
        same_body = body;
        backend =
            sym (ap (λ (t : Reply). t.response.selected_backend) is_forward)
            ∙ (forward-labels env label uri owned).0;
        owned =
            sym (ap (λ (t : Reply). t.response.client_owner) is_forward)
            ∙ (forward-labels env label uri owned).1;
        status =
            sym (ap (λ (t : Reply). t.response.status) is_forward)
            ∙ status
            ∙ answered-status (env.client sent env.later.proxy_timeout_secs)
                env.later.proxy_timeout_secs;
      },
    )
