-- ===== src/Server/Replies.antt =====
-- What stands behind the replies of the HTTP server.
use sol_rpc_router.Base.{
  ℕ, String, ◌≡◌, ◌∙◌, refl, sym, ap, inl, inr, Option, none, some, ◌==◌, arith, ok, err, done,
  and_then-eq-done, Option-cases, Result-cases, Bool-cases,
}
use sol_rpc_router.KeyStore.{Answer, KeyStore}
use sol_rpc_router.State.Select.{select_backend-IsTarget}
use sol_rpc_router.Handlers.{Env, Request, Reply, Forward, refuse, proxy, validated, route, forward}
use sol_rpc_router.Uri.{target_uri, cleaned_request_path}
use sol_rpc_router.Handlers.Proxy.{IsForwarded, proxy-IsForwarded, done-injective}
use sol_rpc_router.Handlers.Metrics.{Served, bare}
use sol_rpc_router.Handlers.Ws.{Decision, Handshake, refused, upgraded, ws_proxy}
use sol_rpc_router.Server.{
  Endpoint, to_proxy, to_ws_proxy, to_health, unrouted, Axum, switched, serve,
}

-- A reply of a status and words only.
abbrev IsPlain : Reply → Type 0
IsPlain reply = (status : ℕ) × (words : String) × (reply ≡ refuse status words)

route-IsPlain :
    (env : Env) (label url : String) (req : Request)
    → (route env label url req).sent ≡ none
    → IsPlain (route env label url req)
unfolding route
route-IsPlain env label url req nothing =
    elim (Result-cases (env.parse (target_uri url (cleaned_request_path req.path req.query)))) [
      | inl (uri, parsed) ↦ absurd (unfold forward in ground arith)
      | inr (e, parsed) ↦ (500, "Invalid backend configuration", rw (parsed, route))
    ]

validated-IsPlain :
    (env : Env) (key : String) (answer : Answer) (req : Request) (reply : Reply)
    → validated env key answer req ≡ done reply
    → reply.sent ≡ none
    → IsPlain reply
unfolding validated
validated-IsPlain env key (ok (some info)) req reply e nothing =
    elim (select_backend-IsTarget env.draw env.heap env.state req.rpc_method) [
      | inl (none_up, _) ↦
          (503, "No healthy backends available", sym (done-injective (rw none_up at e)))
      | inr ((label, url), chosen, _) ↦
          let owned : Request = record req { client_owner = some info.owner } in
          let same : route env label url owned ≡ reply = done-injective (rw chosen at e) in
          rw same at (route-IsPlain env label url owned (ap (λ (r : Reply). r.sent) same ∙ nothing))
    ]
validated-IsPlain env key (ok none) req reply e nothing = (401, "Unauthorized", ground arith)
validated-IsPlain env key (err m) req reply e nothing =
    elim (Bool-cases (m == "Rate limit exceeded")) [
      | inl over ↦ (429, "Rate limit exceeded", ground arith)
      | inr other ↦ (500, "Internal Server Error", ground arith)
    ]

-- Replies of `proxy` that sent nothing on.
proxy-IsPlain :
    {S : Type 0} (env : Env) (store : KeyStore S) (api_key : Option String) (req : Request) (s : S)
    (reply : Reply)
    → (proxy env store api_key req s).0 ≡ done reply
    → reply.sent ≡ none
    → IsPlain reply
unfolding proxy
proxy-IsPlain env store none req s reply e nothing = (401, "Unauthorized", sym (done-injective e))
proxy-IsPlain env store (some key) req s reply e nothing =
    validated-IsPlain env key (store key s).0 req reply e nothing

-- What stands behind a reply: it is plain, or a request was sent on.
pub data Explained {S : Type 0} (env : Env) (store : KeyStore S) (s : S) (req : Request)
    : Reply → Type 0 where
  plain : (status : ℕ) (words : String) → Explained env store s req (refuse status words)
  forwarded :
      (reply : Reply) (key : String) (sent : Forward)
      → reply.sent ≡ some sent
      → IsForwarded env (store key s).0 req reply sent
      → Explained env store s req reply

bare-injective : (a : Reply) (v : Served) → done (bare a) ≡ done v → v ≡ bare a
bare-injective a v e = sym (done-injective e)

module _ {S : Type 0} (env : Env) (store : KeyStore S) (s : S) where
  proxy-Explained :
      (api_key : Option String) (req : Request) (reply : Reply)
      → (proxy env store api_key req s).0 ≡ done reply
      → Explained env store s req reply
  proxy-Explained api_key req reply e = elim (Option-cases reply.sent) [
    | inl nothing ↦
        let (status, words, same) = proxy-IsPlain env store api_key req s reply e nothing in
        rw same (plain status words)
    | inr (sent, was) ↦
        let (key, _, is_forwarded) = proxy-IsForwarded env store api_key req s reply sent e was in
        forwarded reply key sent was is_forwarded
  ]

  abbrev pub Bare : Request → Served → Type 0
  Bare req v = (reply : Reply) × (v ≡ bare reply) × Explained env store s req reply

  plain-Bare :
      (req : Request) (status : ℕ) (words : String) (v : Served)
      → done (bare (refuse status words)) ≡ done v
      → Bare req v
  plain-Bare req status words v e =
      (refuse status words, sym (done-injective e), plain status words)

  switched-plain :
      (handshake : Handshake)
      → (status : ℕ) × (words : String) × (switched handshake ≡ refuse status words)
  switched-plain handshake = by_decision handshake.decision handshake refl
    where
      by_decision :
          (d : Decision) (h : Handshake)
          → h.decision ≡ d
          → (status : ℕ) × (words : String) × (switched h ≡ refuse status words)
      by_decision (refused status words) h e = (status, words, rw e)
      by_decision (upgraded url label owner) h e = (101, "", rw e)

  pub serve-Bare :
      (axum : Axum) (endpoint : Endpoint) (req : Request) (v : Served)
      → (serve axum env store endpoint req s).0 ≡ done v
      → Bare req v
  unfolding serve
  serve-Bare axum to_proxy req v e = elim (Result-cases (axum.params req.query)) [
    | inr (status, bad) ↦ plain-Bare req status "" v (rw (bad, serve) at e)
    | inl (api_key, good) ↦
        let (reply, ran, same) =
          and_then-eq-done (proxy env store api_key req s).0 (λ r. done (bare r))
            (rw (good, serve) at e) in
        (reply, sym (done-injective same), proxy-Explained api_key req reply ran)
  ]
  serve-Bare axum to_ws_proxy req v e = elim (Option-cases (axum.upgrade req)) [
    | inr (status, refuses) ↦ plain-Bare req status "" v (rw (refuses, serve) at e)
    | inl takes ↦ elim (Result-cases (axum.params req.query)) [
      | inr (status, bad) ↦ plain-Bare req status "" v (rw (takes, bad, serve) at e)
      | inl (api_key, good) ↦
          let (handshake, ran, same) =
            and_then-eq-done (ws_proxy env store api_key s).0 (λ h. done (bare (switched h)))
              (rw (takes, good, serve) at e) in
          let (status, words, is_plain) = switched-plain handshake in
          plain-Bare req status words v (rw is_plain at same)
    ]
  ]
  serve-Bare axum to_health req v e = plain-Bare req 200 _ v e
  serve-Bare axum (unrouted status) req v e = plain-Bare req status "" v e
