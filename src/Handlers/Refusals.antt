-- ===== src/Handlers/Refusals.antt =====
-- `proxy`: the answers to a request that is not sent on.
use sol_rpc_router.Base.{
  ℕ, String, ◌≡◌, ◌≢◌, ◌∙◌, refl, sym, ap, inl, inr, false, Option, none, some, arith, All, ◌==◌,
  eq_iff, ok, err, done, Bool-cases, Result-cases,
}
use sol_rpc_router.State.{RuntimeBackend, is_healthy}
use sol_rpc_router.State.Select.{IsTarget, select_backend-IsTarget}
use sol_rpc_router.Uri.{target_uri, cleaned_request_path}
use sol_rpc_router.KeyStore.{KeyInfo, Answer, KeyStore}
use sol_rpc_router.Handlers.{Env, Request, Reply, forward, route, validated, proxy}
use sol_rpc_router.Handlers.Proxy.{done-injective}

-- Why a request is refused, with the status that it gets.
pub data Refusal {S : Type 0} (env : Env) (store : KeyStore S) (s : S) (req : Request)
    : Option String → ℕ → Type 0 where
  no_key : Refusal env store s req none 401
  unknown_key : (key : String) → (store key s).0 ≡ ok none → Refusal env store s req (some key) 401
  over_limit :
      (key : String)
      → (store key s).0 ≡ err "Rate limit exceeded"
      → Refusal env store s req (some key) 429
  store_failed :
      (key e : String)
      → (store key s).0 ≡ err e
      → e ≢ "Rate limit exceeded"
      → Refusal env store s req (some key) 500
  no_backend :
      (key : String) (info : KeyInfo)
      → (store key s).0 ≡ ok (some info)
      → All (λ (b : RuntimeBackend). is_healthy env.heap b ≡ false) env.state.backends
      → Refusal env store s req (some key) 503
  bad_uri :
      (key : String) (info : KeyInfo) (label url e : String)
      → (store key s).0 ≡ ok (some info)
      → IsTarget env.heap env.state (label, url)
      → env.parse (target_uri url (cleaned_request_path req.path req.query)) ≡ err e
      → Refusal env store s req (some key) 500

route-refused :
    (env : Env) (label url : String) (req : Request)
    → (route env label url req).sent ≡ none
    → (e : String) × (env.parse (target_uri url (cleaned_request_path req.path req.query)) ≡ err e)
      × ((route env label url req).response.status ≡ 500)
unfolding route
route-refused env label url req h =
    elim (Result-cases (env.parse (target_uri url (cleaned_request_path req.path req.query)))) [
      | inl (uri, parsed) ↦ absurd (unfold forward in ground arith)
      | inr (e, parsed) ↦ (e, parsed, rw (parsed, route))
    ]

module _ {S : Type 0} (env : Env) (store : KeyStore S) (key : String) (req : Request) (s : S) where
  validated-Refusal :
      (answer : Answer) (reply : Reply)
      → (store key s).0 ≡ answer
      → validated env key answer req ≡ done reply
      → reply.sent ≡ none
      → Refusal env store s req (some key) reply.response.status
  unfolding validated
  validated-Refusal (ok (some info)) reply a e p =
      elim (select_backend-IsTarget env.draw env.heap env.state req.rpc_method) [
        | inl (nothing, down) ↦ rw (← done-injective (rw nothing at e)) (no_backend key info a down)
        | inr ((label, url), chosen, target) ↦
            let owned : Request = record req { client_owner = some info.owner } in
            let same : route env label url owned ≡ reply = done-injective (rw chosen at e) in
            let (bad, parsed, status) =
              route-refused env label url owned (ap (λ (t : Reply). t.sent) same ∙ p) in
            rw (sym (ap (λ (t : Reply). t.response.status) same) ∙ status)
              (bad_uri key info label url bad a target parsed)
      ]
  validated-Refusal (ok none) reply a e p =
      let status : reply.response.status ≡ 401 = ground arith in rw status (unknown_key key a)
  validated-Refusal (err m) reply a e p = elim (Bool-cases (m == "Rate limit exceeded")) [
    | inl over ↦
        let status : reply.response.status ≡ 429 = ground arith in
        rw status (over_limit key (rw (← (eq_iff m "Rate limit exceeded").0 over) a))
    | inr other ↦
        let status : reply.response.status ≡ 500 = ground arith in
        rw status
          (store_failed key m a (λ same. cc (other, (eq_iff m "Rate limit exceeded").1 same)))
  ]

-- A reply that sends nothing on has one of the reasons of `Refusal`, with that reason's status.
pub proxy-Refusal :
    {S : Type 0} (env : Env) (store : KeyStore S) (api_key : Option String) (req : Request) (s : S)
    (reply : Reply)
    → (proxy env store api_key req s).0 ≡ done reply
    → reply.sent ≡ none
    → Refusal env store s req api_key reply.response.status
unfolding proxy
proxy-Refusal env store none req s reply e p = rw (← done-injective e) no_key
proxy-Refusal env store (some key) req s reply e p =
    validated-Refusal env store key req s (store key s).0 reply refl e p
