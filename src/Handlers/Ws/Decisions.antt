-- ===== src/Handlers/Ws/Decisions.antt =====
-- `ws_proxy` with `handle_ws_connection`: why a request is upgraded or refused, and how it counts.
use sol_rpc_router.Base.{
  ℕ, ◌∷◌, if◌then◌else◌, String, ◌≡◌, ◌≢◌, ◌<◌, refl, inl, inr, Bool, false, Option, none, some,
  List, [], ◌++◌, length, arith, All, ◌==◌, ◌^◌, eq_iff, ok, err, done, panic, Bool-cases, Run,
  filter, and_then,
}
use sol_rpc_router.State.{RuntimeBackend, weight, is_ws_candidate, select_ws_backend}
use sol_rpc_router.State.Weights.{total_weight}
use sol_rpc_router.State.Websocket.{IsWsTarget, select_ws_backend-IsWsTarget}
use sol_rpc_router.KeyStore.{KeyInfo, Answer, KeyStore}
use sol_rpc_router.Handlers.{Env}
use sol_rpc_router.Handlers.Proxy.{done-injective}
use sol_rpc_router.Handlers.Ws.{
  Counted, Decision, refused, upgraded, Handshake, upgrade_to, ws_validated, ws_proxy, Sinks, Turn,
  Handled, handle_ws_connection, on_upgrade,
}

-- A refusal with its status and words, and one increment under no backend.
abbrev pub rejection : ℕ → String → String → String → Handshake
rejection status words owner reason = record {
  decision = refused status words;
  counted = record { backend = "none"; owner = owner; status = reason } ∷ [];
}

-- The reasons of a decision, each with what the client gets and what is counted.
pub data Decided {S : Type 0} (env : Env) (store : KeyStore S) (s : S)
    : Option String → Handshake → Type 0 where
  no_key : Decided env store s none (rejection 401 "Unauthorized" "none" "auth_failed")
  unknown_key :
      (key : String)
      → (store key s).0 ≡ ok none
      → Decided env store s (some key) (rejection 401 "Unauthorized" "none" "auth_failed")
  over_limit :
      (key : String)
      → (store key s).0 ≡ err "Rate limit exceeded"
      → Decided env store s (some key) (rejection 429 "Rate limit exceeded" "none" "rate_limited")
  store_failed :
      (key e : String)
      → (store key s).0 ≡ err e
      → e ≢ "Rate limit exceeded"
      → Decided env store s (some key) (rejection 500 "Internal Server Error" "none" "error")
  no_backend :
      (key : String) (info : KeyInfo)
      → (store key s).0 ≡ ok (some info)
      → All (λ (b : RuntimeBackend). is_ws_candidate env.heap b ≡ false) env.state.backends
      → Decided env store s
          (some key)
          (rejection 503 "No healthy WebSocket backends available" info.owner "no_backend")
  accepted :
      (key : String) (info : KeyInfo) (label url : String)
      → (store key s).0 ≡ ok (some info)
      → IsWsTarget env.heap env.state label url
      → Decided env store s
          (some key)
          (record { decision = upgraded url label info.owner; counted = [] })

module _ {S : Type 0} (env : Env) (store : KeyStore S) (key : String) (s : S)
    (weighted : All (λ (d : RuntimeBackend). 0 < weight d) env.state.backends)
    (fits : total_weight (filter (is_ws_candidate env.heap) env.state.backends) < 2 ^ 32) where
  validated-Decided :
      (answer : Answer) (a : Handshake)
      → (store key s).0 ≡ answer
      → ws_validated env key answer ≡ done a
      → Decided env store s (some key) a
  unfolding ws_validated
  validated-Decided (ok (some info)) a e p =
      elim (select_ws_backend-IsWsTarget env.draw env.heap env.state weighted fits) [
        | inl (nothing, down) ↦ rw (← done-injective (rw nothing at p)) (no_backend key info e down)
        | inr (label, url, chosen, target) ↦
            rw (← done-injective (rw chosen at p)) (accepted key info label url e target)
      ]
  validated-Decided (ok none) a e p =
      let same : a ≡ rejection 401 "Unauthorized" "none" "auth_failed" = ground arith in
      rw same (unknown_key key e)
  validated-Decided (err m) a e p = elim (Bool-cases (m == "Rate limit exceeded")) [
    | inl over ↦
        let same : a ≡ rejection 429 "Rate limit exceeded" "none" "rate_limited" = ground arith in
        rw same (over_limit key (rw (← (eq_iff m "Rate limit exceeded").0 over) e))
    | inr other ↦
        let same : a ≡ rejection 500 "Internal Server Error" "none" "error" = ground arith in
        rw same (
          store_failed key m e
            (λ same_text. cc (other, (eq_iff m "Rate limit exceeded").1 same_text)))
  ]

-- With positive weights whose sum over the WebSocket backends fits `u32`, each decision of
-- `ws_proxy` has one of the reasons of `Decided`: an upgrade goes to the WebSocket URL of a healthy
-- backend and for a valid key only, and is not counted yet; a refusal has its reason's status and
-- words and is counted once, without a backend, under its reason.
pub ws_proxy-Decided :
    {S : Type 0} (env : Env) (store : KeyStore S) (api_key : Option String) (s : S) (a : Handshake)
    → All (λ (d : RuntimeBackend). 0 < weight d) env.state.backends
    → total_weight (filter (is_ws_candidate env.heap) env.state.backends) < 2 ^ 32
    → (ws_proxy env store api_key s).0 ≡ done a
    → Decided env store s api_key a
unfolding ws_proxy
ws_proxy-Decided env store none s a weighted fits e = rw (← done-injective e) no_key
ws_proxy-Decided env store (some key) s a weighted fits e =
    validated-Decided env store key s weighted fits (store key s).0 a refl e

-- The increments of `ws_connections_total` that a connection makes, if there is one.
abbrev pub counted_by : Option Handled → List Counted
counted_by none = []
counted_by (some h) = h.counted

-- How often a request is counted: not at all where its upgrade is not completed.
abbrev pub times : Bool → Decision → ℕ
times completes (refused status words) = 1
times completes (upgraded url label owner) = if completes then 1 else 0

module _ (completes : Bool) (connects : String → Bool) (sinks : Sinks) (turns : List Turn) where
  abbrev Counts : Handshake → Type 0
  Counts a =
      length (a.counted ++ counted_by (on_upgrade completes connects sinks turns a.decision))
      ≡ times completes a.decision

  handled_once :
      (url label owner : String)
      → length (handle_ws_connection connects sinks url label owner turns).counted ≡ 1
  unfolding handle_ws_connection
  handled_once url label owner = elim (Bool-cases (connects url)) [
    | inl up ↦ rw up
    | inr down ↦ rw down
  ]

  upgraded-Counts :
      (url label owner : String)
      → Counts (record { decision = upgraded url label owner; counted = [] })
  unfolding on_upgrade
  upgraded-Counts url label owner = elim (Bool-cases completes) [
    | inl is_complete ↦ rw is_complete (handled_once url label owner)
    | inr fails ↦ rw fails refl
  ]

  -- Every request for an upgrade that `ws_proxy` refuses is counted exactly once in
  -- `ws_connections_total`, and so is every request that it accepts and whose upgrade is completed,
  -- by its connection, whether or not the backend can be reached and however the connection goes
  -- on. A request that it accepts and whose upgrade fails is not counted at all.
  pub ws_proxy-Counts :
      {S : Type 0} (env : Env) (store : KeyStore S) (api_key : Option String) (s : S)
      (a : Handshake)
      → (ws_proxy env store api_key s).0 ≡ done a
      → length (a.counted ++ counted_by (on_upgrade completes connects sinks turns a.decision))
        ≡ times completes a.decision
  unfolding ws_proxy ws_validated on_upgrade
  ws_proxy-Counts env store none s a e = rw (← done-injective e) refl
  ws_proxy-Counts env store (some key) s a e = once (store key s).0 e
    where
      chosen :
          (info : KeyInfo) (r : Run (Option (String × String)))
          → and_then r (λ selection. done (upgrade_to info.owner selection)) ≡ done a
          → Counts a
      chosen info (done none) p = rw (← done-injective p) refl
      chosen info (done (some (label, url))) p =
          rw (← done-injective p) (upgraded-Counts url label info.owner)
      chosen info (panic why) p = cc

      once : (answer : Answer) → ws_validated env key answer ≡ done a → Counts a
      once (ok (some info)) p = chosen info (select_ws_backend env.draw env.heap env.state) p
      once (ok none) p =
          let same : a ≡ rejection 401 "Unauthorized" "none" "auth_failed" = ground arith in
          rw same refl
      once (err m) p = elim (Bool-cases (m == "Rate limit exceeded")) [
        | inl over ↦
            let same : a ≡ rejection 429 "Rate limit exceeded" "none" "rate_limited" =
              ground arith in
            rw same refl
        | inr other ↦
            let same : a ≡ rejection 500 "Internal Server Error" "none" "error" = ground arith in
            rw same refl
      ]
