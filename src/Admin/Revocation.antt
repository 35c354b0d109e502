-- ===== src/Admin/Revocation.antt =====
-- A revoked key at the HTTP server: the tool, the key store and the server put together.
use sol_rpc_router.Base.{ℕ, ◌+◌, ◌≤◌, String, ◌≡◌, true, Option, none, some, List, All, ok, done}
use sol_rpc_router.KeyStore.{Redis, Cache, api_key_of, validate_key}
use sol_rpc_router.KeyStore.Hashes.{IsLocalCounter}
use sol_rpc_router.KeyStore.Cached.{IsTtl, session, Expires}
use sol_rpc_router.Handlers.{Env, has_prefix}
use sol_rpc_router.Server.{Axum, Arrival, to_proxy, http_app}
use sol_rpc_router.Server.Refused.{IsRefusalStatus, turned_down, http_app-refuses}
use sol_rpc_router.Admin.{Writer, revoked, revoke}
use sol_rpc_router.Admin.Keys.{ReadsWritten, IsAnswered}
use sol_rpc_router.Admin.Cli.{Reader}
use sol_rpc_router.Admin.Frame.{IsLocal}
use sol_rpc_router.Admin.History.{Action, SparesKey, call_at, act_all, act_all-refused}

module _ (r : Redis) (c : Cache) (w : Writer r) (rd : Reader r) where
  -- Let the tool's `revoke` say at some time that it revoked a key, let the read of its `active` be
  -- answered from then on, since one that fails accepts the key, and let the router's cache hold no
  -- accepting entry of the key that is readable 60 seconds later. Then, after any calls for any
  -- keys and any commands of the tool that name other keys, one after the other, the HTTP server
  -- answers every request with that key that passes the CORS layer, is for the proxy and comes 60
  -- seconds or more after the revocation with 401, 429 or 500, whatever the state of the backends,
  -- if the log cuts the key on a character boundary. It sends the request to no backend, and counts
  -- and logs it once, without a backend or an owner.
  pub revoked_key-refused :
      (ttl : IsTtl c) (reads : ReadsWritten r w) (local : IsLocal r w) (counter : IsLocalCounter r)
      (key : String) (from : ℕ) (db : r.Db) (actions : List Action) (st : c.Store) (now : ℕ)
      (axum : Axum) (env : Env) (probe : String → Option String) (a : Arrival)
      → (revoke r w key db).0 ≡ ok (revoked key)
      → IsAnswered (r.hget (api_key_of key) "active" (revoke r w key db).1)
      → Expires r c key from st
      → All (SparesKey key) actions
      → from + 60 ≤ now
      → axum.preflight a ≡ none
      → axum.route a.method a.path ≡ to_proxy
      → axum.params a.query ≡ ok (some key)
      → has_prefix key ≡ true
      → let s = act_all r c w rd actions (record { cache = st; db = (revoke r w key db).1 }) in
        let calling = session r c (call_at r c w rd key now s) s.cache in
        (status : ℕ) × (words : String) × IsRefusalStatus status
        × ((http_app axum env (validate_key r c) probe a calling).0
            ≡ done (turned_down a probe status words))
  revoked_key-refused ttl reads local counter key from db actions st now axum env probe a gone
        answers start spares late passes routed asked prefix =
      let s = act_all r c w rd actions (record { cache = st; db = (revoke r w key db).1 }) in
      let calling = session r c (call_at r c w rd key now s) s.cache in
      http_app-refuses axum env (validate_key r c) probe a key calling passes routed asked prefix
        (λ info.
          act_all-refused r c w rd ttl reads local counter key from db gone answers actions st now
            info start spares late)
