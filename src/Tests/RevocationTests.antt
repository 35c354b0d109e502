-- ===== src/Tests/RevocationTests.antt =====
-- A revoked key at the HTTP server.
use sol_rpc_router.Base.{arith, ℕ, String, ◌≡◌, refl, none, some, List, [], ◌∷◌, eq_iff, ok, done}
use sol_rpc_router.KeyStore.{validate_key}
use sol_rpc_router.KeyStore.Cached.{session}
use sol_rpc_router.Handlers.Middleware.{bytes}
use sol_rpc_router.Server.{Axum, Arrival, http_app}
use sol_rpc_router.Server.Refused.{IsRefusalStatus, turned_down}
use sol_rpc_router.Admin.{revoke}
use sol_rpc_router.Admin.Cli.{create_key}
use sol_rpc_router.Admin.History.{Action, call_for, command, Shared, act_all, call_at}
use sol_rpc_router.Admin.Revocation.{revoked_key-refused}
use sol_rpc_router.Samples.{cache, cache-IsTtl}
use sol_rpc_router.Tests.HandlerTests.{env}
use sol_rpc_router.Tests.ServerTests.{axum, probe}
use sol_rpc_router.Tests.AdminTests.{
  hashes, writer, reader, one, warm, warm-Expires, admin_runs, hashes-ReadsWritten, hashes-IsLocal,
  hashes-IsLocalCounter,
}

abbrev asking : Axum
asking = record axum { params = λ query. ok (some "k1") }

abbrev request : Arrival
request = record {
  method = "POST";
  path = "/";
  query = some "api-key=k1";
  host = none;
  incoming = bytes "slot?";
}

-- The router is asked for the key at 50, and the tool creates another one.
abbrev meanwhile : List Action
meanwhile = call_for "k1" 50 ∷ command "" 60 (create_key "other" 7 none (some "k2")) ∷ []

abbrev shared : Shared hashes cache
shared =
    act_all hashes cache writer reader meanwhile
      (record { cache = warm; db = (revoke hashes writer "k1" one).1 })

revoked_key-refused_example :
    (status : ℕ) × (words : String) × IsRefusalStatus status
    × ((http_app asking env (validate_key hashes cache) probe request (
          session hashes cache (call_at hashes cache writer reader "k1" 100 shared) shared.cache)).0
        ≡ done (turned_down request probe status words))
unfolding revoke
revoked_key-refused_example =
    revoked_key-refused hashes cache writer reader cache-IsTtl hashes-ReadsWritten hashes-IsLocal
      hashes-IsLocalCounter "k1" 40 one meanwhile warm 100 asking env probe request admin_runs.1 tt
      warm-Expires (tt, ((λ e. cc ((eq_iff "k1" "k2").1 e)), tt)) (omega arith) refl refl refl refl
