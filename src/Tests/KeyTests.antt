-- ===== src/Tests/KeyTests.antt =====
-- Runs of the key store.
use sol_rpc_router.Base.{
  ◌-◌, ◌<◌, min, ◌≢◌, String, ◌≡◌, refl, ◌↔◌, ◌⊎◌, none, some, [], ◌∷◌, arith, eq_iff, ok,
}
use sol_rpc_router.KeyStore.{
  KeyInfo, Session, fetch, script, check_rate_limit, get_key_info, check_info, validate_key,
}
use sol_rpc_router.KeyStore.Lookup.{IsActive, fetch_iff, fetch-ignores_expires_at}
use sol_rpc_router.KeyStore.Rate.{Answers, let_through, let_through_lem, validate_key_iff}
use sol_rpc_router.KeyStore.Cached.{Call, after_calls, session, revoked-refused}
use sol_rpc_router.Samples.{redis, Database, database, redis-IsCounter, cache, cache-IsTtl}

keys : Unit {0}
unfolding fetch script check_rate_limit get_key_info check_info validate_key let_through after_calls
keys = tt

abbrev pub live : Database
live = database "true" "1"

abbrev pub revoked : Database
revoked = database "false" "1"

abbrev acme : KeyInfo
acme = record { owner = "acme"; rate_limit = 2 }

abbrev pub cold : Session redis cache
cold = record { cache = []; db = live; now = 0 }

-- Two calls pass, the third is over the limit; a revoked key is refused.
validate_runs :
    ((validate_key redis cache "k" cold).0 ≡ ok (some acme))
    × (let_through redis 5 "k" 2 live ≡ 2)
    × ((validate_key redis cache "k" (record cold { db = revoked })).0 ≡ ok none)
unfolding keys
validate_runs = (refl, refl, refl)

fetch_iff_example : (fetch redis "k" live ≡ ok (some acme)) ↔ IsActive redis "k" live acme
fetch_iff_example = fetch_iff redis "k" live acme

abbrev later : Database
later = database "true" "99999999999"

other_fields : (f : String) → f ≢ "expires_at" → redis.hget "k" f live ≡ redis.hget "k" f later
other_fields f ne = ground (arith, eq_iff f "expires_at")

-- The expiry is in the past in one database, and far off in the other.
expiry_run : fetch redis "k" live ≡ fetch redis "k" later
expiry_run =
    fetch-ignores_expires_at redis "k" live later (λ _. refl) (λ k f ne. other_fields f ne)
      (λ _ _ _. refl)

let_through_run : let_through redis 5 "k" 2 live ≡ min 5 (2 - 0)
let_through_run =
    let_through_lem redis (λ k db. db.counters k) redis-IsCounter 5 "k" 2 live (omega arith)
      (λ d. (_, refl))

validate_key_iff_example : ((validate_key redis cache "k" cold).0 ≡ ok (some acme)) ↔ (
    ((get_key_info redis cache "k" cold).0 ≡ ok (some acme))
    × ((acme.rate_limit ≡ 0)
        ⊎ (Answers redis "k" (get_key_info redis cache "k" cold).1.db
            × ((get_key_info redis cache "k" cold).1.db.counters "rate_limit:k" < 2))))
validate_key_iff_example =
    validate_key_iff redis (λ k db. db.counters k) redis-IsCounter cache "k" cold acme

-- The key is accepted at 30, revoked from 40 on, and asked for at 100.
abbrev early : Call redis cache
early = record { key = "k"; now = 30; db = live }

abbrev late : Call redis cache
late = record { key = "k"; now = 100; db = revoked }

not_accepted : (info : KeyInfo) → fetch redis "k" revoked ≢ ok (some info)
unfolding fetch
not_accepted info h = cc

revoked_run :
    (validate_key redis cache "k"
      (session redis cache late (after_calls redis cache (early ∷ []) []))).0
    ≢ ok (some acme)
revoked_run =
    revoked-refused redis cache cache-IsTtl "k" 40 (early ∷ []) [] late acme (λ _ _ h. cc)
      ((λ _ h. absurd (omega arith)), tt) (λ _ _. not_accepted) refl (omega arith)
