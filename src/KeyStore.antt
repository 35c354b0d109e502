-- ===== src/KeyStore.antt =====
-- src/keystore.rs: the `KeyStore` trait, and its implementation over Redis and a local cache. The
-- Redis commands and the moka cache are parameters. A call gives its result with the new state.
pub mod Hashes
pub mod Steps
pub mod Concurrent
pub mod Rate
pub mod Cached
pub mod Lookup
use Prim.Native.String
use sol_rpc_router.Base.{
  ℕ, ◌+◌, String, Bool, true, false, not, Option, none, some, ◌==◌, eqb, ltb, Result, ok, err,
  if◌then◌else◌,
}

pub record KeyInfo : Type 0 where
  pub owner : String
  pub rate_limit : ℕ

abbrev pub Answer : Type 0
Answer = Result String (Option KeyInfo)

-- The trait: `validate_key` of a store with state `S`.
abbrev pub KeyStore : Type 0 → Type 0
KeyStore S = String → S → Answer × S

-- A Redis connection. `hget` and `hget_u64` read a field as a text and as a number, and fail where
-- it is missing or of another form; `invoke` runs a script as one atomic step, or fails.
pub record Redis : Type 1 where
  pub Db : Type 0
  pub exists : String → Db → Result String Bool
  pub hget : String → String → Db → Result String String
  pub hget_u64 : String → String → Db → Result String ℕ
  pub incr : String → Db → ℕ × Db
  pub expire : String → ℕ → Db → Db
  pub invoke : (Db → ℕ × Db) → Db → Result String ℕ × Db

-- A cache with a time to live: reading at a time, and inserting at a time.
pub record Cache : Type 1 where
  pub Store : Type 0
  pub lookup : String → ℕ → Store → Option (Option KeyInfo)
  pub store : String → Option KeyInfo → ℕ → Store → Store

abbrev pub api_key_of : String → String
api_key_of key = String.◌++◌ "api_key:" key

abbrev pub rate_limit_of : String → String
rate_limit_of key = String.◌++◌ "rate_limit:" key

abbrev pub unwrap_or {ℓ} : {A : Type ℓ} → A → Result String A → A
unwrap_or d (ok a) = a
unwrap_or d (err _) = d

-- `count > limit` refuses.
abbrev pub within : ℕ → Result String ℕ → Result String Bool
within limit (ok count) = ok (not (ltb limit count))
within limit (err e) = err e

-- Step 2 of `validate_key`.
abbrev pub rate_limited : Result String Bool → KeyInfo → Answer
rate_limited (ok true) info = ok (some info)
rate_limited (ok false) info = err "Rate limit exceeded"
rate_limited (err e) info = err e

module _ (r : Redis) where
  -- The part of `get_key_info` that asks Redis. An answer is put into the cache, an error is not.
  unfoldable pub fetch : String → r.Db → Answer
  fetch key db = elim (r.exists (api_key_of key) db) [
    | err e ↦ err e
    | ok false ↦ ok none
    | ok true ↦ elim (r.hget (api_key_of key) "owner" db) [
      | err e ↦ err e
      | ok owner ↦
          if unwrap_or "true" (r.hget (api_key_of key) "active" db) == "false"
          then ok none
          else elim (r.hget_u64 (api_key_of key) "rate_limit" db) [
            | err e ↦ err e
            | ok rate_limit ↦ ok (some (record { owner = owner; rate_limit = rate_limit }))
          ]
    ]
  ]

  -- The Lua script.
  unfoldable pub script : String → r.Db → ℕ × r.Db
  script k db =
      let (count, db') = r.incr k db in (count, if eqb count 1 then r.expire k 1 db' else db')

  unfoldable pub check_rate_limit : String → ℕ → r.Db → Result String Bool × r.Db
  check_rate_limit key limit db =
      if eqb limit 0
      then (ok true, db)
      else let (count, db') = r.invoke (script (rate_limit_of key)) db in (within limit count, db')

  module _ (c : Cache) where
    -- The state of the store: the cache and the database, and the time of the call.
    pub record Session : Type 0 where
      pub cache : c.Store
      pub db : r.Db
      pub now : ℕ

    abbrev remember : String → Answer → Session → Session
    remember key (ok info) s = record s { cache = c.store key info s.now s.cache }
    remember key (err e) s = s

    unfoldable pub get_key_info : String → Session → Answer × Session
    get_key_info key s = elim (c.lookup key s.now s.cache) [
      | some info ↦ (ok info, s)
      | none ↦ let answer = fetch key s.db in (answer, remember key answer s)
    ]

    -- The body of `validate_key`, from the key's information on.
    unfoldable pub check_info : String → Answer → Session → Answer × Session
    check_info key (err e) s = (err e, s)
    check_info key (ok none) s = (ok none, s)
    check_info key (ok (some info)) s =
        let (allowed, db') = check_rate_limit key info.rate_limit s.db in
        (rate_limited allowed info, record s { db = db' })

    unfoldable pub validate_key : KeyStore Session
    validate_key key s = let (info, s') = get_key_info key s in check_info key info s'
