-- ===== src/KeyStore/Cached.antt =====
-- The cache: how long a revoked key can still be accepted.
use native.Mathlib.Decide.{dec_le}
use sol_rpc_router.Base.{
  ℕ, ◌+◌, ◌≤◌, ◌<◌, String, ◌≡◌, ◌≢◌, refl, ◌⊎◌, inl, inr, Bool, true, false, Option, none, some,
  List, [], ◌∷◌, arith, Result, ok, err, All, Option-cases, Result-cases,
}
use sol_rpc_router.KeyStore.{
  KeyInfo, Answer, Redis, Cache, Session, fetch, rate_limited, check_rate_limit, get_key_info,
  check_info, validate_key,
}

-- What moka documents of `time_to_live` of 60 seconds: an entry is read as it was put in last, and
-- only until 60 seconds after. An entry may be gone earlier.
pub record IsTtl (c : Cache) : Type 0 where
  pub lookup-store :
      (k j : String) (v w : Option KeyInfo) (t now : ℕ) (st : c.Store)
      → c.lookup k now (c.store j v t st) ≡ some w
      → ((j ≡ k) × (v ≡ w) × (now < t + 60)) ⊎ (c.lookup k now st ≡ some w)

rate_limited_info :
    (a : Result String Bool) (i info : KeyInfo)
    → rate_limited a i ≡ ok (some info)
    → ◌≡◌ {A = Answer} (ok (some i)) (ok (some info))
rate_limited_info (ok true) i info h = h
rate_limited_info (ok false) i info h = cc
rate_limited_info (err e) i info h = cc

module _ (r : Redis) (c : Cache) where
  -- A call of `validate_key`: its key, and the time and the database that it finds.
  pub record Call : Type 0 where
    pub key : String
    pub now : ℕ
    pub db : r.Db

  abbrev pub session : Call → c.Store → Session r c
  session call st = record { cache = st; db = call.db; now = call.now }

  -- The cache after some calls, one after the other; between them the database may change.
  unfoldable pub after_calls : List Call → c.Store → c.Store
  after_calls [] st = st
  after_calls (call ∷ calls) st =
      after_calls calls (validate_key r c call.key (session call st)).1.cache

  -- Redis does not make the key accepted.
  abbrev pub IsRevoked : String → r.Db → Type 0
  IsRevoked key db = (info : KeyInfo) → fetch r key db ≢ ok (some info)

  -- From `from` on, no call for the key finds a database that accepts it.
  abbrev pub RevokedFrom : String → ℕ → Call → Type 0
  RevokedFrom key from call = call.key ≡ key → from ≤ call.now → IsRevoked key call.db

  -- No accepting entry of the key is readable 60 seconds after `from`.
  abbrev pub Expires : String → ℕ → c.Store → Type 0
  Expires key from st =
      (now : ℕ) (info : KeyInfo) → c.lookup key now st ≡ some (some info) → now < from + 60

  cache-validate_key :
      (key : String) (s : Session r c)
      → (validate_key r c key s).1.cache ≡ (get_key_info r c key s).1.cache
  unfolding validate_key check_info
  cache-validate_key key s = kept (get_key_info r c key s).0 (get_key_info r c key s).1
    where
      kept : (a : Answer) (t : Session r c) → (check_info r c key a t).1.cache ≡ t.cache
      kept (err e) t = refl
      kept (ok none) t = refl
      kept (ok (some info)) t = refl

  -- What a lookup leaves in the cache: what was there, or what was just fetched.
  cache-get_key_info :
      (key : String) (s : Session r c)
      → ((get_key_info r c key s).1.cache ≡ s.cache)
        ⊎ ((info : Option KeyInfo) × (fetch r key s.db ≡ ok info)
            × ((get_key_info r c key s).1.cache ≡ c.store key info s.now s.cache))
  unfolding get_key_info
  cache-get_key_info key s = elim (Option-cases (c.lookup key s.now s.cache)) [
    | inr (info, hit) ↦ inl (rw (hit, get_key_info))
    | inl miss ↦ elim (Result-cases (fetch r key s.db)) [
      | inl (info, found) ↦ inr (info, found, rw (miss, get_key_info, found))
      | inr (e, failed) ↦ inl (rw (miss, get_key_info, failed))
    ]
  ]

  -- An accepted answer is the lookup's.
  info-check_info :
      (key : String) (a : Answer) (t : Session r c) (info : KeyInfo)
      → (check_info r c key a t).0 ≡ ok (some info)
      → a ≡ ok (some info)
  unfolding check_info
  info-check_info key (err e) t info h = cc
  info-check_info key (ok none) t info h = cc
  info-check_info key (ok (some i)) t info h =
      let limited = (check_rate_limit r key i.rate_limit t.db).0 in
      rate_limited_info limited i info h

  info-validate_key :
      (key : String) (s : Session r c) (info : KeyInfo)
      → (validate_key r c key s).0 ≡ ok (some info)
      → (get_key_info r c key s).0 ≡ ok (some info)
  unfolding validate_key
  info-validate_key key s info h =
      info-check_info key (get_key_info r c key s).0 (get_key_info r c key s).1 info h

  answer_source :
      (key : String) (s : Session r c) (info : KeyInfo)
      → (get_key_info r c key s).0 ≡ ok (some info)
      → (c.lookup key s.now s.cache ≡ some (some info)) ⊎ (fetch r key s.db ≡ ok (some info))
  unfolding get_key_info
  answer_source key s info h = elim (Option-cases (c.lookup key s.now s.cache)) [
    | inr (i, hit) ↦ inl (ground arith)
    | inl miss ↦ inr (ground arith)
  ]

  module _ (law : IsTtl c) (key : String) (from : ℕ) where
    pub Expires-validate_key :
        (call : Call) (st : c.Store)
        → RevokedFrom key from call
        → Expires key from st
        → Expires key from (validate_key r c call.key (session call st)).1.cache
    Expires-validate_key call st revoked old =
        rw (cache-validate_key call.key (session call st))
          (elim (cache-get_key_info call.key (session call st)) [
            | inl same ↦ rw same old
            | inr (v, found, stored) ↦ rw stored (λ now info hit.
                elim (law.lookup-store key call.key v (some info) call.now now st hit) [
                  | inl (same, value, soon) ↦
                      let accepted : fetch r key call.db ≡ ok (some info) =
                        rw (same, value) at found in
                      elim (dec_le from call.now) [
                        | yes late ↦ absurd (revoked same late info accepted)
                        | no early ↦ omega arith
                      ]
                  | inr before ↦ old now info before
                ])
          ])

    Expires-after_calls :
        (calls : List Call) (st : c.Store)
        → All (RevokedFrom key from) calls
        → Expires key from st
        → Expires key from (after_calls calls st)
    unfolding after_calls
    Expires-after_calls [] st _ old = old
    Expires-after_calls (call ∷ calls) st (h, hs) old =
        Expires-after_calls calls _ hs (Expires-validate_key call st h old)

    -- Let the cache hold no accepting entry of a key that is readable 60 seconds after some time,
    -- as an empty cache does, and let Redis not accept the key from that time on. Then, after any
    -- calls for any keys, no call that comes 60 seconds or more after that time accepts the key.
    pub revoked-refused :
        (calls : List Call) (st : c.Store) (last : Call) (info : KeyInfo)
        → Expires key from st
        → All (RevokedFrom key from) calls
        → RevokedFrom key from last
        → last.key ≡ key
        → from + 60 ≤ last.now
        → (validate_key r c key (session last (after_calls calls st))).0 ≢ ok (some info)
    revoked-refused calls st last info start revoked final same late e =
        let cache = after_calls calls st in
        elim (answer_source key (session last cache) info
          (info-validate_key key (session last cache) info e)) [
            | inl hit ↦
                absurd (omega (arith, Expires-after_calls calls st revoked start last.now info hit))
            | inr found ↦ absurd (final same (omega arith) info found)
          ]
