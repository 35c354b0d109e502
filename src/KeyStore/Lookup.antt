-- ===== src/KeyStore/Lookup.antt =====
-- What Redis must answer for a key to be accepted, and what is not asked.
use sol_rpc_router.Base.{
  String, ◌≡◌, ◌≢◌, ap, ◌↔◌, inl, inr, true, some, ◌==◌, eq_iff, arith, Result, ok, err, Bool-cases,
}
use sol_rpc_router.KeyStore.{KeyInfo, Redis, api_key_of, unwrap_or, fetch}

module _ (r : Redis) (key : String) where
  -- The answers behind an accepted key.
  pub record IsActive (db : r.Db) (info : KeyInfo) : Type 0 where
    pub there : r.exists (api_key_of key) db ≡ ok true
    pub owner : r.hget (api_key_of key) "owner" db ≡ ok info.owner
    pub active : r.hget (api_key_of key) "active" db ≢ ok "false"
    pub rate_limit : r.hget_u64 (api_key_of key) "rate_limit" db ≡ ok info.rate_limit

  active_test :
      (a : Result String String) → ((unwrap_or "true" a == "false") ≡ true) ↔ (a ≡ ok "false")
  active_test (ok a) =
      (λ h. ap ok ((eq_iff a "false").0 h), λ h. (eq_iff a "false").1 (ground arith))
  active_test (err e) = (λ h. cc ((eq_iff "true" "false").0 h), λ h. cc)

  fetch-IsActive : (db : r.Db) (info : KeyInfo) → fetch r key db ≡ ok (some info) → IsActive db info
  unfolding fetch
  fetch-IsActive db info h =
      let test = active_test (r.hget (api_key_of key) "active" db) in
      record {
        there = ground arith;
        owner = ground arith;
        active = λ e. ground (arith, test.1 e);
        rate_limit = ground arith;
      }

  fetch_of_IsActive :
      (db : r.Db) (info : KeyInfo) → IsActive db info → fetch r key db ≡ ok (some info)
  unfolding fetch
  fetch_of_IsActive db info a =
      let test = active_test (r.hget (api_key_of key) "active" db) in
      elim (Bool-cases (unwrap_or "true" (r.hget (api_key_of key) "active" db) == "false")) [
        | inl revoked ↦ absurd (a.active (test.0 revoked))
        | inr live ↦ ground arith
      ]

  -- Redis makes a key accepted exactly if the key exists, its owner and its limit can be read, and
  -- the read of `active` does not give "false". A read of `active` that fails accepts the key.
  pub fetch_iff :
      (db : r.Db) (info : KeyInfo) → (fetch r key db ≡ ok (some info)) ↔ IsActive db info
  fetch_iff db info = (fetch-IsActive db info, fetch_of_IsActive db info)

  -- Two databases that give the same answers but for the field `expires_at` accept the same keys
  -- with the same information: the expiry of a key is not read.
  pub fetch-ignores_expires_at :
      (db db' : r.Db)
      → ((k : String) → r.exists k db ≡ r.exists k db')
      → ((k f : String) → f ≢ "expires_at" → r.hget k f db ≡ r.hget k f db')
      → ((k f : String) → f ≢ "expires_at" → r.hget_u64 k f db ≡ r.hget_u64 k f db')
      → fetch r key db ≡ fetch r key db'
  unfolding fetch
  fetch-ignores_expires_at db db' same_keys same_texts same_numbers =
      let k = api_key_of key in
      ground (
        arith,
        same_keys k,
        same_texts k "owner" (λ e. cc ((eq_iff "owner" "expires_at").1 e)),
        same_texts k "active" (λ e. cc ((eq_iff "active" "expires_at").1 e)),
        same_numbers k "rate_limit" (λ e. cc ((eq_iff "rate_limit" "expires_at").1 e)),
      )
