-- ===== src/Admin/Updates.antt =====
-- `update` and the router's lookup.
use sol_rpc_router.Base.{
  ℕ, String, ◌≡◌, ◌≢◌, ◌∙◌, refl, inl, inr, Bool, true, false, Option, none, some, is_empty, arith,
  ok, Bool-cases, Result-cases,
}
use sol_rpc_router.State.{map_option}
use sol_rpc_router.KeyStore.{KeyInfo, Redis, api_key_of, fetch}
use sol_rpc_router.KeyStore.Lookup.{IsActive, fetch_iff}
use sol_rpc_router.Admin.{set_text, set_number, Writer, updated, flag_text, changes, update}
use sol_rpc_router.Admin.Keys.{last_write, IsHash, finish-ran}

-- The new value if one is given, or the old one.
abbrev pub given {ℓ} : {A : Type ℓ} → Option A → A → A
given none old = old
given (some a) old = a

abbrev Lasts : Option ℕ → Option String → Option Bool → Type 0
Lasts rl o a =
    (last_write "owner" (changes rl o a) ≡ map_option (set_text "owner") o)
    × (last_write "rate_limit" (changes rl o a) ≡ map_option (set_number "rate_limit") rl)
    × (last_write "active" (changes rl o a) ≡ map_option (λ b. set_text "active" (flag_text b)) a)

last_changes : (rl : Option ℕ) (o : Option String) (a : Option Bool) → Lasts rl o a
last_changes none none none = (refl, refl, refl)
last_changes none none (some a) = (refl, refl, refl)
last_changes none (some o) none = (refl, refl, refl)
last_changes none (some o) (some a) = (refl, refl, refl)
last_changes (some rl) none none = (refl, refl, refl)
last_changes (some rl) none (some a) = (refl, refl, refl)
last_changes (some rl) (some o) none = (refl, refl, refl)
last_changes (some rl) (some o) (some a) = (refl, refl, refl)

module _ (r : Redis) (w : Writer r) (key : String) where
  update-ran :
      (rl : Option ℕ) (o : Option String) (a : Option Bool) (db : r.Db)
      → (update r w key rl o a db).0 ≡ ok (updated key)
      → let piped = w.pipe (api_key_of key) (changes rl o a) db in
        (is_empty (changes rl o a) ≡ false)
        × (piped.0 ≡ ok tt)
        × ((update r w key rl o a db).1 ≡ piped.1)
  unfolding update
  update-ran rl o a db e =
      let piped = w.pipe (api_key_of key) (changes rl o a) db in
      elim (Result-cases (r.exists (api_key_of key) db)) [
        | inl (true, there) ↦ elim (Bool-cases (is_empty (changes rl o a))) [
          | inl nothing ↦ absurd (ground arith)
          | inr some_change ↦
              let (sent, final) =
                finish-ran r w (updated key) piped (rw (there, some_change, update) at e) in
              (some_change, sent, rw (there, some_change, update) final)
        ]
        | inl (false, missing) ↦ absurd (ground arith)
        | inr (why, failed) ↦ absurd (ground arith)
      ]

  module _ (h : IsHash r w) (rl : Option ℕ) (o : Option String) (a : Option Bool) (db : r.Db)
      (sent : (w.pipe (api_key_of key) (changes rl o a) db).0 ≡ ok tt) where
    owner_after :
        (v : Option String) (old : String)
        → last_write "owner" (changes rl o a) ≡ map_option (set_text "owner") v
        → r.hget (api_key_of key) "owner" db ≡ ok old
        → r.hget (api_key_of key) "owner" (w.pipe (api_key_of key) (changes rl o a) db).1
          ≡ ok (given v old)
    owner_after none old e was =
        h.text_kept (api_key_of key) "owner" (changes rl o a) db sent e ∙ was
    owner_after (some v) old e was =
        h.text_written (api_key_of key) "owner" v (changes rl o a) db sent e

    limit_after :
        (v : Option ℕ) (old : ℕ)
        → last_write "rate_limit" (changes rl o a) ≡ map_option (set_number "rate_limit") v
        → r.hget_u64 (api_key_of key) "rate_limit" db ≡ ok old
        → r.hget_u64 (api_key_of key) "rate_limit" (w.pipe (api_key_of key) (changes rl o a) db).1
          ≡ ok (given v old)
    limit_after none old e was =
        h.number_kept (api_key_of key) "rate_limit" (changes rl o a) db sent e ∙ was
    limit_after (some v) old e was =
        h.number_written (api_key_of key) "rate_limit" v (changes rl o a) db sent e

    active_after :
        (v : Option Bool)
        → last_write "active" (changes rl o a) ≡ map_option (λ b. set_text "active" (flag_text b)) v
        → v ≢ some false
        → r.hget (api_key_of key) "active" db ≢ ok "false"
        → r.hget (api_key_of key) "active" (w.pipe (api_key_of key) (changes rl o a) db).1
          ≢ ok "false"
    active_after none e on was off =
        was (cc (h.text_kept (api_key_of key) "active" (changes rl o a) db sent e, off))
    active_after (some true) e on was off =
        cc (h.text_written (api_key_of key) "active" "true" (changes rl o a) db sent e, off)
    active_after (some false) e on was off = absurd (on refl)

  -- An `update` of a valid key that says that it updated the key, and does not deactivate it, leaves
  -- it valid, with the owner and the rate limit that were given and otherwise those that it had.
  pub update-fetch :
      IsHash r w
      → (rl : Option ℕ) (o : Option String) (a : Option Bool) (db : r.Db) (info : KeyInfo)
      → fetch r key db ≡ ok (some info)
      → (update r w key rl o a db).0 ≡ ok (updated key)
      → a ≢ some false
      → fetch r key (update r w key rl o a db).1
        ≡ ok (some (record { owner = given o info.owner; rate_limit = given rl info.rate_limit }))
  update-fetch h rl o a db info valid e on =
      let (changed, sent, final) = update-ran rl o a db e in
      let was : IsActive r key db info = (fetch_iff r key db info).0 valid in
      let (owners, limits, flags) = last_changes rl o a in
      rw final (
        (fetch_iff r key (w.pipe (api_key_of key) (changes rl o a) db).1
            (record { owner = given o info.owner; rate_limit = given rl info.rate_limit })).1
          (record {
            there = h.written_exists (api_key_of key) (changes rl o a) db sent changed;
            owner = owner_after h rl o a db sent o info.owner owners was.owner;
            active = active_after h rl o a db sent a flags on was.active;
            rate_limit = limit_after h rl o a db sent rl info.rate_limit limits was.rate_limit;
          }))
