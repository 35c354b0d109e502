-- ===== src/Admin/Keys.antt =====
-- The commands of the tool and the router's lookup: what the one writes, the other reads.
use text.Mathlib.TextPositions.{starts_with-append}
use sol_rpc_router.Base.{
  ℕ, String, ◌≡◌, ◌≢◌, ◌∙◌, refl, sym, ap, inl, inr, true, false, Option, none, some, List, [], ◌∷◌,
  ◌==◌, is_empty, arith, Result, ok, err, Result-cases, if◌then◌else◌,
}
use sol_rpc_router.KeyStore.{KeyInfo, Redis, api_key_of, fetch}
use sol_rpc_router.KeyStore.Lookup.{fetch_iff}
use sol_rpc_router.Admin.{
  Write, set_text, set_number, Writer, CommandOutcome, created, revoked, created_fields, finish,
  create, revoke,
}

abbrev field_of : Write → String
field_of (set_text f _) = f
field_of (set_number f _) = f

abbrev pub later_of : Option Write → Option Write → Option Write
later_of (some w) earlier = some w
later_of none earlier = earlier

-- The last write to a field.
abbrev pub last_write : String → List Write → Option Write
last_write f [] = none
last_write f (w ∷ ws) = later_of (last_write f ws) (if field_of w == f then some w else none)

-- What Redis documents of HSET and SADD, for a connection that answers: a field reads as it was
-- written last, fields that are not written keep their values, a hash that was written exists, and
-- a SADD leaves the hashes of other keys as they are.
pub record IsHash (r : Redis) (w : Writer r) : Type 0 where
  pub text_written :
      (k f v : String) (ws : List Write) (db : r.Db)
      → (w.pipe k ws db).0 ≡ ok tt
      → last_write f ws ≡ some (set_text f v)
      → r.hget k f (w.pipe k ws db).1 ≡ ok v
  pub number_written :
      (k f : String) (n : ℕ) (ws : List Write) (db : r.Db)
      → (w.pipe k ws db).0 ≡ ok tt
      → last_write f ws ≡ some (set_number f n)
      → r.hget_u64 k f (w.pipe k ws db).1 ≡ ok n
  pub text_kept :
      (k f : String) (ws : List Write) (db : r.Db)
      → (w.pipe k ws db).0 ≡ ok tt
      → last_write f ws ≡ none
      → r.hget k f (w.pipe k ws db).1 ≡ r.hget k f db
  pub number_kept :
      (k f : String) (ws : List Write) (db : r.Db)
      → (w.pipe k ws db).0 ≡ ok tt
      → last_write f ws ≡ none
      → r.hget_u64 k f (w.pipe k ws db).1 ≡ r.hget_u64 k f db
  pub written_exists :
      (k : String) (ws : List Write) (db : r.Db)
      → (w.pipe k ws db).0 ≡ ok tt
      → is_empty ws ≡ false
      → r.exists k (w.pipe k ws db).1 ≡ ok true
  pub sadd_exists :
      (k s m : String) (db : r.Db) → k ≢ s → r.exists k (w.sadd s m db).1 ≡ r.exists k db
  pub sadd_text :
      (k f s m : String) (db : r.Db) → k ≢ s → r.hget k f (w.sadd s m db).1 ≡ r.hget k f db
  pub sadd_number :
      (k f s m : String) (db : r.Db) → k ≢ s → r.hget_u64 k f (w.sadd s m db).1 ≡ r.hget_u64 k f db

-- Of HSET only: a read of a text that was written last gives that text, if it is answered.
pub record ReadsWritten (r : Redis) (w : Writer r) : Type 0 where
  pub text_read :
      (k f v u : String) (ws : List Write) (db : r.Db)
      → (w.pipe k ws db).0 ≡ ok tt
      → last_write f ws ≡ some (set_text f v)
      → r.hget k f (w.pipe k ws db).1 ≡ ok u
      → u ≡ v

-- Redis answers, and does not fail.
abbrev pub IsAnswered : Result String String → Type 0
IsAnswered (ok v) = Unit
IsAnswered (err e) = ⊥

pub not_index : (key : String) → api_key_of key ≢ "api_keys_index"
not_index key e = cc (starts_with-append "api_key:" key, e)

last_owner :
    (owner : String) (limit now : ℕ) (exp : Option ℕ)
    → last_write "owner" (created_fields owner limit exp now) ≡ some (set_text "owner" owner)
last_owner owner limit now none = refl
last_owner owner limit now (some t) = refl

last_limit :
    (owner : String) (limit now : ℕ) (exp : Option ℕ)
    → last_write "rate_limit" (created_fields owner limit exp now)
      ≡ some (set_number "rate_limit" limit)
last_limit owner limit now none = refl
last_limit owner limit now (some t) = refl

last_active :
    (owner : String) (limit now : ℕ) (exp : Option ℕ)
    → last_write "active" (created_fields owner limit exp now) ≡ some (set_text "active" "true")
last_active owner limit now none = refl
last_active owner limit now (some t) = refl

module _ (r : Redis) (w : Writer r) where
  pub finish-ran :
      (out : CommandOutcome) (x : Result String (Unit {0}) × r.Db)
      → (finish r w out x).0 ≡ ok out
      → (x.0 ≡ ok tt) × ((finish r w out x).1 ≡ x.1)
  finish-ran out (ok tt, db) e = (refl, refl)
  finish-ran out (err why, db) e = cc

  pub finish-db :
      (out : CommandOutcome) (x : Result String (Unit {0}) × r.Db) → (finish r w out x).1 ≡ x.1
  finish-db out (ok tt, db) = refl
  finish-db out (err why, db) = refl

module _ (r : Redis) (w : Writer r) (key : String) where
  -- What a `create` that succeeds has run.
  create-ran :
      (owner : String) (limit : ℕ) (expires_at : Option ℕ) (now : ℕ) (db : r.Db)
      → (create r w key owner limit expires_at now db).0 ≡ ok (created key)
      → let piped = w.pipe (api_key_of key) (created_fields owner limit expires_at now) db in
        (piped.0 ≡ ok tt)
        × ((create r w key owner limit expires_at now db).1
            ≡ (w.sadd "api_keys_index" key piped.1).1)
  unfolding create
  create-ran owner limit expires_at now db e =
      let piped = w.pipe (api_key_of key) (created_fields owner limit expires_at now) db in
      elim (Result-cases piped.0) [
        | inl (u, sent) ↦ (
          sent,
          rw (sent, create) (finish-db r w (created key) (w.sadd "api_keys_index" key piped.1)),
        )
        | inr (why, failed) ↦ absurd (ground arith)
      ]

  pub revoke-ran :
      (db : r.Db)
      → (revoke r w key db).0 ≡ ok (revoked key)
      → let piped = w.pipe (api_key_of key) (set_text "active" "false" ∷ []) db in
        (piped.0 ≡ ok tt) × ((revoke r w key db).1 ≡ piped.1)
  unfolding revoke
  revoke-ran db e =
      let piped = w.pipe (api_key_of key) (set_text "active" "false" ∷ []) db in
      elim (Result-cases (r.exists (api_key_of key) db)) [
        | inl (true, there) ↦
            let (sent, final) = finish-ran r w (revoked key) piped (rw (there, revoke) at e) in
            (sent, rw (there, revoke) final)
        | inl (false, missing) ↦ absurd (ground arith)
        | inr (why, failed) ↦ absurd (ground arith)
      ]

  module _ (h : IsHash r w) where
    -- A `create` that succeeds makes the key valid for the router, with the owner and the rate
    -- limit that it was given, whatever the database held for the key before and whether or not the
    -- key has an expiry.
    pub create-fetch :
        (owner : String) (limit : ℕ) (expires_at : Option ℕ) (now : ℕ) (db : r.Db)
        → (create r w key owner limit expires_at now db).0 ≡ ok (created key)
        → fetch r key (create r w key owner limit expires_at now db).1
          ≡ ok (some (record { owner = owner; rate_limit = limit }))
    create-fetch owner limit expires_at now db e =
        let k = api_key_of key in
        let fields = created_fields owner limit expires_at now in
        let written = (w.pipe k fields db).1 in
        let apart = not_index key in
        let (sent, final) = create-ran owner limit expires_at now db e in
        let active : r.hget k "active" (w.sadd "api_keys_index" key written).1 ≡ ok "true" =
          h.sadd_text k "active" "api_keys_index" key written apart
          ∙ h.text_written k "active" "true" fields db sent
              (last_active owner limit now expires_at) in
        rw final (
          (fetch_iff r key (w.sadd "api_keys_index" key written).1
              (record { owner = owner; rate_limit = limit })).1
            (record {
              there =
                  h.sadd_exists k "api_keys_index" key written apart
                  ∙ h.written_exists k fields db sent refl;
              owner =
                  h.sadd_text k "owner" "api_keys_index" key written apart
                  ∙ h.text_written k "owner" owner fields db sent
                      (last_owner owner limit now expires_at);
              active = λ off. cc (active, off);
              rate_limit =
                  h.sadd_number k "rate_limit" "api_keys_index" key written apart
                  ∙ h.number_written k "rate_limit" limit fields db sent
                      (last_limit owner limit now expires_at);
            }))

  answered_text : (x : Result String String) → IsAnswered x → (v : String) × (x ≡ ok v)
  answered_text (ok v) _ = (v, refl)
  answered_text (err e) answers = absurd answers

  -- After a `revoke` that says that it revoked a key, Redis says "false" for its `active`, if it
  -- answers.
  pub revoke-active :
      (db : r.Db)
      → ReadsWritten r w
      → (revoke r w key db).0 ≡ ok (revoked key)
      → IsAnswered (r.hget (api_key_of key) "active" (revoke r w key db).1)
      → r.hget (api_key_of key) "active" (revoke r w key db).1 ≡ ok "false"
  revoke-active db reads e answers =
      let k = api_key_of key in
      let (sent, final) = revoke-ran db e in
      let (u, read) = answered_text (r.hget k "active" (revoke r w key db).1) answers in
      let same : u ≡ "false" =
        reads.text_read k "active" "false" u (set_text "active" "false" ∷ []) db sent refl
          (sym (ap (r.hget k "active") final) ∙ read) in
      read ∙ ap (λ v. ok v) same

  -- Then the router's lookup of the key in Redis never gives a valid key.
  pub revoke-fetch :
      (db : r.Db) (info : KeyInfo)
      → ReadsWritten r w
      → (revoke r w key db).0 ≡ ok (revoked key)
      → IsAnswered (r.hget (api_key_of key) "active" (revoke r w key db).1)
      → fetch r key (revoke r w key db).1 ≢ ok (some info)
  revoke-fetch db info reads e answers found =
      ((fetch_iff r key (revoke r w key db).1 info).0 found).active
        (revoke-active db reads e answers)
