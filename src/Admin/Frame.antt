-- ===== src/Admin/Frame.antt =====
-- The commands leave other keys alone.
use text.Mathlib.TextLemmas.{append_cancel_left}
use sol_rpc_router.Base.{
  ℕ, String, ◌≡◌, ◌≢◌, refl, inl, inr, Bool, true, false, Option, List, [], ◌∷◌, is_empty, Result,
  ok, err, Bool-cases, Result-cases,
}
use sol_rpc_router.KeyStore.{Redis, api_key_of, fetch}
use sol_rpc_router.KeyStore.Hashes.{AreSame, AreSame-refl, AreSame-trans, fetch-AreSame}
use sol_rpc_router.Admin.{
  Write, set_text, Writer, CommandOutcome, created, revoked, updated, created_fields, changes,
  create, revoke, update,
}
use sol_rpc_router.Admin.Keys.{not_index, finish-db}
use sol_rpc_router.Admin.Cli.{
  Reader, Commands, create_key, revoke_key, update_key, list_keys, inspect_key, key_or, printed,
  main,
}

-- What Redis documents of the two writing commands: they change nothing but the key that they name,
-- also where they fail.
pub record IsLocal (r : Redis) (w : Writer r) : Type 0 where
  pub pipe :
      (j k : String) (ws : List Write) (db : r.Db) → j ≢ k → AreSame r j (w.pipe k ws db).1 db
  pub sadd : (j s m : String) (db : r.Db) → j ≢ s → AreSame r j (w.sadd s m db).1 db

-- Different keys have different hashes.
apart : (j k : String) → j ≢ k → api_key_of j ≢ api_key_of k
apart j k ne e = ne (append_cancel_left "api_key:" j k e)

-- A command names another key, or none.
abbrev pub Spares : String → String → Commands → Type 0
Spares j generated (create_key owner limit exp custom) = j ≢ key_or generated custom
Spares j generated (revoke_key key) = j ≢ key
Spares j generated (update_key key limit owner active) = j ≢ key
Spares j generated list_keys = Unit
Spares j generated (inspect_key key) = Unit

module _ (r : Redis) where
  module _ (w : Writer r) (local : IsLocal r w) (j key : String) (ne : j ≢ key) where
    create-AreSame :
        (owner : String) (limit : ℕ) (exp : Option ℕ) (now : ℕ) (db : r.Db)
        → AreSame r (api_key_of j) (create r w key owner limit exp now db).1 db
    unfolding create
    create-AreSame owner limit exp now db =
        let fields = created_fields owner limit exp now in
        let piped = w.pipe (api_key_of key) fields db in
        let first = local.pipe (api_key_of j) (api_key_of key) fields db (apart j key ne) in
        elim (Result-cases piped.0) [
          | inr (why, failed) ↦ rw (failed, create) first
          | inl (u, sent) ↦
              rw (sent, create)
                (rw (finish-db r w (created key) (w.sadd "api_keys_index" key piped.1)) (
                  AreSame-trans r (api_key_of j) _ piped.1 db
                    (local.sadd (api_key_of j) "api_keys_index" key piped.1 (not_index j)) first))
        ]

    revoke-AreSame : (db : r.Db) → AreSame r (api_key_of j) (revoke r w key db).1 db
    unfolding revoke
    revoke-AreSame db =
        let fields = set_text "active" "false" ∷ [] in
        elim (Result-cases (r.exists (api_key_of key) db)) [
          | inr (why, failed) ↦ rw (failed, revoke) (AreSame-refl r (api_key_of j) db)
          | inl (false, missing) ↦ rw (missing, revoke) (AreSame-refl r (api_key_of j) db)
          | inl (true, there) ↦
              rw (there, revoke)
                (rw (finish-db r w (revoked key) (w.pipe (api_key_of key) fields db))
                  (local.pipe (api_key_of j) (api_key_of key) fields db (apart j key ne)))
        ]

    update-AreSame :
        (limit : Option ℕ) (owner : Option String) (active : Option Bool) (db : r.Db)
        → AreSame r (api_key_of j) (update r w key limit owner active db).1 db
    unfolding update
    update-AreSame limit owner active db =
        let fields = changes limit owner active in
        elim (Result-cases (r.exists (api_key_of key) db)) [
          | inr (why, failed) ↦ rw (failed, update) (AreSame-refl r (api_key_of j) db)
          | inl (false, missing) ↦ rw (missing, update) (AreSame-refl r (api_key_of j) db)
          | inl (true, there) ↦ elim (Bool-cases (is_empty fields)) [
            | inl nothing ↦ rw (there, nothing, update) (AreSame-refl r (api_key_of j) db)
            | inr some_change ↦
                rw (there, some_change, update)
                  (rw (finish-db r w (updated key) (w.pipe (api_key_of key) fields db))
                    (local.pipe (api_key_of j) (api_key_of key) fields db (apart j key ne)))
          ]
        ]

  printed-db : (rd : Reader r) (x : Result String CommandOutcome × r.Db) → (printed r rd x).1 ≡ x.1
  printed-db rd (ok out, db) = refl
  printed-db rd (err e, db) = refl

  pub main-AreSame :
      (w : Writer r) (rd : Reader r) (j generated : String) (now : ℕ) (cmd : Commands) (db : r.Db)
      → IsLocal r w
      → Spares j generated cmd
      → AreSame r (api_key_of j) (main r rd w generated now cmd db).1 db
  unfolding main
  main-AreSame w rd j generated now (create_key owner limit exp custom) db local ne =
      let key = key_or generated custom in
      rw (printed-db rd (create r w key owner limit exp now db))
        (create-AreSame w local j key ne owner limit exp now db)
  main-AreSame w rd j generated now (revoke_key key) db local ne =
      rw (printed-db rd (revoke r w key db)) (revoke-AreSame w local j key ne db)
  main-AreSame w rd j generated now (update_key key limit owner active) db local ne =
      rw (printed-db rd (update r w key limit owner active db))
        (update-AreSame w local j key ne limit owner active db)
  main-AreSame w rd j generated now list_keys db local _ = AreSame-refl r (api_key_of j) db
  main-AreSame w rd j generated now (inspect_key key) db local _ = AreSame-refl r (api_key_of j) db

  -- A command of the tool, whether it succeeds or fails, changes the router's lookup of no key but
  -- the one that it names; `list` and `inspect` change no lookup at all.
  pub main-frame :
      (w : Writer r) (rd : Reader r) (j generated : String) (now : ℕ) (cmd : Commands) (db : r.Db)
      → IsLocal r w
      → Spares j generated cmd
      → fetch r j (main r rd w generated now cmd db).1 ≡ fetch r j db
  main-frame w rd j generated now cmd db local ne =
      fetch-AreSame r j _ db (main-AreSame w rd j generated now cmd db local ne)
