-- ===== src/Admin/Cli.antt =====
-- src/bin/rpc-admin.rs: the commands that only read, and `main`, which runs one command. Where a
-- read fails in the middle of `list`, the lines that were printed before it are left out.
use sol_rpc_router.Base.{
  ℕ, String, Bool, true, false, Option, none, some, List, [], ◌∷◌, Result, ok, err,
}
use sol_rpc_router.KeyStore.{Redis, api_key_of, unwrap_or}
use sol_rpc_router.Admin.{Writer, CommandOutcome, create, revoke, update}

-- The reads of the tool beside those of the router: the members of a set, and a field that may be
-- missing.
pub record Reader (r : Redis) : Type 0 where
  pub smembers : String → r.Db → Result String (List String)
  pub hget_option : String → String → r.Db → Result String (Option String)

-- A line of `list`: a key with its owner and its `active`, or a key with no owner.
pub data Listed : Type 0 where
  with_owner : String → String → String → Listed
  missing_metadata : String → Listed

-- What `inspect` prints.
pub record Details : Type 0 where
  pub owner : String
  pub rate_limit : ℕ
  pub active : String
  pub created_at : ℕ

pub data Printed : Type 0 where
  wrote : CommandOutcome → Printed
  listed : List Listed → Printed
  inspected : Details → Printed
  key_not_found : Printed

-- The subcommands with their arguments.
pub data Commands : Type 0 where
  create_key : String → ℕ → Option ℕ → Option String → Commands
  revoke_key : String → Commands
  update_key : String → Option ℕ → Option String → Option Bool → Commands
  list_keys : Commands
  inspect_key : String → Commands

abbrev listed_as : String → Option String → Option String → Listed
listed_as key none active = missing_metadata key
listed_as key (some owner) none = with_owner key owner "true"
listed_as key (some owner) (some active) = with_owner key owner active

abbrev pub key_or : String → Option String → String
key_or generated none = generated
key_or generated (some key) = key

module _ (r : Redis) (rd : Reader r) where
  -- The loop of `list` over the keys.
  unfoldable pub list_each : List String → r.Db → Result String (List Listed)
  list_each [] db = ok []
  list_each (key ∷ keys) db = elim (rd.hget_option (api_key_of key) "owner" db) [
    | err e ↦ err e
    | ok owner ↦ elim (rd.hget_option (api_key_of key) "active" db) [
      | err e ↦ err e
      | ok active ↦ elim (list_each keys db) [
        | err e ↦ err e
        | ok lines ↦ ok (listed_as key owner active ∷ lines)
      ]
    ]
  ]

  unfoldable pub list : r.Db → Result String Printed
  list db = elim (rd.smembers "api_keys_index" db) [
    | err e ↦ err e
    | ok keys ↦ elim (list_each keys db) [ err e ↦ err e | ok lines ↦ ok (listed lines) ]
  ]

  unfoldable pub inspect : String → r.Db → Result String Printed
  inspect key db = elim (r.exists (api_key_of key) db) [
    | err e ↦ err e
    | ok false ↦ ok key_not_found
    | ok true ↦ ok (
        inspected (record {
          owner = unwrap_or "" (r.hget (api_key_of key) "owner" db);
          rate_limit = unwrap_or 0 (r.hget_u64 (api_key_of key) "rate_limit" db);
          active = unwrap_or "true" (r.hget (api_key_of key) "active" db);
          created_at = unwrap_or 0 (r.hget_u64 (api_key_of key) "created_at" db);
        }))
  ]

  abbrev pub printed : Result String CommandOutcome × r.Db → Result String Printed × r.Db
  printed (ok out, db) = (ok (wrote out), db)
  printed (err e, db) = (err e, db)

  -- `main` from the connection on, with the key that it generates and the time.
  unfoldable pub main : Writer r → String → ℕ → Commands → r.Db → Result String Printed × r.Db
  main w generated now (create_key owner rate_limit expires_at custom_key) db =
      printed (create r w (key_or generated custom_key) owner rate_limit expires_at now db)
  main w generated now (revoke_key key) db = printed (revoke r w key db)
  main w generated now (update_key key rate_limit owner active) db =
      printed (update r w key rate_limit owner active db)
  main w generated now list_keys db = (list db, db)
  main w generated now (inspect_key key) db = (inspect key db, db)
