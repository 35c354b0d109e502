-- ===== src/Admin.antt =====
-- src/bin/rpc-admin.rs: the commands that write keys. A command is a run over the connection to
-- Redis: an error of a call ends it, as the `?` on it does, and what it prints is its outcome.
pub mod Keys
pub mod Updates
pub mod Cli
pub mod Frame
pub mod History
pub mod Races
pub mod Revocation
use sol_rpc_router.Base.{
  ℕ, String, Bool, true, false, Option, none, some, List, [], ◌∷◌, ◌++◌, is_empty, Result, ok, err,
  if◌then◌else◌,
}
use sol_rpc_router.KeyStore.{Redis, api_key_of}

-- A field of a hash with the value written to it.
pub data Write : Type 0 where
  set_text : String → String → Write
  set_number : String → ℕ → Write

-- The commands that the tool uses beside those of the router. `pipe` sends a list of `hset` on one
-- key, and `sadd` adds to a set.
pub record Writer (r : Redis) : Type 0 where
  pub pipe : String → List Write → r.Db → Result String (Unit {0}) × r.Db
  pub sadd : String → String → r.Db → Result String (Unit {0}) × r.Db

pub data CommandOutcome : Type 0 where
  created : String → CommandOutcome
  revoked : String → CommandOutcome
  updated : String → CommandOutcome
  unchanged : String → CommandOutcome
  not_found : String → CommandOutcome

abbrev pub flag_text : Bool → String
flag_text a = if a then "true" else "false"

-- The fields that `create` writes.
abbrev pub expiry : Option ℕ → List Write
expiry none = []
expiry (some exp) = set_number "expires_at" exp ∷ []

abbrev pub created_fields : String → ℕ → Option ℕ → ℕ → List Write
created_fields owner rate_limit expires_at created_at =
    set_text "owner" owner
    ∷ set_number "rate_limit" rate_limit
    ∷ set_number "created_at" created_at
    ∷ set_text "active" "true"
    ∷ expiry expires_at

abbrev limit_change : Option ℕ → List Write
limit_change none = []
limit_change (some rl) = set_number "rate_limit" rl ∷ []

abbrev owner_change : Option String → List Write
owner_change none = []
owner_change (some o) = set_text "owner" o ∷ []

abbrev active_change : Option Bool → List Write
active_change none = []
active_change (some a) = set_text "active" (flag_text a) ∷ []

-- The fields that `update` writes, in the order of its tests.
abbrev pub changes : Option ℕ → Option String → Option Bool → List Write
changes rate_limit owner active =
    limit_change rate_limit ++ (owner_change owner ++ active_change active)

module _ (r : Redis) (w : Writer r) where
  abbrev pub finish :
      CommandOutcome → Result String (Unit {0}) × r.Db → Result String CommandOutcome × r.Db
  finish done_as (ok _, db) = (ok done_as, db)
  finish done_as (err e, db) = (err e, db)

  -- `Create`; `key` is the custom key or the generated one.
  unfoldable pub create :
      String → String → ℕ → Option ℕ → ℕ → r.Db → Result String CommandOutcome × r.Db
  create key owner rate_limit expires_at created_at db =
      let (written, db') =
        w.pipe (api_key_of key) (created_fields owner rate_limit expires_at created_at) db in
      elim written [
        | err e ↦ (err e, db')
        | ok _ ↦ finish (created key) (w.sadd "api_keys_index" key db')
      ]

  unfoldable pub revoke : String → r.Db → Result String CommandOutcome × r.Db
  revoke key db = elim (r.exists (api_key_of key) db) [
    | err e ↦ (err e, db)
    | ok false ↦ (ok (not_found key), db)
    | ok true ↦ finish (revoked key) (w.pipe (api_key_of key) (set_text "active" "false" ∷ []) db)
  ]

  unfoldable pub update :
      String → Option ℕ → Option String → Option Bool → r.Db → Result String CommandOutcome × r.Db
  update key rate_limit owner active db = elim (r.exists (api_key_of key) db) [
    | err e ↦ (err e, db)
    | ok false ↦ (ok (not_found key), db)
    | ok true ↦
        let fields = changes rate_limit owner active in
        if is_empty fields
        then (ok (unchanged key), db)
        else finish (updated key) (w.pipe (api_key_of key) fields db)
  ]
