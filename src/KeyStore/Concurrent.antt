-- ===== src/KeyStore/Concurrent.antt =====
-- src/keystore.rs: any number of calls of `validate_key` under way at once, on one cache and one
-- Redis. Each advances by the steps of KeyStore/Steps, in any order, and other programs may change
-- the database between them. A script of Redis runs within one step.
pub mod Limit
pub mod Phases
pub mod Settled
pub mod Revoked
use sol_rpc_router.Base.{ℕ, String, Option, none, some, List, [], ◌∷◌, eqb, if◌then◌else◌}
use sol_rpc_router.KeyStore.{Redis, Cache, Session}
use sol_rpc_router.KeyStore.Steps.{Phase, looking, take_step}

-- A call under way: its key, and where it stands.
pub record Task : Type 0 where
  pub key : String
  pub phase : Phase

-- The tasks by a number that each is given.
abbrev pub Tasks : Type 0
Tasks = ℕ → Option Task

abbrev pub set : ℕ → Task → Tasks → Tasks
set id t tasks j = if eqb id j then some t else tasks j

pub record World (r : Redis) (c : Cache) : Type 0 where
  pub cache : c.Store
  pub db : r.Db
  pub tasks : Tasks

-- A call begins; a call takes its next step at some time; or another program changes the database.
pub data Event (r : Redis) : Type 0 where
  begins : ℕ → String → Event r
  advances : ℕ → ℕ → Event r
  changes : (r.Db → r.Db) → Event r

module _ (r : Redis) (c : Cache) where
  abbrev pub session_at : ℕ → World r c → Session r c
  session_at now w = record { cache = w.cache; db = w.db; now = now }

  unfoldable pub advance : ℕ → ℕ → Option Task → World r c → World r c
  advance id now none w = w
  advance id now (some t) w =
      let (phase, s) = take_step r c t.key t.phase (session_at now w) in
      record {
        cache = s.cache;
        db = s.db;
        tasks = set id (record { key = t.key; phase = phase }) w.tasks;
      }

  unfoldable pub happen : Event r → World r c → World r c
  happen (begins id key) w = record w {
    tasks = set id (record { key = key; phase = looking }) w.tasks;
  }
  happen (advances id now) w = advance id now (w.tasks id) w
  happen (changes f) w = record w { db = f w.db }

  unfoldable pub happen_all : List (Event r) → World r c → World r c
  happen_all [] w = w
  happen_all (e ∷ es) w = happen_all es (happen e w)
