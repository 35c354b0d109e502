-- ===== src/Admin/History.antt =====
-- The router and the tool at work on one Redis: calls of `validate_key` and commands, one after the
-- other.
use sol_rpc_router.Base.{
  ℕ, ◌+◌, ◌≤◌, String, ◌≡◌, ◌≢◌, ◌∙◌, refl, sym, some, List, [], ◌∷◌, All, ok,
}
use sol_rpc_router.KeyStore.{KeyInfo, Redis, Cache, api_key_of, validate_key}
use sol_rpc_router.KeyStore.Hashes.{
  AreSame, AreSame-refl, AreSame-trans, IsLocalCounter, fetch-AreSame, validate_key-AreSame,
}
use sol_rpc_router.KeyStore.Cached.{
  IsTtl, Call, session, after_calls, Expires, Expires-validate_key, RevokedFrom, revoked-refused,
}
use sol_rpc_router.Admin.{Writer, revoked, revoke}
use sol_rpc_router.Admin.Keys.{ReadsWritten, IsAnswered, revoke-fetch}
use sol_rpc_router.Admin.Cli.{Reader, Commands, main}
use sol_rpc_router.Admin.Frame.{IsLocal, Spares, main-AreSame}

-- A call of the router for a key, or a command of the tool, with the times and the generated key.
pub data Action : Type 0 where
  call_for : String → ℕ → Action
  command : String → ℕ → Commands → Action

-- The router's cache and the database.
pub record Shared (r : Redis) (c : Cache) : Type 0 where
  pub cache : c.Store
  pub db : r.Db

-- The action names another key, if it is a command.
abbrev pub SparesKey : String → Action → Type 0
SparesKey key (call_for k now) = Unit
SparesKey key (command generated now cmd) = Spares key generated cmd

module _ (r : Redis) (c : Cache) (w : Writer r) (rd : Reader r) where
  abbrev pub call_at : String → ℕ → Shared r c → Call r c
  call_at k now s = record { key = k; now = now; db = s.db }

  unfoldable pub act : Action → Shared r c → Shared r c
  act (call_for k now) s =
      let t = (validate_key r c k (session r c (call_at k now s) s.cache)).1 in
      record { cache = t.cache; db = t.db }
  act (command generated now cmd) s = record s { db = (main r rd w generated now cmd s.db).1 }

  unfoldable pub act_all : List Action → Shared r c → Shared r c
  act_all [] s = s
  act_all (a ∷ later) s = act_all later (act a s)

  -- What a revocation at `from` keeps true: the cache lets go of the key within its time to live,
  -- and Redis holds the key as the revocation left it.
  pub record StaysRevoked (key : String) (from : ℕ) (gone : r.Db) (s : Shared r c) : Type 0 where
    pub expires : Expires r c key from s.cache
    pub same : AreSame r (api_key_of key) s.db gone

  module _ (ttl : IsTtl c) (reads : ReadsWritten r w) (local : IsLocal r w)
      (counter : IsLocalCounter r) (key : String) (from : ℕ) (db : r.Db)
      (done : (revoke r w key db).0 ≡ ok (revoked key))
      (answers : IsAnswered (r.hget (api_key_of key) "active" (revoke r w key db).1)) where
    abbrev gone : r.Db
    gone = (revoke r w key db).1

    revoked_call :
        (k : String) (now : ℕ) (s : Shared r c)
        → AreSame r (api_key_of key) s.db gone
        → RevokedFrom r c key from (call_at k now s)
    revoked_call k now s same _ _ info accepted =
        revoke-fetch r w key db info reads done answers
          (sym (fetch-AreSame r key s.db gone same) ∙ accepted)

    act-StaysRevoked :
        (a : Action) (s : Shared r c)
        → SparesKey key a
        → StaysRevoked key from gone s
        → StaysRevoked key from gone (act a s)
    unfolding act
    act-StaysRevoked (call_for k now) s _ i =
        let call = call_at k now s in
        record {
          expires =
              Expires-validate_key r c ttl key from call s.cache (revoked_call k now s i.same)
                i.expires;
          same =
              AreSame-trans r (api_key_of key) _ s.db gone
                (validate_key-AreSame r counter key c k (session r c call s.cache)) i.same;
        }
    act-StaysRevoked (command generated now cmd) s spares i = record {
      expires = i.expires;
      same =
          AreSame-trans r (api_key_of key) _ s.db gone
            (main-AreSame r w rd key generated now cmd s.db local spares) i.same;
    }

    act_all-StaysRevoked :
        (actions : List Action) (s : Shared r c)
        → All (SparesKey key) actions
        → StaysRevoked key from gone s
        → StaysRevoked key from gone (act_all actions s)
    unfolding act_all
    act_all-StaysRevoked [] s _ i = i
    act_all-StaysRevoked (a ∷ later) s (spares, others) i =
        act_all-StaysRevoked later (act a s) others (act-StaysRevoked a s spares i)

    -- Let the tool's `revoke` say at some time that it revoked a key, let the read of its `active`
    -- be answered from then on, since one that fails accepts the key, and let the router's cache
    -- hold no accepting entry of the key that is readable 60 seconds later, as its time to live
    -- ensures. Then, after any calls of `validate_key` for any keys and any commands of the tool
    -- that name other keys, one after the other on the same cache and the same Redis, no call that
    -- comes 60 seconds or more after the revocation accepts the key.
    pub act_all-refused :
        (actions : List Action) (st : c.Store) (now : ℕ) (info : KeyInfo)
        → Expires r c key from st
        → All (SparesKey key) actions
        → from + 60 ≤ now
        → let s = act_all actions (record { cache = st; db = gone }) in
          (validate_key r c key (session r c (call_at key now s) s.cache)).0 ≢ ok (some info)
    unfolding after_calls
    act_all-refused actions st now info start spares late =
        let s = act_all actions (record { cache = st; db = gone }) in
        let i =
          act_all-StaysRevoked actions (record { cache = st; db = gone }) spares
            (record { expires = start; same = AreSame-refl r (api_key_of key) gone }) in
        revoked-refused r c ttl key from [] s.cache (call_at key now s) info i.expires tt
          (revoked_call key now s i.same) refl late
