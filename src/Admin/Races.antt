-- ===== src/Admin/Races.antt =====
-- A revocation with the tool, while calls of the router and other commands are under way.
use sol_rpc_router.Base.{ℕ, ◌+◌, String, ◌≡◌, ◌≢◌, ◌∙◌, ap, some, List, All, All-map, ok}
use sol_rpc_router.KeyStore.{KeyInfo, Redis, Cache, api_key_of}
use sol_rpc_router.KeyStore.Hashes.{IsLocalCounter}
use sol_rpc_router.KeyStore.Cached.{IsTtl, Expires}
use sol_rpc_router.KeyStore.Steps.{finished}
use sol_rpc_router.KeyStore.Concurrent.{World, Event, begins, advances, changes, happen, happen_all}
use sol_rpc_router.KeyStore.Concurrent.Settled.{NoStale, LeavesInactive}
use sol_rpc_router.KeyStore.Concurrent.Revoked.{IsLate, late_call-refused}
use sol_rpc_router.Admin.{Writer, revoked, revoke}
use sol_rpc_router.Admin.Keys.{ReadsWritten, IsAnswered, revoke-active}
use sol_rpc_router.Admin.Cli.{Reader, Commands, main}
use sol_rpc_router.Admin.Frame.{IsLocal, Spares, main-AreSame}

module _ (r : Redis) (w : Writer r) (rd : Reader r) (key : String) where
  -- A run of the tool that names another key.
  pub record OtherCommand (f : r.Db → r.Db) : Type 0 where
    pub generated : String
    pub now : ℕ
    pub cmd : Commands
    pub spares : Spares key generated cmd
    pub runs : (db : r.Db) → f db ≡ (main r rd w generated now cmd db).1

  -- What changes the database beside the router is the tool, at work on other keys.
  abbrev pub OnlyTool : Event r → Type 0
  OnlyTool (begins id k) = Unit
  OnlyTool (advances id now) = Unit
  OnlyTool (changes f) = OtherCommand f

  OnlyTool-LeavesInactive :
      (c : Cache) (e : Event r) → IsLocal r w → OnlyTool e → LeavesInactive r c key e
  OnlyTool-LeavesInactive c (begins id k) local _ = tt
  OnlyTool-LeavesInactive c (advances id now) local _ = tt
  OnlyTool-LeavesInactive c (changes f) local o = λ db off.
      ap (λ d. r.hget (api_key_of key) "active" d) (o.runs db)
      ∙ ((main-AreSame r w rd key o.generated o.now o.cmd db local o.spares).texts "active" ∙ off)

  -- Let the tool's `revoke` say that it revoked a key, and let the read of its `active` be answered
  -- from then on, since one that fails accepts the key. Let the router's cache then hold no accepting
  -- entry of the key that is readable 60 seconds after `from`, and let no call for the key be past
  -- its test of `active` with its answer still to store. Then, while any calls of the router are
  -- under way, for any keys and in any order of their steps, and while the tool works on other
  -- keys, a call for the key that takes its steps 60 seconds or more after `from` is not let in.
  pub revoked_call-refused :
      (c : Cache) (from id : ℕ) (db : r.Db) (at : World r c) (before later : List (Event r))
      (info : KeyInfo)
      → IsTtl c
      → ReadsWritten r w
      → IsLocal r w
      → IsLocalCounter r
      → (revoke r w key db).0 ≡ ok (revoked key)
      → IsAnswered (r.hget (api_key_of key) "active" (revoke r w key db).1)
      → at.db ≡ (revoke r w key db).1
      → NoStale r c key at.tasks
      → Expires r c key from at.cache
      → All OnlyTool before
      → All OnlyTool later
      → All (IsLate id (from + 60)) later
      → (happen_all r c later (happen r c (begins id key) (happen_all r c before at))).tasks id
        ≢ some (record { key = key; phase = finished (ok (some info)) })
  revoked_call-refused c from id db at before later info ttl reads local counter done answers gone
        fresh old tool tool_on late =
      late_call-refused r c key ttl counter from id before later at info
        (record {
          inactive = rw gone (revoke-active r w key db reads done answers);
          no_stale = fresh;
          expires = old;
        })
        (All-map OnlyTool before (λ e. OnlyTool-LeavesInactive c e local) tool)
        (All-map OnlyTool later (λ e. OnlyTool-LeavesInactive c e local) tool_on) late
