-- ===== src/KeyStore/Concurrent/Settled.antt =====
-- A key that Redis says is inactive, with calls under way at once: what stays true of it.
use sol_rpc_router.Base.{
  ℕ, ◌+◌, ◌≤◌, String, ◌≡◌, ◌∙◌, refl, inl, inr, false, none, some, List, [], ◌∷◌, eqb, arith, All,
  ok, err, Bool-cases, Option-cases,
}
use sol_rpc_router.KeyStore.{Redis, Cache, Session, api_key_of}
use sol_rpc_router.KeyStore.Hashes.{IsLocalCounter, limit-AreSame}
use sol_rpc_router.KeyStore.Cached.{IsTtl, Expires}
use sol_rpc_router.KeyStore.Steps.{
  Phase, looking, asking_exists, asking_owner, asking_active, asking_limit, storing, limiting,
  finished, take_step,
}
use sol_rpc_router.KeyStore.Concurrent.{
  Task, Tasks, set, World, Event, begins, advances, changes, advance, happen, happen_all,
  session_at,
}
use sol_rpc_router.KeyStore.Concurrent.Phases.{
  is_stale, is_accepting, stale-accepting, stale-after_lookup, accepting-after_exists,
  accepting-after_owner,
}

module _ (r : Redis) (c : Cache) (key : String) where
  -- Redis says that the key is not active.
  abbrev pub IsInactive : r.Db → Type 0
  IsInactive db = r.hget (api_key_of key) "active" db ≡ ok "false"

  -- No call for the key is past its test of `active` with the answer still to store.
  abbrev pub NoStale : Tasks → Type 0
  NoStale tasks = (id : ℕ) (t : Task) → tasks id ≡ some t → t.key ≡ key → is_stale t.phase ≡ false

  -- The key is inactive, no call can store an accepting entry of it, and the cache has none that is
  -- readable 60 seconds after `from`.
  pub record IsSettled (from : ℕ) (w : World r c) : Type 0 where
    pub inactive : IsInactive w.db
    pub no_stale : NoStale w.tasks
    pub expires : Expires r c key from w.cache

  -- Other programs leave the key inactive.
  abbrev pub LeavesInactive : Event r → Type 0
  LeavesInactive (begins id k) = Unit
  LeavesInactive (advances id now) = Unit
  LeavesInactive (changes f) = (db : r.Db) → IsInactive db → IsInactive (f db)

  module _ (ttl : IsTtl c) (counter : IsLocalCounter r) (from : ℕ) where
    -- A step of any task: what it does to the database, to the cache and to its phase.
    step-IsInactive :
        (k : String) (p : Phase) (s : Session r c)
        → IsInactive s.db
        → IsInactive (take_step r c k p s).1.db
    unfolding take_step
    step-IsInactive k looking s h = h
    step-IsInactive k asking_exists s h = h
    step-IsInactive k asking_owner s h = h
    step-IsInactive k (asking_active owner) s h = h
    step-IsInactive k (asking_limit owner) s h = h
    step-IsInactive k (storing info) s h = h
    step-IsInactive k (limiting info) s h =
        (limit-AreSame r counter key k info.rate_limit s.db).texts "active" ∙ h
    step-IsInactive k (finished answer) s h = h

    step-Expires :
        (k : String) (p : Phase) (s : Session r c)
        → (k ≡ key → is_stale p ≡ false)
        → Expires r c key from s.cache
        → Expires r c key from (take_step r c k p s).1.cache
    unfolding take_step
    step-Expires k looking s fine old = old
    step-Expires k asking_exists s fine old = old
    step-Expires k asking_owner s fine old = old
    step-Expires k (asking_active owner) s fine old = old
    step-Expires k (asking_limit owner) s fine old = old
    step-Expires k (storing none) s fine old = λ now info hit.
        elim (ttl.lookup-store key k none (some info) s.now now s.cache hit) [
          | inl (_, same, _) ↦ cc
          | inr before ↦ old now info before
        ]
    step-Expires k (storing (some v)) s fine old = λ now info hit.
        elim (ttl.lookup-store key k (some v) (some info) s.now now s.cache hit) [
          | inl (same, _, _) ↦ cc (fine same)
          | inr before ↦ old now info before
        ]
    step-Expires k (limiting info) s fine old = old
    step-Expires k (finished answer) s fine old = old

    step-stale :
        (k : String) (p : Phase) (s : Session r c)
        → k ≡ key
        → IsInactive s.db
        → is_stale p ≡ false
        → is_stale (take_step r c k p s).0 ≡ false
    unfolding take_step
    step-stale k looking s same off fine = stale-after_lookup (c.lookup k s.now s.cache)
    step-stale k asking_exists s same off fine =
        stale-accepting _ (accepting-after_exists (r.exists (api_key_of k) s.db))
    step-stale k asking_owner s same off fine =
        stale-accepting _ (accepting-after_owner (r.hget (api_key_of k) "owner" s.db))
    step-stale k (asking_active owner) s same off fine = rw (same, off) refl
    step-stale k (asking_limit owner) s same off fine = cc
    step-stale k (storing none) s same off fine = refl
    step-stale k (storing (some info)) s same off fine = cc
    step-stale k (limiting info) s same off fine = refl
    step-stale k (finished answer) s same off fine = refl

    -- A call for the key that has not accepted it does not do so after the entry has expired.
    pub step-accepting :
        (p : Phase) (s : Session r c)
        → IsInactive s.db
        → Expires r c key from s.cache
        → from + 60 ≤ s.now
        → is_accepting p ≡ false
        → is_accepting (take_step r c key p s).0 ≡ false
    unfolding take_step
    step-accepting looking s off old late fine = elim (Option-cases (c.lookup key s.now s.cache)) [
      | inl miss ↦ rw miss refl
      | inr (none, hit) ↦ rw hit refl
      | inr (some info, hit) ↦ absurd (omega (arith, old s.now info hit))
    ]
    step-accepting asking_exists s off old late fine =
        accepting-after_exists (r.exists (api_key_of key) s.db)
    step-accepting asking_owner s off old late fine =
        accepting-after_owner (r.hget (api_key_of key) "owner" s.db)
    step-accepting (asking_active owner) s off old late fine = rw off refl
    step-accepting (asking_limit owner) s off old late fine = cc
    step-accepting (storing none) s off old late fine = refl
    step-accepting (storing (some info)) s off old late fine = cc
    step-accepting (limiting info) s off old late fine = cc
    step-accepting (finished (err e)) s off old late fine = refl
    step-accepting (finished (ok none)) s off old late fine = refl
    step-accepting (finished (ok (some info))) s off old late fine = cc

    NoStale-set :
        (id : ℕ) (t : Task) (tasks : Tasks)
        → (t.key ≡ key → is_stale t.phase ≡ false)
        → NoStale tasks
        → NoStale (set id t tasks)
    NoStale-set id t tasks fine others j u there mine = elim (Bool-cases (eqb id j)) [
      | inl here ↦
          let same : some t ≡ some u = rw here at there in
          let is_t : t ≡ u = cc in rw (← is_t) (fine (rw is_t mine))
      | inr other ↦ others j u (rw other at there) mine
    ]

    pub happen-IsSettled :
        (e : Event r) (w : World r c)
        → LeavesInactive e
        → IsSettled from w
        → IsSettled from (happen r c e w)
    unfolding happen advance
    happen-IsSettled (begins id k) w _ i = record {
      inactive = i.inactive;
      no_stale =
          NoStale-set id (record { key = k; phase = looking }) w.tasks (λ _. refl) i.no_stale;
      expires = i.expires;
    }
    happen-IsSettled (changes f) w leaves i = record {
      inactive = leaves w.db i.inactive;
      no_stale = i.no_stale;
      expires = i.expires;
    }
    happen-IsSettled (advances id now) w _ i = elim (Option-cases (w.tasks id)) [
      | inl nobody ↦ rw nobody i
      | inr (t, there) ↦
          let s = session_at r c now w in
          let fine = i.no_stale id t there in
          rw there (record {
            inactive = step-IsInactive t.key t.phase s i.inactive;
            no_stale =
                NoStale-set id (record { key = t.key; phase = (take_step r c t.key t.phase s).0 })
                  w.tasks (λ same. step-stale t.key t.phase s same i.inactive (fine same))
                  i.no_stale;
            expires = step-Expires t.key t.phase s fine i.expires;
          })
    ]

    pub happen_all-IsSettled :
        (es : List (Event r)) (w : World r c)
        → All LeavesInactive es
        → IsSettled from w
        → IsSettled from (happen_all r c es w)
    unfolding happen_all
    happen_all-IsSettled [] w _ i = i
    happen_all-IsSettled (e ∷ es) w (here, later) i =
        happen_all-IsSettled es (happen r c e w) later (happen-IsSettled e w here i)
