-- ===== src/KeyStore/Concurrent/Limit.antt =====
-- The rate limit over calls that are under way at once.
use sol_rpc_router.Base.{
  ℕ, ◌+◌, ◌-◌, ◌≤◌, String, ◌≡◌, inl, inr, Bool, false, ◌&&◌, not, none, some, List, [], ◌∷◌, ◌==◌,
  eq_iff, eq_refl, eqb, leb, arith, All, Bool-cases, Option-cases, if◌then◌else◌,
}
use sol_rpc_router.KeyStore.{
  KeyInfo, Redis, Cache, Session, rate_limit_of, check_rate_limit, script,
}
use sol_rpc_router.KeyStore.Rate.{IsCounter, is_allowed, check_cases, count-script}
use sol_rpc_router.KeyStore.Steps.{
  Phase, looking, asking_exists, asking_owner, asking_active, asking_limit, storing, limiting,
  finished, take_step,
}
use sol_rpc_router.KeyStore.Concurrent.{
  Task, World, Event, begins, advances, changes, advance, happen, session_at,
}

-- A limit that is set, and at most `most`.
abbrev pub is_within : ℕ → KeyInfo → Bool
is_within most info = not (eqb info.rate_limit 0) && leb info.rate_limit most

module _ (r : Redis) (c : Cache) (key : String) (most : ℕ) where
  -- Whether the next step of a task lets a call for the key through, under such a limit.
  abbrev pub passes : r.Db → Task → Bool
  passes db t = elim t.phase [
    | looking ↦ false
    | asking_exists ↦ false
    | asking_owner ↦ false
    | asking_active owner ↦ false
    | asking_limit owner ↦ false
    | storing info ↦ false
    | limiting info ↦
        (t.key == key)
        && (is_within most info && is_allowed (check_rate_limit r t.key info.rate_limit db).0)
    | finished answer ↦ false
  ]

  abbrev pub passing : Event r → World r c → ℕ
  passing (begins id k) w = 0
  passing (advances id now) w = elim (w.tasks id) [
    | none ↦ 0
    | some t ↦ if passes w.db t then 1 else 0
  ]
  passing (changes f) w = 0

  -- How many calls are let through.
  unfoldable pub passed : List (Event r) → World r c → ℕ
  passed [] w = 0
  passed (e ∷ es) w = passing e w + passed es (happen r c e w)

  -- No other program takes the counter of the key back.
  abbrev pub LeavesCounter : (String → r.Db → ℕ) → Event r → Type 0
  LeavesCounter count (begins id k) = Unit
  LeavesCounter count (advances id now) = Unit
  LeavesCounter count (changes f) =
      (db : r.Db) → count (rate_limit_of key) db ≤ count (rate_limit_of key) (f db)

  module _ (count : String → r.Db → ℕ) (law : IsCounter r count) where
    abbrev counted : r.Db → ℕ
    counted = count (rate_limit_of key)

    abbrev one_if : Bool → ℕ
    one_if b = if b then 1 else 0

    -- A script counts up the counter of its own key, and takes none back.
    counted-script :
        (k : String) (db : r.Db)
        → counted (script r (rate_limit_of k) db).1 ≡ (
            if rate_limit_of k == rate_limit_of key
            then count (rate_limit_of k) db + 1
            else counted db)
    counted-script k db = count-script r count law (rate_limit_of k) (rate_limit_of key) db

    le-script : (k : String) (db : r.Db) → counted db ≤ counted (script r (rate_limit_of k) db).1
    le-script k db =
        ground (arith, counted-script k db, eq_iff (rate_limit_of k) (rate_limit_of key))

    pub limiting-counted :
        (k : String) (info : KeyInfo) (db : r.Db)
        → one_if (passes db (record { key = k; phase = limiting info }))
            + (most - counted (check_rate_limit r k info.rate_limit db).1)
          ≤ most - counted db
    limiting-counted k info db = elim (Bool-cases (eqb info.rate_limit 0)) [
      | inl unlimited ↦ unfold check_rate_limit in (ground (arith, unlimited))
      | inr limited ↦ elim (check_cases r count law k info.rate_limit db (ground arith)) [
        | inl (_, checked) ↦
            let after = counted-script k db in
            rw checked (
              ground (
                arith,
                after,
                eq_iff k key,
                eq_iff (rate_limit_of k) (rate_limit_of key),
                eq_refl (rate_limit_of key),
              ))
        | inr (e, fails, failed, inl still) ↦ rw (failed, still) (ground arith)
        | inr (e, fails, failed, inr ran) ↦ rw (failed, ran) (ground (arith, le-script k db))
      ]
    ]

    step-counted :
        (k : String) (p : Phase) (s : Session r c)
        → one_if (passes s.db (record { key = k; phase = p }))
            + (most - counted (take_step r c k p s).1.db)
          ≤ most - counted s.db
    unfolding take_step
    step-counted k looking s = omega arith
    step-counted k asking_exists s = omega arith
    step-counted k asking_owner s = omega arith
    step-counted k (asking_active owner) s = omega arith
    step-counted k (asking_limit owner) s = omega arith
    step-counted k (storing info) s = omega arith
    step-counted k (limiting info) s = limiting-counted k info s.db
    step-counted k (finished answer) s = omega arith

    happen-counted :
        (e : Event r) (w : World r c)
        → LeavesCounter count e
        → passing e w + (most - counted (happen r c e w).db) ≤ most - counted w.db
    unfolding happen advance
    happen-counted (begins id k) w _ = omega arith
    happen-counted (changes f) w leaves = omega (arith, leaves w.db)
    happen-counted (advances id now) w _ = elim (Option-cases (w.tasks id)) [
      | inl nobody ↦ rw (nobody, passing) (omega arith)
      | inr (t, there) ↦ rw (there, passing) (step-counted t.key t.phase (session_at r c now w))
    ]

    -- Within one window, of any number of calls that are under way at once, in any order of their
    -- steps and with any calls for other keys between them, no more get past a rate limit of the
    -- key of at most `most` than the counter of the key leaves below `most`; other programs may
    -- change the database between the steps, if they do not take the counter of the key back, and
    -- scripts may fail.
    pub passed-le_limit :
        (es : List (Event r)) (w : World r c)
        → All (LeavesCounter count) es
        → passed es w ≤ most - counted w.db
    unfolding passed
    passed-le_limit [] w _ = omega arith
    passed-le_limit (e ∷ es) w (here, later) =
        omega (arith, happen-counted e w here, passed-le_limit es (happen r c e w) later)
