-- ===== src/KeyStore/Steps/Undisturbed.antt =====
-- A call in steps comes to an end, and where nothing comes between its steps it is `validate_key`.
use sol_rpc_router.Base.{
  ℕ, zero, suc, ◌-◌, ◌≤◌, String, ◌≡◌, refl, inl, inr, Bool, true, false, Option, none, some, List,
  [], ◌∷◌, ◌==◌, arith, length, Result, ok, err, Bool-cases, Option-cases, if◌then◌else◌,
}
use sol_rpc_router.KeyStore.{
  KeyInfo, Answer, Redis, Cache, Session, api_key_of, unwrap_or, remember, fetch, get_key_info,
  check_info, validate_key,
}
use sol_rpc_router.KeyStore.Steps.{
  Phase, looking, asking_exists, asking_owner, asking_active, asking_limit, storing, limiting,
  finished, with_info, after_lookup, after_exists, after_owner, after_active, after_limit,
  take_step, take_steps, phase_after,
}

-- How many steps a call has at most before it.
abbrev pub rank : Phase → ℕ
rank looking = 7
rank asking_exists = 6
rank asking_owner = 5
rank (asking_active owner) = 4
rank (asking_limit owner) = 3
rank (storing info) = 2
rank (limiting info) = 1
rank (finished answer) = 0

rank-with_info : (o : Option KeyInfo) → rank (with_info o) ≤ 1
rank-with_info none = omega arith
rank-with_info (some info) = omega arith

rank-after_lookup : (o : Option (Option KeyInfo)) → rank (after_lookup o) ≤ 6
rank-after_lookup none = omega arith
rank-after_lookup (some info) = omega (arith, rank-with_info info)

rank-after_exists : (a : Result String Bool) → rank (after_exists a) ≤ 5
rank-after_exists (err e) = omega arith
rank-after_exists (ok false) = omega arith
rank-after_exists (ok true) = omega arith

rank-after_owner : (a : Result String String) → rank (after_owner a) ≤ 4
rank-after_owner (err e) = omega arith
rank-after_owner (ok owner) = omega arith

rank-after_active : (owner : String) (a : Result String String) → rank (after_active owner a) ≤ 3
rank-after_active owner a = elim (Bool-cases (unwrap_or "true" a == "false")) [
  | inl off ↦ rw off (omega arith)
  | inr on ↦ rw on (omega arith)
]

rank-after_limit : (owner : String) (a : Result String ℕ) → rank (after_limit owner a) ≤ 2
rank-after_limit owner (err e) = omega arith
rank-after_limit owner (ok limit) = omega arith

finished_of_rank : (p : Phase) → rank p ≡ 0 → (answer : Answer) × (p ≡ finished answer)
finished_of_rank looking h = absurd (omega arith)
finished_of_rank asking_exists h = absurd (omega arith)
finished_of_rank asking_owner h = absurd (omega arith)
finished_of_rank (asking_active owner) h = absurd (omega arith)
finished_of_rank (asking_limit owner) h = absurd (omega arith)
finished_of_rank (storing info) h = absurd (omega arith)
finished_of_rank (limiting info) h = absurd (omega arith)
finished_of_rank (finished answer) h = (answer, refl)

-- `fetch`, by what it reads.
abbrev read_limit : String → Result String ℕ → Answer
read_limit owner (err e) = err e
read_limit owner (ok rate_limit) = ok (some (record { owner = owner; rate_limit = rate_limit }))

abbrev read_active : String → Result String String → Result String ℕ → Answer
read_active owner active limit =
    if unwrap_or "true" active == "false" then ok none else read_limit owner limit

abbrev read_owner : Result String String → Result String String → Result String ℕ → Answer
read_owner (err e) active limit = err e
read_owner (ok owner) active limit = read_active owner active limit

abbrev read_there :
    Result String Bool → Result String String → Result String String → Result String ℕ → Answer
read_there (err e) owner active limit = err e
read_there (ok false) owner active limit = ok none
read_there (ok true) owner active limit = read_owner owner active limit

fetch_lem :
    (r : Redis) (key : String) (db : r.Db)
    → let k = api_key_of key in
      fetch r key db
      ≡ read_there
          (r.exists k db)
          (r.hget k "owner" db)
          (r.hget k "active" db)
          (r.hget_u64 k "rate_limit" db)
unfolding fetch
fetch_lem r key db = ground arith

module _ (r : Redis) (c : Cache) (key : String) where
  rank-take_step : (p : Phase) (s : Session r c) → rank (take_step r c key p s).0 ≤ rank p - 1
  unfolding take_step
  rank-take_step looking s = omega (arith, rank-after_lookup (c.lookup key s.now s.cache))
  rank-take_step asking_exists s = omega (arith, rank-after_exists (r.exists (api_key_of key) s.db))
  rank-take_step asking_owner s =
      omega (arith, rank-after_owner (r.hget (api_key_of key) "owner" s.db))
  rank-take_step (asking_active owner) s =
      omega (arith, rank-after_active owner (r.hget (api_key_of key) "active" s.db))
  rank-take_step (asking_limit owner) s =
      omega (arith, rank-after_limit owner (r.hget_u64 (api_key_of key) "rate_limit" s.db))
  rank-take_step (storing info) s = omega (arith, rank-with_info info)
  rank-take_step (limiting info) s = omega arith
  rank-take_step (finished answer) s = omega arith

  rank-phase_after :
      (ss : List (Session r c)) (p : Phase) → rank (phase_after r c key ss p) ≤ rank p - length ss
  unfolding phase_after
  rank-phase_after [] p = omega arith
  rank-phase_after (s ∷ ss) p =
      omega (arith, rank-phase_after ss (take_step r c key p s).0, rank-take_step p s)

  -- A call ends with an answer after seven steps at most, whatever the cache, the database and the
  -- time are at each of them.
  pub phase_after-ends :
      (ss : List (Session r c))
      → 7 ≤ length ss
      → (answer : Answer) × (phase_after r c key ss looking ≡ finished answer)
  phase_after-ends ss enough =
      finished_of_rank (phase_after r c key ss looking) (omega (arith, rank-phase_after ss looking))

  -- An answer with the state that it leaves, as a call that is over.
  abbrev pub over : Answer × Session r c → Phase × Session r c
  over (answer, s) = (finished answer, s)

  finished-stays :
      (n : ℕ) (a : Answer) (s : Session r c) → take_steps r c key n (finished a) s ≡ (finished a, s)
  unfolding take_steps take_step
  finished-stays zero a s = refl
  finished-stays (suc n) a s = finished-stays n a s

  from_info :
      (n : ℕ) (o : Option KeyInfo) (s : Session r c)
      → take_steps r c key (suc n) (with_info o) s ≡ over (check_info r c key (ok o) s)
  unfolding take_steps take_step check_info
  from_info n none s = finished-stays n (ok none) s
  from_info n (some info) s = finished-stays n _ _

  from_storing :
      (n : ℕ) (o : Option KeyInfo) (s : Session r c)
      → take_steps r c key (suc (suc n)) (storing o) s
        ≡ over (check_info r c key (ok o) (remember r c key (ok o) s))
  unfolding take_steps take_step
  from_storing n o s = from_info n o (remember r c key (ok o) s)

  -- What a call does with an answer of Redis.
  abbrev told : Answer → Session r c → Phase × Session r c
  told answer s = over (check_info r c key answer (remember r c key answer s))

  -- Each answer of Redis, and the rest of the call after it.
  from_limit :
      (n : ℕ) (owner : String) (limit : Result String ℕ) (s : Session r c)
      → take_steps r c key (suc (suc n)) (after_limit owner limit) s
        ≡ told (read_limit owner limit) s
  unfolding check_info
  from_limit n owner (err e) s = finished-stays (suc (suc n)) (err e) s
  from_limit n owner (ok limit) s =
      from_storing n (some (record { owner = owner; rate_limit = limit })) s

  from_active :
      (n : ℕ) (owner : String) (active : Result String String) (s : Session r c)
      → take_steps r c key (suc (suc (suc n))) (after_active owner active) s
        ≡ told (read_active owner active (r.hget_u64 (api_key_of key) "rate_limit" s.db)) s
  unfolding take_steps take_step
  from_active n owner active s = elim (Bool-cases (unwrap_or "true" active == "false")) [
    | inl off ↦ rw off (from_storing (suc n) none s)
    | inr on ↦ rw on (from_limit n owner (r.hget_u64 (api_key_of key) "rate_limit" s.db) s)
  ]

  from_owner :
      (n : ℕ) (owner : Result String String) (s : Session r c)
      → take_steps r c key (suc (suc (suc (suc n)))) (after_owner owner) s
        ≡ told
            (read_owner owner
              (r.hget (api_key_of key) "active" s.db)
              (r.hget_u64 (api_key_of key) "rate_limit" s.db))
            s
  unfolding take_steps take_step check_info
  from_owner n (err e) s = finished-stays n (err e) s
  from_owner n (ok owner) s = from_active n owner (r.hget (api_key_of key) "active" s.db) s

  from_there :
      (n : ℕ) (there : Result String Bool) (s : Session r c)
      → take_steps r c key (suc (suc (suc (suc (suc n))))) (after_exists there) s
        ≡ told
            (read_there there
              (r.hget (api_key_of key) "owner" s.db)
              (r.hget (api_key_of key) "active" s.db)
              (r.hget_u64 (api_key_of key) "rate_limit" s.db))
            s
  unfolding take_steps take_step check_info
  from_there n (err e) s = finished-stays n (err e) s
  from_there n (ok false) s = from_storing (suc (suc (suc n))) none s
  from_there n (ok true) s = from_owner n (r.hget (api_key_of key) "owner" s.db) s

  -- A call whose seven steps follow one another with nothing between them is `validate_key`: the
  -- same answer, and the same cache and database.
  pub take_steps-validate_key :
      (s : Session r c)
      → take_steps r c key 7 looking s
        ≡ (finished (validate_key r c key s).0, (validate_key r c key s).1)
  unfolding take_steps take_step validate_key get_key_info
  take_steps-validate_key s = elim (Option-cases (c.lookup key s.now s.cache)) [
    | inr (info, hit) ↦ rw (hit, get_key_info) (from_info 5 info s)
    | inl miss ↦
        let k = api_key_of key in
        let answer = fetch_lem r key s.db in
        rw (miss, get_key_info) (rw answer (from_there zero (r.exists k s.db) s))
  ]
