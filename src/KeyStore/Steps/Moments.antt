-- ===== src/KeyStore/Steps/Moments.antt =====
-- What an accepting answer says of the cache and of Redis, where they change during the call.
use mathlib.Core.List.{Memᴰ}
use sol_rpc_router.Base.{
  ℕ, String, ◌≡◌, ◌≢◌, ◌∙◌, refl, sym, ap, ◌⊎◌, inl, inr, Bool, true, false, Option, none, some,
  List, [], ◌∷◌, ◌==◌, eq_iff, Result, ok, err, Bool-cases, Option-cases,
}
use sol_rpc_router.KeyStore.{
  KeyInfo, Answer, Redis, Cache, Session, api_key_of, unwrap_or, rate_limited, check_rate_limit,
}
use sol_rpc_router.KeyStore.Steps.{
  Phase, looking, asking_exists, asking_owner, asking_active, asking_limit, storing, limiting,
  finished, with_info, after_exists, after_owner, after_active, after_limit, take_step, phase_after,
}

-- Something holds at one of the steps.
abbrev pub Ever : {A : Type 0} → (A → Type 0) → List A → Type 0
Ever {A} P ss = (s : A) × Memᴰ s ss × P s

now : {A : Type 0} {P : A → Type 0} (s : A) (ss : List A) → P s → Ever P (s ∷ ss)
now s ss p = (s, Memᴰ.head refl, p)

later : {A : Type 0} {P : A → Type 0} (s : A) (ss : List A) → Ever P ss → Ever P (s ∷ ss)
later s ss (t, there, p) = (t, Memᴰ.tail there, p)

module _ (r : Redis) (c : Cache) (key : String) (info : KeyInfo) where
  abbrev pub Accepted : Phase
  Accepted = finished (ok (some info))

  -- The rate limit of the key lets the call through.
  abbrev pub LetThrough : Session r c → Type 0
  LetThrough s = (check_rate_limit r key info.rate_limit s.db).0 ≡ ok true

  abbrev pub IsCached : Session r c → Type 0
  IsCached s = c.lookup key s.now s.cache ≡ some (some info)

  -- The four answers of Redis, each at a step of its own.
  pub record IsRead (ss : List (Session r c)) : Type 0 where
    pub there : Ever (λ s. r.exists (api_key_of key) s.db ≡ ok true) ss
    pub owner : Ever (λ s. r.hget (api_key_of key) "owner" s.db ≡ ok info.owner) ss
    pub active : Ever (λ s. r.hget (api_key_of key) "active" s.db ≢ ok "false") ss
    pub limit : Ever (λ s. r.hget_u64 (api_key_of key) "rate_limit" s.db ≡ ok info.rate_limit) ss

  finished-stays :
      (ss : List (Session r c)) (a : Answer) → phase_after r c key ss (finished a) ≡ finished a
  unfolding phase_after take_step
  finished-stays [] a = refl
  finished-stays (s ∷ ss) a = finished-stays ss a

  allowed_info :
      (a : Result String Bool) (i : KeyInfo)
      → finished (rate_limited a i) ≡ Accepted
      → (i ≡ info) × (a ≡ ok true)
  allowed_info (ok true) i h = (cc, refl)
  allowed_info (ok false) i h = cc
  allowed_info (err e) i h = cc

  from_limiting :
      (ss : List (Session r c)) (i : KeyInfo)
      → phase_after r c key ss (limiting i) ≡ Accepted
      → (i ≡ info) × Ever LetThrough ss
  unfolding phase_after take_step
  from_limiting [] i h = cc
  from_limiting (s ∷ ss) i h =
      let a = (check_rate_limit r key i.rate_limit s.db).0 in
      let (same, allowed) = allowed_info a i (sym (finished-stays ss (rate_limited a i)) ∙ h) in
      (same, now s ss (rw (← same) allowed))

  from_info :
      (ss : List (Session r c)) (o : Option KeyInfo)
      → phase_after r c key ss (with_info o) ≡ Accepted
      → (o ≡ some info) × Ever LetThrough ss
  from_info ss none h = absurd (cc (finished-stays ss (ok none), h))
  from_info ss (some i) h = let (same, let_in) = from_limiting ss i h in (ap some same, let_in)

  from_storing :
      (ss : List (Session r c)) (o : Option KeyInfo)
      → phase_after r c key ss (storing o) ≡ Accepted
      → (o ≡ some info) × Ever LetThrough ss
  unfolding phase_after take_step
  from_storing [] o h = cc
  from_storing (s ∷ ss) o h = let (same, let_in) = from_info ss o h in (same, later s ss let_in)

  some-injective : (i j : KeyInfo) → some i ≡ some j → i ≡ j
  some-injective i j h = cc

  -- Each answer of Redis, and what the rest of an accepting call says.
  after-limit :
      (ss : List (Session r c)) (owner : String) (a : Result String ℕ)
      → phase_after r c key ss (after_limit owner a) ≡ Accepted
      → (owner ≡ info.owner) × (a ≡ ok info.rate_limit) × Ever LetThrough ss
  after-limit ss owner (err e) h = absurd (cc (finished-stays ss (err e), h))
  after-limit ss owner (ok limit) h =
      let (same, let_in) =
        from_storing ss (some (record { owner = owner; rate_limit = limit })) h in
      let is_info = some-injective _ info same in
      (ap (λ (i : KeyInfo). i.owner) is_info, ap (λ (i : KeyInfo). ok i.rate_limit) is_info, let_in)

  -- From the test of `active` on.
  record Rest (owner : String) (ss : List (Session r c)) : Type 0 where
    same_owner : owner ≡ info.owner
    limit : Ever (λ s. r.hget_u64 (api_key_of key) "rate_limit" s.db ≡ ok info.rate_limit) ss
    let_in : Ever LetThrough ss

  from_limit :
      (ss : List (Session r c)) (owner : String)
      → phase_after r c key ss (asking_limit owner) ≡ Accepted
      → Rest owner ss
  unfolding phase_after take_step
  from_limit [] owner h = cc
  from_limit (s ∷ ss) owner h =
      let (same, read, let_in) =
        after-limit ss owner (r.hget_u64 (api_key_of key) "rate_limit" s.db) h in
      record { same_owner = same; limit = now s ss read; let_in = later s ss let_in }

  after-active :
      (ss : List (Session r c)) (owner : String) (a : Result String String)
      → phase_after r c key ss (after_active owner a) ≡ Accepted
      → (a ≢ ok "false") × Rest owner ss
  after-active ss owner a h = elim (Bool-cases (unwrap_or "true" a == "false")) [
    | inl off ↦
        let gone : phase_after r c key ss (storing none) ≡ Accepted = rw off at h in
        cc ((from_storing ss none gone).0)
    | inr on ↦
        let rest : phase_after r c key ss (asking_limit owner) ≡ Accepted = rw on at h in
        (λ e. cc (rw e at on, (eq_iff "false" "false").1 refl), from_limit ss owner rest)
  ]

  from_active :
      (ss : List (Session r c)) (owner : String)
      → phase_after r c key ss (asking_active owner) ≡ Accepted
      → Ever (λ s. r.hget (api_key_of key) "active" s.db ≢ ok "false") ss × Rest owner ss
  unfolding phase_after take_step
  from_active [] owner h = cc
  from_active (s ∷ ss) owner h =
      let (on, rest) = after-active ss owner (r.hget (api_key_of key) "active" s.db) h in
      (
        now s ss on,
        record {
          same_owner = rest.same_owner;
          limit = later s ss rest.limit;
          let_in = later s ss rest.let_in;
        },
      )

  after-owner :
      (ss : List (Session r c)) (a : Result String String)
      → phase_after r c key ss (after_owner a) ≡ Accepted
      → (owner : String) × (a ≡ ok owner)
        × Ever (λ s. r.hget (api_key_of key) "active" s.db ≢ ok "false") ss
        × Rest owner ss
  after-owner ss (err e) h = absurd (cc (finished-stays ss (err e), h))
  after-owner ss (ok owner) h = let (on, rest) = from_active ss owner h in (owner, refl, on, rest)

  from_owner :
      (ss : List (Session r c))
      → phase_after r c key ss asking_owner ≡ Accepted
      → Ever (λ s. r.hget (api_key_of key) "owner" s.db ≡ ok info.owner) ss
        × Ever (λ s. r.hget (api_key_of key) "active" s.db ≢ ok "false") ss
        × Ever (λ s. r.hget_u64 (api_key_of key) "rate_limit" s.db ≡ ok info.rate_limit) ss
        × Ever LetThrough ss
  unfolding phase_after take_step
  from_owner [] h = cc
  from_owner (s ∷ ss) h =
      let (owner, read, on, rest) = after-owner ss (r.hget (api_key_of key) "owner" s.db) h in
      (
        now s ss (read ∙ ap ok rest.same_owner),
        later s ss on,
        later s ss rest.limit,
        later s ss rest.let_in,
      )

  after-exists :
      (ss : List (Session r c)) (a : Result String Bool)
      → phase_after r c key ss (after_exists a) ≡ Accepted
      → (a ≡ ok true) × (phase_after r c key ss asking_owner ≡ Accepted)
  after-exists ss (err e) h = absurd (cc (finished-stays ss (err e), h))
  after-exists ss (ok false) h = cc ((from_storing ss none h).0)
  after-exists ss (ok true) h = (refl, h)

  from_exists :
      (ss : List (Session r c))
      → phase_after r c key ss asking_exists ≡ Accepted
      → IsRead ss × Ever LetThrough ss
  unfolding phase_after take_step
  from_exists [] h = cc
  from_exists (s ∷ ss) h =
      let (there, rest) = after-exists ss (r.exists (api_key_of key) s.db) h in
      let (owner, on, limit, let_in) = from_owner ss rest in
      (
        record {
          there = now s ss there;
          owner = later s ss owner;
          active = later s ss on;
          limit = later s ss limit;
        },
        later s ss let_in,
      )

  -- A call that accepts a key was let through by the key's rate limit at one of its steps; and
  -- either the cache had the key's information, or Redis had at some steps of the call, not always
  -- the same one, the key, its owner, an `active` that is not "false", and its limit. This holds
  -- whatever the cache, the database and the time are at each step.
  pub accepted-IsRead :
      (ss : List (Session r c))
      → phase_after r c key ss looking ≡ Accepted
      → Ever LetThrough ss × (Ever IsCached ss ⊎ IsRead ss)
  unfolding phase_after take_step
  accepted-IsRead [] h = cc
  accepted-IsRead (s ∷ ss) h = elim (Option-cases (c.lookup key s.now s.cache)) [
    | inr (o, hit) ↦
        let rest : phase_after r c key ss (with_info o) ≡ Accepted = rw hit at h in
        let (same, let_in) = from_info ss o rest in
        (later s ss let_in, inl (now s ss (hit ∙ ap some same)))
    | inl miss ↦
        let rest : phase_after r c key ss asking_exists ≡ Accepted = rw miss at h in
        let (read, let_in) = from_exists ss rest in
        (
          later s ss let_in,
          inr (record {
            there = later s ss read.there;
            owner = later s ss read.owner;
            active = later s ss read.active;
            limit = later s ss read.limit;
          }),
        )
  ]
