-- ===== src/KeyStore/Concurrent/Revoked.antt =====
-- A call for a revoked key that begins when the cache has let go of it.
use sol_rpc_router.Base.{
  ℕ, ◌+◌, ◌≤◌, String, ◌≡◌, ◌≢◌, ◌∙◌, refl, sym, ap, inl, inr, true, false, Option, some, List, [],
  ◌∷◌, eqb, arith, All, ok, Bool-cases, Option-cases,
}
use sol_rpc_router.KeyStore.{KeyInfo, Redis, Cache}
use sol_rpc_router.KeyStore.Hashes.{IsLocalCounter}
use sol_rpc_router.KeyStore.Cached.{IsTtl}
use sol_rpc_router.KeyStore.Steps.{Phase, looking, finished, take_step}
use sol_rpc_router.KeyStore.Concurrent.{
  Task, Tasks, set, World, Event, begins, advances, changes, advance, happen, happen_all,
  session_at,
}
use sol_rpc_router.KeyStore.Concurrent.Settled.{
  IsSettled, LeavesInactive, step-accepting, happen-IsSettled, happen_all-IsSettled,
}
use sol_rpc_router.KeyStore.Concurrent.Phases.{is_accepting}

-- An event that is not the beginning of another call under the number `id`, and no step of that
-- call before `at`.
abbrev pub IsLate : {r : Redis} → ℕ → ℕ → Event r → Type 0
IsLate id at (begins j k) = j ≢ id
IsLate id at (advances j now) = (j ≡ id → at ≤ now)
IsLate id at (changes f) = Unit

-- The call `id` is for the key, and has not accepted it.
abbrev Refuses : ℕ → String → Tasks → Type 0
Refuses id key tasks =
    (p : Phase) × (tasks id ≡ some (record { key = key; phase = p })) × (is_accepting p ≡ false)

set_self : (id : ℕ) (t : Task) (tasks : Tasks) → set id t tasks id ≡ some t
set_self id t tasks = let here : eqb id id ≡ true = ground arith in rw here refl

set_other : (j id : ℕ) (t : Task) (tasks : Tasks) → j ≢ id → set j t tasks id ≡ tasks id
set_other j id t tasks ne = let other : eqb j id ≡ false = ground arith in rw other refl

module _ (r : Redis) (c : Cache) (key : String) (ttl : IsTtl c) (counter : IsLocalCounter r)
    (from : ℕ) where
  happen-Refuses :
      (id : ℕ) (e : Event r) (w : World r c)
      → IsSettled r c key from w
      → IsLate id (from + 60) e
      → Refuses id key w.tasks
      → Refuses id key (happen r c e w).tasks
  unfolding happen advance
  happen-Refuses id (begins j k) w i ne (p, there, fine) =
      (p, set_other j id (record { key = k; phase = looking }) w.tasks ne ∙ there, fine)
  happen-Refuses id (changes f) w i _ q = q
  happen-Refuses id (advances j now) w i late (p, there, fine) = elim (Bool-cases (eqb j id)) [
    | inl own ↦
        let same : j ≡ id = ground arith in
        let s = session_at r c now w in
        rw (same, there)
          (
            (take_step r c key p s).0,
            set_self id (record { key = key; phase = (take_step r c key p s).0 }) w.tasks,
            step-accepting r c key ttl counter from p s i.inactive i.expires (late same) fine,
          )
    | inr another ↦ elim (Option-cases (w.tasks j)) [
      | inl nobody ↦ rw nobody (p, there, fine)
      | inr (t, found) ↦ rw found (p, set_other j id _ w.tasks (ground arith) ∙ there, fine)
    ]
  ]

  happen_all-Refuses :
      (id : ℕ) (es : List (Event r)) (w : World r c)
      → IsSettled r c key from w
      → All (LeavesInactive r c key) es
      → All (IsLate id (from + 60)) es
      → Refuses id key w.tasks
      → Refuses id key (happen_all r c es w).tasks
  unfolding happen_all
  happen_all-Refuses id [] w i _ _ q = q
  happen_all-Refuses id (e ∷ es) w i (leaves, others) (late, lates) q =
      happen_all-Refuses id es (happen r c e w)
        (happen-IsSettled r c key ttl counter from e w leaves i) others lates
        (happen-Refuses id e w i late q)

  refused :
      (id : ℕ) (tasks : Tasks) (info : KeyInfo)
      → Refuses id key tasks
      → tasks id ≢ some (record { key = key; phase = finished (ok (some info)) })
  refused id tasks info (p, there, fine) e =
      let same : Option.some (record { key = key; phase = p })
          ≡ some (record { key = key; phase = finished (ok (some info)) }) =
        sym there ∙ e in
      let is_p : p ≡ finished (ok (some info)) = cc in cc (ap is_accepting is_p, fine)

  -- Let Redis say at `from` or later that a key is inactive, and let no other program change that.
  -- Let the cache hold no accepting entry of the key that is readable 60 seconds after `from`, and
  -- let no call for the key be past its test of `active` with an answer still to store. Then, with
  -- any number of calls under way at once, for any keys and in any order of their steps, a call for
  -- the key that takes its steps 60 seconds or more after `from` never accepts the key.
  pub late_call-refused :
      (id : ℕ) (before later : List (Event r)) (w : World r c) (info : KeyInfo)
      → IsSettled r c key from w
      → All (LeavesInactive r c key) before
      → All (LeavesInactive r c key) later
      → All (IsLate id (from + 60)) later
      → (happen_all r c later (happen r c (begins id key) (happen_all r c before w))).tasks id
        ≢ some (record { key = key; phase = finished (ok (some info)) })
  unfolding happen
  late_call-refused id before later w info settled kept kept_on late =
      let u = happen_all r c before w in
      let i = happen_all-IsSettled r c key ttl counter from before w kept settled in
      let start = happen-IsSettled r c key ttl counter from (begins id key) u tt i in
      refused id (happen_all r c later (happen r c (begins id key) u)).tasks info (
        happen_all-Refuses id later (happen r c (begins id key) u) start kept_on late
          (looking, set_self id (record { key = key; phase = looking }) u.tasks, refl))
