-- ===== src/Health/Next.antt =====
-- What a round of checks gives to each backend, field by field, and measured against every check
-- of the round: a description that does not use the code that counts and compares.
use mathlib.Core.List.Memᴰ
use mathlib.Core.List.{Memᴰ}
use native.Mathlib.Decide.{dec_le}
use sol_rpc_router.Base.{
  ℕ, ◌+◌, ◌-◌, ◌%◌, ◌^◌, ◌<◌, ◌≤◌, String, ◌≡◌, refl, ap, subst, true, false, Option, some, none,
  leb, arith, ok, err, inl, inr, Option-cases, Bool-cases, if◌then◌else◌,
}
use sol_rpc_router.Config.{HealthCheckConfig}
use sol_rpc_router.Status.{BackendHealthStatus, CheckError, lagging, get_status}
use sol_rpc_router.State.{Heap, RuntimeBackend, RouterState}
use sol_rpc_router.Health.{
  HttpClient, Outcome, perform_health_check, max_slot, is_lagging, observe, judge, count_failure,
  count_success, lag_error, current_status, check_all, health_round,
}
use sol_rpc_router.Health.Round.{label, AreApart, next_status, health_round-Stored}
use sol_rpc_router.Health.Lag.{
  Reports, Reports-max_slot, max_slot-bound, is_lagging_iff, not_lagging, is_lagging-max_slot_iff,
}

-- The check of some backend of the table found this slot.
abbrev pub Reported : HttpClient → RouterState → ℕ → Type 0
Reported client st slot =
    (d : RuntimeBackend) × Memᴰ d st.backends
    × (perform_health_check client d.config st.health_check_config ≡ ok (some slot))

-- The highest slot that a check of the table found.
abbrev pub IsTop : HttpClient → RouterState → ℕ → Type 0
IsTop client st top = Reported client st top × ((slot : ℕ) → Reported client st slot → slot ≤ top)

-- No check of the table found a slot more than `max_slot_lag` above this one.
abbrev pub IsNear : HttpClient → RouterState → Option ℕ → Type 0
IsNear client st none = Unit
IsNear client st (some slot) =
    (tip : ℕ) → Reported client st tip → tip ≤ slot + st.health_check_config.max_slot_lag

-- One more failure, for this reason, at this time.
abbrev pub failing : HealthCheckConfig → ℕ → BackendHealthStatus → CheckError → BackendHealthStatus
failing cfg time s e = record {
  healthy =
      if leb cfg.consecutive_failures_threshold ((s.consecutive_failures + 1) % 2 ^ 32)
      then false
      else s.healthy;
  last_check_time = some time;
  consecutive_failures = (s.consecutive_failures + 1) % 2 ^ 32;
  consecutive_successes = 0;
  last_error = some e;
}

-- One more success, at this time.
abbrev pub succeeding : HealthCheckConfig → ℕ → BackendHealthStatus → BackendHealthStatus
succeeding cfg time s = record {
  healthy =
      if leb cfg.consecutive_successes_threshold ((s.consecutive_successes + 1) % 2 ^ 32)
      then true
      else s.healthy;
  last_check_time = some time;
  consecutive_failures = 0;
  consecutive_successes = (s.consecutive_successes + 1) % 2 ^ 32;
  last_error = none;
}

-- What a backend with the status `s` gets for the result of its check.
pub data IsNext (client : HttpClient) (st : RouterState) (time : ℕ) (s : BackendHealthStatus)
    : Outcome → BackendHealthStatus → Type 0 where
  near :
      {slot : Option ℕ}
      → IsNear client st slot
      → IsNext client st time s (ok slot) (succeeding st.health_check_config time s)
  behind :
      {slot top : ℕ}
      → IsTop client st top
      → slot + st.health_check_config.max_slot_lag < top
      → IsNext client st time s
          (ok (some slot))
          (failing st.health_check_config time s (lagging slot (top - slot) top))
  failed :
      {e : CheckError} → IsNext client st time s (err e) (failing st.health_check_config time s e)

module _ (client : HttpClient) (st : RouterState) where
  Reports-check_all : (slot : ℕ) → Reported client st slot → Reports (check_all client st) slot
  unfolding check_all
  Reports-check_all slot (d, m, found) = (
    label d,
    subst (λ o. Memᴰ (label d, o) (check_all client st)) found
        (Memᴰ.map
          (λ (b : RuntimeBackend).
            (b.config.label, perform_health_check client b.config st.health_check_config))
          m),
  )

  Reported-check_all : (slot : ℕ) → Reports (check_all client st) slot → Reported client st slot
  unfolding check_all
  Reported-check_all slot (l, m) =
      let (d, i, e) =
        Memᴰ.of_map
          (λ (b : RuntimeBackend).
            (b.config.label, perform_health_check client b.config st.health_check_config))
          st.backends m in
      (d, i, ap (λ p. p.1) e)

  max_slot-IsTop : (top : ℕ) → max_slot (check_all client st) ≡ some top → IsTop client st top
  max_slot-IsTop top e = (
    Reported-check_all top (Reports-max_slot (check_all client st) top e),
    λ slot r.
        let (l, m) = Reports-check_all slot r in
        let (n, found, below) = max_slot-bound (check_all client st) l slot m in
        let same : n ≡ top = cc in omega arith,
  )

  is_lagging-IsNear :
      (slot : Option ℕ)
      → is_lagging st.health_check_config slot (max_slot (check_all client st)) ≡ false
      → IsNear client st slot
  is_lagging-IsNear none _ = tt
  is_lagging-IsNear (some slot) h = λ tip r.
      elim (dec_le tip (slot + st.health_check_config.max_slot_lag)) [
        | yes le ↦ le
        | no gt ↦
            let above =
              (is_lagging-max_slot_iff st.health_check_config (check_all client st) slot).1
                (tip, Reports-check_all tip r, omega arith) in
            absurd (cc)
      ]

  lagging_cases :
      (slot : Option ℕ)
      → is_lagging st.health_check_config slot (max_slot (check_all client st)) ≡ true
      → (n : ℕ) × (top : ℕ) × (slot ≡ some n)
        × (max_slot (check_all client st) ≡ some top)
        × (n + st.health_check_config.max_slot_lag < top)
  unfolding is_lagging
  lagging_cases none h = cc
  lagging_cases (some n) h = elim (Option-cases (max_slot (check_all client st))) [
    | inl empty ↦ absurd (not_lagging st.health_check_config n (rw empty at h))
    | inr (top, found) ↦
        (n, top, refl, found, (is_lagging_iff st.health_check_config n top).0 (rw found at h))
  ]

  observe-IsNext :
      (time : ℕ) (r : Outcome) (s : BackendHealthStatus)
      → IsNext client st time s r (
          observe st.health_check_config
            (record { top = max_slot (check_all client st); outcome = r; now = time })
            s)
  unfolding observe judge count_failure count_success lag_error
  observe-IsNext time (err e) s = failed
  observe-IsNext time (ok slot) s =
      elim (Bool-cases (is_lagging st.health_check_config slot (max_slot (check_all client st)))) [
        | inl lags ↦
            let (n, top, same, found, above) = lagging_cases slot lags in
            rw (lags, same, found) (behind (max_slot-IsTop top found) above)
        | inr fine ↦ rw fine (near (is_lagging-IsNear slot fine))
      ]

-- After a round over backends with different labels and flags, every backend has in the shared map
-- the status that `IsNext` describes for the result of its check and its earlier status, and its
-- flag is the `healthy` field of that status. A check that failed, or whose slot is more than
-- `max_slot_lag` below the highest that a check of the round found, adds one to the failures, sets
-- the successes to 0, records the error and, at the threshold, takes the backend down; any other
-- adds one to the successes, sets the failures to 0, clears the error and, at the threshold, brings
-- it up. The time is recorded, and the counters wrap at 2 ^ 32.
pub health_round-IsNext :
    (client : HttpClient) (now : String → ℕ) (st : RouterState) (h : Heap) (b : RuntimeBackend)
    → AreApart st.backends
    → Memᴰ b st.backends
    → (s : BackendHealthStatus) × IsNext client st
        (now (label b))
        (current_status (h.healths st.health_state) (label b))
        (perform_health_check client b.config st.health_check_config)
        s
      × (get_status ((health_round client now st h).healths st.health_state) (label b) ≡ some s)
      × ((health_round client now st h).flags b.healthy ≡ s.healthy)
health_round-IsNext client now st h b apart m =
    let (status, flag) = health_round-Stored client now st h b apart m in
    (
      next_status client now st h b,
      observe-IsNext client st (now (label b))
          (perform_health_check client b.config st.health_check_config)
          (current_status (h.healths st.health_state) (label b)),
      status,
      flag,
    )
