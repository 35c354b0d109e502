-- ===== src/Health/Streak.antt =====
-- The thresholds: when a run of failures or of successes changes a backend's state.
use sol_rpc_router.Base.{
  ℕ, suc, ◌+◌, ◌^◌, ◌<◌, ◌≤◌, ◌≡◌, ◌⊎◌, Bool, true, false, Option, List, [], ◌∷◌, arith, ltb, leb,
  not, ◌&&◌, ◌||◌, length, is_empty, All, ok, err,
}
use sol_rpc_router.Config.{HealthCheckConfig}
use sol_rpc_router.Status.{BackendHealthStatus}
use sol_rpc_router.Health.{
  Observation, Outcome, observe, judge, is_lagging, count_failure, count_success,
}

-- A check that fails, or whose slot lags.
abbrev pub is_failure : HealthCheckConfig → Option ℕ → Outcome → Bool
is_failure cfg top (ok slot) = is_lagging cfg slot top
is_failure cfg top (err e) = true

abbrev pub IsFailure : HealthCheckConfig → Observation → Type 0
IsFailure cfg o = is_failure cfg o.top o.outcome ≡ true

abbrev pub IsSuccess : HealthCheckConfig → Observation → Type 0
IsSuccess cfg o = is_failure cfg o.top o.outcome ≡ false

-- The statuses of one backend over several rounds.
unfoldable pub observe_all :
    HealthCheckConfig → List Observation → BackendHealthStatus → BackendHealthStatus
observe_all cfg [] s = s
observe_all cfg (o ∷ os) s = observe_all cfg os (observe cfg o s)

judge_failure :
    (cfg : HealthCheckConfig) (top : Option ℕ) (r : Outcome) (s : BackendHealthStatus)
    → is_failure cfg top r ≡ true
    → s.consecutive_failures + 1 < 2 ^ 32
    → ((judge cfg top r s).consecutive_failures ≡ s.consecutive_failures + 1)
      × ((judge cfg top r s).healthy
          ≡ (s.healthy && ltb (s.consecutive_failures + 1) cfg.consecutive_failures_threshold))
unfolding judge count_failure
judge_failure cfg top (ok slot) s f small = ground arith
judge_failure cfg top (err e) s f small = ground arith

judge_success :
    (cfg : HealthCheckConfig) (top : Option ℕ) (r : Outcome) (s : BackendHealthStatus)
    → is_failure cfg top r ≡ false
    → s.consecutive_successes + 1 < 2 ^ 32
    → ((judge cfg top r s).consecutive_successes ≡ s.consecutive_successes + 1)
      × ((judge cfg top r s).healthy
          ≡ (s.healthy || leb cfg.consecutive_successes_threshold (s.consecutive_successes + 1)))
unfolding judge count_success
judge_success cfg top (ok slot) s f small = ground arith
judge_success cfg top (err e) s f small = cc

-- Two stretches of a run against one threshold.
module _ {A : Type 0} (n m t : ℕ) (was mid end : Bool) (counted : m ≡ n + 1) where
  below_chain :
      (os : List A)
      → mid ≡ (was && ltb (n + 1) t)
      → end ≡ (mid && (is_empty os || ltb (m + length os) t))
      → end ≡ (was && ltb (n + suc (length os)) t)
  below_chain [] p q = ground arith
  below_chain (o ∷ os) p q = ground arith

  above_chain :
      (os : List A)
      → mid ≡ (was || leb t (n + 1))
      → end ≡ (mid || (not (is_empty os) && leb t (m + length os)))
      → end ≡ (was || leb t (n + suc (length os)))
  above_chain [] p q = ground arith
  above_chain (o ∷ os) p q = ground arith

-- After a run of failed or lagging checks that does not overflow the counter, the counter has
-- grown by the length of the run, and a backend is healthy exactly if it was healthy and, once
-- there was a check, the counter is below the failure threshold.
pub observe_all-failures :
    (cfg : HealthCheckConfig) (os : List Observation) (s : BackendHealthStatus)
    → All (IsFailure cfg) os
    → s.consecutive_failures + length os < 2 ^ 32
    → ((observe_all cfg os s).consecutive_failures ≡ s.consecutive_failures + length os)
      × ((observe_all cfg os s).healthy ≡ (
          s.healthy
          && (is_empty os
              || ltb (s.consecutive_failures + length os) cfg.consecutive_failures_threshold)))
unfolding observe_all observe
observe_all-failures cfg [] s _ small = (omega arith, ground arith)
observe_all-failures cfg (o ∷ os) s (f, fs) small =
    let (counted, judged) = judge_failure cfg o.top o.outcome s f (omega arith) in
    let (total, healthy) = observe_all-failures cfg os (observe cfg o s) fs (omega arith) in
    (omega arith, below_chain _ _ _ _ _ _ counted os judged healthy)

-- After a run of successful checks that does not overflow the counter, the counter has grown by
-- the length of the run, and a backend is healthy exactly if it was, or if there was a check and
-- the counter has reached the success threshold.
pub observe_all-successes :
    (cfg : HealthCheckConfig) (os : List Observation) (s : BackendHealthStatus)
    → All (IsSuccess cfg) os
    → s.consecutive_successes + length os < 2 ^ 32
    → ((observe_all cfg os s).consecutive_successes ≡ s.consecutive_successes + length os)
      × ((observe_all cfg os s).healthy ≡ (
          s.healthy
          || (not (is_empty os)
              && leb cfg.consecutive_successes_threshold (s.consecutive_successes + length os))))
unfolding observe_all observe
observe_all-successes cfg [] s _ small = (omega arith, ground arith)
observe_all-successes cfg (o ∷ os) s (f, fs) small =
    let (counted, judged) = judge_success cfg o.top o.outcome s f (omega arith) in
    let (total, healthy) = observe_all-successes cfg os (observe cfg o s) fs (omega arith) in
    (omega arith, above_chain _ _ _ _ _ _ counted os judged healthy)

-- What every status satisfies between two checks: one of the counters is zero, and a counter that
-- has reached its threshold agrees with the state.
pub record IsConsistent (cfg : HealthCheckConfig) (s : BackendHealthStatus) : Type 0 where
  pub one_counter : (s.consecutive_failures ≡ 0) ⊎ (s.consecutive_successes ≡ 0)
  pub failed_down : cfg.consecutive_failures_threshold ≤ s.consecutive_failures → s.healthy ≡ false
  pub passed_up : cfg.consecutive_successes_threshold ≤ s.consecutive_successes → s.healthy ≡ true

judge-IsConsistent :
    (cfg : HealthCheckConfig) (top : Option ℕ) (r : Outcome) (s : BackendHealthStatus)
    → 0 < cfg.consecutive_failures_threshold
    → 0 < cfg.consecutive_successes_threshold
    → IsConsistent cfg s
    → IsConsistent cfg (judge cfg top r s)
unfolding judge count_failure count_success
judge-IsConsistent cfg top (ok slot) s f p c = ground arith
judge-IsConsistent cfg top (err e) s f p c = ground arith

-- With positive thresholds every check, of any outcome, keeps a status consistent, also where a
-- counter wraps.
pub observe-IsConsistent :
    (cfg : HealthCheckConfig) (o : Observation) (s : BackendHealthStatus)
    → 0 < cfg.consecutive_failures_threshold
    → 0 < cfg.consecutive_successes_threshold
    → IsConsistent cfg s
    → IsConsistent cfg (observe cfg o s)
unfolding observe
observe-IsConsistent cfg o s f p c =
    let judged = judge-IsConsistent cfg o.top o.outcome s f p c in
    record {
      one_counter = judged.one_counter;
      failed_down = judged.failed_down;
      passed_up = judged.passed_up;
    }
