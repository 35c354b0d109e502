-- ===== src/Tests/HealthTests.antt =====
-- Runs of the health checks.
use mathlib.Core.List.{Memᴰ}
use sol_rpc_router.Base.{
  ℕ, ◌+◌, ◌<◌, ◌≢◌, String, ◌≡◌, refl, ◌↔◌, true, false, none, some, List, [], ◌∷◌, arith, eq_iff,
  ok, err, get, insert,
}
use sol_rpc_router.Status.{
  BackendHealthStatus, default_status, request_failed, get_status, update_status,
}
use sol_rpc_router.State.{Heap}
use sol_rpc_router.Health.{
  Observation, Outcome, perform_health_check, max_slot, is_lagging, lag_error, observe,
  apply_results, check_all, health_round, count_failure, count_success, current_status,
}
use sol_rpc_router.Health.Streak.{observe_all}
use sol_rpc_router.Health.Lag.{Reports, is_lagging-max_slot_iff}
use sol_rpc_router.Health.Round.{next_status}
use sol_rpc_router.Health.Next.{IsNext, health_round-IsNext}
use sol_rpc_router.Health.Check.{IsHealthyAnswer, perform_health_check_iff}
use sol_rpc_router.Samples.{alpha, checks, first, second, state, all_up, client, noon}

checker : Unit {0}
unfolding health_round perform_health_check max_slot is_lagging lag_error observe apply_results
    check_all count_failure count_success get_status update_status get insert observe_all
checker = tt

abbrev after : Heap
after = health_round client noon state all_up

-- The second backend lags by 93 slots, and one failure leaves it healthy.
round_runs :
    (after.flags 0 ≡ true)
    × (after.flags 1 ≡ true)
    × ((next_status client noon state all_up second).consecutive_failures ≡ 1)
    × ((next_status client noon state all_up first).consecutive_successes ≡ 1)
unfolding checker
round_runs = (refl, refl, refl, refl)

abbrev failed : Observation
failed = record { top = none; outcome = err (request_failed "refused"); now = 1 }

abbrev passed : Observation
passed = record { top = some 9; outcome = ok (some 9); now = 1 }

abbrev down : BackendHealthStatus
down = record default_status { healthy = false; consecutive_failures = 3 }

-- Three failures take a backend down, and two successes bring it up again.
streak_runs :
    ((observe_all checks (failed ∷ failed ∷ failed ∷ []) default_status).healthy ≡ false)
    × ((observe_all checks (failed ∷ failed ∷ []) default_status).healthy ≡ true)
    × ((observe_all checks (passed ∷ passed ∷ []) down).healthy ≡ true)
    × ((observe_all checks (passed ∷ failed ∷ passed ∷ []) down).healthy ≡ false)
unfolding checker
streak_runs = (refl, refl, refl, refl)

abbrev reports : List (String × Outcome)
reports = ("alpha", ok (some 100)) ∷ ("beta", ok (some 7)) ∷ []

is_lagging-max_slot_example :
    (is_lagging checks (some 7) (max_slot reports) ≡ true)
    ↔ ((tip : ℕ) × Reports reports tip × (7 + 50 < tip))
is_lagging-max_slot_example = is_lagging-max_slot_iff checks reports 7

alpha-ne-beta : ◌≢◌ {A = String} "alpha" "beta"
alpha-ne-beta e = cc ((eq_iff "alpha" "beta").1 e)

health_round-IsNext_example :
    (s : BackendHealthStatus) × IsNext client state
      (noon "beta")
      (current_status (all_up.healths 0) "beta")
      (perform_health_check client second.config checks)
      s
    × (get_status (after.healths 0) "beta" ≡ some s)
    × (after.flags 1 ≡ s.healthy)
health_round-IsNext_example =
    health_round-IsNext client noon state all_up second
      (((alpha-ne-beta, omega arith), tt), (tt, tt)) (Memᴰ.tail (Memᴰ.head refl))

perform_health_check_iff_example :
    (perform_health_check client alpha checks ≡ ok (some 100))
    ↔ IsHealthyAnswer client alpha checks (some 100)
perform_health_check_iff_example = perform_health_check_iff client alpha checks (some 100)
