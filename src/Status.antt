-- ===== src/Status.antt =====
-- src/health.rs, the recorded statuses: `BackendHealthStatus` and `HealthState`. A time is a
-- number; an error message is data with what it prints.
use sol_rpc_router.Base.{
  ℕ, String, ◌≡◌, Bool, true, Option, some, none, List, [], ◌∷◌, ◌==◌, HashMap, get, insert,
  get-insert, if◌then◌else◌,
}

pub data CheckError : Type 0 where
  build_failed : String → CheckError
  bad_status : ℕ → CheckError
  body_failed : String → CheckError
  json_failed : String → CheckError
  missing_result : String → CheckError
  request_failed : String → CheckError
  timed_out : ℕ → CheckError
  lagging : (slot behind max : ℕ) → CheckError

pub record BackendHealthStatus : Type 0 where
  pub healthy : Bool
  pub last_check_time : Option ℕ
  pub consecutive_failures : ℕ
  pub consecutive_successes : ℕ
  pub last_error : Option CheckError

abbrev pub default_status : BackendHealthStatus
default_status = record {
  healthy = true;
  last_check_time = none;
  consecutive_failures = 0;
  consecutive_successes = 0;
  last_error = none;
}

abbrev pub HealthState : Type 0
HealthState = HashMap BackendHealthStatus

new_from : HealthState → List String → HealthState
new_from m [] = m
new_from m (label ∷ labels) = new_from (insert label default_status m) labels

unfoldable pub new : List String → HealthState
unfolding new_from
new labels = new_from [] labels

unfoldable pub get_status : HealthState → String → Option BackendHealthStatus
get_status m label = get label m

-- Both branches of the code leave the label with the new status.
unfoldable pub update_status : HealthState → String → BackendHealthStatus → HealthState
update_status m label status = insert label status m

unfoldable pub get_all_statuses : HealthState → HashMap BackendHealthStatus
get_all_statuses m = m

-- Reading after an update.
pub get_status-update_status :
    (m : HealthState) (k j : String) (s : BackendHealthStatus)
    → get_status (update_status m k s) j ≡ (if k == j then some s else get_status m j)
unfolding get_status update_status
get_status-update_status m k j s = get-insert k j s m
