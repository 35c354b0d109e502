-- ===== src/Health.antt =====
-- src/health.rs: one health check, the update of a status by its result, and one round of the
-- loop. The HTTP client and the JSON parser are parameters. The `u32` counters wrap.
pub mod Check
pub mod Streak
pub mod Round
pub mod Lag
pub mod Next
use sol_rpc_router.Base.{
  ℕ, ◌+◌, ◌-◌, ◌%◌, ◌^◌, String, Bool, true, false, Option, some, none, List, [], ◌∷◌, ◌==◌, ◌&&◌,
  ◌||◌, eqb, ltb, leb, not, map, max, Result, ok, err, if◌then◌else◌,
}
use sol_rpc_router.Config.{Backend, HealthCheckConfig}
use sol_rpc_router.Status.{
  HealthState, BackendHealthStatus, default_status, CheckError, build_failed, bad_status,
  body_failed, json_failed, missing_result, request_failed, timed_out, lagging, get_status,
  update_status,
}
use sol_rpc_router.State.{Heap, RuntimeBackend, RouterState}

-- The POST of a check: its URI and the JSON-RPC method of its body.
pub record HealthRequest : Type 0 where
  pub uri : String
  pub method : String

-- How a request under `timeout` ends: a response with its status and its body, which reading may
-- fail; a failure; or the end of the time.
pub data Attempt : Type 0 where
  answered : ℕ → Result String String → Attempt
  failed : String → Attempt
  elapsed : Attempt

-- `Request::builder()`, the HTTP client under `timeout`, and `serde_json` reading the `result`
-- field of a body as a `u64`.
pub record HttpClient : Type 0 where
  pub build : Backend → Result String String
  pub request : HealthRequest → ℕ → Attempt
  pub result_u64 : String → Result String (Option ℕ)

abbrev pub Outcome : Type 0
Outcome = Result CheckError (Option ℕ)

-- `status.is_success()`.
abbrev is_success : ℕ → Bool
is_success status = leb 200 status && ltb status 300

abbrev pub is_slot_method : String → Bool
is_slot_method method = method == "getSlot" || method == "getBlockHeight"

-- The body of a check by `getSlot` or `getBlockHeight`.
read_slot : HttpClient → String → Result String String → Outcome
read_slot client method (err e) = err (body_failed e)
read_slot client method (ok body) = elim (client.result_u64 body) [
  | err e ↦ err (json_failed e)
  | ok none ↦ err (missing_result method)
  | ok (some slot) ↦ ok (some slot)
]

read_attempt : HttpClient → HealthCheckConfig → Attempt → Outcome
read_attempt client cfg (answered status body) =
    if not (is_success status)
    then err (bad_status status)
    else if is_slot_method cfg.method
    then read_slot client cfg.method body
    else ok none
read_attempt client cfg (failed e) = err (request_failed e)
read_attempt client cfg elapsed = err (timed_out cfg.timeout_secs)

unfoldable pub perform_health_check : HttpClient → Backend → HealthCheckConfig → Outcome
unfolding read_attempt read_slot
perform_health_check client backend cfg = elim (client.build backend) [
  | err e ↦ err (build_failed e)
  | ok uri ↦
      read_attempt client cfg
        (client.request (record { uri = uri; method = cfg.method }) cfg.timeout_secs)
]

-- The highest slot among the successful checks.
unfoldable pub max_slot : List (String × Outcome) → Option ℕ
max_slot [] = none
max_slot ((_, ok (some slot)) ∷ rs) = elim (max_slot rs) [
  | none ↦ some slot
  | some m ↦ some (max slot m)
]
max_slot ((_, ok none) ∷ rs) = max_slot rs
max_slot ((_, err _) ∷ rs) = max_slot rs

-- The `match` behind `let lagging`.
unfoldable pub is_lagging : HealthCheckConfig → Option ℕ → Option ℕ → Bool
is_lagging cfg (some slot) (some top) = ltb slot top && ltb cfg.max_slot_lag (top - slot)
is_lagging cfg (some slot) none = false
is_lagging cfg none top = false

-- `+= 1` on a `u32`.
abbrev pub next_u32 : ℕ → ℕ
next_u32 n = (n + 1) % 2 ^ 32

-- A failed or lagging check.
unfoldable pub count_failure :
    HealthCheckConfig → CheckError → BackendHealthStatus → BackendHealthStatus
count_failure cfg e s =
    let failures = next_u32 s.consecutive_failures in
    record s {
      consecutive_failures = failures;
      consecutive_successes = 0;
      last_error = some e;
      healthy = if leb cfg.consecutive_failures_threshold failures then false else s.healthy;
    }

unfoldable pub count_success : HealthCheckConfig → BackendHealthStatus → BackendHealthStatus
count_success cfg s =
    let successes = next_u32 s.consecutive_successes in
    record s {
      consecutive_successes = successes;
      consecutive_failures = 0;
      last_error = none;
      healthy = if leb cfg.consecutive_successes_threshold successes then true else s.healthy;
    }

-- The message of a lagging backend; it is built where both slots are there.
unfoldable pub lag_error : Option ℕ → Option ℕ → CheckError
lag_error (some slot) (some top) = lagging slot (top - slot) top
lag_error _ _ = lagging 0 0 0

-- What one round learns of one backend: the highest slot of the round, its own result and the time.
pub record Observation : Type 0 where
  pub top : Option ℕ
  pub outcome : Outcome
  pub now : ℕ

judge : HealthCheckConfig → Option ℕ → Outcome → BackendHealthStatus → BackendHealthStatus
judge cfg top (ok slot) s =
    if is_lagging cfg slot top
    then count_failure cfg (lag_error slot top) s
    else count_success cfg s
judge cfg top (err e) s = count_failure cfg e s

-- The body of the loop over the results, up to the new `current_status`.
unfoldable pub observe : HealthCheckConfig → Observation → BackendHealthStatus → BackendHealthStatus
unfolding judge
observe cfg o s =
    let judged = judge cfg o.top o.outcome s in record judged { last_check_time = some o.now }

abbrev pub or_default : Option BackendHealthStatus → BackendHealthStatus
or_default none = default_status
or_default (some s) = s

-- `get_status(&label).unwrap_or_default()`.
abbrev pub current_status : HealthState → String → BackendHealthStatus
current_status m label = or_default (get_status m label)

-- Writes through the shared pointers.
abbrev pub write {ℓ} : {A : Type ℓ} → (ℕ → A) → ℕ → A → ℕ → A
write f a v x = if eqb a x then v else f x

-- The loop over the results, which come in the order of the backends; `now` gives the time at
-- which each entry is written.
unfoldable pub apply_results :
    HealthCheckConfig
    → Option ℕ
    → (String → ℕ)
    → ℕ
    → List RuntimeBackend
    → List (String × Outcome)
    → Heap
    → Heap
apply_results cfg top now at [] rs h = h
apply_results cfg top now at (b ∷ bs) [] h = h
apply_results cfg top now at (b ∷ bs) ((label, outcome) ∷ rs) h =
    let s =
      observe cfg (record { top = top; outcome = outcome; now = now label })
        (current_status (h.healths at) label) in
    apply_results cfg top now at bs rs (record h {
      healths = write h.healths at (update_status (h.healths at) label s);
      flags = write h.flags b.healthy s.healthy;
    })

-- `join_all` of the checks of all backends.
unfoldable pub check_all : HttpClient → RouterState → List (String × Outcome)
check_all client st =
    map
      (λ (b : RuntimeBackend).
        (b.config.label, perform_health_check client b.config st.health_check_config))
      st.backends

-- One iteration of `health_check_loop`, up to the sleep.
unfoldable pub health_round : HttpClient → (String → ℕ) → RouterState → Heap → Heap
unfolding check_all
health_round client now st h =
    let results = check_all client st in
    apply_results st.health_check_config (max_slot results) now st.health_state st.backends results
      h
