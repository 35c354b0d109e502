-- ===== src/Handlers/Endpoint.antt =====
-- src/handlers.rs: the health endpoint, and its answer in terms of the table and the statuses.
use mathlib.Core.List.{append-nil, append_assoc}
use mathlib.Core.List.Memᴰ
use mathlib.Core.List.{Memᴰ}
use sol_rpc_router.Base.{
  ℕ, String, Option, get, ◌≡◌, ◌∙◌, refl, sym, ◌↔◌, inl, inr, Bool, true, false, ◌||◌, List, [],
  ◌∷◌, ◌++◌, map, arith, any, if◌then◌else◌, eq_iff, Bool-cases,
}
use sol_rpc_router.Status.{
  HealthState, BackendHealthStatus, CheckError, get_all_statuses, get_status,
}
use sol_rpc_router.State.{Heap, RuntimeBackend, RouterState}
use sol_rpc_router.Health.{current_status, or_default}

-- `HealthResponse` and `BackendHealth`; a time is shown as it is.
pub record BackendHealth : Type 0 where
  pub label : String
  pub healthy : Bool
  pub last_check : Option ℕ
  pub consecutive_failures : ℕ
  pub consecutive_successes : ℕ
  pub last_error : Option CheckError

pub record HealthResponse : Type 0 where
  pub overall_status : String
  pub backends : List BackendHealth

abbrev backend_health : String → BackendHealthStatus → BackendHealth
backend_health label s = record {
  label = label;
  healthy = s.healthy;
  last_check = s.last_check_time;
  consecutive_failures = s.consecutive_failures;
  consecutive_successes = s.consecutive_successes;
  last_error = s.last_error;
}

-- The loop over the backends: the entries so far and whether one was healthy.
health_loop :
    HealthState → List RuntimeBackend → List BackendHealth → Bool → List BackendHealth × Bool
health_loop all [] backends any_healthy = (backends, any_healthy)
health_loop all (b ∷ bs) backends any_healthy =
    let status = or_default (get b.config.label all) in
    health_loop all bs (backends ++ backend_health b.config.label status ∷ [])
      (if status.healthy then true else any_healthy)

abbrev pub overall_of : Bool → String
overall_of any_healthy = if any_healthy then "healthy" else "unhealthy"

unfoldable pub health_endpoint : Heap → RouterState → HealthResponse
unfolding health_loop
health_endpoint h st =
    let (backends, any_healthy) =
      health_loop (get_all_statuses (h.healths st.health_state)) st.backends [] false in
    record { overall_status = overall_of any_healthy; backends = backends }

-- The entry of one backend: its label with the five fields of its recorded status.
abbrev pub entry : HealthState → RuntimeBackend → BackendHealth
entry m b = record {
  label = b.config.label;
  healthy = (current_status m b.config.label).healthy;
  last_check = (current_status m b.config.label).last_check_time;
  consecutive_failures = (current_status m b.config.label).consecutive_failures;
  consecutive_successes = (current_status m b.config.label).consecutive_successes;
  last_error = (current_status m b.config.label).last_error;
}

abbrev is_up : HealthState → RuntimeBackend → Bool
is_up m b = (current_status m b.config.label).healthy

or_eq : (a b c : Bool) → ((if a then true else b) || c) ≡ (b || (a || c))
or_eq true true c = refl
or_eq true false c = refl
or_eq false true c = refl
or_eq false false c = refl

health_loop_lem :
    (m : HealthState) (bs : List RuntimeBackend) (out : List BackendHealth) (up : Bool)
    → ((health_loop m bs out up).0 ≡ out ++ map (entry m) bs)
      × ((health_loop m bs out up).1 ≡ (up || any (is_up m) bs))
unfolding health_loop get_status
health_loop_lem m [] out up = (sym (append-nil out), ground arith)
health_loop_lem m (b ∷ bs) out up =
    let (entries, healthy) =
      health_loop_lem m bs (out ++ entry m b ∷ []) (if is_up m b then true else up) in
    (
      entries ∙ append_assoc out (entry m b ∷ []) (map (entry m) bs),
      healthy ∙ or_eq (is_up m b) up (any (is_up m) bs),
    )

any_up :
    (m : HealthState) (bs : List RuntimeBackend)
    → any (is_up m) bs ≡ true
    → (b : RuntimeBackend) × Memᴰ b bs × (is_up m b ≡ true)
any_up m [] h = cc
any_up m (b ∷ bs) h = elim (Bool-cases (is_up m b)) [
  | inl up ↦ (b, Memᴰ.head refl, up)
  | inr down ↦ let (d, i, up) = any_up m bs (rw down at h) in (d, Memᴰ.tail i, up)
]

any_of_mem :
    (m : HealthState) (bs : List RuntimeBackend) (b : RuntimeBackend)
    → Memᴰ b bs
    → is_up m b ≡ true
    → any (is_up m) bs ≡ true
any_of_mem m [] b i up = absurd (Memᴰ.not-nil i)
any_of_mem m (d ∷ bs) b i up = elim (Memᴰ.cases_cons i) [
  | inl e ↦ let here = rw e at up in rw here
  | inr t ↦ ground (arith, any_of_mem m bs b t up)
]

overall_of_iff : (up : Bool) → (overall_of up ≡ "healthy") ↔ (up ≡ true)
overall_of_iff true = (λ _. refl, λ _. refl)
overall_of_iff false = (λ h. cc ((eq_iff "unhealthy" "healthy").1 h), λ h. cc)

-- The endpoint lists the backends of the table in order, each with its recorded status or the
-- default, and its overall status is "healthy" exactly if some listed backend's status is healthy.
pub health_endpoint_lem :
    (h : Heap) (st : RouterState)
    → let m = h.healths st.health_state in
      ((health_endpoint h st).backends ≡ map (entry m) st.backends)
      × (((health_endpoint h st).overall_status ≡ "healthy")
          ↔ ((b : RuntimeBackend) × Memᴰ b st.backends × ((entry m b).healthy ≡ true)))
unfolding health_endpoint get_all_statuses
health_endpoint_lem h st =
    let m = h.healths st.health_state in
    let (entries, up) = health_loop_lem m st.backends [] false in
    (
      entries,
      (
        λ e. any_up m st.backends (sym up ∙ (overall_of_iff _).0 e),
        λ b. (overall_of_iff _).1 (up ∙ any_of_mem m st.backends b.0 b.1 b.2),
      ),
    )
