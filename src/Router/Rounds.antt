-- ===== src/Router/Rounds.antt =====
-- Several rounds of checks in a row: each backend's own machine of counters and thresholds.
use mathlib.Core.List.{Memᴰ}
use sol_rpc_router.Base.{ℕ, String, ◌≡◌, ◌∙◌, refl, ap, subst, none, some, List, [], ◌∷◌, map}
use sol_rpc_router.Status.{BackendHealthStatus, get_status}
use sol_rpc_router.State.{RuntimeBackend}
use sol_rpc_router.Health.{
  HttpClient, Observation, observe, current_status, or_default, health_round,
}
use sol_rpc_router.Health.Round.{label, health_round-Stored, next_status, observation}
use sol_rpc_router.Health.Streak.{observe_all}
use sol_rpc_router.Router.{System, Event, begin_round, end_round, end_held, step, run}
use sol_rpc_router.Router.Invariant.{IsSound, step-IsSound}
use sol_rpc_router.Router.Agreement.{begun}

-- What a round learns: the answers of the backends and the times.
abbrev pub Answers : Type 0
Answers = HttpClient × (String → ℕ)

-- Rounds one after the other, with no reload between.
abbrev pub rounds : List Answers → List Event
rounds [] = []
rounds ((client, now) ∷ rs) = begin_round ∷ end_round client now ∷ rounds rs

-- The recorded status of a backend, or the default.
abbrev pub status_of : System → RuntimeBackend → BackendHealthStatus
status_of s b = current_status (s.heap.healths s.persistent) (label b)

-- What the rounds observe of a backend of the table in use.
abbrev pub observations : System → RuntimeBackend → List Answers → List Observation
observations s b = map (λ (r : Answers). observation r.0 r.1 s.current b)

abbrev after_round : Answers → System → System
after_round (client, now) s = record s {
  heap = health_round client now s.current s.heap;
  held = none;
}

step-round :
    (r : Answers) (s : System)
    → s.held ≡ none
    → step (end_round r.0 r.1) (step begin_round s) ≡ after_round r s
unfolding step end_held
step-round (client, now) s idle = rw (begun s idle) refl

after_round-IsSound :
    (r : Answers) (s : System) → IsSound s → s.held ≡ none → IsSound (after_round r s)
after_round-IsSound r s i idle =
    rw (← step-round r s idle)
      (step-IsSound (end_round r.0 r.1) (step begin_round s) (step-IsSound begin_round s i))

module _ (b : RuntimeBackend) where
  -- The status and the flag of a backend after the rounds.
  abbrev pub Tracks : List Answers → System → System → Type 0
  Tracks rs s t =
      let status =
        observe_all s.current.health_check_config (observations s b rs) (status_of s b) in
      (t.current ≡ s.current)
      × (t.held ≡ none)
      × (status_of t b ≡ status)
      × (t.heap.flags b.healthy ≡ status.healthy)

  after_round-Tracks :
      (r : Answers) (s : System)
      → IsSound s
      → Memᴰ b s.current.backends
      → Tracks (r ∷ []) s (after_round r s)
  unfolding observe_all
  after_round-Tracks (client, now) s i m =
      let after = health_round client now s.current s.heap in
      let (status, flag) = health_round-Stored client now s.current s.heap b i.current.apart m in
      let next : next_status client now s.current s.heap b
          ≡ observe s.current.health_check_config (observation client now s.current b)
              (status_of s b) =
        ap
          (λ a.
            observe s.current.health_check_config (observation client now s.current b)
              (current_status (s.heap.healths a) (label b)))
          i.shared in
      let stored : get_status (after.healths s.persistent) (label b)
          ≡ some (next_status client now s.current s.heap b) =
        subst
          (λ a.
            get_status (after.healths a) (label b)
            ≡ some (next_status client now s.current s.heap b))
          i.shared status in
      (
        refl,
        refl,
        ap or_default stored ∙ next,
        flag ∙ ap (λ (x : BackendHealthStatus). x.healthy) next,
      )

  -- The rounds are, for each backend of the table in use, the machine of counters and thresholds
  -- run on what they observe of it: the status recorded after them is its state, and the flag that
  -- routing reads is that state's `healthy`.
  pub rounds-Tracks :
      (r : Answers) (rs : List Answers) (s : System)
      → IsSound s
      → s.held ≡ none
      → Memᴰ b s.current.backends
      → Tracks (r ∷ rs) s (run (rounds (r ∷ rs)) s)
  unfolding run
  rounds-Tracks r [] s i idle m = rw (step-round r s idle) (after_round-Tracks r s i m)
  rounds-Tracks r (q ∷ rs) s i idle m =
      let one = after_round-Tracks r s i m in
      let (table, held, status, flag) =
        rounds-Tracks q rs (after_round r s) (after_round-IsSound r s i idle) refl m in
      let same : observe_all s.current.health_check_config (observations s b (q ∷ rs))
            (status_of (after_round r s) b)
          ≡ observe_all s.current.health_check_config (observations s b (r ∷ (q ∷ rs)))
              (status_of s b) =
        unfold observe_all in
        (ap (observe_all s.current.health_check_config (observations s b (q ∷ rs))) one.2) in
      rw (run, step-round r s idle)
        (table, held, status ∙ same, flag ∙ ap (λ (x : BackendHealthStatus). x.healthy) same)
