-- ===== src/Tests/RotationTests.antt =====
-- Runs of several rounds: the backend that lags leaves the rotation, the other one stays.
use mathlib.Core.List.{Memᴰ}
use sol_rpc_router.Base.{
  ◌≡◌, ◌≢◌, refl, none, some, true, [], ◌∷◌, done, arith, get, insert, contains_key, ok,
}
use sol_rpc_router.State.{RuntimeBackend, select_backend, is_healthy}
use sol_rpc_router.Status.{new, get_status}
use sol_rpc_router.Health.{perform_health_check, max_slot, check_all, is_lagging}
use sol_rpc_router.Router.{System, start, run, alloc_backends}
use sol_rpc_router.Router.Invariant.{IsSound, reachable-IsSound}
use sol_rpc_router.Router.Rounds.{Answers, rounds, Tracks, rounds-Tracks}
use sol_rpc_router.Router.Rotation.{failing_rounds, recovering_rounds}
use sol_rpc_router.Tests.RouterTests.{config-IsValid}
use sol_rpc_router.Config.{
  Config, load_config, validate, check_backends, check_routes, collect_labels, checked_next,
}
use sol_rpc_router.Config.Laws.{load_config_iff}
use sol_rpc_router.Samples.{config, disk, client, noon, all_up, alpha, beta}

abbrev started : System
started = start config all_up

started-IsSound : IsSound started
unfolding run
started-IsSound = reachable-IsSound config all_up [] config-IsValid

abbrev once : Answers
once = (client, noon)

-- The first free address of the sample heap is 2.
abbrev first_up : RuntimeBackend
first_up = record { config = alpha; healthy = 2 }

abbrev second_up : RuntimeBackend
second_up = record { config = beta; healthy = 3 }

starter : Unit {0}
unfolding start alloc_backends new get_status get insert perform_health_check max_slot check_all
    is_lagging
starter = tt

idle : started.held ≡ none
unfolding starter
idle = refl

first-mem : Memᴰ first_up started.current.backends
unfolding starter
first-mem = Memᴰ.head refl

second-mem : Memᴰ second_up started.current.backends
unfolding starter
second-mem = Memᴰ.tail (Memᴰ.head refl)

rounds-Tracks_example :
    Tracks second_up (once ∷ once ∷ []) started (run (rounds (once ∷ once ∷ [])) started)
rounds-Tracks_example =
    rounds-Tracks second_up once (once ∷ []) started started-IsSound idle second-mem

failing_rounds_example :
    select_backend
      (λ _. 4)
      (run (rounds (once ∷ once ∷ once ∷ [])) started).heap
      (run (rounds (once ∷ once ∷ once ∷ [])) started).current
      none
    ≢ done (some ("beta", "http://b"))
unfolding starter
failing_rounds_example =
    failing_rounds second_up once (once ∷ once ∷ []) started (λ _. 4) none "http://b"
      started-IsSound idle second-mem (refl, (refl, (refl, tt))) (omega arith) (omega arith)

-- The configuration with the route of a method to the backend that recovers.
abbrev routed_config : Config
routed_config = record config { method_routes = ("getSlot", "alpha") ∷ [] }

abbrev routed_start : System
routed_start = start routed_config all_up

routed_loads : load_config (disk routed_config) "config.toml" ≡ ok routed_config
unfolding load_config validate check_backends check_routes collect_labels checked_next insert
    contains_key
routed_loads = refl

routed_start-IsSound : IsSound routed_start
unfolding run
routed_start-IsSound =
    reachable-IsSound routed_config all_up []
      ((load_config_iff (disk routed_config) "config.toml" routed_config).0 routed_loads).1

recovering_rounds_example :
    (is_healthy (run (rounds (once ∷ once ∷ [])) routed_start).heap first_up ≡ true)
    × (select_backend
          (λ _. 4)
          (run (rounds (once ∷ once ∷ [])) routed_start).heap
          (run (rounds (once ∷ once ∷ [])) routed_start).current
          (some "getSlot")
        ≡ done (some ("alpha", "http://a/")))
unfolding starter
recovering_rounds_example =
    recovering_rounds first_up once (once ∷ []) routed_start (λ _. 4) "getSlot" routed_start-IsSound
      refl (Memᴰ.head refl) (refl, (refl, tt)) (omega arith) (omega arith) refl
