-- ===== src/Tests/RouterTests.antt =====
-- Runs of the program: its start, reloads and rounds.
use sol_rpc_router.Base.{◌≡◌, refl, none, [], ◌∷◌, ok, insert, contains_key, All}
use sol_rpc_router.Config.{
  load_config, validate, check_backends, check_routes, collect_labels, checked_next,
}
use sol_rpc_router.Config.Spec.{IsValid}
use sol_rpc_router.Config.Laws.{load_config_iff}
use sol_rpc_router.State.{RuntimeBackend}
use sol_rpc_router.Router.{System, Event, sighup, begin_round, end_round, start, step, run}
use sol_rpc_router.Router.Invariant.{IsSound, reachable-IsSound}
use sol_rpc_router.Router.Agreement.{
  Agrees, sighup-Agrees, round-Agrees, IsRecorded, overtaken_round,
}
use sol_rpc_router.Samples.{config, disk, client, noon, all_up}

pub loads : load_config (disk config) "config.toml" ≡ ok config
unfolding load_config validate check_backends check_routes collect_labels checked_next insert
    contains_key
loads = refl

pub config-IsValid : IsValid config
config-IsValid = ((load_config_iff (disk config) "config.toml" config).0 loads).1

abbrev started : System
started = start config all_up

abbrev reload_event : Event
reload_event = sighup (disk config) "config.toml"

idle : started.held ≡ none
unfolding start
idle = refl

reachable-IsSound_example :
    IsSound (run (begin_round ∷ reload_event ∷ end_round client noon ∷ []) started)
reachable-IsSound_example =
    reachable-IsSound config all_up (begin_round ∷ reload_event ∷ end_round client noon ∷ [])
      config-IsValid

started-IsSound : IsSound started
unfolding run
started-IsSound = reachable-IsSound config all_up [] config-IsValid

sighup-Agrees_example : Agrees (step reload_event started)
sighup-Agrees_example = sighup-Agrees (disk config) "config.toml" config started loads

round_run : Agrees (step (end_round client noon) (step begin_round started))
round_run = round-Agrees client noon started started-IsSound idle

abbrev reloaded : System
reloaded = step reload_event (step begin_round started)

abbrev overtaken_end : System
overtaken_end = step (end_round client noon) reloaded

overtaken_round_example :
    All
      (λ (b : RuntimeBackend). overtaken_end.heap.flags b.healthy ≡ reloaded.heap.flags b.healthy)
      reloaded.current.backends
    × All (IsRecorded client noon started overtaken_end) started.current.backends
overtaken_round_example =
    overtaken_round client noon (disk config) "config.toml" config started started-IsSound idle
      loads
