-- ===== src/Tests/StateTests.antt =====
-- Runs of the selection of a backend.
use sol_rpc_router.Base.{
  String, ◌≡◌, refl, ◌⊎◌, false, none, some, [], ◌∷◌, arith, All, done, panic, empty_range, get,
}
use sol_rpc_router.State.{
  RuntimeBackend, RouterState, is_healthy, is_ws_candidate, routed, pick, choose, choose_ws,
  ws_target, gen_range, sum_u32, select_backend, select_ws_backend,
}
use sol_rpc_router.State.Draws.{count_below, selects, select_backend-share}
use sol_rpc_router.State.Select.{IsTarget, select_backend-IsTarget, select_backend-routed}
use sol_rpc_router.State.Websocket.{
  IsWsTarget, select_ws_backend-IsWsTarget, select_ws_backend-panics,
}
use sol_rpc_router.Samples.{alpha, first, second, state, all_up, heap_of}

selector : Unit {0}
unfolding select_backend select_ws_backend routed pick choose choose_ws ws_target gen_range sum_u32
    get
selector = tt

select_runs :
    (select_backend (λ _. 2) all_up state none ≡ done (some ("alpha", "http://a/")))
    × (select_backend (λ _. 3) all_up state none ≡ done (some ("beta", "http://b")))
    × (select_backend (λ _. 0) all_up state (some "getSlot") ≡ done (some ("beta", "http://b")))
    × (select_backend (λ _. 0) (heap_of (λ _. false)) state none ≡ done none)
    × (select_ws_backend (λ _. 2) all_up state ≡ done (some ("alpha", "ws://a")))
unfolding selector
select_runs = (refl, refl, refl, refl, refl)

select_backend-IsTarget_example :
    ((select_backend (λ _. 2) all_up state none ≡ done none)
      × All (λ (b : RuntimeBackend). is_healthy all_up b ≡ false) state.backends)
    ⊎ ((t : String × String) × (select_backend (λ _. 2) all_up state none ≡ done (some t))
        × IsTarget all_up state t)
select_backend-IsTarget_example = select_backend-IsTarget (λ _. 2) all_up state none

select_backend-share_example :
    count_below 8 (λ r. selects "beta" (select_backend (λ _. r) all_up state none)) ≡ 5
select_backend-share_example =
    select_backend-share "beta" all_up state none (unfold routed in refl) (omega arith)

routed_run :
    select_backend (λ _. 0) all_up state (some "getSlot") ≡ done (some ("beta", "http://b"))
routed_run =
    select_backend-routed (λ _. 0) all_up state "getSlot" "beta" second (unfold get in refl) refl
      refl

chosen_ws_run :
    ((select_ws_backend (λ _. 2) all_up state ≡ done none)
      × All (λ (b : RuntimeBackend). is_ws_candidate all_up b ≡ false) state.backends)
    ⊎ ((label : String) × (url : String) × (select_ws_backend (λ _. 2) all_up state
          ≡ done (some (label, url)))
        × IsWsTarget all_up state label url)
chosen_ws_run = select_ws_backend-IsWsTarget (λ _. 2) all_up state (omega arith) (omega arith)

-- Two backends whose weights are valid and add up to 2³².
abbrev heavy : RuntimeBackend
heavy = record first { config = record alpha { weight = 2147483648 } }

abbrev heavy_state : RouterState
heavy_state = record state { backends = heavy ∷ heavy ∷ [] }

select_ws_backend-panics_example : select_ws_backend (λ _. 0) all_up heavy_state ≡ panic empty_range
select_ws_backend-panics_example =
    select_ws_backend-panics (λ _. 0) all_up heavy_state (λ e. cc) refl
