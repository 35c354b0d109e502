-- ===== src/Tests/WsTests.antt =====
-- Runs of the WebSocket proxy.
use sol_rpc_router.Base.{
  ◌≡◌, refl, true, false, none, some, List, [], ◌∷◌, ◌++◌, length, arith, ◌==◌, ok, err, done,
  if◌then◌else◌,
}
use sol_rpc_router.State.{select_ws_backend, choose_ws, ws_target, pick, gen_range, sum_u32}
use sol_rpc_router.KeyStore.{KeyStore}
use sol_rpc_router.Handlers.{Env, failed}
use sol_rpc_router.Handlers.Ws.{
  Handshake, upgraded, text, close, ping, t_text, t_close, received, from_client, from_backend,
  Sinks, Turn, is_open, take_turn, take_turns, turn, send, opened, ws_proxy, ws_validated,
  handle_ws_connection, on_upgrade,
}
use sol_rpc_router.Handlers.Ws.Decisions.{Decided, counted_by, ws_proxy-Decided, ws_proxy-Counts}
use sol_rpc_router.Handlers.Ws.Turns.{for_backend, for_client}
use sol_rpc_router.Handlers.Ws.Ending.{is_running, ended_connection}
use sol_rpc_router.Handlers.Ws.Relay.{Relayed, all_messages, take_turns-Relayed}
use sol_rpc_router.Handlers.Ws.{Message, TungsteniteMessage, Item}
use sol_rpc_router.Handlers.Ws.Sends.{
  Moment, client_to_backend, backend_to_client, is_linked, go, go_on, linked,
}
use sol_rpc_router.Handlers.Ws.Sends.Items.{from_items}
use sol_rpc_router.Handlers.Ws.Sends.Relayed.{IsAccounted, go_on-Relayed}
use sol_rpc_router.Samples.{state, all_up}

abbrev env : Env
env = record {
  state = state;
  later = state;
  heap = all_up;
  draw = λ _. 0;
  parse = λ t. err t;
  client = λ _ _. failed "unused";
  logs_info = true;
  logs_warn = true;
}

abbrev keys : KeyStore (Unit {0})
keys key s =
    (if key == "secret" then ok (some (record { owner = "acme"; rate_limit = 0 })) else ok none, s)

abbrev accepted_attempt : Handshake
accepted_attempt = record { decision = upgraded "ws://a" "alpha" "acme"; counted = [] }

-- The backend refuses its second message.
abbrev sinks : Sinks
sinks = record { backend = λ sent _. elim sent [ [] ↦ true | _ ∷ _ ↦ false ]; client = λ _ _. true }

abbrev turns : List Turn
turns =
    from_client (received (text "subscribe"))
    ∷ from_backend (received (t_text "7"))
    ∷ from_client (received (ping ""))
    ∷ from_backend (received (t_text "8"))
    ∷ []

ws_runs :
    ((ws_proxy env keys (some "secret") tt).0 ≡ done accepted_attempt)
    × ((take_turns sinks turns opened).up.sent ≡ t_text "subscribe" ∷ [])
    × ((take_turns sinks turns opened).down.sent ≡ text "7" ∷ [])
    × (is_open (take_turns sinks turns opened) ≡ false)
unfolding ws_proxy ws_validated select_ws_backend choose_ws ws_target pick gen_range sum_u32
    take_turns take_turn turn send
ws_runs = (refl, refl, refl, refl)

ws_proxy-Decided_example : Decided env keys tt (some "secret") accepted_attempt
ws_proxy-Decided_example =
    ws_proxy-Decided env keys (some "secret") tt accepted_attempt (omega arith) (omega arith)
      ws_runs.0

ws_proxy-Counts_example :
    length (
      accepted_attempt.counted
      ++ counted_by (on_upgrade true (λ _. false) sinks turns accepted_attempt.decision))
    ≡ 1
ws_proxy-Counts_example =
    ws_proxy-Counts true (λ _. false) sinks turns env keys (some "secret") tt accepted_attempt
      ws_runs.0

take_turns_run :
    Relayed t_close
      (all_messages for_backend turns)
      (is_open (take_turns sinks turns opened))
      []
      (take_turns sinks turns opened).up.sent
    × Relayed close
        (all_messages for_client turns)
        (is_open (take_turns sinks turns opened))
        []
        (take_turns sinks turns opened).down.sent
take_turns_run = take_turns-Relayed sinks turns

abbrev said_before : List Turn
said_before = from_client (received (text "hi")) ∷ from_backend (received (t_text "ho")) ∷ []

abbrev said_after : List Turn
said_after = from_client (received (text "still there?")) ∷ []

ended_connection_example :
    (handle_ws_connection
        (λ _. true)
        sinks
        "ws://a/"
        "a"
        "ann"
        (said_before ++ from_backend (received t_close) ∷ said_after)
      ≡ handle_ws_connection
          (λ _. true)
          sinks
          "ws://a/"
          "a"
          "ann"
          (said_before ++ from_backend (received t_close) ∷ []))
    × (is_running
          (handle_ws_connection
            (λ _. true)
            sinks
            "ws://a/"
            "a"
            "ann"
            (said_before ++ from_backend (received t_close) ∷ said_after)).connection
        ≡ false)
    × ((handle_ws_connection
          (λ _. true)
          sinks
          "ws://a/"
          "a"
          "ann"
          (said_before ++ from_backend (received t_close) ∷ said_after)).left
        ≡ (handle_ws_connection
            (λ _. true)
            sinks
            "ws://a/"
            "a"
            "ann"
            (said_before ++ from_backend (received t_close) ∷ said_after)).entered)
ended_connection_example =
    ended_connection (λ _. true) sinks "ws://a/" "a" "ann" said_before
      (from_backend (received t_close)) said_after refl

-- Both loops read, the backend takes the first message, and the client is slow: the backend closes
-- while the client's second message is under way.
abbrev client_says : List (Item Message)
client_says = received (text "one") ∷ received (text "two") ∷ []

abbrev backend_says : List (Item TungsteniteMessage)
backend_says = received (t_text "uno") ∷ received t_close ∷ []

abbrev moments : List Moment
moments =
    client_to_backend ∷ backend_to_client ∷ client_to_backend ∷ client_to_backend
    ∷ backend_to_client ∷ backend_to_client ∷ client_to_backend ∷ []

sends_run :
    ((go_on sinks moments (linked client_says backend_says)).up.sent ≡ t_text "one" ∷ [])
    × ((go_on sinks moments (linked client_says backend_says)).up.counted ≡ 2)
    × ((go_on sinks moments (linked client_says backend_says)).down.sent ≡ text "uno" ∷ close ∷ [])
unfolding go_on go
sends_run = (refl, refl, refl)

go_on-Relayed_example :
    Relayed t_close
      (from_items from_client for_backend client_says)
      (is_linked (go_on sinks moments (linked client_says backend_says)))
      []
      (go_on sinks moments (linked client_says backend_says)).up.sent
    × Relayed close
        (from_items from_backend for_client backend_says)
        (is_linked (go_on sinks moments (linked client_says backend_says)))
        []
        (go_on sinks moments (linked client_says backend_says)).down.sent
    × IsAccounted sinks client_says backend_says
        (go_on sinks moments (linked client_says backend_says))
go_on-Relayed_example = go_on-Relayed sinks client_says backend_says moments
