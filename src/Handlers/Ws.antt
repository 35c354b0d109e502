-- ===== src/Handlers/Ws.antt =====
-- src/handlers.rs: the WebSocket proxy. `ws_proxy` decides on an upgrade; a connection is a sequence
-- of turns of its two loops, each from the message read to the end of its send. What the two sinks
-- accept is a parameter, and so is the connection to the backend.
pub mod Decisions
pub mod Turns
pub mod Relay
pub mod Ending
pub mod Causes
pub mod Sends
use sol_rpc_router.Base.{
  ℕ, ◌+◌, String, Bool, true, false, ◌&&◌, Option, none, some, List, [], ◌∷◌, ◌++◌, ◌==◌, ok, err,
  Run, done, and_then, if◌then◌else◌,
}
use sol_rpc_router.State.{select_ws_backend}
use sol_rpc_router.KeyStore.{Answer, KeyStore}
use sol_rpc_router.Handlers.{Env, log_prefix}

-- One increment of `ws_connections_total`.
pub record Counted : Type 0 where
  pub backend : String
  pub owner : String
  pub status : String

-- A refusal with its status and words, or an upgrade with the URL, the label and the owner.
pub data Decision : Type 0 where
  refused : ℕ → String → Decision
  upgraded : String → String → String → Decision

-- A decision with the increments made on the way.
pub record Handshake : Type 0 where
  pub decision : Decision
  pub counted : List Counted

abbrev pub turned_away : ℕ → String → String → String → Handshake
turned_away status words owner reason = record {
  decision = refused status words;
  counted = record { backend = "none"; owner = owner; status = reason } ∷ [];
}

abbrev pub upgrade_to : String → Option (String × String) → Handshake
upgrade_to owner none = turned_away 503 "No healthy WebSocket backends available" owner "no_backend"
upgrade_to owner (some (label, url)) = record { decision = upgraded url label owner; counted = [] }

-- From the answer of the key store on.
unfoldable pub ws_validated : Env → String → Answer → Run Handshake
ws_validated env key (ok (some info)) =
    and_then (select_ws_backend env.draw env.heap env.state)
      (λ selection. done (upgrade_to info.owner selection))
ws_validated env key (ok none) =
    and_then (log_prefix env.logs_info key)
      (λ _. done (turned_away 401 "Unauthorized" "none" "auth_failed"))
ws_validated env key (err e) =
    if e == "Rate limit exceeded"
    then and_then (log_prefix env.logs_warn key)
        (λ _. done (turned_away 429 "Rate limit exceeded" "none" "rate_limited"))
    else done (turned_away 500 "Internal Server Error" "none" "error")

unfoldable pub ws_proxy : {S : Type 0} → Env → KeyStore S → Option String → S → Run Handshake × S
ws_proxy env store none s = (done (turned_away 401 "Unauthorized" "none" "auth_failed"), s)
ws_proxy env store (some key) s =
    let (answer, s') = store key s in (ws_validated env key answer, s')

-- The messages of axum and those of tungstenite.
pub data Message : Type 0 where
  text : String → Message
  binary : String → Message
  ping : String → Message
  pong : String → Message
  close : Message

pub data TungsteniteMessage : Type 0 where
  t_text : String → TungsteniteMessage
  t_binary : String → TungsteniteMessage
  t_ping : String → TungsteniteMessage
  t_pong : String → TungsteniteMessage
  t_close : TungsteniteMessage
  t_frame : String → TungsteniteMessage

-- The arms of the two loops: what is sent, with whether it is counted; `none` breaks.
abbrev pub to_backend : Message → Option (TungsteniteMessage × Bool)
to_backend (text t) = some (t_text t, true)
to_backend (binary d) = some (t_binary d, true)
to_backend (ping d) = some (t_ping d, false)
to_backend (pong d) = some (t_pong d, false)
to_backend close = none

abbrev pub to_client : TungsteniteMessage → Option (Message × Bool)
to_client (t_text t) = some (text t, true)
to_client (t_binary d) = some (binary d, true)
to_client (t_ping d) = some (ping d, false)
to_client (t_pong d) = some (pong d, false)
to_client t_close = none
to_client (t_frame d) = none

-- What `next()` gives.
pub data Item (M : Type 0) : Type 0 where
  received : M → Item M
  failure : Item M
  ended : Item M

-- One direction: what was sent, how often `ws_messages_total` was counted up, and whether its loop
-- still runs.
pub record Channel (N : Type 0) : Type 0 where
  pub sent : List N
  pub counted : ℕ
  pub running : Bool

module _ {M N : Type 0} (convert : M → Option (N × Bool)) (accepts : List N → N → Bool) where
  abbrev pub pass : Option (N × Bool) → Channel N → Channel N
  pass none ch = record ch { running = false }
  pass (some (n, is_counted)) ch =
      let count = if is_counted then ch.counted + 1 else ch.counted in
      if accepts ch.sent n
      then record ch { sent = ch.sent ++ n ∷ []; counted = count }
      else record ch { counted = count; running = false }

  -- One turn of a loop.
  unfoldable pub turn : Item M → Channel N → Channel N
  turn (received m) ch = pass (convert m) ch
  turn failure ch = record ch { running = false }
  turn ended ch = record ch { running = false }

-- `let _ = sink.send(…)`.
unfoldable pub send : {N : Type 0} → (List N → N → Bool) → N → Channel N → Channel N
send accepts n ch = if accepts ch.sent n then record ch { sent = ch.sent ++ n ∷ [] } else ch

-- What the sinks accept, after what they were sent.
pub record Sinks : Type 0 where
  pub backend : List TungsteniteMessage → TungsteniteMessage → Bool
  pub client : List Message → Message → Bool

pub record Connection : Type 0 where
  pub up : Channel TungsteniteMessage
  pub down : Channel Message

pub data Turn : Type 0 where
  from_client : Item Message → Turn
  from_backend : Item TungsteniteMessage → Turn

abbrev pub is_open : Connection → Bool
is_open c = c.up.running && c.down.running

-- The arms of `select!`: where one loop has ended, the other side is sent a close.
abbrev pub after_client : Sinks → Channel TungsteniteMessage → Connection → Connection
after_client sinks up c = record c { up = if up.running then up else send sinks.backend t_close up }

abbrev pub after_backend : Sinks → Channel Message → Connection → Connection
after_backend sinks down c = record c {
  down = if down.running then down else send sinks.client close down;
}

unfoldable pub take_turn : Sinks → Turn → Connection → Connection
take_turn sinks (from_client item) c =
    if is_open c then after_client sinks (turn to_backend sinks.backend item c.up) c else c
take_turn sinks (from_backend item) c =
    if is_open c then after_backend sinks (turn to_client sinks.client item c.down) c else c

unfoldable pub take_turns : Sinks → List Turn → Connection → Connection
take_turns sinks [] c = c
take_turns sinks (t ∷ ts) c = take_turns sinks ts (take_turn sinks t c)

abbrev pub opened : Connection
opened = record {
  up = record { sent = []; counted = 0; running = true };
  down = record { sent = []; counted = 0; running = true };
}

-- A connection so far: its increments, the change of `ws_active_connections` up and down, and its
-- two directions.
pub record Handled : Type 0 where
  pub counted : List Counted
  pub entered : ℕ
  pub left : ℕ
  pub connection : Option Connection

-- `handle_ws_connection`; `connects` is whether `connect_async` gives a socket.
unfoldable pub handle_ws_connection :
    (String → Bool) → Sinks → String → String → String → List Turn → Handled
handle_ws_connection connects sinks url label owner turns =
    if connects url
    then (let c = take_turns sinks turns opened in
        record {
          counted = record { backend = label; owner = owner; status = "connected" } ∷ [];
          entered = 1;
          left = if is_open c then 0 else 1;
          connection = some c;
        })
    else record {
      counted = record { backend = label; owner = owner; status = "backend_connect_failed" } ∷ [];
      entered = 0;
      left = 0;
      connection = none;
    }

-- The callback of `on_upgrade`: the connection is handled if the upgrade, which axum and the client
-- carry out, completes.
unfoldable pub on_upgrade : Bool → (String → Bool) → Sinks → List Turn → Decision → Option Handled
on_upgrade completes connects sinks turns (refused status words) = none
on_upgrade completes connects sinks turns (upgraded url label owner) =
    if completes then some (handle_ws_connection connects sinks url label owner turns) else none
