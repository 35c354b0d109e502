-- ===== src/Handlers/Ws/Sends.antt =====
-- src/handlers.rs: a WebSocket connection whose sends take a while. Between the message that a loop
-- reads and the end of its send the other loop goes on; where that one ends, the send is cut off.
pub mod Loop
pub mod Whole
pub mod Items
pub mod Run
pub mod Relayed
use sol_rpc_router.Base.{
  ℕ, ◌+◌, Bool, true, false, ◌&&◌, Option, none, some, List, [], ◌∷◌, ◌++◌, if◌then◌else◌,
}
use sol_rpc_router.Handlers.Ws.{
  Message, close, TungsteniteMessage, t_close, to_backend, to_client, Item, received, failure,
  ended, Sinks,
}

-- One direction: as a `Channel`, with the message that its loop is sending, and whether that one is
-- counted.
pub record Way (N : Type 0) : Type 0 where
  pub sent : List N
  pub counted : ℕ
  pub running : Bool
  pub sending : Option (N × Bool)

-- The two directions, with what is still to be read from the client and from the backend.
pub record Link : Type 0 where
  pub up : Way TungsteniteMessage
  pub down : Way Message
  pub client_read : List (Item Message)
  pub backend_read : List (Item TungsteniteMessage)

-- Which loop goes on: its send comes to an end, or it reads the next item.
pub data Moment : Type 0 where
  client_to_backend : Moment
  backend_to_client : Moment

module _ {N : Type 0} where
  abbrev pub begin : Option (N × Bool) → Way N → Way N
  begin none w = record w { running = false }
  begin (some (n, is_counted)) w = record w {
    counted = if is_counted then w.counted + 1 else w.counted;
    sending = some (n, is_counted);
  }

  abbrev pub read : {M : Type 0} → (M → Option (N × Bool)) → Item M → Way N → Way N
  read convert (received m) w = begin (convert m) w
  read convert failure w = record w { running = false }
  read convert ended w = record w { running = false }

  abbrev pub took : (List N → N → Bool) → Option (N × Bool) → Way N → Way N
  took accepts none w = w
  took accepts (some (n, is_counted)) w =
      if accepts w.sent n
      then record w { sent = w.sent ++ n ∷ []; sending = none }
      else record w { running = false; sending = none }

  -- A loop that is sending reads nothing, and one that reads waits for an item.
  abbrev pub progress :
      {M : Type 0}
      → (M → Option (N × Bool))
      → (List N → N → Bool)
      → Option (N × Bool)
      → List (Item M)
      → Way N
      → Way N × List (Item M)
  progress convert accepts (some x) items w = (took accepts (some x) w, items)
  progress convert accepts none [] w = (w, [])
  progress convert accepts none (item ∷ items) w = (read convert item w, items)

  -- The close that is sent to the side whose other side has ended.
  abbrev pub last_word : (List N → N → Bool) → N → Way N → Way N
  last_word accepts n w =
      if w.running then w else if accepts w.sent n then record w { sent = w.sent ++ n ∷ [] } else w

abbrev pub is_linked : Link → Bool
is_linked l = l.up.running && l.down.running

-- The arms of `select!`.
abbrev pub go_up : Sinks → Way TungsteniteMessage × List (Item Message) → Link → Link
go_up sinks (up, items) l = record l {
  up = last_word sinks.backend t_close up;
  client_read = items;
}

abbrev pub go_down : Sinks → Way Message × List (Item TungsteniteMessage) → Link → Link
go_down sinks (down, items) l = record l {
  down = last_word sinks.client close down;
  backend_read = items;
}

unfoldable pub go : Sinks → Moment → Link → Link
go sinks client_to_backend l =
    if is_linked l
    then go_up sinks (progress to_backend sinks.backend l.up.sending l.client_read l.up) l
    else l
go sinks backend_to_client l =
    if is_linked l
    then go_down sinks (progress to_client sinks.client l.down.sending l.backend_read l.down) l
    else l

unfoldable pub go_on : Sinks → List Moment → Link → Link
go_on sinks [] l = l
go_on sinks (m ∷ ms) l = go_on sinks ms (go sinks m l)

-- The connection with what the two sides will say.
abbrev pub linked : List (Item Message) → List (Item TungsteniteMessage) → Link
linked client_read backend_read = record {
  up = record { sent = []; counted = 0; running = true; sending = none };
  down = record { sent = []; counted = 0; running = true; sending = none };
  client_read = client_read;
  backend_read = backend_read;
}
