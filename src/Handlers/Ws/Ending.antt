-- ===== src/Handlers/Ws/Ending.antt =====
-- The end of a WebSocket connection.
use sol_rpc_router.Base.{
  String, ◌≡◌, ◌∙◌, refl, ap, inl, inr, Bool, true, false, ◌&&◌, Option, none, some, List, [], ◌∷◌,
  ◌++◌, Bool-cases, if◌then◌else◌,
}
use sol_rpc_router.Handlers.Ws.{
  Message, text, binary, ping, pong, close, TungsteniteMessage, t_text, t_binary, t_ping, t_pong,
  t_close, t_frame, received, failure, ended, Channel, turn, Sinks, Connection, Turn, from_client,
  from_backend, is_open, after_client, after_backend, take_turn, take_turns, opened,
  handle_ws_connection,
}
use sol_rpc_router.Handlers.Ws.Turns.{settled-stops}
use sol_rpc_router.Handlers.Ws.Relay.{take_turns-closed}

-- A turn in which a side has nothing more to say: it closed, failed or ended, or the backend sent
-- a raw frame.
abbrev pub is_ending : Turn → Bool
is_ending (from_client (received close)) = true
is_ending (from_client (received (text t))) = false
is_ending (from_client (received (binary d))) = false
is_ending (from_client (received (ping d))) = false
is_ending (from_client (received (pong d))) = false
is_ending (from_client failure) = true
is_ending (from_client ended) = true
is_ending (from_backend (received t_close)) = true
is_ending (from_backend (received (t_frame d))) = true
is_ending (from_backend (received (t_text t))) = false
is_ending (from_backend (received (t_binary d))) = false
is_ending (from_backend (received (t_ping d))) = false
is_ending (from_backend (received (t_pong d))) = false
is_ending (from_backend failure) = true
is_ending (from_backend ended) = true

pub take_turns-append :
    (sinks : Sinks) (ts us : List Turn) (c : Connection)
    → take_turns sinks (ts ++ us) c ≡ take_turns sinks us (take_turns sinks ts c)
unfolding take_turns
take_turns-append sinks [] us c = refl
take_turns-append sinks (t ∷ ts) us c = take_turns-append sinks ts us (take_turn sinks t c)

and_false : (b : Bool) → (b && false) ≡ false
and_false true = refl
and_false false = refl

module _ (sinks : Sinks) (c : Connection) where
  client_over :
      (up : Channel TungsteniteMessage)
      → up.running ≡ false
      → is_open (after_client sinks up c) ≡ false
  client_over up over =
      ap (λ b. b && c.down.running) (settled-stops sinks.backend t_close up up.sent over refl).0

  backend_over :
      (down : Channel Message) → down.running ≡ false → is_open (after_backend sinks down c) ≡ false
  backend_over down over =
      ap (λ b. c.up.running && b) (settled-stops sinks.client close down down.sent over refl).0
      ∙ and_false c.up.running

  open_ending :
      (t : Turn) → is_open c ≡ true → is_ending t ≡ true → is_open (take_turn sinks t c) ≡ false
  unfolding take_turn turn
  open_ending (from_client (received close)) o h = rw o (client_over _ refl)
  open_ending (from_client (received (text t))) o h = cc
  open_ending (from_client (received (binary d))) o h = cc
  open_ending (from_client (received (ping d))) o h = cc
  open_ending (from_client (received (pong d))) o h = cc
  open_ending (from_client failure) o h = rw o (client_over _ refl)
  open_ending (from_client ended) o h = rw o (client_over _ refl)
  open_ending (from_backend (received t_close)) o h = rw o (backend_over _ refl)
  open_ending (from_backend (received (t_frame d))) o h = rw o (backend_over _ refl)
  open_ending (from_backend (received (t_text t))) o h = cc
  open_ending (from_backend (received (t_binary d))) o h = cc
  open_ending (from_backend (received (t_ping d))) o h = cc
  open_ending (from_backend (received (t_pong d))) o h = cc
  open_ending (from_backend failure) o h = rw o (backend_over _ refl)
  open_ending (from_backend ended) o h = rw o (backend_over _ refl)

  ending_turn : (t : Turn) → is_ending t ≡ true → is_open (take_turn sinks t c) ≡ false
  unfolding take_turns
  ending_turn t h = elim (Bool-cases (is_open c)) [
    | inl still ↦ open_ending t still h
    | inr over ↦ ap is_open (take_turns-closed sinks (t ∷ []) c over) ∙ over
  ]

-- Whether a connection was made and still runs.
abbrev pub is_running : Option Connection → Bool
is_running none = false
is_running (some c) = is_open c

-- Whatever the sinks accept and whatever was said before, a connection is over with the first turn
-- in which a side closes, fails, ends or sends a raw frame: nothing that a side says afterwards
-- changes it, no loop runs on, and `ws_active_connections` went down as often as it went up.
pub ended_connection :
    (connects : String → Bool) (sinks : Sinks) (url label owner : String) (before : List Turn)
    (t : Turn) (after : List Turn)
    → is_ending t ≡ true
    → (handle_ws_connection connects sinks url label owner (before ++ t ∷ after)
        ≡ handle_ws_connection connects sinks url label owner (before ++ t ∷ []))
      × (is_running
            (handle_ws_connection connects sinks url label owner (before ++ t ∷ after)).connection
          ≡ false)
      × ((handle_ws_connection connects sinks url label owner (before ++ t ∷ after)).left
          ≡ (handle_ws_connection connects sinks url label owner (before ++ t ∷ after)).entered)
unfolding handle_ws_connection take_turns
ended_connection connects sinks url label owner before t after h =
    let at = take_turn sinks t (take_turns sinks before opened) in
    let over = ending_turn sinks (take_turns sinks before opened) t h in
    let whole =
      take_turns-append sinks before (t ∷ after) opened ∙ take_turns-closed sinks after at over in
    let short = take_turns-append sinks before (t ∷ []) opened in
    elim (Bool-cases (connects url)) [
      | inl made ↦ rw (made, whole, short) (refl, over, ap (λ b. if b then 0 else 1) over)
      | inr failed ↦ rw failed (refl, refl, refl)
    ]
