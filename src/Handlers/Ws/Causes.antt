-- ===== src/Handlers/Ws/Causes.antt =====
-- Why a WebSocket connection ends, and what it has relayed while it runs.
use mathlib.Core.List.{Memᴰ, append-nil, append_assoc}
use sol_rpc_router.Base.{
  ◌≡◌, ◌∙◌, refl, sym, ap, ◌⊎◌, inl, inr, Bool, true, false, some, List, [], ◌∷◌, ◌++◌, arith,
  Bool-cases,
}
use sol_rpc_router.Handlers.Ws.{
  Message, text, binary, ping, pong, close, TungsteniteMessage, t_text, t_binary, t_ping, t_pong,
  t_close, t_frame, to_backend, to_client, received, failure, ended, pass, turn, Sinks, Connection,
  Turn, from_client, from_backend, is_open, after_client, after_backend, take_turn, take_turns,
}
use sol_rpc_router.Handlers.Ws.Turns.{for_backend, for_client, OneTurn, up_one, down_one}
use sol_rpc_router.Handlers.Ws.Relay.{all_messages, take_turns-closed}
use sol_rpc_router.Handlers.Ws.Ending.{is_ending}

-- A sink refused a message.
abbrev pub Refuses : Sinks → Type 0
Refuses sinks =
    ((sent : List TungsteniteMessage) × (n : TungsteniteMessage) × (sinks.backend sent n ≡ false))
    ⊎ ((sent : List Message) × (n : Message) × (sinks.client sent n ≡ false))

-- A turn leaves the connection open, or is an ending one, or met a refusal.
abbrev GoesOn : Sinks → Turn → Connection → Type 0
GoesOn sinks t c = (is_open (take_turn sinks t c) ≡ true) ⊎ ((is_ending t ≡ true) ⊎ Refuses sinks)

module _ (sinks : Sinks) (c : Connection) (h : is_open c ≡ true) {X : Type 0} where
  relays_up :
      (n : TungsteniteMessage) (is_counted : Bool)
      → (is_open (after_client sinks (pass to_backend sinks.backend (some (n, is_counted)) c.up) c)
          ≡ true)
        ⊎ (X ⊎ Refuses sinks)
  relays_up n is_counted = elim (Bool-cases (sinks.backend c.up.sent n)) [
    | inl accepted ↦ inl (rw accepted (ground arith))
    | inr refused ↦ inr (inr (inl (c.up.sent, n, refused)))
  ]

  relays_down :
      (n : Message) (is_counted : Bool)
      → (is_open (after_backend sinks (pass to_client sinks.client (some (n, is_counted)) c.down) c)
          ≡ true)
        ⊎ (X ⊎ Refuses sinks)
  relays_down n is_counted = elim (Bool-cases (sinks.client c.down.sent n)) [
    | inl accepted ↦ inl (rw accepted (ground arith))
    | inr refused ↦ inr (inr (inr (c.down.sent, n, refused)))
  ]

take_turn-GoesOn : (sinks : Sinks) (t : Turn) (c : Connection) → is_open c ≡ true → GoesOn sinks t c
unfolding take_turn turn
take_turn-GoesOn sinks (from_client (received (text t))) c h =
    rw h (relays_up sinks c h (t_text t) true)
take_turn-GoesOn sinks (from_client (received (binary d))) c h =
    rw h (relays_up sinks c h (t_binary d) true)
take_turn-GoesOn sinks (from_client (received (ping d))) c h =
    rw h (relays_up sinks c h (t_ping d) false)
take_turn-GoesOn sinks (from_client (received (pong d))) c h =
    rw h (relays_up sinks c h (t_pong d) false)
take_turn-GoesOn sinks (from_client (received close)) c h = inr (inl refl)
take_turn-GoesOn sinks (from_client failure) c h = inr (inl refl)
take_turn-GoesOn sinks (from_client ended) c h = inr (inl refl)
take_turn-GoesOn sinks (from_backend (received (t_text t))) c h =
    rw h (relays_down sinks c h (text t) true)
take_turn-GoesOn sinks (from_backend (received (t_binary d))) c h =
    rw h (relays_down sinks c h (binary d) true)
take_turn-GoesOn sinks (from_backend (received (t_ping d))) c h =
    rw h (relays_down sinks c h (ping d) false)
take_turn-GoesOn sinks (from_backend (received (t_pong d))) c h =
    rw h (relays_down sinks c h (pong d) false)
take_turn-GoesOn sinks (from_backend (received t_close)) c h = inr (inl refl)
take_turn-GoesOn sinks (from_backend (received (t_frame d))) c h = inr (inl refl)
take_turn-GoesOn sinks (from_backend failure) c h = inr (inl refl)
take_turn-GoesOn sinks (from_backend ended) c h = inr (inl refl)

-- A connection that was open is open after some turns, or one of them was an ending one, or a sink
-- refused a message.
pub take_turns_cases :
    (sinks : Sinks) (ts : List Turn) (c : Connection)
    → is_open c ≡ true
    → (is_open (take_turns sinks ts c) ≡ true)
      ⊎ (((t : Turn) × Memᴰ t ts × (is_ending t ≡ true)) ⊎ Refuses sinks)
unfolding take_turns
take_turns_cases sinks [] c h = inl h
take_turns_cases sinks (t ∷ ts) c h = elim (take_turn-GoesOn sinks t c h) [
  | inr (inl ending) ↦ inr (inl (t, Memᴰ.head refl, ending))
  | inr (inr refuses) ↦ inr (inr refuses)
  | inl still ↦ elim (take_turns_cases sinks ts (take_turn sinks t c) still) [
    | inl opens ↦ inl opens
    | inr (inl (u, m, ending)) ↦ inr (inl (u, Memᴰ.tail m, ending))
    | inr (inr refuses) ↦ inr (inr refuses)
  ]
]

module _ (sinks : Sinks) {N : Type 0} (last : N) (sent : Connection → List N) (part : Turn → List N)
    (one : (t : Turn) (c : Connection)
      → is_open c ≡ true
      → OneTurn last
          (part t)
          (is_open (take_turn sinks t c))
          (sent c)
          (sent (take_turn sinks t c))) where
  -- While the connection is open, every message of its turns was sent.
  relayed_all :
      (ts : List Turn) (c : Connection)
      → is_open c ≡ true
      → is_open (take_turns sinks ts c) ≡ true
      → sent (take_turns sinks ts c) ≡ sent c ++ all_messages part ts
  unfolding take_turns
  relayed_all [] c h _ = sym (append-nil (sent c))
  relayed_all (t ∷ ts) c h opens = elim (one t c h) [
    | inl (still, new) ↦
        relayed_all ts (take_turn sinks t c) still opens
        ∙ ap (λ ms. ms ++ all_messages part ts) new
        ∙ append_assoc (sent c) (part t) (all_messages part ts)
    | inr (over, _) ↦
        let stopped = ap is_open (take_turns-closed sinks ts (take_turn sinks t c) over) in
        absurd (cc)
  ]

pub up_all :
    (sinks : Sinks) (ts : List Turn) (c : Connection)
    → is_open c ≡ true
    → is_open (take_turns sinks ts c) ≡ true
    → (take_turns sinks ts c).up.sent ≡ c.up.sent ++ all_messages for_backend ts
up_all sinks ts = relayed_all sinks t_close (λ c. c.up.sent) for_backend (up_one sinks) ts

pub down_all :
    (sinks : Sinks) (ts : List Turn) (c : Connection)
    → is_open c ≡ true
    → is_open (take_turns sinks ts c) ≡ true
    → (take_turns sinks ts c).down.sent ≡ c.down.sent ++ all_messages for_client ts
down_all sinks ts = relayed_all sinks close (λ c. c.down.sent) for_client (down_one sinks) ts
