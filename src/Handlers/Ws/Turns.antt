-- ===== src/Handlers/Ws/Turns.antt =====
-- One turn of a loop of a WebSocket connection: what it sends to each side.
use mathlib.Core.List.{append-nil}
use sol_rpc_router.Base.{
  ◌≡◌, ◌∙◌, refl, sym, ap, ◌⊎◌, inl, inr, Bool, true, false, ◌&&◌, Option, none, some, List, [],
  ◌∷◌, ◌++◌, arith, Bool-cases, if◌then◌else◌,
}
use sol_rpc_router.Handlers.Ws.{
  Message, text, binary, ping, pong, close, TungsteniteMessage, t_text, t_binary, t_ping, t_pong,
  t_close, t_frame, to_backend, to_client, received, failure, ended, Channel, pass, turn, send,
  Sinks, Connection, Turn, from_client, from_backend, is_open, after_client, after_backend,
  take_turn,
}

abbrev pub message_of {ℓ} : {N : Type ℓ} → Option (N × Bool) → List N
message_of none = []
message_of (some (n, _)) = n ∷ []

-- The message of a turn that is for the other side: a text for a text, a binary for a binary, a
-- ping for a ping and a pong for a pong.
abbrev pub for_backend : Turn → List TungsteniteMessage
for_backend (from_client (received (text t))) = t_text t ∷ []
for_backend (from_client (received (binary d))) = t_binary d ∷ []
for_backend (from_client (received (ping d))) = t_ping d ∷ []
for_backend (from_client (received (pong d))) = t_pong d ∷ []
for_backend (from_client (received close)) = []
for_backend (from_client failure) = []
for_backend (from_client ended) = []
for_backend (from_backend item) = []

abbrev pub for_client : Turn → List Message
for_client (from_client item) = []
for_client (from_backend (received (t_text t))) = text t ∷ []
for_client (from_backend (received (t_binary d))) = binary d ∷ []
for_client (from_backend (received (t_ping d))) = ping d ∷ []
for_client (from_backend (received (t_pong d))) = pong d ∷ []
for_client (from_backend (received t_close)) = []
for_client (from_backend (received (t_frame d))) = []
for_client (from_backend failure) = []
for_client (from_backend ended) = []

pub message_of-to_backend :
    (m : Message) → message_of (to_backend m) ≡ for_backend (from_client (received m))
message_of-to_backend (text t) = refl
message_of-to_backend (binary d) = refl
message_of-to_backend (ping d) = refl
message_of-to_backend (pong d) = refl
message_of-to_backend close = refl

pub message_of-to_client :
    (m : TungsteniteMessage) → message_of (to_client m) ≡ for_client (from_backend (received m))
message_of-to_client (t_text t) = refl
message_of-to_client (t_binary d) = refl
message_of-to_client (t_ping d) = refl
message_of-to_client (t_pong d) = refl
message_of-to_client t_close = refl
message_of-to_client (t_frame d) = refl

-- One turn: it relays its message and the connection stays open, or it ends the connection.
abbrev pub OneTurn : {N : Type 0} → N → List N → Bool → List N → List N → Type 0
OneTurn last part still_open old new =
    ((still_open ≡ true) × (new ≡ old ++ part))
    ⊎ ((still_open ≡ false) × ((new ≡ old) ⊎ (new ≡ old ++ last ∷ [])))

-- What a turn does to its own channel.
abbrev Passed : {N : Type 0} → List N → Channel N → Channel N → Type 0
Passed part before after =
    ((after.running ≡ true) × (after.sent ≡ before.sent ++ part))
    ⊎ ((after.running ≡ false) × (after.sent ≡ before.sent))

pass-Passed :
    {M N : Type 0} (convert : M → Option (N × Bool)) (accepts : List N → N → Bool)
    (x : Option (N × Bool)) (ch : Channel N)
    → ch.running ≡ true
    → Passed (message_of x) ch (pass convert accepts x ch)
pass-Passed convert accepts none ch h = inr (refl, refl)
pass-Passed convert accepts (some (n, counts)) ch h = elim (Bool-cases (accepts ch.sent n)) [
  | inl accepted ↦ inl (rw (accepted, h), rw accepted)
  | inr refused ↦ inr (rw refused, rw refused)
]

pub send-kept :
    {N : Type 0} (accepts : List N → N → Bool) (n : N) (ch : Channel N)
    → ((send accepts n ch).running ≡ ch.running)
      × (((send accepts n ch).sent ≡ ch.sent) ⊎ ((send accepts n ch).sent ≡ ch.sent ++ n ∷ []))
unfolding send
send-kept accepts n ch = elim (Bool-cases (accepts ch.sent n)) [
  | inl accepted ↦ (rw accepted, inr (rw accepted))
  | inr refused ↦ (rw refused, inl (rw refused))
]

if_false : {A : Type 0} (b : Bool) (x y : A) → b ≡ false → (if b then x else y) ≡ y
if_false true x y h = cc
if_false false x y h = refl

-- A loop that has ended: a close is sent, if the sink takes it.
abbrev pub settled : {N : Type 0} → (List N → N → Bool) → N → Channel N → Channel N
settled accepts last ch = if ch.running then ch else send accepts last ch

pub settled-stops :
    {N : Type 0} (accepts : List N → N → Bool) (last : N) (ch : Channel N) (old : List N)
    → ch.running ≡ false
    → ch.sent ≡ old
    → ((settled accepts last ch).running ≡ false)
      × (((settled accepts last ch).sent ≡ old)
          ⊎ ((settled accepts last ch).sent ≡ old ++ last ∷ []))
settled-stops accepts last ch old stops sent =
    let is_sent = if_false ch.running ch (send accepts last ch) stops in
    let (kept, closes) = send-kept accepts last ch in
    (
      ap (λ d. d.running) is_sent ∙ kept ∙ stops,
      elim closes [
        | inl e ↦ inl (ap (λ d. d.sent) is_sent ∙ e ∙ sent)
        | inr e ↦ inr (ap (λ d. d.sent) is_sent ∙ e ∙ ap (λ ms. ms ++ last ∷ []) sent)
      ],
    )

-- The end of a turn, for the side that it sends to and for the other side.
module _ (sinks : Sinks) (c : Connection) (h : is_open c ≡ true) where
  up_runs : c.up.running ≡ true
  up_runs = ground arith

  down_runs : c.down.running ≡ true
  down_runs = ground arith

  up_stops : {b : Bool} → b ≡ false → (b && c.down.running) ≡ false
  up_stops e = rw e

  down_stops : {b : Bool} → b ≡ false → (c.up.running && b) ≡ false
  down_stops e = rw (e, up_runs)

  after_client-up :
      (part : List TungsteniteMessage) (up : Channel TungsteniteMessage)
      → Passed part c.up up
      → OneTurn t_close part
          (is_open (after_client sinks up c))
          c.up.sent
          (after_client sinks up c).up.sent
  after_client-up part up (inl (runs, sent)) = inl (simp (runs, down_runs), rw runs sent)
  after_client-up part up (inr (stops, sent)) =
      let (over, closes) = settled-stops sinks.backend t_close up c.up.sent stops sent in
      inr (up_stops over, closes)

  after_client-down :
      (up : Channel TungsteniteMessage)
      → OneTurn close []
          (is_open (after_client sinks up c))
          c.down.sent
          (after_client sinks up c).down.sent
  after_client-down up = elim (Bool-cases up.running) [
    | inl runs ↦ inl (simp (runs, down_runs), sym (append-nil c.down.sent))
    | inr stops ↦
        inr (up_stops (settled-stops sinks.backend t_close up up.sent stops refl).0, inl refl)
  ]

  after_backend-down :
      (part : List Message) (down : Channel Message)
      → Passed part c.down down
      → OneTurn close part
          (is_open (after_backend sinks down c))
          c.down.sent
          (after_backend sinks down c).down.sent
  after_backend-down part down (inl (runs, sent)) = inl (simp (runs, up_runs), rw runs sent)
  after_backend-down part down (inr (stops, sent)) =
      let (over, closes) = settled-stops sinks.client close down c.down.sent stops sent in
      inr (down_stops over, closes)

  after_backend-up :
      (down : Channel Message)
      → OneTurn t_close []
          (is_open (after_backend sinks down c))
          c.up.sent
          (after_backend sinks down c).up.sent
  after_backend-up down = elim (Bool-cases down.running) [
    | inl runs ↦ inl (simp (runs, up_runs), sym (append-nil c.up.sent))
    | inr stops ↦
        inr (down_stops (settled-stops sinks.client close down down.sent stops refl).0, inl refl)
  ]

pub up_one :
    (sinks : Sinks) (t : Turn) (c : Connection)
    → is_open c ≡ true
    → OneTurn t_close
        (for_backend t)
        (is_open (take_turn sinks t c))
        c.up.sent
        (take_turn sinks t c).up.sent
unfolding take_turn turn
up_one sinks (from_client (received m)) c h =
    rw (h, ← message_of-to_backend m)
      (after_client-up sinks c h (message_of (to_backend m)) _
        (pass-Passed to_backend sinks.backend (to_backend m) c.up (up_runs sinks c h)))
up_one sinks (from_client failure) c h =
    rw h (after_client-up sinks c h [] (record c.up { running = false }) (inr (refl, refl)))
up_one sinks (from_client ended) c h =
    rw h (after_client-up sinks c h [] (record c.up { running = false }) (inr (refl, refl)))
up_one sinks (from_backend item) c h =
    rw h (after_backend-up sinks c h (turn to_client sinks.client item c.down))

pub down_one :
    (sinks : Sinks) (t : Turn) (c : Connection)
    → is_open c ≡ true
    → OneTurn close
        (for_client t)
        (is_open (take_turn sinks t c))
        c.down.sent
        (take_turn sinks t c).down.sent
unfolding take_turn turn
down_one sinks (from_backend (received m)) c h =
    rw (h, ← message_of-to_client m)
      (after_backend-down sinks c h (message_of (to_client m)) _
        (pass-Passed to_client sinks.client (to_client m) c.down (down_runs sinks c h)))
down_one sinks (from_backend failure) c h =
    rw h (after_backend-down sinks c h [] (record c.down { running = false }) (inr (refl, refl)))
down_one sinks (from_backend ended) c h =
    rw h (after_backend-down sinks c h [] (record c.down { running = false }) (inr (refl, refl)))
down_one sinks (from_client item) c h =
    rw h (after_client-down sinks c h (turn to_backend sinks.backend item c.up))
