-- ===== src/Handlers/Ws/Sends/Relayed.antt =====
-- What each side of a WebSocket connection is sent, where sends take a while and may be cut off.
use mathlib.Core.List.Memᴰ
use mathlib.Core.List.{Memᴰ, append_assoc}
use sol_rpc_router.Base.{
  ◌≡◌, ◌∙◌, refl, sym, ap, subst, ◌⊎◌, inl, inr, Bool, true, false, Bool-cases, none, List, [],
  ◌++◌,
}
use sol_rpc_router.Handlers.Ws.{
  Message, close, TungsteniteMessage, t_close, to_backend, to_client, Item, Sinks, Connection, Turn,
  from_client, from_backend, is_open, take_turns, opened,
}
use sol_rpc_router.Handlers.Ws.Turns.{for_backend, for_client, message_of}
use sol_rpc_router.Handlers.Ws.Relay.{Relayed, all_messages, take_turns-Relayed}
use sol_rpc_router.Handlers.Ws.Ending.{is_ending}
use sol_rpc_router.Handlers.Ws.Causes.{Refuses, take_turns_cases, up_all, down_all}
use sol_rpc_router.Handlers.Ws.Sends.{Link, Moment, is_linked, go_on, linked}
use sol_rpc_router.Handlers.Ws.Sends.Loop.{item_of}
use sol_rpc_router.Handlers.Ws.Sends.Whole.{linked_of, client_items, backend_items, Follows}
use sol_rpc_router.Handlers.Ws.Sends.Run.{go_on-Follows}
use sol_rpc_router.Handlers.Ws.Sends.Items.{
  from_items, from_items-append, client_items-messages, backend_items-messages, under_way_up,
  under_way_down, mem-client_items, mem-backend_items,
}

longer-Relayed :
    {N : Type 0} (last : N) (messages more : List N) (still_open : Bool) (old new : List N)
    → Relayed last messages still_open old new
    → Relayed last (messages ++ more) still_open old new
longer-Relayed last messages more still_open old new (fwd, rest, all, result) =
    (fwd, rest ++ more, sym (append_assoc fwd rest more) ∙ ap (λ ms. ms ++ more) all, result)

-- Nothing is missing: what was sent, what is being sent and what is still to be read make up what
-- the two sides say.
abbrev pub IsComplete : List (Item Message) → List (Item TungsteniteMessage) → Link → Type 0
IsComplete client_says backend_says l =
    (l.up.sent ++ (message_of l.up.sending ++ from_items from_client for_backend l.client_read)
      ≡ from_items from_client for_backend client_says)
    × (l.down.sent
          ++ (message_of l.down.sending ++ from_items from_backend for_client l.backend_read)
        ≡ from_items from_backend for_client backend_says)

-- One of the two sides closes, fails, ends or sends a raw frame, or a sink refused a message.
abbrev pub HasCause : Sinks → List (Item Message) → List (Item TungsteniteMessage) → Type 0
HasCause sinks client_says backend_says =
    ((item : Item Message) × Memᴰ item client_says × (is_ending (from_client item) ≡ true))
    ⊎ (((item : Item TungsteniteMessage) × Memᴰ item backend_says
          × (is_ending (from_backend item) ≡ true))
        ⊎ Refuses sinks)

-- A connection runs and has lost nothing, or it ended for a reason.
abbrev pub IsAccounted :
    Sinks → List (Item Message) → List (Item TungsteniteMessage) → Link → Type 0
IsAccounted sinks client_says backend_says l =
    ((is_linked l ≡ true) × IsComplete client_says backend_says l)
    ⊎ ((is_linked l ≡ false) × HasCause sinks client_says backend_says)

module _ (sinks : Sinks) (client_says : List (Item Message))
    (backend_says : List (Item TungsteniteMessage)) (l : Link)
    (f : Follows sinks opened client_says backend_says l) where
  abbrev at : Connection
  at = take_turns sinks f.turns opened

  all_up :
      all_messages for_backend f.turns
        ++ from_items from_client for_backend (item_of to_backend f.x f.from_x ++ l.client_read)
      ≡ from_items from_client for_backend client_says
  all_up =
      ap
        (λ ms.
          ms
          ++ from_items from_client for_backend (item_of to_backend f.x f.from_x ++ l.client_read))
        (client_items-messages f.turns)
      ∙ sym (from_items-append from_client for_backend (client_items f.turns) _)
      ∙ ap (from_items from_client for_backend) f.read_up

  all_down :
      all_messages for_client f.turns
        ++ from_items from_backend for_client (item_of to_client f.y f.from_y ++ l.backend_read)
      ≡ from_items from_backend for_client backend_says
  all_down =
      ap
        (λ ms.
          ms
          ++ from_items from_backend for_client (item_of to_client f.y f.from_y ++ l.backend_read))
        (backend_items-messages f.turns)
      ∙ sym (from_items-append from_backend for_client (backend_items f.turns) _)
      ∙ ap (from_items from_backend for_client) f.read_down

  complete :
      is_open at ≡ true
      → IsComplete client_says backend_says (linked_of at f.x f.y l.client_read l.backend_read)
  complete opens = (
    ap (λ ms. ms ++ (message_of f.x ++ from_items from_client for_backend l.client_read))
          (up_all sinks f.turns opened refl opens)
        ∙ ap (λ ms. all_messages for_backend f.turns ++ ms)
            (sym (under_way_up f.x f.from_x l.client_read))
        ∙ all_up,
    ap (λ ms. ms ++ (message_of f.y ++ from_items from_backend for_client l.backend_read))
          (down_all sinks f.turns opened refl opens)
        ∙ ap (λ ms. all_messages for_client f.turns ++ ms)
            (sym (under_way_down f.y f.from_y l.backend_read))
        ∙ all_down,
  )

  cause_of :
      (t : Turn) → Memᴰ t f.turns → is_ending t ≡ true → HasCause sinks client_says backend_says
  cause_of (from_client item) m h = inl (
    item,
    subst (λ says. Memᴰ item says) f.read_up (Memᴰ.append_left _ (mem-client_items item f.turns m)),
    h,
  )
  cause_of (from_backend item) m h = inr (
      inl (
        item,
        subst (λ says. Memᴰ item says) f.read_down
            (Memᴰ.append_left _ (mem-backend_items item f.turns m)),
        h,
      ))

  whole-IsAccounted :
      IsAccounted sinks client_says backend_says (linked_of at f.x f.y l.client_read l.backend_read)
  whole-IsAccounted = elim (Bool-cases (is_open at)) [
    | inl opens ↦ inl (opens, complete opens)
    | inr over ↦ inr (
      over,
      elim (take_turns_cases sinks f.turns opened refl) [
        | inl opens ↦ absurd (cc)
        | inr (inl (t, m, h)) ↦ cause_of t m h
        | inr (inr refuses) ↦ inr (inr refuses)
      ],
    )
  ]

-- However long sends take and whatever the two sinks accept, in whatever order the two loops go on
-- and wherever the end of one cuts off a send of the other: the backend was sent, in order, the
-- first of the texts, binaries, pings and pongs that the client says, each as what it is, and the
-- client the first of the backend's, none left out, changed or sent twice. Only a connection that
-- has ended was also sent a close, once and last. While it runs, each side was sent everything that
-- the other says but for the message that is being sent and what is still to be read; and it ended
-- only if a sink refuses a message or a side says what ends it, which is a close, a failure, the end
-- of its stream or a raw frame of the backend.
pub go_on-Relayed :
    (sinks : Sinks) (client_says : List (Item Message))
    (backend_says : List (Item TungsteniteMessage)) (ms : List Moment)
    → let l = go_on sinks ms (linked client_says backend_says) in
      Relayed t_close (from_items from_client for_backend client_says) (is_linked l) [] l.up.sent
      × Relayed close (from_items from_backend for_client backend_says) (is_linked l) [] l.down.sent
      × IsAccounted sinks client_says backend_says l
go_on-Relayed sinks client_says backend_says ms =
    let l = go_on sinks ms (linked client_says backend_says) in
    let f = go_on-Follows sinks ms opened none none client_says backend_says tt tt in
    let at = take_turns sinks f.turns opened in
    let (up, down) = take_turns-Relayed sinks f.turns in
    (
      subst
          (λ (k : Link).
            Relayed t_close (from_items from_client for_backend client_says) (is_linked k) []
              k.up.sent)
          (sym f.same)
          (subst (λ ms. Relayed t_close ms (is_open at) [] at.up.sent)
            (all_up sinks client_says backend_says l f)
            (longer-Relayed t_close _ _ (is_open at) [] at.up.sent up)),
      subst
          (λ (k : Link).
            Relayed close (from_items from_backend for_client backend_says) (is_linked k) []
              k.down.sent)
          (sym f.same)
          (subst (λ ms. Relayed close ms (is_open at) [] at.down.sent)
            (all_down sinks client_says backend_says l f)
            (longer-Relayed close _ _ (is_open at) [] at.down.sent down)),
      subst (IsAccounted sinks client_says backend_says) (sym f.same)
          (whole-IsAccounted sinks client_says backend_says l f),
    )
