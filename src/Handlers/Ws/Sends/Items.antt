-- ===== src/Handlers/Ws/Sends/Items.antt =====
-- The items that the two sides of a WebSocket connection say, and the messages among them.
use mathlib.Core.List.Memᴰ
use mathlib.Core.List.{Memᴰ, append_assoc}
use sol_rpc_router.Base.{
  ◌≡◌, ◌∙◌, refl, sym, ap, map, Bool, Option, none, some, List, [], ◌∷◌, ◌++◌, inl, inr,
}
use sol_rpc_router.Handlers.Ws.{
  Message, TungsteniteMessage, to_backend, to_client, Item, Turn, from_client, from_backend,
}
use sol_rpc_router.Handlers.Ws.Turns.{
  for_backend, for_client, message_of, message_of-to_backend, message_of-to_client,
}
use sol_rpc_router.Handlers.Ws.Relay.{all_messages}
use sol_rpc_router.Handlers.Ws.Sends.Loop.{IsFrom, item_of}
use sol_rpc_router.Handlers.Ws.Sends.Whole.{client_items, backend_items}

pub client_items-append :
    (ts us : List Turn) → client_items (ts ++ us) ≡ client_items ts ++ client_items us
client_items-append [] us = refl
client_items-append (from_client item ∷ ts) us =
    ap (λ items. item ∷ items) (client_items-append ts us)
client_items-append (from_backend item ∷ ts) us = client_items-append ts us

pub backend_items-append :
    (ts us : List Turn) → backend_items (ts ++ us) ≡ backend_items ts ++ backend_items us
backend_items-append [] us = refl
backend_items-append (from_client item ∷ ts) us = backend_items-append ts us
backend_items-append (from_backend item ∷ ts) us =
    ap (λ items. item ∷ items) (backend_items-append ts us)

-- The messages of the items that a side says.
abbrev pub from_items {ℓ} :
    {I : Type 0} {N : Type ℓ} → (I → Turn) → (Turn → List N) → List I → List N
from_items side part items = all_messages part (map side items)

pub from_items-append :
    {I N : Type 0} (side : I → Turn) (part : Turn → List N) (items more : List I)
    → from_items side part (items ++ more) ≡ from_items side part items ++ from_items side part more
from_items-append side part [] more = refl
from_items-append side part (i ∷ items) more =
    ap (λ ms. part (side i) ++ ms) (from_items-append side part items more)
    ∙ sym (append_assoc (part (side i)) (from_items side part items) (from_items side part more))

pub client_items-messages :
    (ts : List Turn)
    → all_messages for_backend ts ≡ from_items from_client for_backend (client_items ts)
client_items-messages [] = refl
client_items-messages (from_client item ∷ ts) =
    ap (λ ms. for_backend (from_client item) ++ ms) (client_items-messages ts)
client_items-messages (from_backend item ∷ ts) = client_items-messages ts

pub backend_items-messages :
    (ts : List Turn)
    → all_messages for_client ts ≡ from_items from_backend for_client (backend_items ts)
backend_items-messages [] = refl
backend_items-messages (from_client item ∷ ts) = backend_items-messages ts
backend_items-messages (from_backend item ∷ ts) =
    ap (λ ms. for_client (from_backend item) ++ ms) (backend_items-messages ts)

-- The message that is being sent, before those that are still to be read.
pub under_way_up :
    (x : Option (TungsteniteMessage × Bool)) (from_x : IsFrom to_backend x)
    (items : List (Item Message))
    → from_items from_client for_backend (item_of to_backend x from_x ++ items)
      ≡ message_of x ++ from_items from_client for_backend items
under_way_up none from_x items = refl
under_way_up (some y) (m, e) items =
    ap (λ ms. ms ++ from_items from_client for_backend items)
      (sym (message_of-to_backend m) ∙ ap message_of e)

pub under_way_down :
    (y : Option (Message × Bool)) (from_y : IsFrom to_client y)
    (items : List (Item TungsteniteMessage))
    → from_items from_backend for_client (item_of to_client y from_y ++ items)
      ≡ message_of y ++ from_items from_backend for_client items
under_way_down none from_y items = refl
under_way_down (some z) (m, e) items =
    ap (λ ms. ms ++ from_items from_backend for_client items)
      (sym (message_of-to_client m) ∙ ap message_of e)

pub mem-client_items :
    (item : Item Message) (ts : List Turn)
    → Memᴰ (from_client item) ts
    → Memᴰ item (client_items ts)
mem-client_items item [] m = absurd (Memᴰ.not-nil m)
mem-client_items item (from_client i ∷ ts) m = elim (Memᴰ.cases_cons m) [
  | inl e ↦ Memᴰ.head (cc)
  | inr t ↦ Memᴰ.tail (mem-client_items item ts t)
]
mem-client_items item (from_backend i ∷ ts) m = elim (Memᴰ.cases_cons m) [
  | inl e ↦ absurd (cc)
  | inr t ↦ mem-client_items item ts t
]

pub mem-backend_items :
    (item : Item TungsteniteMessage) (ts : List Turn)
    → Memᴰ (from_backend item) ts
    → Memᴰ item (backend_items ts)
mem-backend_items item [] m = absurd (Memᴰ.not-nil m)
mem-backend_items item (from_client i ∷ ts) m = elim (Memᴰ.cases_cons m) [
  | inl e ↦ absurd (cc)
  | inr t ↦ mem-backend_items item ts t
]
mem-backend_items item (from_backend i ∷ ts) m = elim (Memᴰ.cases_cons m) [
  | inl e ↦ Memᴰ.head (cc)
  | inr t ↦ Memᴰ.tail (mem-backend_items item ts t)
]
