-- ===== src/Handlers/Ws/Sends/Whole.antt =====
-- One step of a connection whose sends take a while, against whole turns.
use sol_rpc_router.Base.{
  ◌≡◌, ◌∙◌, refl, sym, ap, inl, inr, Bool, true, false, Option, List, [], ◌∷◌, ◌++◌, arith,
  Bool-cases, if◌then◌else◌,
}
use sol_rpc_router.Handlers.Ws.{
  Message, close, TungsteniteMessage, t_close, to_backend, to_client, Item, turn, Sinks, Connection,
  Turn, from_client, from_backend, is_open, after_client, after_backend, take_turn, take_turns,
}
use sol_rpc_router.Handlers.Ws.Sends.{
  Way, Link, Moment, client_to_backend, backend_to_client, read, go_up, go_down, go,
}
use sol_rpc_router.Handlers.Ws.Sends.Loop.{
  with_sending, IsFrom, item_of, Goes, closed-sending, progress-Goes,
}

if_true : {A : Type 0} (b : Bool) (x y : A) → b ≡ true → (if b then x else y) ≡ x
if_true true x y h = refl
if_true false x y h = cc

-- A connection of whole turns, with the sends that are under way and what is still to be read.
abbrev pub linked_of :
    Connection
    → Option (TungsteniteMessage × Bool)
    → Option (Message × Bool)
    → List (Item Message)
    → List (Item TungsteniteMessage)
    → Link
linked_of c x y items items' = record {
  up = with_sending c.up x;
  down = with_sending c.down y;
  client_read = items;
  backend_read = items';
}

abbrev pub client_items : List Turn → List (Item Message)
client_items [] = []
client_items (from_client item ∷ ts) = item ∷ client_items ts
client_items (from_backend item ∷ ts) = client_items ts

abbrev pub backend_items : List Turn → List (Item TungsteniteMessage)
backend_items [] = []
backend_items (from_client item ∷ ts) = backend_items ts
backend_items (from_backend item ∷ ts) = item ∷ backend_items ts

-- The connection has sent what a connection of some whole turns has, of items that were there to
-- be read, in order.
pub record Follows (sinks : Sinks) (c : Connection) (before : List (Item Message))
    (before' : List (Item TungsteniteMessage)) (l : Link) : Type 0 where
  pub turns : List Turn
  pub x : Option (TungsteniteMessage × Bool)
  pub y : Option (Message × Bool)
  pub from_x : IsFrom to_backend x
  pub from_y : IsFrom to_client y
  pub same : l ≡ linked_of (take_turns sinks turns c) x y l.client_read l.backend_read
  pub read_up : client_items turns ++ (item_of to_backend x from_x ++ l.client_read) ≡ before
  pub read_down : backend_items turns ++ (item_of to_client y from_y ++ l.backend_read) ≡ before'

module _ (sinks : Sinks) (c : Connection) (x : Option (TungsteniteMessage × Bool))
    (y : Option (Message × Bool)) (items : List (Item Message))
    (items' : List (Item TungsteniteMessage)) (from_x : IsFrom to_backend x)
    (from_y : IsFrom to_client y) where
  abbrev here : Link
  here = linked_of c x y items items'

  abbrev before : List (Item Message)
  before = item_of to_backend x from_x ++ items

  abbrev before' : List (Item TungsteniteMessage)
  before' = item_of to_client y from_y ++ items'

  up-Follows :
      (w : Way TungsteniteMessage) (left : List (Item Message))
      → is_open c ≡ true
      → c.up.running ≡ true
      → Goes to_backend sinks.backend c.up before (w, left)
      → Follows sinks c before before' (go_up sinks (w, left) here)
  unfolding take_turns take_turn
  up-Follows w left h runs (x', from, inl (e, read)) = record {
    turns = [];
    x = x';
    y = y;
    from_x = from;
    from_y = from_y;
    same =
        ap (λ u. go_up sinks (u, left) here) e
        ∙ ap (λ u. record here { up = u; client_read = left })
            (closed-sending sinks.backend t_close c.up x')
        ∙ ap (λ ch. record here { up = with_sending ch x'; client_read = left })
            (if_true c.up.running c.up _ runs);
    read_up = read;
    read_down = refl;
  }
  up-Follows w left h runs (x', from, inr (item, e, read)) =
      let ch = turn to_backend sinks.backend item c.up in
      record {
        turns = from_client item ∷ [];
        x = x';
        y = y;
        from_x = from;
        from_y = from_y;
        same =
            ap (λ u. go_up sinks (u, left) here) e
            ∙ ap (λ u. record here { up = u; client_read = left })
                (closed-sending sinks.backend t_close ch x')
            ∙ ap (λ d. linked_of d x' y left items')
                (sym (if_true (is_open c) (after_client sinks ch c) c h));
        read_up = read;
        read_down = refl;
      }

  down-Follows :
      (w : Way Message) (left : List (Item TungsteniteMessage))
      → is_open c ≡ true
      → c.down.running ≡ true
      → Goes to_client sinks.client c.down before' (w, left)
      → Follows sinks c before before' (go_down sinks (w, left) here)
  unfolding take_turns take_turn
  down-Follows w left h runs (y', from, inl (e, read)) = record {
    turns = [];
    x = x;
    y = y';
    from_x = from_x;
    from_y = from;
    same =
        ap (λ u. go_down sinks (u, left) here) e
        ∙ ap (λ u. record here { down = u; backend_read = left })
            (closed-sending sinks.client close c.down y')
        ∙ ap (λ ch. record here { down = with_sending ch y'; backend_read = left })
            (if_true c.down.running c.down _ runs);
    read_up = refl;
    read_down = read;
  }
  down-Follows w left h runs (y', from, inr (item, e, read)) =
      let ch = turn to_client sinks.client item c.down in
      record {
        turns = from_backend item ∷ [];
        x = x;
        y = y';
        from_x = from_x;
        from_y = from;
        same =
            ap (λ u. go_down sinks (u, left) here) e
            ∙ ap (λ u. record here { down = u; backend_read = left })
                (closed-sending sinks.client close ch y')
            ∙ ap (λ d. linked_of d x y' items left)
                (sym (if_true (is_open c) (after_backend sinks ch c) c h));
        read_up = refl;
        read_down = read;
      }

  stays-Follows : (l : Link) → l ≡ here → Follows sinks c before before' l
  unfolding take_turns
  stays-Follows l e = record {
    turns = [];
    x = x;
    y = y;
    from_x = from_x;
    from_y = from_y;
    same = e ∙ ap (λ (k : Link). linked_of c x y k.client_read k.backend_read) (sym e);
    read_up = ap (λ (k : Link). item_of to_backend x from_x ++ k.client_read) e;
    read_down = ap (λ (k : Link). item_of to_client y from_y ++ k.backend_read) e;
  }

  open-Follows : (m : Moment) → is_open c ≡ true → Follows sinks c before before' (go sinks m here)
  unfolding go
  open-Follows client_to_backend h =
      rw h (
        up-Follows _ _ h (ground arith)
          (progress-Goes to_backend sinks.backend c.up x items from_x))
  open-Follows backend_to_client h = rw h (
      down-Follows _ _ h (ground arith)
        (progress-Goes to_client sinks.client c.down y items' from_y))

  closed_stays : (m : Moment) → is_open c ≡ false → go sinks m here ≡ here
  unfolding go
  closed_stays client_to_backend h = rw h refl
  closed_stays backend_to_client h = rw h refl

  pub go-Follows : (m : Moment) → Follows sinks c before before' (go sinks m here)
  go-Follows m = elim (Bool-cases (is_open c)) [
    | inl opens ↦ open-Follows m opens
    | inr over ↦ stays-Follows (go sinks m here) (closed_stays m over)
  ]
