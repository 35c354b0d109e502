-- ===== src/Handlers/Ws/Sends/Run.antt =====
-- A whole run of a connection whose sends take a while, against whole turns.
use mathlib.Core.List.{append_assoc}
use sol_rpc_router.Base.{◌∙◌, refl, sym, ap, subst, Bool, Option, List, [], ◌∷◌, ◌++◌}
use sol_rpc_router.Handlers.Ws.{
  Message, TungsteniteMessage, to_backend, to_client, Item, Sinks, Connection, take_turns,
}
use sol_rpc_router.Handlers.Ws.Ending.{take_turns-append}
use sol_rpc_router.Handlers.Ws.Sends.{Link, Moment, go, go_on}
use sol_rpc_router.Handlers.Ws.Sends.Loop.{IsFrom, item_of}
use sol_rpc_router.Handlers.Ws.Sends.Whole.{
  linked_of, client_items, backend_items, Follows, go-Follows,
}
use sol_rpc_router.Handlers.Ws.Sends.Items.{client_items-append, backend_items-append}

then_Follows :
    (sinks : Sinks) (c : Connection) (before : List (Item Message))
    (before' : List (Item TungsteniteMessage)) (l k : Link) (f : Follows sinks c before before' l)
    → Follows sinks
        (take_turns sinks f.turns c)
        (item_of to_backend f.x f.from_x ++ l.client_read)
        (item_of to_client f.y f.from_y ++ l.backend_read)
        k
    → Follows sinks c before before' k
then_Follows sinks c before before' l k f g = record {
  turns = f.turns ++ g.turns;
  x = g.x;
  y = g.y;
  from_x = g.from_x;
  from_y = g.from_y;
  same =
      g.same
      ∙ ap (λ d. linked_of d g.x g.y k.client_read k.backend_read)
          (sym (take_turns-append sinks f.turns g.turns c));
  read_up =
      ap (λ items. items ++ (item_of to_backend g.x g.from_x ++ k.client_read))
        (client_items-append f.turns g.turns)
      ∙ append_assoc (client_items f.turns) (client_items g.turns) _
      ∙ ap (λ items. client_items f.turns ++ items) g.read_up
      ∙ f.read_up;
  read_down =
      ap (λ items. items ++ (item_of to_client g.y g.from_y ++ k.backend_read))
        (backend_items-append f.turns g.turns)
      ∙ append_assoc (backend_items f.turns) (backend_items g.turns) _
      ∙ ap (λ items. backend_items f.turns ++ items) g.read_down
      ∙ f.read_down;
}

pub go_on-Follows :
    (sinks : Sinks) (ms : List Moment) (c : Connection) (x : Option (TungsteniteMessage × Bool))
    (y : Option (Message × Bool)) (items : List (Item Message))
    (items' : List (Item TungsteniteMessage)) (from_x : IsFrom to_backend x)
    (from_y : IsFrom to_client y)
    → Follows sinks c
        (item_of to_backend x from_x ++ items)
        (item_of to_client y from_y ++ items')
        (go_on sinks ms (linked_of c x y items items'))
unfolding go_on take_turns
go_on-Follows sinks [] c x y items items' from_x from_y = record {
  turns = [];
  x = x;
  y = y;
  from_x = from_x;
  from_y = from_y;
  same = refl;
  read_up = refl;
  read_down = refl;
}
go_on-Follows sinks (m ∷ ms) c x y items items' from_x from_y =
    let f = go-Follows sinks c x y items items' from_x from_y m in
    let l = go sinks m (linked_of c x y items items') in
    let g =
      go_on-Follows sinks ms (take_turns sinks f.turns c) f.x f.y l.client_read l.backend_read
        f.from_x f.from_y in
    then_Follows sinks c _ _ l (go_on sinks ms l) f (
      subst
        (λ k.
          Follows sinks (take_turns sinks f.turns c)
            (item_of to_backend f.x f.from_x ++ l.client_read)
            (item_of to_client f.y f.from_y ++ l.backend_read) (go_on sinks ms k))
        (sym f.same) g)
