-- ===== src/Handlers/Ws/Sends/Loop.antt =====
-- One loop whose sends take a while, against whole turns of it.
use sol_rpc_router.Base.{
  ℕ, ◌+◌, ◌≡◌, ◌∙◌, refl, sym, ap, inl, inr, ◌⊎◌, Bool, true, false, Option, none, some, List, [],
  ◌∷◌, ◌++◌, arith, if◌then◌else◌,
}
use sol_rpc_router.Handlers.Ws.{Item, received, failure, ended, Channel, pass, turn, send}
use sol_rpc_router.Handlers.Ws.Sends.{Way, begin, progress, took, last_word}

abbrev pub pending : {N : Type 0} → Option (N × Bool) → ℕ
pending none = 0
pending (some (n, is_counted)) = if is_counted then 1 else 0

-- A channel with a send under way.
abbrev pub with_sending : {N : Type 0} → Channel N → Option (N × Bool) → Way N
with_sending ch x = record {
  sent = ch.sent;
  counted = ch.counted + pending x;
  running = ch.running;
  sending = x;
}

-- The message under way came from the other side.
abbrev pub IsFrom : {M N : Type 0} → (M → Option (N × Bool)) → Option (N × Bool) → Type 0
IsFrom convert none = Unit
IsFrom {M} convert (some y) = (m : M) × (convert m ≡ some y)

-- The item that it came with.
abbrev pub item_of :
    {M N : Type 0} (convert : M → Option (N × Bool)) (x : Option (N × Bool))
    → IsFrom convert x
    → List (Item M)
item_of convert none from = []
item_of convert (some y) (m, e) = received m ∷ []

pick_with :
    {N : Type 0} (b : Bool) (c d : Channel N) (x : Option (N × Bool))
    → (if b then with_sending c x else with_sending d x) ≡ with_sending (if b then c else d) x
pick_with true c d x = refl
pick_with false c d x = refl

-- A loop that has ended: a close is sent, if the sink takes it.
pub closed-sending :
    {N : Type 0} (accepts : List N → N → Bool) (last : N) (c : Channel N) (x : Option (N × Bool))
    → last_word accepts last (with_sending c x)
      ≡ with_sending (if c.running then c else send accepts last c) x
unfolding send
closed-sending accepts last c x =
    ap (λ w. if c.running then with_sending c x else w)
      (pick_with (accepts c.sent last) (record c { sent = c.sent ++ last ∷ [] }) c x)
    ∙ pick_with c.running c (send accepts last c) x

module _ {M N : Type 0} (convert : M → Option (N × Bool)) (accepts : List N → N → Bool)
    (ch : Channel N) where
  counted_once :
      (n : N) (b : Bool)
      → ch.counted + pending (some (n, b)) ≡ (if b then ch.counted + 1 else ch.counted) + 0
  counted_once n true = omega arith
  counted_once n false = omega arith

  took-pass :
      (n : N) (b : Bool)
      → took accepts (some (n, b)) (with_sending ch (some (n, b)))
        ≡ with_sending (pass convert accepts (some (n, b)) ch) none
  took-pass n b =
      let count = if b then ch.counted + 1 else ch.counted in
      ap
        (λ (k : ℕ).
          if accepts ch.sent n
          then (record {
            sent = ch.sent ++ n ∷ [];
            counted = k;
            running = ch.running;
            sending = none;
          })
          else record { sent = ch.sent; counted = k; running = false; sending = none })
        (counted_once n b)
      ∙ pick_with (accepts ch.sent n) (record ch { sent = ch.sent ++ n ∷ []; counted = count })
          (record ch { counted = count; running = false }) none

  -- A loop has read an item, of which the other side has seen nothing yet, or takes a whole turn.
  abbrev pub Goes : List (Item M) → Way N × List (Item M) → Type 0
  Goes before (w, items) =
      (x : Option (N × Bool)) × (from : IsFrom convert x) × (((w ≡ with_sending ch x)
          × (item_of convert x from ++ items ≡ before))
        ⊎ ((item : Item M) × (w ≡ with_sending (turn convert accepts item ch) x)
            × (item ∷ (item_of convert x from ++ items) ≡ before)))

  begin-Goes :
      (m : M) (items : List (Item M)) (o : Option (N × Bool))
      → convert m ≡ o
      → Goes (received m ∷ items) (begin o (with_sending ch none), items)
  unfolding turn
  begin-Goes m items none e = (
    none,
    tt,
    inr (received m, ap (λ o. with_sending (pass convert accepts o ch) none) (sym e), refl),
  )
  begin-Goes m items (some (n, true)) e = (
    some (n, true),
    (m, e),
    inl (
      ap
          (λ (k : ℕ). record {
            sent = ch.sent;
            counted = k;
            running = ch.running;
            sending = some (n, true);
          })
          (omega arith),
      refl,
    ),
  )
  begin-Goes m items (some (n, false)) e = (some (n, false), (m, e), inl (refl, refl))

  pub progress-Goes :
      (x : Option (N × Bool)) (items : List (Item M)) (from : IsFrom convert x)
      → Goes
          (item_of convert x from ++ items)
          (progress convert accepts x items (with_sending ch x))
  unfolding turn
  progress-Goes none [] from = (none, tt, inl (refl, refl))
  progress-Goes none (received m ∷ items) from = begin-Goes m items (convert m) refl
  progress-Goes none (failure ∷ items) from = (none, tt, inr (failure, refl, refl))
  progress-Goes none (ended ∷ items) from = (none, tt, inr (ended, refl, refl))
  progress-Goes (some (n, b)) items (m, e) = (
    none,
    tt,
    inr (
      received m,
      took-pass n b ∙ ap (λ o. with_sending (pass convert accepts o ch) none) (sym e),
      refl,
    ),
  )
