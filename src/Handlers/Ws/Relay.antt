-- ===== src/Handlers/Ws/Relay.antt =====
-- The two loops of a WebSocket connection: what each side is sent.
use mathlib.Core.List.{append-nil, append_assoc}
use sol_rpc_router.Base.{
  ◌≡◌, ◌∙◌, refl, sym, ap, ◌⊎◌, inl, inr, Bool, true, false, List, [], ◌∷◌, ◌++◌,
}
use sol_rpc_router.Handlers.Ws.{
  close, t_close, Sinks, Connection, Turn, from_client, from_backend, is_open, take_turn,
  take_turns, opened,
}
use sol_rpc_router.Handlers.Ws.Turns.{for_backend, for_client, OneTurn, up_one, down_one}

abbrev pub all_messages {ℓ} : {N : Type ℓ} → (Turn → List N) → List Turn → List N
all_messages part [] = []
all_messages part (t ∷ ts) = part t ++ all_messages part ts

-- A side was sent the first of the messages for it, in order, and behind them a close at most, once
-- the connection has ended.
abbrev pub Relayed : {N : Type 0} → N → List N → Bool → List N → List N → Type 0
Relayed {N} last messages still_open old new =
    (fwd : List N) × (rest : List N) × (fwd ++ rest ≡ messages)
    × ((new ≡ old ++ fwd) ⊎ ((still_open ≡ false) × (new ≡ old ++ (fwd ++ last ∷ []))))

pub take_turns-closed :
    (sinks : Sinks) (ts : List Turn) (c : Connection)
    → is_open c ≡ false
    → take_turns sinks ts c ≡ c
unfolding take_turns take_turn
take_turns-closed sinks [] c h = refl
take_turns-closed sinks (from_client item ∷ ts) c h = rw h (take_turns-closed sinks ts c h)
take_turns-closed sinks (from_backend item ∷ ts) c h = rw h (take_turns-closed sinks ts c h)

module _ (sinks : Sinks) {N : Type 0} (last : N) (sent : Connection → List N) (part : Turn → List N)
    (one : (t : Turn) (c : Connection)
      → is_open c ≡ true
      → OneTurn last
          (part t)
          (is_open (take_turn sinks t c))
          (sent c)
          (sent (take_turn sinks t c))) where
  relay :
      (ts : List Turn) (c : Connection)
      → is_open c ≡ true
      → Relayed last
          (all_messages part ts)
          (is_open (take_turns sinks ts c))
          (sent c)
          (sent (take_turns sinks ts c))
  unfolding take_turns
  relay [] c h = ([], [], refl, inl (sym (append-nil (sent c))))
  relay (t ∷ ts) c h = elim (one t c h) [
    | inl (still, new) ↦
        let (fwd, rest, all, result) = relay ts (take_turn sinks t c) still in
        (
          part t ++ fwd,
          rest,
          append_assoc (part t) fwd rest ∙ ap (λ ms. part t ++ ms) all,
          elim result [
            | inl e ↦ inl (e ∙ ap (λ ms. ms ++ fwd) new ∙ append_assoc (sent c) (part t) fwd)
            | inr (over, e) ↦ inr (
              over,
              e
                  ∙ ap (λ ms. ms ++ (fwd ++ last ∷ [])) new
                  ∙ append_assoc (sent c) (part t) (fwd ++ last ∷ [])
                  ∙ ap (λ ms. sent c ++ ms) (sym (append_assoc (part t) fwd (last ∷ []))),
            )
          ],
        )
    | inr (over, new) ↦
        let stopped = take_turns-closed sinks ts (take_turn sinks t c) over in
        (
          [],
          all_messages part (t ∷ ts),
          refl,
          elim new [
            | inl e ↦ inl (ap sent stopped ∙ e ∙ sym (append-nil (sent c)))
            | inr e ↦ inr (ap is_open stopped ∙ over, ap sent stopped ∙ e)
          ],
        )
  ]

-- Whatever the two sinks accept and however the two loops take their turns, the backend was sent,
-- in order, the first of the client's texts, binaries, pings and pongs, and the client the first of
-- the backend's, none left out, changed or sent twice. Only a connection that has ended was also
-- sent a close, once and last.
pub take_turns-Relayed :
    (sinks : Sinks) (ts : List Turn)
    → Relayed t_close
        (all_messages for_backend ts)
        (is_open (take_turns sinks ts opened))
        []
        (take_turns sinks ts opened).up.sent
      × Relayed close
          (all_messages for_client ts)
          (is_open (take_turns sinks ts opened))
          []
          (take_turns sinks ts opened).down.sent
take_turns-Relayed sinks ts = (
  relay sinks t_close (λ c. c.up.sent) for_backend (up_one sinks) ts opened refl,
  relay sinks close (λ c. c.down.sent) for_client (down_one sinks) ts opened refl,
)
