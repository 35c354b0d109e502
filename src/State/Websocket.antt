-- ===== src/State/Websocket.antt =====
-- `select_ws_backend`: with positive weights that fit `u32` it behaves like the HTTP selection;
-- where the wrapped total is zero it panics.
use mathlib.Core.List.{Memᴰ}
use sol_rpc_router.Base.{
  ℕ, ◌^◌, ◌<◌, ◌%◌, String, ◌≡◌, ◌≢◌, refl, ◌⊎◌, inl, inr, Bool, true, false, some, none, List, [],
  ◌∷◌, arith, eqb, All, filter, mem-filter, done, panic, empty_range, Bool-cases, Option-cases,
}
use sol_rpc_router.State.{
  Heap, RuntimeBackend, RouterState, is_healthy, is_ws_candidate, weight, choose_ws, gen_range,
  sum_u32, select_ws_backend, ws_target,
}
use sol_rpc_router.State.Weights.{total_weight, total_weight-pos, sum_u32_exact, sum_u32_lem}
use sol_rpc_router.State.Select.{mem-pick-or_else, or_else-head?-some, filter-nil}

-- A healthy backend of the table with a WebSocket URL, its label and that URL.
pub record IsWsTarget (h : Heap) (st : RouterState) (label url : String) : Type 0 where
  pub backend : RuntimeBackend
  pub listed : Memᴰ backend st.backends
  pub healthy : is_healthy h backend ≡ true
  pub same_label : backend.config.label ≡ label
  pub same_url : backend.config.ws_url ≡ some url

candidate_has_url :
    (h : Heap) (b : RuntimeBackend)
    → is_ws_candidate h b ≡ true
    → (is_healthy h b ≡ true) × ((url : String) × (b.config.ws_url ≡ some url))
candidate_has_url h b e = elim (Option-cases b.config.ws_url) [
  | inl missing ↦ absurd (ground arith)
  | inr (url, there) ↦ (ground arith, (url, there))
]

pub choose_ws-done :
    (draw : ℕ → ℕ) (b : RuntimeBackend) (bs : List RuntimeBackend)
    → sum_u32 0 (b ∷ bs) ≢ 0
    → (d : RuntimeBackend) × Memᴰ d (b ∷ bs) × (choose_ws draw (b ∷ bs) ≡ done (some d))
unfolding choose_ws gen_range
choose_ws-done draw b bs positive =
    let (d, e) = or_else-head?-some (draw (sum_u32 0 (b ∷ bs))) b bs in
    let test : eqb (sum_u32 0 (b ∷ bs)) 0 ≡ false = ground arith in
    (d, mem-pick-or_else (draw (sum_u32 0 (b ∷ bs))) (b ∷ bs) d e, rw (test, e))

All-filter :
    (p : RuntimeBackend → Bool) (bs : List RuntimeBackend)
    → All (λ (d : RuntimeBackend). 0 < weight d) bs
    → All (λ (d : RuntimeBackend). 0 < weight d) (filter p bs)
All-filter p [] h = tt
All-filter p (b ∷ bs) (k, h) = elim (Bool-cases (p b)) [
  | inl keep ↦ rw keep (k, All-filter p bs h)
  | inr skip ↦ rw skip (All-filter p bs h)
]

List-cases :
    (bs : List RuntimeBackend)
    → (bs ≡ []) ⊎ ((b : RuntimeBackend) × (ds : List RuntimeBackend) × (bs ≡ b ∷ ds))
List-cases [] = inl refl
List-cases (b ∷ bs) = inr (b, bs, refl)

-- With positive weights whose sum over the candidates fits `u32`, `select_ws_backend` does not
-- panic, whatever is drawn: it returns a healthy backend's label and WebSocket URL, or nothing,
-- and nothing only if no backend is healthy and has a WebSocket URL.
pub select_ws_backend-IsWsTarget :
    (draw : ℕ → ℕ) (h : Heap) (st : RouterState)
    → All (λ (d : RuntimeBackend). 0 < weight d) st.backends
    → total_weight (filter (is_ws_candidate h) st.backends) < 2 ^ 32
    → ((select_ws_backend draw h st ≡ done none)
        × All (λ (b : RuntimeBackend). is_ws_candidate h b ≡ false) st.backends)
      ⊎ ((label : String) × (url : String) × (select_ws_backend draw h st
            ≡ done (some (label, url)))
          × IsWsTarget h st label url)
unfolding select_ws_backend ws_target
select_ws_backend-IsWsTarget draw h st weighted fits =
    elim (List-cases (filter (is_ws_candidate h) st.backends)) [
      | inl empty ↦
          inl
            (rw empty (unfold choose_ws in refl), filter-nil (is_ws_candidate h) st.backends empty)
      | inr (b, ds, cons) ↦
          let positive =
            total_weight-pos b ds
              (rw cons at (All-filter (is_ws_candidate h) st.backends weighted)) in
          let exact = sum_u32_exact (b ∷ ds) (rw cons at fits) in
          let (d, m, chosen) = choose_ws-done draw b ds (omega arith) in
          let (listed, candidate) = mem-filter (is_ws_candidate h) st.backends (rw (← cons) at m) in
          let (up, (url, there)) = candidate_has_url h d candidate in
          inr (
            d.config.label,
            url,
            rw (cons, chosen, there),
            record {
              backend = d;
              listed = listed;
              healthy = up;
              same_label = refl;
              same_url = there;
            },
          )
    ]

choose_ws-panics :
    (draw : ℕ → ℕ) (bs : List RuntimeBackend)
    → bs ≢ []
    → total_weight bs % 2 ^ 32 ≡ 0
    → choose_ws draw bs ≡ panic empty_range
unfolding choose_ws gen_range
choose_ws-panics draw [] k wraps = absurd (k refl)
choose_ws-panics draw (b ∷ bs) k wraps =
    let zero_sum : sum_u32 0 (b ∷ bs) ≡ 0 = omega (arith, sum_u32_lem 0 (b ∷ bs) (omega arith)) in
    let test : eqb (sum_u32 0 (b ∷ bs)) 0 ≡ true = ground arith in rw test

-- Where there is a candidate and the weights of the candidates add up to a multiple of 2³², the
-- wrapped total is zero and `select_ws_backend` panics on the empty range of the draw.
pub select_ws_backend-panics :
    (draw : ℕ → ℕ) (h : Heap) (st : RouterState)
    → filter (is_ws_candidate h) st.backends ≢ []
    → total_weight (filter (is_ws_candidate h) st.backends) % 2 ^ 32 ≡ 0
    → select_ws_backend draw h st ≡ panic empty_range
unfolding select_ws_backend
select_ws_backend-panics draw h st some_candidate wraps =
    rw (choose_ws-panics draw (filter (is_ws_candidate h) st.backends) some_candidate wraps)
