-- ===== src/Router/Rotation.antt =====
-- How a backend leaves the rotation and how it comes back.
use mathlib.Core.List.Memᴰ
use mathlib.Core.List.{Memᴰ}
use sol_rpc_router.Base.{
  length-map, ℕ, ◌+◌, ◌^◌, ◌≤◌, ◌<◌, String, ◌≡◌, ◌≢◌, ◌∙◌, refl, sym, ap, subst, inl, inr, Bool,
  true, false, Option, none, some, List, [], ◌∷◌, arith, All, All-mem, done, length, leb, ltb, find,
  get, ◌==◌, eq_iff, eq_refl, ◌&&◌, ◌||◌,
}
use sol_rpc_router.State.{RuntimeBackend, RouterState, select_backend, is_healthy}
use sol_rpc_router.State.Select.{select_backend-IsTarget, select_backend-routed}
use sol_rpc_router.Health.Round.{label, AreApart, observation}
use sol_rpc_router.Health.Streak.{IsFailure, IsSuccess, observe_all-failures, observe_all-successes}
use sol_rpc_router.Router.{System, run}
use sol_rpc_router.Router.Invariant.{IsSound}
use sol_rpc_router.Router.Rounds.{Answers, rounds, status_of, observations, rounds-Tracks}

-- A label stands for one backend of the table.
same_backend :
    (b d : RuntimeBackend) (bs : List RuntimeBackend)
    → AreApart bs
    → Memᴰ b bs
    → Memᴰ d bs
    → label d ≡ label b
    → d ≡ b
same_backend b d [] _ m n e = absurd (Memᴰ.not-nil m)
same_backend b d (x ∷ bs) (apart, aparts) m n e = elim (Memᴰ.cases_cons m) [
  | inl here ↦ elim (Memᴰ.cases_cons n) [
    | inl here' ↦ here' ∙ sym here
    | inr there' ↦ absurd ((All-mem _ bs apart there').0 (ap label (sym here) ∙ sym e))
  ]
  | inr there ↦ elim (Memᴰ.cases_cons n) [
    | inl here' ↦ absurd ((All-mem _ bs apart there).0 (ap label (sym here') ∙ e))
    | inr there' ↦ same_backend b d bs aparts there there' e
  ]
]

find-listed :
    (b : RuntimeBackend) (bs : List RuntimeBackend)
    → AreApart bs
    → Memᴰ b bs
    → find (λ (d : RuntimeBackend). label d == label b) bs ≡ some b
find-listed b [] _ m = absurd (Memᴰ.not-nil m)
find-listed b (x ∷ bs) (apart, aparts) m = elim (Memᴰ.cases_cons m) [
  | inl here ↦ rw (← here, eq_refl) refl
  | inr there ↦
      let other : (label x == label b) ≡ false =
        ground (arith, eq_iff (label x) (label b), (All-mem _ bs apart there).0) in
      rw other (find-listed b bs aparts there)
]

stays_down :
    (was : Bool) (n k m threshold : ℕ)
    → k ≡ m
    → threshold ≤ n + m
    → (was && (false || ltb (n + k) threshold)) ≡ false
stays_down was n k m threshold e l = ground arith

comes_up :
    (was : Bool) (n k m threshold : ℕ)
    → k ≡ m
    → threshold ≤ n + m
    → (was || (true && leb threshold (n + k))) ≡ true
comes_up was n k m threshold e l = ground arith

-- A backend of the table in use whose checks fail or lag, in rounds enough to reach the failure
-- threshold with no reload between, is out of the rotation after them: no request is sent to it,
-- with or without a method, whatever is drawn.
pub failing_rounds :
    (b : RuntimeBackend) (r : Answers) (rs : List Answers) (s : System) (draw : ℕ → ℕ)
    (method : Option String) (url : String)
    → IsSound s
    → s.held ≡ none
    → Memᴰ b s.current.backends
    → All (IsFailure s.current.health_check_config) (observations s b (r ∷ rs))
    → (status_of s b).consecutive_failures + length (r ∷ rs) < 2 ^ 32
    → s.current.health_check_config.consecutive_failures_threshold
      ≤ (status_of s b).consecutive_failures + length (r ∷ rs)
    → let t = run (rounds (r ∷ rs)) s in
      select_backend draw t.heap t.current method ≢ done (some (label b, url))
failing_rounds b r rs s draw method url i idle m failing small enough selected =
    let t = run (rounds (r ∷ rs)) s in
    let seen = observations s b (r ∷ rs) in
    let counted = length-map (λ (q : Answers). observation q.0 q.1 s.current b) (r ∷ rs) in
    let (table, _, _, flag) = rounds-Tracks b r rs s i idle m in
    let (_, healthy) =
      observe_all-failures s.current.health_check_config seen (status_of s b) failing
        (omega (arith, counted, small)) in
    let down : is_healthy t.heap b ≡ false =
      flag ∙ (healthy ∙ stays_down _ _ _ _ _ counted enough) in
    elim (select_backend-IsTarget draw t.heap t.current method) [
      | inl (nothing, _) ↦ cc
      | inr (target, chosen, found) ↦
          let listed : Memᴰ found.backend s.current.backends =
            subst (λ (st : RouterState). Memᴰ found.backend st.backends) table found.listed in
          let same_label : label found.backend ≡ label b =
            let sent : target ≡ (label b, url) = cc (chosen, selected) in
            ap (λ (p : String × String). p.0) (found.same ∙ sent) in
          let same =
            same_backend b found.backend s.current.backends i.current.apart m listed same_label in
          cc (found.healthy, same, down)
    ]

-- A backend of the table in use whose checks succeed, in rounds enough to reach the success
-- threshold with no reload between, is back in the rotation after them: it is healthy, and a method
-- whose route names it is sent to it, whatever is drawn.
pub recovering_rounds :
    (b : RuntimeBackend) (r : Answers) (rs : List Answers) (s : System) (draw : ℕ → ℕ)
    (method : String)
    → IsSound s
    → s.held ≡ none
    → Memᴰ b s.current.backends
    → All (IsSuccess s.current.health_check_config) (observations s b (r ∷ rs))
    → (status_of s b).consecutive_successes + length (r ∷ rs) < 2 ^ 32
    → s.current.health_check_config.consecutive_successes_threshold
      ≤ (status_of s b).consecutive_successes + length (r ∷ rs)
    → get method s.current.method_routes ≡ some (label b)
    → let t = run (rounds (r ∷ rs)) s in
      (is_healthy t.heap b ≡ true)
      × (select_backend draw t.heap t.current (some method) ≡ done (some (label b, b.config.url)))
recovering_rounds b r rs s draw method i idle m passing small enough route =
    let t = run (rounds (r ∷ rs)) s in
    let seen = observations s b (r ∷ rs) in
    let counted = length-map (λ (q : Answers). observation q.0 q.1 s.current b) (r ∷ rs) in
    let (table, _, _, flag) = rounds-Tracks b r rs s i idle m in
    let (_, healthy) =
      observe_all-successes s.current.health_check_config seen (status_of s b) passing
        (omega (arith, counted, small)) in
    let up : is_healthy t.heap b ≡ true = flag ∙ (healthy ∙ comes_up _ _ _ _ _ counted enough) in
    (
      up,
      select_backend-routed draw t.heap t.current method (label b) b (rw table route)
          (rw table (find-listed b s.current.backends i.current.apart m)) up,
    )
