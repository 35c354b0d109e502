-- ===== src/State/Select.antt =====
-- `select_backend` returns a healthy backend whenever there is one, and respects method routes.
use mathlib.Core.List.{Memᴰ}
use sol_rpc_router.Base.{
  ℕ, ◌-◌, String, ◌≡◌, ◌∙◌, refl, ◌⊎◌, inl, inr, Bool, true, false, eq_iff, Option, some, none,
  List, [], ◌∷◌, ◌==◌, arith, eqb, ltb, All, filter, find, head?, get, mem-filter, mem-find, done,
  Bool-cases, Option-cases,
}
use sol_rpc_router.State.{
  Heap, RuntimeBackend, RouterState, is_healthy, weight, pick, choose, routed, gen_range, sum_u32,
  http_target, select_backend, or_else,
}

-- A healthy backend of the table with this label and URL.
pub record IsTarget (h : Heap) (st : RouterState) (target : String × String) : Type 0 where
  pub backend : RuntimeBackend
  pub listed : Memᴰ backend st.backends
  pub healthy : is_healthy h backend ≡ true
  pub same : http_target backend ≡ target

pub mem-pick :
    (r : ℕ) (bs : List RuntimeBackend) (b : RuntimeBackend) → pick r bs ≡ some b → Memᴰ b bs
unfolding pick
mem-pick r [] b h = cc
mem-pick r (d ∷ bs) b h = elim (Bool-cases (ltb r (weight d))) [
  | inl here ↦ let e : b ≡ d = ground arith in Memᴰ.head e
  | inr later ↦ Memᴰ.tail (mem-pick (r - weight d) bs b (ground arith))
]

pub mem-head? : (bs : List RuntimeBackend) (b : RuntimeBackend) → head? bs ≡ some b → Memᴰ b bs
mem-head? [] b h = cc
mem-head? (d ∷ bs) b h = Memᴰ.head (ground arith)

-- The draw with the fallback of the first candidate.
pub mem-pick-or_else :
    (r : ℕ) (bs : List RuntimeBackend) (b : RuntimeBackend)
    → or_else (pick r bs) (head? bs) ≡ some b
    → Memᴰ b bs
mem-pick-or_else r bs b h = elim (Option-cases (pick r bs)) [
  | inl missed ↦ mem-head? bs b (rw missed at h)
  | inr (d, found) ↦ mem-pick r bs b (found ∙ rw found at h)
]

pub or_else-head?-some :
    (r : ℕ) (b : RuntimeBackend) (bs : List RuntimeBackend)
    → (d : RuntimeBackend) × (or_else (pick r (b ∷ bs)) (head? (b ∷ bs)) ≡ some d)
or_else-head?-some r b bs = elim (Option-cases (pick r (b ∷ bs))) [
  | inl missed ↦ (b, rw missed)
  | inr (d, found) ↦ (d, rw found)
]

-- `choose` never panics; it gives an element of the list, and none only from the empty list.
pub choose-done :
    (draw : ℕ → ℕ) (bs : List RuntimeBackend)
    → ((bs ≡ []) × (choose draw bs ≡ done none))
      ⊎ ((b : RuntimeBackend) × Memᴰ b bs × (choose draw bs ≡ done (some b)))
unfolding choose gen_range
choose-done draw [] = inl (refl, refl)
choose-done draw (b ∷ bs) = elim (Bool-cases (eqb (sum_u32 0 (b ∷ bs)) 0)) [
  | inl empty ↦ inr (b, Memᴰ.head refl, rw empty)
  | inr some_weight ↦
      let r = draw (sum_u32 0 (b ∷ bs)) in
      let (d, e) = or_else-head?-some r b bs in
      inr (d, mem-pick-or_else r (b ∷ bs) d e, rw (some_weight, e))
]

mem-routed :
    (h : Heap) (st : RouterState) (m : Option String) (b : RuntimeBackend)
    → routed h st m ≡ some b
    → Memᴰ b st.backends × (is_healthy h b ≡ true)
unfolding routed
mem-routed h st none b e = cc
mem-routed h st (some m) b e = elim (Option-cases (get m st.method_routes)) [
  | inl missing ↦ absurd (ground arith)
  | inr (label, route) ↦
      let found : find (λ (d : RuntimeBackend). d.config.label == label) st.backends ≡ some b =
        ground arith in
      let up : is_healthy h b ≡ true = ground arith in ((mem-find _ b st.backends found).0, up)
]

-- A filter that keeps nothing: all fail the test.
pub filter-nil {ℓ} :
    {A : Type ℓ} (p : A → Bool) (xs : List A) → filter p xs ≡ [] → All (λ x. p x ≡ false) xs
filter-nil p [] h = tt
filter-nil p (x ∷ xs) h = elim (Bool-cases (p x)) [
  | inl keep ↦ cc (rw keep at h)
  | inr skip ↦ (skip, filter-nil p xs (rw skip at h))
]

-- `select_backend` never panics, whatever is drawn, and what it returns is the label and URL of a
-- healthy backend of the table; it returns nothing only if every backend is unhealthy.
pub select_backend-IsTarget :
    (draw : ℕ → ℕ) (h : Heap) (st : RouterState) (m : Option String)
    → ((select_backend draw h st m ≡ done none)
        × All (λ (b : RuntimeBackend). is_healthy h b ≡ false) st.backends)
      ⊎ ((t : String × String) × (select_backend draw h st m ≡ done (some t)) × IsTarget h st t)
unfolding select_backend
select_backend-IsTarget draw h st m = elim (Option-cases (routed h st m)) [
  | inr (b, e) ↦
      let (listed, up) = mem-routed h st m b e in
      inr (
        http_target b,
        rw (e, select_backend),
        record { backend = b; listed = listed; healthy = up; same = refl },
      )
  | inl unrouted ↦ elim (choose-done draw (filter (is_healthy h) st.backends)) [
    | inl (empty, e) ↦
        inl (rw (unrouted, select_backend, e), filter-nil (is_healthy h) st.backends empty)
    | inr (b, m', e) ↦
        let (listed, up) = mem-filter (is_healthy h) st.backends m' in
        inr (
          http_target b,
          rw (unrouted, select_backend, e),
          record { backend = b; listed = listed; healthy = up; same = refl },
        )
  ]
]

-- A method with a route whose first backend of that label is healthy goes to that backend,
-- whatever is drawn.
pub select_backend-routed :
    (draw : ℕ → ℕ) (h : Heap) (st : RouterState) (method label : String) (b : RuntimeBackend)
    → get method st.method_routes ≡ some label
    → find (λ (d : RuntimeBackend). d.config.label == label) st.backends ≡ some b
    → is_healthy h b ≡ true
    → select_backend draw h st (some method) ≡ done (some (label, b.config.url))
unfolding select_backend routed
select_backend-routed draw h st method label b route found up =
    let same = (eq_iff b.config.label label).0 (mem-find _ b st.backends found).1 in ground arith

-- A method whose route leads to an unhealthy backend is served like a request with no method: by
-- the weighted choice among the healthy backends.
pub select_backend-fallback :
    (draw : ℕ → ℕ) (h : Heap) (st : RouterState) (method label : String) (b : RuntimeBackend)
    → get method st.method_routes ≡ some label
    → find (λ (d : RuntimeBackend). d.config.label == label) st.backends ≡ some b
    → is_healthy h b ≡ false
    → select_backend draw h st (some method) ≡ select_backend draw h st none
unfolding select_backend routed
select_backend-fallback draw h st method label b route found down = ground arith
