-- ===== src/State/Draws.antt =====
-- The weighted choice is fair: of the `total` equally likely draws, a label gets as many as its
-- backends have weight.
use native.Mathlib.Nat.{add-zero, add-suc}
use sol_rpc_router.Base.{
  ℕ, zero, suc, ◌+◌, ◌-◌, ◌^◌, ◌<◌, String, ◌≡◌, refl, ap, ◌∙◌, inl, inr, Bool, true, false, Option,
  some, none, List, [], ◌∷◌, ◌==◌, arith, eqb, ltb, lt→ltb, filter, Run, done, panic, Bool-cases,
  if◌then◌else◌,
}
use sol_rpc_router.State.{
  Heap, RuntimeBackend, RouterState, is_healthy, weight, pick, choose, routed, gen_range,
  select_backend, map_option, http_target,
}
use sol_rpc_router.State.Weights.{total_weight, sum_u32_exact}

-- How many of 0, …, n - 1 satisfy the test.
unfoldable pub count_below : ℕ → (ℕ → Bool) → ℕ
count_below zero p = 0
count_below (suc n) p = count_below n p + (if p n then 1 else 0)

count_below-add :
    (a b : ℕ) (p : ℕ → Bool)
    → count_below (a + b) p ≡ count_below a p + count_below b (λ r. p (a + r))
unfolding count_below
count_below-add a zero p = rw add-zero (omega arith)
count_below-add a (suc b) p = rw add-suc (omega (arith, count_below-add a b p))

pub count_below-eq :
    (n : ℕ) (p q : ℕ → Bool) → ((r : ℕ) → r < n → p r ≡ q r) → count_below n p ≡ count_below n q
unfolding count_below
count_below-eq zero p q h = refl
count_below-eq (suc n) p q h =
    rw (h n (omega arith), count_below-eq n p q (λ r k. h r (omega arith)))

count_below-const : (n : ℕ) (b : Bool) → count_below n (λ _. b) ≡ (if b then n else 0)
unfolding count_below
count_below-const zero true = refl
count_below-const zero false = refl
count_below-const (suc n) true = omega (arith, count_below-const n true)
count_below-const (suc n) false = omega (arith, count_below-const n false)

-- The weight that a label has in a list of backends.
abbrev pub weight_of : String → List RuntimeBackend → ℕ
weight_of l [] = 0
weight_of l (b ∷ bs) = (if b.config.label == l then weight b else 0) + weight_of l bs

abbrev has_label : String → Option RuntimeBackend → Bool
has_label l none = false
has_label l (some b) = b.config.label == l

pick_here :
    (r : ℕ) (b : RuntimeBackend) (bs : List RuntimeBackend)
    → r < weight b
    → pick r (b ∷ bs) ≡ some b
unfolding pick
pick_here r b bs h = rw (lt→ltb r (weight b) h)

pick_later :
    (r : ℕ) (b : RuntimeBackend) (bs : List RuntimeBackend)
    → pick (weight b + r) (b ∷ bs) ≡ pick r bs
unfolding pick
pick_later r b bs =
    let e : weight b + r - weight b ≡ r = omega arith in
    let f : ltb (weight b + r) (weight b) ≡ false = ground arith in rw (f, e)

-- A draw below the total always finds a backend: the code behind the loop is never reached.
pub pick-some :
    (r : ℕ) (bs : List RuntimeBackend)
    → r < total_weight bs
    → (b : RuntimeBackend) × (pick r bs ≡ some b)
unfolding pick
pick-some r [] h = absurd (omega arith)
pick-some r (b ∷ bs) h = elim (Bool-cases (ltb r (weight b))) [
  | inl here ↦ (b, rw here)
  | inr later ↦
      let past : r - weight b < total_weight bs = ground arith in
      let (d, e) = pick-some (r - weight b) bs past in (d, rw later e)
]

pub count-pick :
    (l : String) (bs : List RuntimeBackend)
    → count_below (total_weight bs) (λ r. has_label l (pick r bs)) ≡ weight_of l bs
count-pick l [] = unfold count_below in refl
count-pick l (b ∷ bs) =
    let here =
      count_below-eq (weight b) (λ r. has_label l (pick r (b ∷ bs))) (λ _. b.config.label == l)
        (λ r h. ap (has_label l) (pick_here r b bs h)) in
    let later =
      count_below-eq (total_weight bs) (λ r. has_label l (pick (weight b + r) (b ∷ bs)))
        (λ r. has_label l (pick r bs)) (λ r _. ap (has_label l) (pick_later r b bs)) in
    rw (
      count_below-add,
      here,
      later,
      count_below-const (weight b) (b.config.label == l),
      count-pick l bs,
    )

-- Whether the outcome of a selection carries the label.
abbrev pub selects : String → Run (Option (String × String)) → Bool
selects l (done (some t)) = t.0 == l
selects l (done none) = false
selects l (panic _) = false

choose-pick :
    (r : ℕ) (bs : List RuntimeBackend)
    → total_weight bs < 2 ^ 32
    → r < total_weight bs
    → choose (λ _. r) bs ≡ done (pick r bs)
unfolding choose gen_range
choose-pick r [] fits h = absurd (omega arith)
choose-pick r (b ∷ bs) fits h =
    let (d, e) = pick-some r (b ∷ bs) h in
    let total = sum_u32_exact (b ∷ bs) fits in
    let positive : eqb (total_weight (b ∷ bs)) 0 ≡ false = ground arith in rw (total, positive, e)

selects-target :
    (l : String) (o : Option RuntimeBackend)
    → selects l (done (map_option http_target o)) ≡ has_label l o
selects-target l none = refl
selects-target l (some b) = refl

selects-select_backend :
    (l : String) (h : Heap) (st : RouterState) (m : Option String) (r : ℕ)
    → routed h st m ≡ none
    → total_weight (filter (is_healthy h) st.backends) < 2 ^ 32
    → r < total_weight (filter (is_healthy h) st.backends)
    → selects l (select_backend (λ _. r) h st m)
      ≡ has_label l (pick r (filter (is_healthy h) st.backends))
unfolding select_backend
selects-select_backend l h st m r unrouted fits below =
    rw (unrouted, select_backend)
      (rw (choose-pick r (filter (is_healthy h) st.backends) fits below)
        (selects-target l (pick r (filter (is_healthy h) st.backends))))

-- When a request is not served by a method route and the weights of the healthy backends fit
-- `u32`, exactly `weight_of l` of the `total` possible draws select the label `l`: the choice is
-- proportional to the weights, and unhealthy backends have no share.
pub select_backend-share :
    (l : String) (h : Heap) (st : RouterState) (m : Option String)
    → routed h st m ≡ none
    → total_weight (filter (is_healthy h) st.backends) < 2 ^ 32
    → count_below
        (total_weight (filter (is_healthy h) st.backends))
        (λ r. selects l (select_backend (λ _. r) h st m))
      ≡ weight_of l (filter (is_healthy h) st.backends)
select_backend-share l h st m unrouted fits =
    count_below-eq _ _ _ (λ r below. selects-select_backend l h st m r unrouted fits below)
    ∙ count-pick l (filter (is_healthy h) st.backends)
