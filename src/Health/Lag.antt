-- ===== src/Health/Lag.antt =====
-- Slot lag is measured against the highest slot that any check of the round reported.
use mathlib.Core.List.Memᴰ
use mathlib.Core.List.{Memᴰ}
use native.Mathlib.Decide.{dec_le}
use sol_rpc_router.Base.{
  ℕ, ◌+◌, ◌<◌, ◌≤◌, String, ◌≡◌, refl, sym, ap, ◌↔◌, ◌⊎◌, inl, inr, true, some, none, List, [], ◌∷◌,
  arith, max, ok, err, Option-cases,
}
use sol_rpc_router.Config.{HealthCheckConfig}
use sol_rpc_router.Health.{Outcome, max_slot, is_lagging}

-- A check of the round reported this slot.
abbrev pub Reports : List (String × Outcome) → ℕ → Type 0
Reports rs slot = (label : String) × Memᴰ (label, ok (some slot)) rs

Reports-cons :
    (r : String × Outcome) (rs : List (String × Outcome)) (slot : ℕ)
    → Reports rs slot
    → Reports (r ∷ rs) slot
Reports-cons r rs slot (l, m) = (l, Memᴰ.tail m)

-- An entry of the list is at the head with its outcome, or further down.
reported_cases :
    {l k : String} {slot : ℕ} {r : Outcome} {rs : List (String × Outcome)}
    → Memᴰ (l, ok (some slot)) ((k, r) ∷ rs)
    → (r ≡ ok (some slot)) ⊎ Memᴰ (l, ok (some slot)) rs
reported_cases i = elim (Memᴰ.cases_cons i) [ inl e ↦ inl (sym (ap (λ p. p.1) e)) | inr t ↦ inr t ]

max_slot-some :
    (l : String) (slot : ℕ) (rs : List (String × Outcome))
    → ((max_slot rs ≡ none) × (max_slot ((l, ok (some slot)) ∷ rs) ≡ some slot))
      ⊎ ((m : ℕ) × (max_slot rs ≡ some m)
          × (max_slot ((l, ok (some slot)) ∷ rs) ≡ some (max slot m)))
unfolding max_slot
max_slot-some l slot rs = elim (Option-cases (max_slot rs)) [
  | inl e ↦ inl (e, rw (e, max_slot))
  | inr (m, e) ↦ inr (m, e, rw (e, max_slot))
]

max_cases : (a b : ℕ) → (max a b ≡ a) ⊎ (max a b ≡ b)
max_cases a b = elim (dec_le a b) [ yes h ↦ inr (omega arith) | no h ↦ inl (omega arith) ]

pub Reports-max_slot : (rs : List (String × Outcome)) (m : ℕ) → max_slot rs ≡ some m → Reports rs m
unfolding max_slot
Reports-max_slot [] m h = cc
Reports-max_slot ((l, ok (some slot)) ∷ rs) m h = elim (max_slot-some l slot rs) [
  | inl (_, e) ↦ let same : slot ≡ m = cc in rw (← same) (l, Memᴰ.head refl)
  | inr (n, rest, e) ↦
      let same : max slot n ≡ m = cc in
      elim (max_cases slot n) [
        | inl here ↦ rw (← same, here) (l, Memᴰ.head refl)
        | inr there ↦
            rw (← same, there) (Reports-cons (l, ok (some slot)) rs n (Reports-max_slot rs n rest))
      ]
]
Reports-max_slot ((l, ok none) ∷ rs) m h = Reports-cons (l, ok none) rs m (Reports-max_slot rs m h)
Reports-max_slot ((l, err e) ∷ rs) m h = Reports-cons (l, err e) rs m (Reports-max_slot rs m h)

-- Every reported slot is at most the highest.
pub max_slot-bound :
    (rs : List (String × Outcome)) (l : String) (slot : ℕ)
    → Memᴰ (l, ok (some slot)) rs
    → (m : ℕ) × (max_slot rs ≡ some m) × (slot ≤ m)
unfolding max_slot
max_slot-bound [] l slot i = absurd (Memᴰ.not-nil i)
max_slot-bound ((k, ok (some s)) ∷ rs) l slot i = elim (max_slot-some k s rs) [
  | inl (empty, e) ↦ elim (reported_cases i) [
    | inl same ↦ (s, e, ground arith)
    | inr t ↦ let (m, found, _) = max_slot-bound rs l slot t in cc (empty, found)
  ]
  | inr (n, rest, e) ↦ elim (reported_cases i) [
    | inl same ↦ let h : s ≡ slot = ground arith in (max s n, e, omega arith)
    | inr t ↦
        let (m, found, below) = max_slot-bound rs l slot t in
        let h : m ≡ n = ground arith in (max s n, e, omega arith)
  ]
]
max_slot-bound ((k, ok none) ∷ rs) l slot i = elim (reported_cases i) [
  | inl e ↦ absurd (ground arith)
  | inr t ↦ max_slot-bound rs l slot t
]
max_slot-bound ((k, err e) ∷ rs) l slot i = elim (reported_cases i) [
  | inl e ↦ absurd (ground arith)
  | inr t ↦ max_slot-bound rs l slot t
]

pub is_lagging_iff :
    (cfg : HealthCheckConfig) (slot m : ℕ)
    → (is_lagging cfg (some slot) (some m) ≡ true) ↔ (slot + cfg.max_slot_lag < m)
unfolding is_lagging
is_lagging_iff cfg slot m = ground arith

pub not_lagging : (cfg : HealthCheckConfig) (slot : ℕ) → is_lagging cfg (some slot) none ≡ true → ⊥
unfolding is_lagging
not_lagging cfg slot h = cc

-- A reported slot counts as lagging exactly if some check of the same round reported a slot more
-- than `max_slot_lag` above it.
pub is_lagging-max_slot_iff :
    (cfg : HealthCheckConfig) (rs : List (String × Outcome)) (slot : ℕ)
    → (is_lagging cfg (some slot) (max_slot rs) ≡ true)
      ↔ ((tip : ℕ) × Reports rs tip × (slot + cfg.max_slot_lag < tip))
is_lagging-max_slot_iff cfg rs slot = (λ h. forth h, λ h. back h)
  where
    forth :
        is_lagging cfg (some slot) (max_slot rs) ≡ true
        → (tip : ℕ) × Reports rs tip × (slot + cfg.max_slot_lag < tip)
    forth h = elim (Option-cases (max_slot rs)) [
      | inl empty ↦ absurd (not_lagging cfg slot (rw empty at h))
      | inr (m, top) ↦ (m, Reports-max_slot rs m top, (is_lagging_iff cfg slot m).0 (rw top at h))
    ]

    back :
        (tip : ℕ) × Reports rs tip × (slot + cfg.max_slot_lag < tip)
        → is_lagging cfg (some slot) (max_slot rs) ≡ true
    back (tip, (l, i), above) =
        let (m, top, below) = max_slot-bound rs l tip i in
        rw top ((is_lagging_iff cfg slot m).1 (omega arith))
