-- ===== src/Base/Lists.antt =====
-- Lists: lengths and sums in native numbers, Boolean filters and searches, predicates by recursion.
use Prim.Native.Nat.{ℕ, suc, ◌+◌}
use mathlib.Core.Path.{◌≡◌, refl}
use mathlib.Core.Logic.{inl, inr}
use mathlib.Core.Bool.{Bool, true, false, ◌||◌}
use mathlib.Core.Option.{Option, none, some}
use mathlib.Core.List.{List, [], ◌∷◌, map}
use mathlib.Core.List.Memᴰ
use mathlib.Core.List.{Memᴰ}
use native.Mathlib.Omega.{arith}
use sol_rpc_router.Base.Tests.{if◌then◌else◌, Bool-cases}

module _ {ℓ} {A : Type ℓ} where
  abbrev pub length : List A → ℕ
  length [] = 0
  length (x ∷ xs) = suc (length xs)

  abbrev pub is_empty : List A → Bool
  is_empty [] = true
  is_empty (_ ∷ _) = false

  -- Rust's `first`.
  abbrev pub head? : List A → Option A
  head? [] = none
  head? (x ∷ _) = some x

  -- Rust's `iter().filter(p)`, `iter().find(p)` and `iter().any(p)`, over a Boolean test.
  abbrev pub filter : (A → Bool) → List A → List A
  filter p [] = []
  filter p (x ∷ xs) = let rest = filter p xs in if p x then x ∷ rest else rest

  abbrev pub find : (A → Bool) → List A → Option A
  find p [] = none
  find p (x ∷ xs) = if p x then some x else find p xs

  abbrev pub any : (A → Bool) → List A → Bool
  any p [] = false
  any p (x ∷ xs) = p x || any p xs

abbrev pub sum : List ℕ → ℕ
sum [] = 0
sum (x ∷ xs) = x + sum xs

module _ {ℓ κ} {A : Type ℓ} (P : A → Type κ) where
  abbrev pub All : List A → Type κ
  All [] = Unit
  All (x ∷ xs) = P x × All xs

  pub All-mem : {x : A} (xs : List A) → All xs → Memᴰ x xs → P x
  All-mem [] _ m = absurd (Memᴰ.not-nil m)
  All-mem (y ∷ xs) (p, h) (Memᴰ.head e) = rw e p
  All-mem (y ∷ xs) (p, h) (Memᴰ.tail m) = All-mem xs h m

module _ {ℓ} {A : Type ℓ} (p : A → Bool) where
  -- A filter keeps the elements that satisfy its test, and no others.
  pub mem-filter : {x : A} (xs : List A) → Memᴰ x (filter p xs) → Memᴰ x xs × (p x ≡ true)
  mem-filter [] m = absurd (Memᴰ.not-nil m)
  mem-filter (y ∷ xs) m = elim (Bool-cases (p y)) [
    | inl keep ↦ elim (Memᴰ.cases_cons (rw keep at m)) [
      | inl e ↦ (Memᴰ.head e, rw e keep)
      | inr t ↦ let (there, holds) = mem-filter xs t in (Memᴰ.tail there, holds)
    ]
    | inr skip ↦ let (there, holds) = mem-filter xs (rw skip at m) in (Memᴰ.tail there, holds)
  ]

  pub filter-mem : {x : A} (xs : List A) → Memᴰ x xs → p x ≡ true → Memᴰ x (filter p xs)
  filter-mem [] m h = absurd (Memᴰ.not-nil m)
  filter-mem (y ∷ xs) (Memᴰ.head e) h = let here = rw e at h in rw here (Memᴰ.head e)
  filter-mem (y ∷ xs) (Memᴰ.tail m) h = elim (Bool-cases (p y)) [
    | inl keep ↦ rw keep (Memᴰ.tail (filter-mem xs m h))
    | inr skip ↦ rw skip (filter-mem xs m h)
  ]

  pub mem-find : (x : A) (xs : List A) → find p xs ≡ some x → Memᴰ x xs × (p x ≡ true)
  mem-find x [] h = cc
  mem-find x (y ∷ xs) h = elim (Bool-cases (p y)) [
    | inl keep ↦ let e : x ≡ y = ground arith in (Memᴰ.head e, rw e keep)
    | inr skip ↦ let (there, holds) = mem-find x xs (rw skip at h) in (Memᴰ.tail there, holds)
  ]

module _ {ℓ κ} {A : Type ℓ} (P : A → Type κ) where
  pub All-of_mem : (xs : List A) → ((x : A) → Memᴰ x xs → P x) → All P xs
  All-of_mem [] h = tt
  All-of_mem (x ∷ xs) h = (h x (Memᴰ.head refl), All-of_mem xs (λ y m. h y (Memᴰ.tail m)))

  pub All-map {ρ} : {Q : A → Type ρ} (xs : List A) → ((x : A) → P x → Q x) → All P xs → All Q xs
  All-map [] f _ = tt
  All-map (x ∷ xs) f (h, hs) = (f x h, All-map xs f hs)

pub length-map {ℓ κ} :
    {A : Type ℓ} {B : Type κ} (f : A → B) (xs : List A) → length (map f xs) ≡ length xs
length-map f [] = refl
length-map f (x ∷ xs) = omega (arith, length-map f xs)
