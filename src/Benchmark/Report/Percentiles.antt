-- ===== src/Benchmark/Report/Percentiles.antt =====
-- What stands at a place of a sorted list, said without the sorting.
use sol_rpc_router.Base.{
  ℕ, zero, suc, ◌+◌, ◌≤◌, ◌<◌, ◌≡◌, refl, ◌⊎◌, inl, inr, Bool, List, [], ◌∷◌, arith, All, All-map,
  length, sum, leb, Bool-cases, if◌then◌else◌,
}
use sol_rpc_router.Benchmark.Report.{put_in_order, sort, get_or_zero}

-- How many numbers pass a test.
abbrev pub count_if : (ℕ → Bool) → List ℕ → ℕ
count_if p [] = 0
count_if p (x ∷ xs) = (if p x then 1 else 0) + count_if p xs

abbrev pub at_most : ℕ → List ℕ → ℕ
at_most v = count_if (λ x. leb x v)

abbrev pub at_least : ℕ → List ℕ → ℕ
at_least v = count_if (λ x. leb v x)

-- `v` stands at place `i`, from 0, when the numbers are put in order; it is 0 past the end.
abbrev pub IsRank : List ℕ → ℕ → ℕ → Type 0
IsRank xs i v = ((length xs ≤ i) × (v ≡ 0)) ⊎ ((i < at_most v xs) × (length xs ≤ i + at_least v xs))

-- Each number is at least `x`.
abbrev IsBelow : ℕ → List ℕ → Type 0
IsBelow x = All (λ y. x ≤ y)

abbrev IsSorted : List ℕ → Type 0
IsSorted [] = Unit
IsSorted (x ∷ xs) = IsBelow x xs × IsSorted xs

count_if-put_in_order :
    (p : ℕ → Bool) (x : ℕ) (ys : List ℕ)
    → count_if p (put_in_order x ys) ≡ (if p x then 1 else 0) + count_if p ys
unfolding put_in_order
count_if-put_in_order p x [] = refl
count_if-put_in_order p x (y ∷ ys) = ground (arith, count_if-put_in_order p x ys)

count_if-sort : (p : ℕ → Bool) (xs : List ℕ) → count_if p (sort xs) ≡ count_if p xs
unfolding sort
count_if-sort p [] = refl
count_if-sort p (x ∷ xs) = omega (arith, count_if-put_in_order p x (sort xs), count_if-sort p xs)

length-put_in_order : (x : ℕ) (ys : List ℕ) → length (put_in_order x ys) ≡ suc (length ys)
unfolding put_in_order
length-put_in_order x [] = refl
length-put_in_order x (y ∷ ys) = ground (arith, length-put_in_order x ys)

pub length-sort : (xs : List ℕ) → length (sort xs) ≡ length xs
unfolding sort
length-sort [] = refl
length-sort (x ∷ xs) = omega (arith, length-put_in_order x (sort xs), length-sort xs)

sum-put_in_order : (x : ℕ) (ys : List ℕ) → sum (put_in_order x ys) ≡ x + sum ys
unfolding put_in_order
sum-put_in_order x [] = refl
sum-put_in_order x (y ∷ ys) = ground (arith, sum-put_in_order x ys)

pub sum-sort : (xs : List ℕ) → sum (sort xs) ≡ sum xs
unfolding sort
sum-sort [] = refl
sum-sort (x ∷ xs) = omega (arith, sum-put_in_order x (sort xs), sum-sort xs)

put_in_order-IsBelow :
    (a x : ℕ) (ys : List ℕ) → a ≤ x → IsBelow a ys → IsBelow a (put_in_order x ys)
unfolding put_in_order
put_in_order-IsBelow a x [] l _ = (l, tt)
put_in_order-IsBelow a x (y ∷ ys) l (here, there) = elim (Bool-cases (leb x y)) [
  | inl before ↦ rw before (l, (here, there))
  | inr after ↦ rw after (here, put_in_order-IsBelow a x ys l there)
]

put_in_order-IsSorted : (x : ℕ) (ys : List ℕ) → IsSorted ys → IsSorted (put_in_order x ys)
unfolding put_in_order
put_in_order-IsSorted x [] _ = (tt, tt)
put_in_order-IsSorted x (y ∷ ys) (low, sorted) = elim (Bool-cases (leb x y)) [
  | inl before ↦
      let l : x ≤ y = ground arith in
      rw before ((l, All-map (λ z. y ≤ z) ys (λ z k. omega arith) low), (low, sorted))
  | inr after ↦
      let l : y ≤ x = ground arith in
      rw after (put_in_order-IsBelow y x ys l low, put_in_order-IsSorted x ys sorted)
]

sort-IsSorted : (xs : List ℕ) → IsSorted (sort xs)
unfolding sort
sort-IsSorted [] = tt
sort-IsSorted (x ∷ xs) = put_in_order-IsSorted x (sort xs) (sort-IsSorted xs)

count_if-length : (p : ℕ → Bool) (xs : List ℕ) → count_if p xs ≤ length xs
count_if-length p [] = omega arith
count_if-length p (x ∷ xs) = ground (arith, count_if-length p xs)

at_least-IsBelow : (v : ℕ) (xs : List ℕ) → IsBelow v xs → at_least v xs ≡ length xs
at_least-IsBelow v [] _ = refl
at_least-IsBelow v (x ∷ xs) (l, low) = ground (arith, at_least-IsBelow v xs low)

get_or_zero-IsBelow : (x i : ℕ) (xs : List ℕ) → IsBelow x xs → i < length xs → x ≤ get_or_zero xs i
unfolding get_or_zero
get_or_zero-IsBelow x i [] _ l = absurd (omega arith)
get_or_zero-IsBelow x zero (y ∷ ys) (here, _) l = here
get_or_zero-IsBelow x (suc i) (y ∷ ys) (_, there) l = get_or_zero-IsBelow x i ys there (omega arith)

sorted-IsRank : (xs : List ℕ) (i : ℕ) → IsSorted xs → IsRank xs i (get_or_zero xs i)
unfolding get_or_zero
sorted-IsRank [] i _ = inl (omega arith, refl)
sorted-IsRank (x ∷ xs) zero (low, sorted) =
    inr (ground arith, ground (arith, at_least-IsBelow x xs low))
sorted-IsRank (x ∷ xs) (suc i) (low, sorted) = elim (sorted-IsRank xs i sorted) [
  | inl (past, out) ↦ inl (omega arith, out)
  | inr (below, above) ↦
      let v = get_or_zero xs i in
      let bounded = count_if-length (λ y. leb y v) xs in
      let l : x ≤ v = get_or_zero-IsBelow x i xs low (omega (arith, bounded)) in
      inr (ground arith, ground arith)
]

-- The place of a number does not depend on the order.
pub sort-IsRank : (xs : List ℕ) (i : ℕ) → IsRank xs i (get_or_zero (sort xs) i)
sort-IsRank xs i =
    let v = get_or_zero (sort xs) i in
    rw (← length-sort xs, ← count_if-sort (λ x. leb x v) xs, ← count_if-sort (λ x. leb v x) xs)
      (sorted-IsRank (sort xs) i (sort-IsSorted xs))
