-- ===== src/State/Weights.antt =====
-- The total weight of a list of backends: exact while it fits `u32`.
use sol_rpc_router.Base.{ℕ, ◌+◌, ◌%◌, ◌^◌, ◌<◌, ◌≡◌, List, [], ◌∷◌, arith, All}
use sol_rpc_router.State.{RuntimeBackend, weight, sum_u32}

-- The weights, added up without a bound.
abbrev pub total_weight : List RuntimeBackend → ℕ
total_weight [] = 0
total_weight (b ∷ bs) = weight b + total_weight bs

-- The `u32` sum is the exact one modulo 2³².
pub sum_u32_lem :
    (acc : ℕ) (bs : List RuntimeBackend)
    → acc < 2 ^ 32
    → sum_u32 acc bs ≡ (acc + total_weight bs) % 2 ^ 32
unfolding sum_u32
sum_u32_lem acc [] h = omega arith
sum_u32_lem acc (b ∷ bs) h = omega (arith, sum_u32_lem ((acc + weight b) % 2 ^ 32) bs (omega arith))

pub sum_u32_exact :
    (bs : List RuntimeBackend) → total_weight bs < 2 ^ 32 → sum_u32 0 bs ≡ total_weight bs
sum_u32_exact bs h = omega (arith, sum_u32_lem 0 bs (omega arith))

pub total_weight-pos :
    (b : RuntimeBackend) (bs : List RuntimeBackend)
    → All (λ (d : RuntimeBackend). 0 < weight d) (b ∷ bs)
    → 0 < total_weight (b ∷ bs)
total_weight-pos b bs h = omega arith
