-- ===== src/Base/Results.antt =====
-- Results of Rust code: `Result` with its error, and code that may panic.
use mathlib.Core.Path.{◌≡◌, refl}
use mathlib.Core.Logic.{◌⊎◌, inl, inr}
use mathlib.Core.Option.{Option, none, some}

pub data Result {ℓ κ} (E : Type ℓ) (A : Type κ) : Type (ℓ ⊔ κ) where
  ok : A → Result E A
  err : E → Result E A

-- Why code panics.
pub data Panic : Type 0 where
  empty_range unwrap_none char_boundary : Panic

pub data Run {ℓ} (A : Type ℓ) : Type ℓ where
  done : A → Run A
  panic : Panic → Run A

-- Rust's `unwrap`.
abbrev pub unwrap {ℓ} : {A : Type ℓ} → Option A → Run A
unwrap none = panic unwrap_none
unwrap (some a) = done a

abbrev pub and_then {ℓ κ} : {A : Type ℓ} {B : Type κ} → Run A → (A → Run B) → Run B
and_then (done a) k = k a
and_then (panic p) k = panic p

pub Result-cases {ℓ κ} :
    {E : Type ℓ} {A : Type κ} (r : Result E A) → ((a : A) × (r ≡ ok a)) ⊎ ((e : E) × (r ≡ err e))
Result-cases (ok a) = inl (a, refl)
Result-cases (err e) = inr (e, refl)

pub and_then-eq-done {ℓ κ} :
    {A : Type ℓ} {B : Type κ} (r : Run A) (k : A → Run B) {b : B}
    → and_then r k ≡ done b
    → (a : A) × (r ≡ done a) × (k a ≡ done b)
and_then-eq-done (done a) k h = (a, refl, h)
and_then-eq-done (panic p) k h = cc
