-- ===== src/Mock.antt =====
-- src/mock.rs: the key store for tests and for the benchmark. The five shared maps and lists are
-- one state; each lock is held for one access, and a poisoned lock is not modelled.
pub mod History
pub mod Verdicts
use sol_rpc_router.Base.{
  ℕ, ◌+◌, ◌%◌, ◌^◌, String, Bool, true, false, Option, none, some, List, [], ◌∷◌, ◌++◌, ◌==◌,
  HashMap, get, insert, any, Result, ok, err, if◌then◌else◌,
}
use sol_rpc_router.KeyStore.{KeyInfo, Answer, KeyStore}

pub record MockKeyStore : Type 0 where
  pub keys : HashMap KeyInfo
  pub call_counts : HashMap ℕ
  pub inactive_keys : List String
  pub rate_limited_keys : List String
  pub error_keys : HashMap String

abbrev pub new : MockKeyStore
new = record {
  keys = [];
  call_counts = [];
  inactive_keys = [];
  rate_limited_keys = [];
  error_keys = [];
}

unfoldable pub add_key : String → String → ℕ → MockKeyStore → MockKeyStore
add_key key owner rate_limit m = record m {
  keys = insert key (record { owner = owner; rate_limit = rate_limit }) m.keys;
}

unfoldable pub set_inactive : String → MockKeyStore → MockKeyStore
set_inactive key m = record m { inactive_keys = m.inactive_keys ++ key ∷ [] }

unfoldable pub set_error : String → String → MockKeyStore → MockKeyStore
set_error key msg m = record m { error_keys = insert key msg m.error_keys }

abbrev count_or_zero : Option ℕ → ℕ
count_or_zero none = 0
count_or_zero (some n) = n

unfoldable pub get_call_count : String → MockKeyStore → ℕ
get_call_count key m = count_or_zero (get key m.call_counts)

abbrev pub contains : List String → String → Bool
contains xs key = any (λ x. x == key) xs

-- `*counts.entry(key).or_insert(0) += 1` on a `u64`.
unfoldable pub count_call : String → MockKeyStore → MockKeyStore
count_call key m = record m {
  call_counts = insert key ((count_or_zero (get key m.call_counts) + 1) % 2 ^ 64) m.call_counts;
}

-- The body of `validate_key`, from the count of the call on.
unfoldable pub verdict : String → MockKeyStore → Answer
verdict key m = elim (get key m.error_keys) [
  | some msg ↦ err msg
  | none ↦ if contains m.inactive_keys key then ok none else elim (get key m.keys) [
    | none ↦ ok none
    | some info ↦
        if contains m.rate_limited_keys key then err "Rate limit exceeded" else ok (some info)
  ]
]

unfoldable pub validate_key : KeyStore MockKeyStore
validate_key key m = (verdict key m, count_call key m)
