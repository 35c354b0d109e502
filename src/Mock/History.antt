-- ===== src/Mock/History.antt =====
-- What a history of uses of the key store for tests says of a key.
use sol_rpc_router.Base.{
  ℕ, String, Bool, true, false, Option, none, some, List, [], ◌∷◌, ◌++◌, ◌==◌, any, ok, err,
  if◌then◌else◌, filter, length,
}
use sol_rpc_router.State.{or_else}
use sol_rpc_router.KeyStore.{KeyInfo, Answer}
use sol_rpc_router.Mock.{MockKeyStore, add_key, set_inactive, set_error, validate_key}

-- The set-up of a test and its calls. `limits` is a push to `rate_limited_keys`.
pub data Use : Type 0 where
  adds : String → KeyInfo → Use
  disables : String → Use
  limits : String → Use
  fails : String → String → Use
  calls : String → Use

unfoldable pub use_one : Use → MockKeyStore → MockKeyStore
use_one (adds key info) m = add_key key info.owner info.rate_limit m
use_one (disables key) m = set_inactive key m
use_one (limits key) m = record m { rate_limited_keys = m.rate_limited_keys ++ key ∷ [] }
use_one (fails key msg) m = set_error key msg m
use_one (calls key) m = (validate_key key m).1

unfoldable pub use_all : List Use → MockKeyStore → MockKeyStore
use_all [] m = m
use_all (u ∷ us) m = use_all us (use_one u m)

-- What a history says of one key: the last information and the last error set for it, whether it was
-- disabled or limited, and how often it was asked for.
abbrev pub added : String → Use → Option KeyInfo
added key (adds j info) = if j == key then some info else none
added key (disables j) = none
added key (limits j) = none
added key (fails j msg) = none
added key (calls j) = none

abbrev pub failing : String → Use → Option String
failing key (adds j info) = none
failing key (disables j) = none
failing key (limits j) = none
failing key (fails j msg) = if j == key then some msg else none
failing key (calls j) = none

abbrev pub is_disabling : String → Use → Bool
is_disabling key (adds j info) = false
is_disabling key (disables j) = j == key
is_disabling key (limits j) = false
is_disabling key (fails j msg) = false
is_disabling key (calls j) = false

abbrev pub is_limiting : String → Use → Bool
is_limiting key (adds j info) = false
is_limiting key (disables j) = false
is_limiting key (limits j) = j == key
is_limiting key (fails j msg) = false
is_limiting key (calls j) = false

abbrev pub is_call : String → Use → Bool
is_call key (adds j info) = false
is_call key (disables j) = false
is_call key (limits j) = false
is_call key (fails j msg) = false
is_call key (calls j) = j == key

abbrev pub last {ℓ} : {A : Type ℓ} → (Use → Option A) → List Use → Option A
last of [] = none
last of (u ∷ us) = or_else (last of us) (of u)

abbrev pub calls_of : String → List Use → ℕ
calls_of key us = length (filter (is_call key) us)

-- The verdicts, by the error set, whether the key is disabled, its information, and whether it is
-- limited.
abbrev pub judged : Option String → Bool → Option KeyInfo → Bool → Answer
judged (some msg) disabled info limited = err msg
judged none true info limited = ok none
judged none false none limited = ok none
judged none false (some info) true = err "Rate limit exceeded"
judged none false (some info) false = ok (some info)

-- The verdict that a history calls for.
abbrev pub expected : String → List Use → Answer
expected key us =
    judged (last (failing key) us) (any (is_disabling key) us) (last (added key) us)
      (any (is_limiting key) us)
