-- ===== src/KeyStore/Concurrent/Phases.antt =====
-- The phases of a call that may still let it in.
use sol_rpc_router.Base.{String, ◌≡◌, refl, Bool, true, false, Option, none, some, Result, ok, err}
use sol_rpc_router.KeyStore.{KeyInfo}
use sol_rpc_router.KeyStore.Steps.{
  Phase, looking, asking_exists, asking_owner, asking_active, asking_limit, storing, limiting,
  finished, after_lookup, after_exists, after_owner,
}

-- A call that is past its test of `active` and has not stored what it read.
abbrev pub is_stale : Phase → Bool
is_stale looking = false
is_stale asking_exists = false
is_stale asking_owner = false
is_stale (asking_active owner) = false
is_stale (asking_limit owner) = true
is_stale (storing none) = false
is_stale (storing (some info)) = true
is_stale (limiting info) = false
is_stale (finished answer) = false

-- A call that has accepted its key, or will unless it is over the rate limit or Redis fails.
abbrev pub is_accepting : Phase → Bool
is_accepting looking = false
is_accepting asking_exists = false
is_accepting asking_owner = false
is_accepting (asking_active owner) = false
is_accepting (asking_limit owner) = true
is_accepting (storing none) = false
is_accepting (storing (some info)) = true
is_accepting (limiting info) = true
is_accepting (finished (err e)) = false
is_accepting (finished (ok none)) = false
is_accepting (finished (ok (some info))) = true

pub stale-accepting : (p : Phase) → is_accepting p ≡ false → is_stale p ≡ false
stale-accepting looking h = refl
stale-accepting asking_exists h = refl
stale-accepting asking_owner h = refl
stale-accepting (asking_active owner) h = refl
stale-accepting (asking_limit owner) h = h
stale-accepting (storing none) h = refl
stale-accepting (storing (some info)) h = h
stale-accepting (limiting info) h = refl
stale-accepting (finished answer) h = refl

pub stale-after_lookup : (o : Option (Option KeyInfo)) → is_stale (after_lookup o) ≡ false
stale-after_lookup none = refl
stale-after_lookup (some none) = refl
stale-after_lookup (some (some info)) = refl

-- Nothing accepts before the test of `active`.
pub accepting-after_exists : (a : Result String Bool) → is_accepting (after_exists a) ≡ false
accepting-after_exists (err e) = refl
accepting-after_exists (ok false) = refl
accepting-after_exists (ok true) = refl

pub accepting-after_owner : (a : Result String String) → is_accepting (after_owner a) ≡ false
accepting-after_owner (err e) = refl
accepting-after_owner (ok owner) = refl
