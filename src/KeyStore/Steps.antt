-- ===== src/KeyStore/Steps.antt =====
-- src/keystore.rs: `validate_key` in steps, one for each `await`. Between two steps of a call the
-- cache, the database and the time may change; within a step they do not.
pub mod Undisturbed
pub mod Moments
use sol_rpc_router.Base.{
  ℕ, zero, suc, String, Bool, true, false, Option, none, some, List, [], ◌∷◌, ◌==◌, Result, ok, err,
  if◌then◌else◌,
}
use sol_rpc_router.KeyStore.{
  KeyInfo, Answer, Redis, Cache, Session, api_key_of, unwrap_or, rate_limited, check_rate_limit,
}

-- Where a call stands: which command it sends next, with what it has read so far. `asking_limit` is
-- past the test of `active`; `storing` is an `insert` into the cache.
pub data Phase : Type 0 where
  looking : Phase
  asking_exists : Phase
  asking_owner : Phase
  asking_active : String → Phase
  asking_limit : String → Phase
  storing : Option KeyInfo → Phase
  limiting : KeyInfo → Phase
  finished : Answer → Phase

-- With the information of the key at hand.
abbrev pub with_info : Option KeyInfo → Phase
with_info none = finished (ok none)
with_info (some info) = limiting info

abbrev pub after_lookup : Option (Option KeyInfo) → Phase
after_lookup none = asking_exists
after_lookup (some info) = with_info info

abbrev pub after_exists : Result String Bool → Phase
after_exists (err e) = finished (err e)
after_exists (ok false) = storing none
after_exists (ok true) = asking_owner

abbrev pub after_owner : Result String String → Phase
after_owner (err e) = finished (err e)
after_owner (ok owner) = asking_active owner

abbrev pub after_active : String → Result String String → Phase
after_active owner active =
    if unwrap_or "true" active == "false" then storing none else asking_limit owner

abbrev pub after_limit : String → Result String ℕ → Phase
after_limit owner (err e) = finished (err e)
after_limit owner (ok rate_limit) =
    storing (some (record { owner = owner; rate_limit = rate_limit }))

module _ (r : Redis) (c : Cache) (key : String) where
  unfoldable pub take_step : Phase → Session r c → Phase × Session r c
  take_step looking s = (after_lookup (c.lookup key s.now s.cache), s)
  take_step asking_exists s = (after_exists (r.exists (api_key_of key) s.db), s)
  take_step asking_owner s = (after_owner (r.hget (api_key_of key) "owner" s.db), s)
  take_step (asking_active owner) s =
      (after_active owner (r.hget (api_key_of key) "active" s.db), s)
  take_step (asking_limit owner) s =
      (after_limit owner (r.hget_u64 (api_key_of key) "rate_limit" s.db), s)
  take_step (storing info) s = (with_info info, record s { cache = c.store key info s.now s.cache })
  take_step (limiting info) s =
      let (allowed, db') = check_rate_limit r key info.rate_limit s.db in
      (finished (rate_limited allowed info), record s { db = db' })
  take_step (finished answer) s = (finished answer, s)

  -- Steps one after the other, with nothing between them.
  unfoldable pub take_steps : ℕ → Phase → Session r c → Phase × Session r c
  take_steps zero p s = (p, s)
  take_steps (suc n) p s = let (p', s') = take_step p s in take_steps n p' s'

  -- The phase after some steps, each with the cache, the database and the time that it finds.
  unfoldable pub phase_after : List (Session r c) → Phase → Phase
  phase_after [] p = p
  phase_after (s ∷ ss) p = phase_after ss (take_step p s).0
