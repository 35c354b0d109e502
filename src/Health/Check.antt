-- ===== src/Health/Check.antt =====
-- One health check: which answers of a backend count as a success.
use sol_rpc_router.Base.{
  ℕ, ◌≤◌, ◌<◌, String, ◌≡◌, ◌≢◌, refl, ◌↔◌, ◌⊎◌, inl, inr, true, false, Option, none, some, ◌==◌,
  eq_iff, arith, Result, ok, err, Bool-cases, Result-cases,
}
use sol_rpc_router.Config.{Backend, HealthCheckConfig}
use sol_rpc_router.Health.{
  HttpClient, Attempt, answered, failed, elapsed, is_success, is_slot_method, read_slot,
  read_attempt, perform_health_check,
}

-- The method asks for a slot or for a block height.
abbrev pub AsksSlot : String → Type 0
AsksSlot method = (method ≡ "getSlot") ⊎ (method ≡ "getBlockHeight")

-- What a body must be for a check to give `slot`: for a method that asks for a slot, a text whose
-- `result` is that number; for any other method nothing, and no slot is given.
pub data Gives (client : HttpClient) (method : String) (body : Result String String)
    : Option ℕ → Type 0 where
  a_slot :
      (text : String) (slot : ℕ)
      → AsksSlot method
      → body ≡ ok text
      → client.result_u64 text ≡ ok (some slot)
      → Gives client method body (some slot)
  no_slot : method ≢ "getSlot" → method ≢ "getBlockHeight" → Gives client method body none

-- A response in time with a status from 200 to 299 and such a body.
pub record IsHealthyAnswer (client : HttpClient) (backend : Backend) (cfg : HealthCheckConfig)
    (slot : Option ℕ) : Type 0 where
  pub uri : String
  pub status : ℕ
  pub body : Result String String
  pub built : client.build backend ≡ ok uri
  pub in_time :
      client.request (record { uri = uri; method = cfg.method }) cfg.timeout_secs
      ≡ answered status body
  pub at_least : 200 ≤ status
  pub below : status < 300
  pub gives : Gives client cfg.method body slot

slot_method_cases :
    (method : String)
    → ((is_slot_method method ≡ true) × AsksSlot method)
      ⊎ ((is_slot_method method ≡ false) × (method ≢ "getSlot") × (method ≢ "getBlockHeight"))
slot_method_cases method =
    let slot = eq_iff method "getSlot" in
    let height = eq_iff method "getBlockHeight" in
    elim (Bool-cases (method == "getSlot")) [
      | inl is_slot ↦ inl (rw is_slot refl, inl (slot.0 is_slot))
      | inr not_slot ↦ elim (Bool-cases (method == "getBlockHeight")) [
        | inl is_height ↦ inl (rw (not_slot, is_height) refl, inr (height.0 is_height))
        | inr neither ↦ inr (
          rw (not_slot, neither) refl,
          λ e. cc (not_slot, slot.1 e),
          λ e. cc (neither, height.1 e),
        )
      ]
    ]

read_slot-Gives :
    (client : HttpClient) (method : String) (body : Result String String) (slot : Option ℕ)
    → AsksSlot method
    → read_slot client method body ≡ ok slot
    → Gives client method body slot
unfolding read_slot
read_slot-Gives client method (err e) slot asks h = cc
read_slot-Gives client method (ok text) slot asks h = elim (Result-cases (client.result_u64 text)) [
  | inr (e, bad) ↦ cc (rw (bad, read_slot) at h)
  | inl (none, missing) ↦ cc (rw (missing, read_slot) at h)
  | inl (some n, found) ↦
      let same : some n ≡ slot = cc (rw (found, read_slot) at h) in
      rw (← same) (a_slot text n asks refl found)
]

read_attempt-Gives :
    (client : HttpClient) (cfg : HealthCheckConfig) (a : Attempt) (slot : Option ℕ)
    → read_attempt client cfg a ≡ ok slot
    → (status : ℕ) × (body : Result String String) × (a ≡ answered status body)
      × (200 ≤ status)
      × (status < 300)
      × Gives client cfg.method body slot
unfolding read_attempt
read_attempt-Gives client cfg (failed e) slot h = cc
read_attempt-Gives client cfg elapsed slot h = cc
read_attempt-Gives client cfg (answered status body) slot h =
    elim (Bool-cases (is_success status)) [
      | inr bad ↦ cc (rw bad at h)
      | inl fine ↦
          let low : 200 ≤ status = ground arith in
          let high : status < 300 = ground arith in
          elim (slot_method_cases cfg.method) [
            | inl (is_slot, asks) ↦
                let read : read_slot client cfg.method body ≡ ok slot = rw (fine, is_slot) at h in
                (
                  status,
                  body,
                  refl,
                  low,
                  high,
                  read_slot-Gives client cfg.method body slot asks read,
                )
            | inr (other, not_slot, not_height) ↦
                let same : none ≡ slot = cc (rw (fine, other) at h) in
                (status, body, refl, low, high, rw (← same) (no_slot not_slot not_height))
          ]
    ]

Gives-read :
    (client : HttpClient) (cfg : HealthCheckConfig) (status : ℕ) (body : Result String String)
    (slot : Option ℕ)
    → is_success status ≡ true
    → Gives client cfg.method body slot
    → read_attempt client cfg (answered status body) ≡ ok slot
unfolding read_attempt read_slot
Gives-read client cfg status body _ fine (a_slot text slot asks was found) =
    elim (slot_method_cases cfg.method) [
      | inl (is_slot, _) ↦ rw (fine, is_slot, was) (rw (found, read_slot) refl)
      | inr (_, not_slot, not_height) ↦ elim asks [
        | inl e ↦ absurd (not_slot e)
        | inr e ↦ absurd (not_height e)
      ]
    ]
Gives-read client cfg status body _ fine (no_slot not_slot not_height) =
    elim (slot_method_cases cfg.method) [
      | inl (_, inl e) ↦ absurd (not_slot e)
      | inl (_, inr e) ↦ absurd (not_height e)
      | inr (other, _, _) ↦ rw (fine, other) refl
    ]

-- A health check succeeds, with a slot or with none, exactly if the request can be built, the
-- backend answers it in time with a status from 200 to 299, and, where the configured method asks
-- for a slot or a block height, the `result` of the body is that number; with any other method the
-- body is not read and no slot is given.
pub perform_health_check_iff :
    (client : HttpClient) (backend : Backend) (cfg : HealthCheckConfig) (slot : Option ℕ)
    → (perform_health_check client backend cfg ≡ ok slot) ↔ IsHealthyAnswer client backend cfg slot
unfolding perform_health_check
perform_health_check_iff client backend cfg slot = (
  λ h. elim (Result-cases (client.build backend)) [
    | inr (e, bad) ↦ cc (rw (bad, perform_health_check) at h)
    | inl (uri, built) ↦
        let (status, body, in_time, low, high, gives) =
          read_attempt-Gives client cfg
            (client.request (record { uri = uri; method = cfg.method }) cfg.timeout_secs) slot
            (rw (built, perform_health_check) at h) in
        record {
          uri = uri;
          status = status;
          body = body;
          built = built;
          in_time = in_time;
          at_least = low;
          below = high;
          gives = gives;
        }
  ],
  λ a.
      let fine : is_success a.status ≡ true = ground (arith, a.at_least, a.below) in
      rw (a.built, perform_health_check)
        (rw a.in_time (Gives-read client cfg a.status a.body slot fine a.gives)),
)
