-- ===== src/Tests/ConcurrentTests.antt =====
-- Runs of several calls of `validate_key` at once.
use sol_rpc_router.Base.{◌-◌, ◌≤◌, ◌≡◌, refl, none, some, List, [], ◌∷◌, ◌⊎◌, arith, ok, err}
use sol_rpc_router.KeyStore.{
  KeyInfo, Answer, Session, fetch, script, check_rate_limit, get_key_info, check_info, validate_key,
}
use sol_rpc_router.KeyStore.Steps.{looking, finished, take_step, take_steps, phase_after}
use sol_rpc_router.KeyStore.Steps.Undisturbed.{phase_after-ends, take_steps-validate_key}
use sol_rpc_router.KeyStore.Steps.Moments.{Ever, LetThrough, IsCached, IsRead, accepted-IsRead}
use sol_rpc_router.KeyStore.Concurrent.{
  World, Event, begins, advances, changes, advance, happen, happen_all,
}
use sol_rpc_router.KeyStore.Concurrent.Limit.{passed, passed-le_limit}
use sol_rpc_router.Samples.{redis, Database, database, redis-IsCounter, cache}

steps : Unit {0}
unfolding take_step take_steps phase_after fetch script check_rate_limit get_key_info check_info
    validate_key advance happen happen_all passed
steps = tt

abbrev live : Database
live = database "true" "1"

abbrev acme : KeyInfo
acme = record { owner = "acme"; rate_limit = 2 }

abbrev cold : Session redis cache
cold = record { cache = []; db = live; now = 0 }

-- The key is revoked after its `active` was read.
abbrev gone : Session redis cache
gone = record { cache = []; db = database "false" "1"; now = 1 }

abbrev seen : List (Session redis cache)
seen = cold ∷ cold ∷ cold ∷ cold ∷ gone ∷ gone ∷ gone ∷ []

accepts_late : phase_after redis cache "k" seen looking ≡ finished (ok (some acme))
unfolding steps
accepts_late = refl

ends_in_seven_steps :
    (answer : Answer) × (phase_after redis cache "k" seen looking ≡ finished answer)
ends_in_seven_steps = phase_after-ends redis cache "k" seen (omega arith)

accepted-IsRead_example :
    Ever (LetThrough redis cache "k" acme) seen
    × (Ever (IsCached redis cache "k" acme) seen ⊎ IsRead redis cache "k" acme seen)
accepted-IsRead_example = accepted-IsRead redis cache "k" acme seen accepts_late

undisturbed_run :
    take_steps redis cache "k" 7 looking cold
    ≡ (finished (validate_key redis cache "k" cold).0, (validate_key redis cache "k" cold).1)
undisturbed_run = take_steps-validate_key redis cache "k" cold

abbrev quiet : World redis cache
quiet = record { cache = []; db = live; tasks = λ _. none }

-- Three calls for one key, step by step in turn: all miss the cache, and two are let through.
abbrev three : List (Event redis)
three =
    begins 1 "k"
    ∷ begins 2 "k"
    ∷ begins 3 "k"
    ∷ advances 1 0
    ∷ advances 2 0
    ∷ advances 3 0
    ∷ advances 1 0
    ∷ advances 2 0
    ∷ advances 3 0
    ∷ advances 1 0
    ∷ advances 2 0
    ∷ advances 3 0
    ∷ advances 1 0
    ∷ advances 2 0
    ∷ advances 3 0
    ∷ advances 1 0
    ∷ advances 2 0
    ∷ advances 3 0
    ∷ advances 1 0
    ∷ advances 2 0
    ∷ advances 3 0
    ∷ advances 3 0
    ∷ advances 2 0
    ∷ advances 1 0
    ∷ []

three_run :
    (passed redis cache "k" 2 three quiet ≡ 2)
    × ((happen_all redis cache three quiet).tasks 1
        ≡ some (record { key = "k"; phase = finished (err "Rate limit exceeded") }))
    × ((happen_all redis cache three quiet).tasks 3
        ≡ some (record { key = "k"; phase = finished (ok (some acme)) }))
unfolding steps
three_run = (refl, refl, refl)

passed-le_limit_example : passed redis cache "k" 2 three quiet ≤ 2 - 0
passed-le_limit_example =
    passed-le_limit redis cache "k" 2 (λ k db. db.counters k) redis-IsCounter three quiet
      (
        tt,
        (
          tt,
          (
            tt,
            (
              tt,
              (
                tt,
                (
                  tt,
                  (
                    tt,
                    (
                      tt,
                      (
                        tt,
                        (
                          tt,
                          (
                            tt,
                            (
                              tt,
                              (
                                tt,
                                (
                                  tt,
                                  (tt, (tt, (tt, (tt, (tt, (tt, (tt, (tt, (tt, (tt, tt)))))))))),
                                ),
                              ),
                            ),
                          ),
                        ),
                      ),
                    ),
                  ),
                ),
              ),
            ),
          ),
        ),
      )

abbrev revoked : Database → Database
revoked db = record db { active = "false" }

-- A call has read `active` when the key is revoked, and stores what it read at 90; another call is
-- let in at 140.
abbrev race : List (Event redis)
race =
    begins 1 "k"
    ∷ advances 1 0
    ∷ advances 1 0
    ∷ advances 1 0
    ∷ advances 1 0
    ∷ changes revoked
    ∷ advances 1 90
    ∷ advances 1 90
    ∷ begins 2 "k"
    ∷ advances 2 140
    ∷ advances 2 140
    ∷ []

race_run :
    (happen_all redis cache race quiet).tasks 2
    ≡ some (record { key = "k"; phase = finished (ok (some acme)) })
unfolding steps
race_run = refl
