-- ===== src/Server/Limited.antt =====
-- The rate limit and what the HTTP server sends to the backends.
use sol_rpc_router.Base.{
  ℕ, ◌+◌, ◌-◌, ◌≤◌, String, ◌≡◌, refl, sym, ap, inl, inr, Bool, true, false, ◌&&◌, Option, none,
  some, ◌==◌, arith, subst, Result, ok, err, Run, done, panic, and_then, Option-cases, Result-cases,
  if◌then◌else◌,
}
use sol_rpc_router.KeyStore.{
  KeyInfo, Answer, Redis, Cache, Session, rate_limit_of, rate_limited, check_rate_limit,
  get_key_info, check_info, validate_key,
}
use sol_rpc_router.KeyStore.Hashes.{db-get_key_info}
use sol_rpc_router.KeyStore.Rate.{IsCounter, is_allowed}
use sol_rpc_router.KeyStore.Concurrent.Limit.{is_within, limiting-counted}
use sol_rpc_router.Handlers.{Env, Request, Forward, proxy}
use sol_rpc_router.Handlers.Metrics.{Served}
use sol_rpc_router.Server.{Endpoint, to_proxy, to_ws_proxy, to_health, unrouted, Axum, serve}
use sol_rpc_router.Handlers.Ws.{ws_proxy}

-- Whether a request was sent on to a backend.
abbrev pub has_request : Option Forward → Bool
has_request none = false
has_request (some sent) = true

abbrev pub was_sent : Run Served → Bool
was_sent (done v) = has_request v.reply.sent
was_sent (panic p) = false

and_false : (b : Bool) → (b && false) ≡ false
and_false true = refl
and_false false = refl

-- The layers leave the reply as it is.
pub and_then-was_sent :
    (change : Served → Served) (ran : Run Served)
    → ((v : Served) → (change v).reply ≡ v.reply)
    → was_sent (and_then ran (λ v. done (change v))) ≡ was_sent ran
and_then-was_sent change (done v) same = ap (λ reply. has_request reply.sent) (same v)
and_then-was_sent change (panic p) same = refl

module _ (r : Redis) (c : Cache) (key : String) (most : ℕ) where
  -- Whether an answer accepts under a limit that is set and at most `most`.
  abbrev pub grants : Answer → Bool
  grants (err e) = false
  grants (ok none) = false
  grants (ok (some info)) = is_within most info

  -- Whether a request with some extracted query is accepted for the key under such a limit.
  abbrev pub accepts : Result ℕ (Option String) → Session r c → Bool
  accepts (err status) s = false
  accepts (ok none) s = false
  accepts (ok (some k)) s = (k == key) && grants (validate_key r c k s).0

  grants-rate_limited :
      (a : Result String Bool) (info : KeyInfo)
      → grants (rate_limited a info) ≡ (is_within most info && is_allowed a)
  grants-rate_limited (ok true) info = ground arith
  grants-rate_limited (ok false) info = sym (and_false (is_within most info))
  grants-rate_limited (err e) info = sym (and_false (is_within most info))

  module _ (count : String → r.Db → ℕ) (law : IsCounter r count) where
    -- What is left of the limit pays for a request.
    abbrev pub Pays : Bool → r.Db → r.Db → Type 0
    Pays sent before after =
        (if sent then 1 else 0) + (most - count (rate_limit_of key) after)
        ≤ most - count (rate_limit_of key) before

    unsent-Pays : (db : r.Db) → Pays false db db
    unsent-Pays db = omega arith

    and-Pays : (a b : Bool) (before after : r.Db) → Pays a before after → Pays (a && b) before after
    and-Pays true true before after h = h
    and-Pays true false before after h = omega (arith, h)
    and-Pays false b before after h = h

    check_info-Pays :
        (k : String) (answer : Answer) (s : Session r c)
        → Pays
            ((k == key) && grants (check_info r c k answer s).0)
            s.db
            (check_info r c k answer s).1.db
    unfolding check_info
    check_info-Pays k (err e) s = rw (and_false (k == key)) (unsent-Pays s.db)
    check_info-Pays k (ok none) s = rw (and_false (k == key)) (unsent-Pays s.db)
    check_info-Pays k (ok (some info)) s =
        subst (λ b. Pays ((k == key) && b) s.db (check_rate_limit r k info.rate_limit s.db).1)
          (sym (grants-rate_limited (check_rate_limit r k info.rate_limit s.db).0 info))
          (limiting-counted r c key most count law k info s.db)

    validate_key-Pays :
        (k : String) (s : Session r c)
        → Pays ((k == key) && grants (validate_key r c k s).0) s.db (validate_key r c k s).1.db
    unfolding validate_key
    validate_key-Pays k s =
        let (answer, s') = get_key_info r c k s in
        subst
          (λ db.
            Pays ((k == key) && grants (validate_key r c k s).0) db (validate_key r c k s).1.db)
          (db-get_key_info r c k s) (check_info-Pays k answer s')

    pub nothing-Pays : (accepted : Bool) (db : r.Db) → Pays (accepted && false) db db
    nothing-Pays accepted db = rw (and_false accepted) (unsent-Pays db)

    module _ (axum : Axum) (env : Env) where
      abbrev Serves : Endpoint → Request → Session r c → Type 0
      Serves endpoint req s =
          Pays
            (accepts (axum.params req.query) s
              && was_sent (serve axum env (validate_key r c) endpoint req s).0)
            s.db (serve axum env (validate_key r c) endpoint req s).1.db

      pub serve-Pays :
          (endpoint : Endpoint) (req : Request) (s : Session r c) → Serves endpoint req s
      unfolding serve proxy ws_proxy
      serve-Pays to_proxy req s = elim (Result-cases (axum.params req.query)) [
        | inr (status, bad) ↦ rw (bad, serve) (nothing-Pays false s.db)
        | inl (none, good) ↦ rw (good, serve) (unsent-Pays s.db)
        | inl (some k, good) ↦ rw (good, serve) (and-Pays _ _ _ _ (validate_key-Pays k s))
      ]
      serve-Pays to_ws_proxy req s = elim (Option-cases (axum.upgrade req)) [
        | inr (status, refuses) ↦ rw (refuses, serve) (nothing-Pays _ s.db)
        | inl takes ↦ elim (Result-cases (axum.params req.query)) [
          | inr (status, bad) ↦ rw (takes, bad, serve) (unsent-Pays s.db)
          | inl (none, good) ↦ rw (takes, good, serve) (unsent-Pays s.db)
          | inl (some k, good) ↦ rw (takes, good, serve) (and-Pays _ _ _ _ (validate_key-Pays k s))
        ]
      ]
      serve-Pays to_health req s = nothing-Pays _ s.db
      serve-Pays (unrouted status) req s = nothing-Pays _ s.db
