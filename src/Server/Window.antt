-- ===== src/Server/Window.antt =====
-- Requests to the HTTP server one after the other, within one window of the rate limit.
use sol_rpc_router.Base.{
  ℕ, ◌+◌, ◌-◌, ◌≤◌, String, ◌≡◌, ◌∙◌, refl, sym, ap, subst, Bool, ◌&&◌, Option, none, some, List,
  [], ◌∷◌, ◌++◌, arith, All, Run, if◌then◌else◌,
}
use sol_rpc_router.KeyStore.{Redis, Cache, Session, rate_limit_of, validate_key}
use sol_rpc_router.KeyStore.Rate.{IsCounter}
use sol_rpc_router.Handlers.{Env}
use sol_rpc_router.Handlers.Middleware.{extract_rpc_method}
use sol_rpc_router.Handlers.Metrics.{Served, count_of, line_of, track_metrics, log_requests}
use sol_rpc_router.Server.{Axum, Arrival, request_of, routes, cors, http_app}
use sol_rpc_router.Server.Refused.{extract-query}
use sol_rpc_router.Server.Limited.{
  was_sent, accepts, and_then-was_sent, Pays, nothing-Pays, serve-Pays,
}

-- A request with the router's table and the time when it comes, and what other programs have done
-- to the database since the request before it.
pub record Visit (r : Redis) : Type 0 where
  pub env : Env
  pub arrival : Arrival
  pub now : ℕ
  pub change : r.Db → r.Db

module _ (axum : Axum) (probe : String → Option String) (r : Redis) (c : Cache) where
  abbrev pub found : Visit r → Session r c → Session r c
  found v s = record s { now = v.now; db = v.change s.db }

  abbrev pub visit : Visit r → Session r c → Run Served × Session r c
  visit v s = http_app axum v.env (validate_key r c) probe v.arrival (found v s)

  module _ (key : String) (most : ℕ) where
    -- Whether a request is sent on for the key, under a limit that is set and at most `most`.
    abbrev pub is_sent_for : Visit r → Session r c → Bool
    is_sent_for v s =
        accepts r c key most (axum.params v.arrival.query) (found v s) && was_sent (visit v s).0

    unfoldable pub sent_for : List (Visit r) → Session r c → ℕ
    sent_for [] s = 0
    sent_for (v ∷ vs) s = (if is_sent_for v s then 1 else 0) + sent_for vs (visit v s).1

    module _ (count : String → r.Db → ℕ) (law : IsCounter r count) where
      -- Nobody takes the counter of the key back.
      abbrev pub Leaves : Visit r → Type 0
      Leaves v =
          (db : r.Db) → count (rate_limit_of key) db ≤ count (rate_limit_of key) (v.change db)

      -- What runs behind the CORS layer.
      abbrev layered : Visit r → Session r c → Run Served × Session r c
      layered v s =
          log_requests (track_metrics (routes axum v.env (validate_key r c)))
            (extract_rpc_method probe v.arrival.incoming (request_of v.arrival)) (found v s)

      abbrev accepted : Visit r → Session r c → Bool
      accepted v s = accepts r c key most (axum.params v.arrival.query) (found v s)

      layered-Pays :
          (v : Visit r) (s : Session r c)
          → Pays r c key most count law
              (accepted v s && was_sent (layered v s).0)
              (v.change s.db)
              (layered v s).1.db
      unfolding log_requests track_metrics
      layered-Pays v s =
          let req = extract_rpc_method probe v.arrival.incoming (request_of v.arrival) in
          let ran = (routes axum v.env (validate_key r c) req (found v s)).0 in
          let counts =
            λ (t : Served). record t { counts = t.counts ++ count_of req t.reply.response ∷ [] } in
          let logs =
            λ (t : Served). record t { lines = t.lines ++ line_of req t.reply.response ∷ [] } in
          let sent : was_sent (layered v s).0 ≡ was_sent ran =
            and_then-was_sent logs _ (λ _. refl) ∙ and_then-was_sent counts ran (λ _. refl) in
          let asked = ap axum.params (extract-query probe v.arrival) in
          subst (λ b. Pays r c key most count law b (v.change s.db) (layered v s).1.db)
            (ap (λ p. accepts r c key most p (found v s) && was_sent ran) asked
              ∙ ap (λ b. accepted v s && b) (sym sent))
            (serve-Pays r c key most count law axum v.env (axum.route req.method req.path) req
              (found v s))

      cors-Pays :
          (v : Visit r) (s : Session r c) (o : Option ℕ)
          → Pays r c key most count law
              (accepted v s && was_sent (cors o (layered v s) (found v s)).0)
              (v.change s.db)
              (cors o (layered v s) (found v s)).1.db
      cors-Pays v s none = layered-Pays v s
      cors-Pays v s (some status) =
          nothing-Pays r c key most count law (accepted v s) (v.change s.db)

      visit-Pays :
          (v : Visit r) (s : Session r c)
          → Pays r c key most count law (is_sent_for v s) (v.change s.db) (visit v s).1.db
      unfolding http_app
      visit-Pays v s = cors-Pays v s (axum.preflight v.arrival)

      -- Within one window, of any HTTP requests one after the other, for any paths and keys, at any
      -- times and with any state of the backends, no more are sent to a backend for the key, under
      -- a limit that is not 0 and at most `most`, than the counter of the key leaves below `most`.
      -- Other programs may change the database in between, if they do not take the counter of the
      -- key back, and scripts may fail.
      pub sent_for-le_limit :
          (vs : List (Visit r)) (s : Session r c)
          → All Leaves vs
          → sent_for vs s ≤ most - count (rate_limit_of key) s.db
      unfolding sent_for
      sent_for-le_limit [] s _ = omega arith
      sent_for-le_limit (v ∷ vs) s (here, later) =
          omega (arith, here s.db, visit-Pays v s, sent_for-le_limit vs (visit v s).1 later)
