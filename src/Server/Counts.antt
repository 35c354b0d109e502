-- ===== src/Server/Counts.antt =====
-- What the HTTP server counts and logs, in terms of what was sent on.
use sol_rpc_router.Base.{
  ℕ, String, ◌≡◌, ◌∙◌, refl, sym, ap, ◌⊎◌, inl, inr, Option, none, some, [], ◌∷◌, ◌++◌, done,
  and_then-eq-done, Option-cases,
}
use sol_rpc_router.KeyStore.{KeyStore}
use sol_rpc_router.Handlers.{Env, Request, Reply, Forward, refuse}
use sol_rpc_router.Handlers.Proxy.{IsForwarded, done-injective}
use sol_rpc_router.Handlers.Middleware.{Incoming, to_bytes, extract_rpc_method}
use sol_rpc_router.Handlers.Metrics.{
  Served, or_text, count_of, line_of, track_metrics, log_requests,
}
use sol_rpc_router.Server.{Axum, Arrival, request_of, routes, http_app}
use sol_rpc_router.Server.Replies.{Explained, plain, forwarded, serve-Bare}

-- The RPC method of a body that fits and has one.
abbrev pub method_of : (String → Option String) → Incoming → Option String
method_of probe incoming = elim (to_bytes incoming) [ none ↦ none | some body ↦ probe body ]

-- The one count and the one log line of a request. Where it was not sent on, they name no backend
-- and no owner; where it was, the backend is the one that it was sent to, and the owner that of the
-- key that the store accepted.
pub data Accounted {S : Type 0} (env : Env) (store : KeyStore S) (s : S)
    (probe : String → Option String) (a : Arrival) : Served → Type 0 where
  unsent :
      (status : ℕ) (words : String)
      → Accounted env store s probe a (record {
        reply = refuse status words;
        counts =
            record {
              method = a.method;
              status = status;
              rpc_method = or_text "unknown" (method_of probe a.incoming);
              backend = "none";
              owner = "none";
            }
            ∷ [];
        lines =
            record {
              method = a.method;
              path = a.path;
              rpc_method = method_of probe a.incoming;
              backend = none;
            }
            ∷ [];
      })
  sent_on :
      (reply : Reply) (key : String) (sent : Forward)
      → reply.sent ≡ some sent
      → (f : IsForwarded env
          (store key s).0
          (extract_rpc_method probe a.incoming (request_of a))
          reply
          sent)
      → Accounted env store s probe a (record {
        reply = reply;
        counts =
            record {
              method = a.method;
              status = reply.response.status;
              rpc_method = or_text "unknown" (method_of probe a.incoming);
              backend = f.label;
              owner = f.info.owner;
            }
            ∷ [];
        lines =
            record {
              method = a.method;
              path = a.path;
              rpc_method = method_of probe a.incoming;
              backend = some f.label;
            }
            ∷ [];
      })

pub extracted :
    (probe : String → Option String) (a : Arrival)
    → let req = extract_rpc_method probe a.incoming (request_of a) in
      (req.method ≡ a.method) × (req.path ≡ a.path) × (req.rpc_method ≡ method_of probe a.incoming)
unfolding extract_rpc_method
extracted probe a = elim (Option-cases (to_bytes a.incoming)) [
  | inl missing ↦ rw (missing, extract_rpc_method, method_of) (refl, refl, refl)
  | inr (body, there) ↦ elim (Option-cases (probe body)) [
    | inl no_method ↦ rw (there, extract_rpc_method, method_of, no_method) (refl, refl, refl)
    | inr (m, found) ↦ rw (there, extract_rpc_method, method_of, found) (refl, refl, refl)
  ]
]

-- A reply with one count and one line.
abbrev built : Request → Reply → Served
built req reply = record {
  reply = reply;
  counts = count_of req reply.response ∷ [];
  lines = line_of req reply.response ∷ [];
}

labelled :
    {S : Type 0} (env : Env) (store : KeyStore S) (s : S) (probe : String → Option String)
    (a : Arrival) (reply : Reply) (key : String) (sent : Forward)
    → reply.sent ≡ some sent
    → (f : IsForwarded env
        (store key s).0
        (extract_rpc_method probe a.incoming (request_of a))
        reply
        sent)
    → (backend owner : Option String) → backend ≡ some f.label
    → owner ≡ some f.info.owner
    → Accounted env store s probe a (record {
      reply = reply;
      counts =
          record {
            method = a.method;
            status = reply.response.status;
            rpc_method = or_text "unknown" (method_of probe a.incoming);
            backend = or_text "none" backend;
            owner = or_text "none" owner;
          }
          ∷ [];
      lines =
          record {
            method = a.method;
            path = a.path;
            rpc_method = method_of probe a.incoming;
            backend = backend;
          }
          ∷ [];
    })
labelled env store s probe a reply key sent was f backend owner b o =
    rw (b, o) (sent_on reply key sent was f)

Explained-Accounted :
    {S : Type 0} (env : Env) (store : KeyStore S) (s : S) (probe : String → Option String)
    (a : Arrival) (reply : Reply)
    → Explained env store s (extract_rpc_method probe a.incoming (request_of a)) reply
    → Accounted env store s probe a
        (built (extract_rpc_method probe a.incoming (request_of a)) reply)
Explained-Accounted env store s probe a _ (plain status words) =
    let (m, p, x) = extracted probe a in rw (m, p, x) (unsent status words)
Explained-Accounted env store s probe a _ (forwarded reply key sent was f) =
    let (m, p, x) = extracted probe a in
    rw (m, p, x) (labelled env store s probe a reply key sent was f _ _ f.backend f.owned)

layers-Accounted :
    {S : Type 0} (axum : Axum) (env : Env) (store : KeyStore S) (probe : String → Option String)
    (a : Arrival) (s : S) (v : Served)
    → (log_requests
        (track_metrics (routes axum env store))
        (extract_rpc_method probe a.incoming (request_of a))
        s).0
      ≡ done v
    → Accounted env store s probe a v
unfolding log_requests track_metrics
layers-Accounted axum env store probe a s v e =
    let req = extract_rpc_method probe a.incoming (request_of a) in
    let (tracked, ran, logged) = and_then-eq-done _ _ e in
    let (served, ran', counted) = and_then-eq-done _ _ ran in
    let (reply, is_bare, explained) =
      serve-Bare env store s axum (axum.route req.method req.path) req served ran' in
    let shown : v ≡ built req reply =
      sym (done-injective logged)
      ∙ ap (λ (t : Served). record t { lines = t.lines ++ line_of req t.reply.response ∷ [] })
          (sym (done-injective counted)
            ∙ ap
                (λ (t : Served). record t {
                  counts = t.counts ++ count_of req t.reply.response ∷ [];
                })
                is_bare) in
    rw shown (Explained-Accounted env store s probe a reply explained)

-- A request that the CORS layer answers itself, as it does for the method OPTIONS, is neither
-- counted nor logged, and nothing is sent on. The HTTP server counts and logs every other request
-- that it answers, whatever the route, exactly once: under the request's HTTP method, the
-- response's status, the RPC method of its body, and the backend and the owner that stand behind
-- the response.
pub http_app-Accounted :
    {S : Type 0} (axum : Axum) (env : Env) (store : KeyStore S) (probe : String → Option String)
    (a : Arrival) (s : S) (v : Served)
    → (http_app axum env store probe a s).0 ≡ done v
    → ((status : ℕ) × (axum.preflight a ≡ some status)
        × (v ≡ record { reply = refuse status ""; counts = []; lines = [] }))
      ⊎ ((axum.preflight a ≡ none) × Accounted env store s probe a v)
unfolding http_app
http_app-Accounted axum env store probe a s v e = elim (Option-cases (axum.preflight a)) [
  | inr (status, answers) ↦ inl (status, answers, sym (done-injective (rw answers at e)))
  | inl passes ↦ inr (passes, layers-Accounted axum env store probe a s v (rw passes at e))
]
