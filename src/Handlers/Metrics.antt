-- ===== src/Handlers/Metrics.antt =====
-- src/handlers.rs: the middleware around the handlers, `log_requests` and `track_metrics`. A layer
-- takes the service below it; what it logs and counts is added to what that service did. The
-- durations are left out.
use sol_rpc_router.Base.{ℕ, String, Option, none, some, List, [], ◌∷◌, ◌++◌, Run, done, and_then}
use sol_rpc_router.Handlers.{Request, Response, Reply}

-- One increment of `rpc_requests_total`, with its labels.
pub record RequestCount : Type 0 where
  pub method : String
  pub status : ℕ
  pub rpc_method : String
  pub backend : String
  pub owner : String

-- One line of the request log. The RPC method and the backend are there or not.
pub record LogLine : Type 0 where
  pub method : String
  pub path : String
  pub rpc_method : Option String
  pub backend : Option String

-- A reply with the counts and the log lines that were made for it.
pub record Served : Type 0 where
  pub reply : Reply
  pub counts : List RequestCount
  pub lines : List LogLine

-- A service that runs on the state of the key store.
abbrev pub Service : Type 0 → Type 0
Service S = Request → S → Run Served × S

abbrev pub bare : Reply → Served
bare reply = record { reply = reply; counts = []; lines = [] }

abbrev pub or_text : String → Option String → String
or_text d none = d
or_text d (some t) = t

abbrev pub count_of : Request → Response → RequestCount
count_of req resp = record {
  method = req.method;
  status = resp.status;
  rpc_method = or_text "unknown" req.rpc_method;
  backend = or_text "none" resp.selected_backend;
  owner = or_text "none" resp.client_owner;
}

abbrev pub line_of : Request → Response → LogLine
line_of req resp = record {
  method = req.method;
  path = req.path;
  rpc_method = req.rpc_method;
  backend = resp.selected_backend;
}

unfoldable pub track_metrics : {S : Type 0} → Service S → Service S
track_metrics next req s =
    let (ran, s') = next req s in
    (
      and_then ran (λ (v : Served).
          done (record v { counts = v.counts ++ count_of req v.reply.response ∷ [] })),
      s',
    )

unfoldable pub log_requests : {S : Type 0} → Service S → Service S
log_requests next req s =
    let (ran, s') = next req s in
    (
      and_then ran (λ (v : Served).
          done (record v { lines = v.lines ++ line_of req v.reply.response ∷ [] })),
      s',
    )
