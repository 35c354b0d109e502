-- ===== src/Benchmark/Upstream.antt =====
-- src/bin/benchmark.rs: the mock backend of `start_mock_upstream`. axum's routes and its extractor
-- of a JSON body are parameters, and so is serde's text of a value.
use sol_rpc_router.Base.{ℕ, String, Option, none, some, List, [], ◌∷◌}
use sol_rpc_router.Handlers.{Uri, Forward, Upstream, responded}

-- A member of the object that is sent back.
pub data Value : Type 0 where
  text : String → Value
  number : ℕ → Value

abbrev pub upstream_value : List (String × Value)
upstream_value =
    ("jsonrpc", text "2.0") ∷ ("result", text "0x1234567890abcdef") ∷ ("id", number 1) ∷ []

-- `unrouted` is the status with which the route `post` on "/" turns a method and a URI away,
-- `rejected` the status with which `Json` refuses a request, and `json` the text of an object.
pub record JsonAxum : Type 0 where
  pub unrouted : String → Uri → Option ℕ
  pub rejected : Forward → Option ℕ
  pub json : List (String × Value) → String

abbrev pub payload_answer : JsonAxum → Option ℕ → Upstream
payload_answer axum (some status) = responded status ""
payload_answer axum none = responded 200 (axum.json upstream_value)

abbrev pub handled : JsonAxum → Forward → Option ℕ → Upstream
handled axum sent (some status) = responded status ""
handled axum sent none = payload_answer axum (axum.rejected sent)

-- What the mock backend answers to a request.
unfoldable pub start_mock_upstream : JsonAxum → Forward → Upstream
start_mock_upstream axum sent = handled axum sent (axum.unrouted sent.request.method sent.uri)
