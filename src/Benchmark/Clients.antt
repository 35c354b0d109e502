-- ===== src/Benchmark/Clients.antt =====
-- src/bin/benchmark.rs: the loops of the clients, which flood the router at once. A turn of a loop is
-- one step, with the readings of the clock that it makes, and the turns come in any order.
pub mod Answered
use sol_rpc_router.Base.{
  ℕ, zero, suc, Bool, true, false, List, [], ◌∷◌, ◌++◌, ltb, map, Run, done, panic, if◌then◌else◌,
}
use sol_rpc_router.Handlers.Metrics.{Served}
use sol_rpc_router.Benchmark.Report.{
  Finished, responded, request_failed, fresh, run_clients, Products, Report, report,
}

-- One turn: of which client, `start_time.elapsed()` at the test, and the microseconds of the request.
pub record Reading : Type 0 where
  pub client : ℕ
  pub elapsed : ℕ
  pub micros : ℕ

-- A client: how its requests ended, and whether its loop is over.
pub record Looping : Type 0 where
  pub results : List Finished
  pub over : Bool

-- The clients are spawned with a loop that is yet to begin.
abbrev pub spawn : ℕ → List Looping
spawn zero = []
spawn (suc n) = record { results = []; over = false } ∷ spawn n

-- A request gets a response unless the handler panics, which closes the connection.
abbrev pub finished : Run Served → ℕ → Finished
finished (done v) micros = responded micros
finished (panic p) micros = request_failed

module _ {S : Type 0} (duration : ℕ) (request : S → Run Served × S) where
  abbrev pub loop_turn : Reading → Looping → S → Looping × S
  loop_turn t c s =
      let (ran, s') = request s in
      if c.over
      then (c, s)
      else if ltb t.elapsed duration
      then (record c { results = c.results ++ finished ran t.micros ∷ [] }, s')
      else (record c { over = true }, s)

  abbrev pub turn_of : ℕ → Reading → List Looping → S → List Looping × S
  turn_of i t [] s = ([], s)
  turn_of zero t (c ∷ cs) s = let (c', s') = loop_turn t c s in (c' ∷ cs, s')
  turn_of (suc i) t (c ∷ cs) s = let (rest, s') = turn_of i t cs s in (c ∷ rest, s')

  unfoldable pub flood : List Reading → List Looping → S → List Looping × S
  flood [] cs s = (cs, s)
  flood (t ∷ ts) cs s = let (cs', s') = turn_of t.client t cs s in flood ts cs' s'

-- The report on what the clients have done.
abbrev pub reported : Products → List Looping → Report
reported f cs = report f (run_clients (map (λ c. c.results) cs) fresh)
