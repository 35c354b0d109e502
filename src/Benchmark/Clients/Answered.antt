-- ===== src/Benchmark/Clients/Answered.antt =====
-- The loops of the benchmark's clients, for requests that are all answered.
use sol_rpc_router.Base.{
  ℕ, zero, suc, ◌+◌, ◌≡◌, ◌∙◌, refl, sym, ap, subst, inl, inr, List, [], ◌∷◌, ◌++◌, arith, length,
  ltb, map, Run, done, Bool-cases,
}
use sol_rpc_router.Handlers.Metrics.{Served}
use sol_rpc_router.Benchmark.Report.{Finished, responded}
use sol_rpc_router.Benchmark.Report.Summary.{all_results, failures, length-append, failures-append}
use sol_rpc_router.Benchmark.Clients.{Reading, Looping, spawn, loop_turn, turn_of, flood}

-- What all clients have done so far.
abbrev pub results_of : List Looping → List Finished
results_of cs = all_results (map (λ c. c.results) cs)

spawn-results : (n : ℕ) → results_of (spawn n) ≡ []
spawn-results zero = refl
spawn-results (suc n) = spawn-results n

-- `Serves n s`: after `n` requests the server is in a state like `s`, and it answers the next one.
module _ {S : Type 0} (duration : ℕ) (request : S → Run Served × S) (Serves : ℕ → S → Type 0)
    (answers : (n : ℕ) (s : S)
      → Serves n s
      → (v : Served) × ((request s).0 ≡ done v) × Serves (suc n) (request s).1) where
  -- Some more requests were made, and all were answered.
  record Grew (n : ℕ) (old new : List Finished) (s : S) : Type 0 where
    more : ℕ
    longer : length new ≡ length old + more
    failed : failures new ≡ failures old
    serves : Serves (n + more) s

  same : (n : ℕ) (old : List Finished) (s : S) → Serves n s → Grew n old old s
  same n old s h = record {
    more = 0;
    longer = omega arith;
    failed = refl;
    serves = subst (λ k. Serves k s) (omega arith) h;
  }

  one_more :
      (n : ℕ) (old : List Finished) (micros : ℕ) (s : S)
      → Serves (suc n) s
      → Grew n old (old ++ responded micros ∷ []) s
  one_more n old micros s h = record {
    more = 1;
    longer = length-append old (responded micros ∷ []);
    failed = omega (arith, failures-append old (responded micros ∷ []));
    serves = subst (λ k. Serves k s) (omega arith) h;
  }

  loop_turn-Grew :
      (n : ℕ) (t : Reading) (c : Looping) (s : S)
      → Serves n s
      → Grew n c.results
          (loop_turn duration request t c s).0.results
          (loop_turn duration request t c s).1
  loop_turn-Grew n t c s h =
      let (v, ran, next) = answers n s h in
      elim (Bool-cases c.over) [
        | inl over ↦ rw over (same n c.results s h)
        | inr running ↦ elim (Bool-cases (ltb t.elapsed duration)) [
          | inl early ↦ rw (running, early) (rw ran (one_more n c.results t.micros _ next))
          | inr late ↦ rw (running, late) (same n c.results s h)
        ]
      ]

  turn_of-Grew :
      (n i : ℕ) (t : Reading) (cs : List Looping) (s : S)
      → Serves n s
      → Grew n
          (results_of cs)
          (results_of (turn_of duration request i t cs s).0)
          (turn_of duration request i t cs s).1
  turn_of-Grew n i t [] s h = same n [] s h
  turn_of-Grew n zero t (c ∷ cs) s h =
      let g = loop_turn-Grew n t c s h in
      let (c', _) = loop_turn duration request t c s in
      let rest = results_of cs in
      record {
        more = g.more;
        longer =
            omega (arith, g.longer, length-append c'.results rest, length-append c.results rest);
        failed =
            omega
              (arith, g.failed, failures-append c'.results rest, failures-append c.results rest);
        serves = g.serves;
      }
  turn_of-Grew n (suc i) t (c ∷ cs) s h =
      let g = turn_of-Grew n i t cs s h in
      let old = results_of cs in
      let new = results_of (turn_of duration request i t cs s).0 in
      record {
        more = g.more;
        longer = omega (arith, g.longer, length-append c.results new, length-append c.results old);
        failed =
            omega (arith, g.failed, failures-append c.results new, failures-append c.results old);
        serves = g.serves;
      }

  flood-Grew :
      (n : ℕ) (ts : List Reading) (cs : List Looping) (s : S)
      → Serves n s
      → Grew n
          (results_of cs)
          (results_of (flood duration request ts cs s).0)
          (flood duration request ts cs s).1
  unfolding flood
  flood-Grew n [] cs s h = same n (results_of cs) s h
  flood-Grew n (t ∷ ts) cs s h =
      let g = turn_of-Grew n t.client t cs s h in
      let k =
        flood-Grew (n + g.more) ts (turn_of duration request t.client t cs s).0
          (turn_of duration request t.client t cs s).1 g.serves in
      record {
        more = g.more + k.more;
        longer = omega (arith, g.longer, k.longer);
        failed = omega (arith, g.failed, k.failed);
        serves =
            subst (λ m. Serves m (flood duration request (t ∷ ts) cs s).1) (omega arith) k.serves;
      }

  -- From the start: no request has failed, and the server has served as many as there are results.
  pub flood-answered :
      (concurrency : ℕ) (ts : List Reading) (s : S)
      → Serves 0 s
      → (failures (results_of (flood duration request ts (spawn concurrency) s).0) ≡ 0)
        × Serves
            (length (results_of (flood duration request ts (spawn concurrency) s).0))
            (flood duration request ts (spawn concurrency) s).1
  flood-answered concurrency ts s h =
      let g = flood-Grew 0 ts (spawn concurrency) s h in
      let start = spawn-results concurrency in
      (
        g.failed ∙ ap failures start,
        subst (λ m. Serves m (flood duration request ts (spawn concurrency) s).1)
            (sym (g.longer ∙ ap (λ rs. length rs + g.more) start)) g.serves,
      )
