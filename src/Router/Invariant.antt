-- ===== src/Router/Invariant.antt =====
-- What holds of the program's tables after any events.
use sol_rpc_router.Base.{
  ℕ, ◌+◌, ◌≤◌, ◌<◌, String, ◌≡◌, refl, inl, inr, Bool, true, Option, none, some, List, [], ◌∷◌,
  arith, All, All-map, Result-cases,
}
use sol_rpc_router.Config.{Backend, Config, Files, load_config}
use sol_rpc_router.Config.Spec.{IsValid}
use sol_rpc_router.Config.Laws.{load_config_iff}
use sol_rpc_router.State.{Heap, RuntimeBackend, RouterState, weight}
use sol_rpc_router.Health.{HttpClient, health_round}
use sol_rpc_router.Health.Round.{AreApart, next-health_round}
use sol_rpc_router.Router.{
  System, Event, sighup, begin_round, end_round, alloc_backends, table, start, kept_health, install,
  reload, begin_held, end_held, step, run,
}
use sol_rpc_router.Router.Fresh.{
  next-alloc, alloc-IsBetween, alloc-AreApart, configs-alloc, All-configs,
}

-- A table whose backends have different labels and flags, below the free address `next`, and
-- positive weights.
pub record IsTable (next : ℕ) (st : RouterState) : Type 0 where
  pub apart : AreApart st.backends
  pub allocated : All (λ (b : RuntimeBackend). b.healthy < next) st.backends
  pub weighted : All (λ (b : RuntimeBackend). 0 < weight b) st.backends

abbrev pub IsHeld : ℕ → ℕ → Option RouterState → Type 0
IsHeld next at none = Unit
IsHeld next at (some st) = IsTable next st × (st.health_state ≡ at)

-- Both tables are in order and use the shared health state.
pub record IsSound (s : System) : Type 0 where
  pub current : IsTable s.heap.next s.current
  pub shared : s.current.health_state ≡ s.persistent
  pub held : IsHeld s.heap.next s.persistent s.held

IsTable-later : (n m : ℕ) (st : RouterState) → n ≤ m → IsTable n st → IsTable m st
IsTable-later n m st l t = record {
  apart = t.apart;
  allocated =
      All-map (λ (b : RuntimeBackend). b.healthy < n) st.backends (λ b k. omega arith) t.allocated;
  weighted = t.weighted;
}

IsHeld-later : (n m at : ℕ) (o : Option RouterState) → n ≤ m → IsHeld n at o → IsHeld m at o
IsHeld-later n m at none l h = tt
IsHeld-later n m at (some st) l h = (IsTable-later n m st l h.0, h.1)

alloc-IsTable :
    (init : Backend → Bool) (c : Config) (h : Heap) (at : ℕ)
    → IsValid c
    → IsTable
        (alloc_backends init c.backends h).1.next
        (table c (alloc_backends init c.backends h).0 at)
alloc-IsTable init c h at v =
    let new = (alloc_backends init c.backends h).0 in
    record {
      apart = alloc-AreApart init c.backends h v.distinct;
      allocated =
          All-map
            (λ (b : RuntimeBackend).
              (h.next ≤ b.healthy) × (b.healthy < (alloc_backends init c.backends h).1.next))
            new (λ b k. k.1) (alloc-IsBetween init c.backends h);
      weighted =
          All-configs (λ (b : Backend). 0 < b.weight) new
            (rw (configs-alloc init c.backends h) v.weighted);
    }

pub start-IsSound : (c : Config) (h : Heap) → IsValid c → IsSound (start c h)
unfolding start
start-IsSound c h v =
    let next = (alloc_backends (λ _. true) c.backends h).1.next in
    let t = alloc-IsTable (λ _. true) c h next v in
    record { current = IsTable-later next (next + 1) _ (omega arith) t; shared = refl; held = tt }

install-IsSound : (c : Config) (s : System) → IsValid c → IsSound s → IsSound (install c s)
unfolding install
install-IsSound c s v i =
    let init = kept_health (s.heap.healths s.persistent) in
    record {
      current = alloc-IsTable init c s.heap s.persistent v;
      shared = refl;
      held =
          IsHeld-later s.heap.next (alloc_backends init c.backends s.heap).1.next s.persistent
            s.held (next-alloc init c.backends s.heap) i.held;
    }

reload-IsSound :
    (files : Files) (path : String) (s : System) → IsSound s → IsSound (reload files path s)
unfolding reload
reload-IsSound files path s i = elim (Result-cases (load_config files path)) [
  | inr (e, bad) ↦ rw (bad, reload) i
  | inl (c, loaded) ↦
      rw (loaded, reload) (install-IsSound c s ((load_config_iff files path c).0 loaded).1 i)
]

begin-IsSound : (s : System) (o : Option RouterState) → IsSound s → IsSound (begin_held o s)
unfolding begin_held
begin-IsSound s none i = record {
  current = i.current;
  shared = i.shared;
  held = (i.current, i.shared);
}
begin-IsSound s (some st) i = i

end-IsSound :
    (client : HttpClient) (now : String → ℕ) (s : System) (o : Option RouterState)
    → s.held ≡ o
    → IsSound s
    → IsSound (end_held client now o s)
unfolding end_held
end-IsSound client now s none e i = i
end-IsSound client now s (some st) e i = record {
  current =
      IsTable-later s.heap.next (health_round client now st s.heap).next s.current
        (omega (arith, next-health_round client now st s.heap)) i.current;
  shared = i.shared;
  held = tt;
}

pub step-IsSound : (e : Event) (s : System) → IsSound s → IsSound (step e s)
step-IsSound (sighup files path) s i = unfold step in (reload-IsSound files path s i)
step-IsSound begin_round s i = unfold step in (begin-IsSound s s.held i)
step-IsSound (end_round client now) s i = unfold step in (end-IsSound client now s s.held refl i)

-- Any events keep the system sound.
pub run-IsSound : (es : List Event) (s : System) → IsSound s → IsSound (run es s)
unfolding run
run-IsSound [] s i = i
run-IsSound (e ∷ es) s i = run-IsSound es (step e s) (step-IsSound e s i)

-- Started with a valid configuration, the program keeps its tables in order through any reloads
-- and rounds, in any order: the backends of the current table, and of the table that a round
-- holds, have different labels and different flags, every weight is positive, and both tables
-- share one health state.
pub reachable-IsSound :
    (c : Config) (h : Heap) (es : List Event) → IsValid c → IsSound (run es (start c h))
reachable-IsSound c h es v = run-IsSound es (start c h) (start-IsSound c h v)
