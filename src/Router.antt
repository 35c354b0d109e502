-- ===== src/Router.antt =====
-- src/main.rs: the table that the program starts with, the reload on SIGHUP, and the health task
-- beside it. An `Arc::new` takes the next free address of the heap. The health task holds the table
-- that it loaded until its round is over, so a reload may come between.
pub mod Fresh
pub mod Invariant
pub mod Agreement
pub mod Rounds
pub mod Rotation
pub mod Service
use sol_rpc_router.Base.{
  ℕ, ◌+◌, String, Bool, true, false, Option, none, some, List, [], ◌∷◌, map, Result, ok, err,
  if◌then◌else◌,
}
use sol_rpc_router.Config.{Backend, Config, Files, load_config}
use sol_rpc_router.Status.{HealthState, new, get_status}
use sol_rpc_router.State.{Heap, RuntimeBackend, RouterState}
use sol_rpc_router.Health.{HttpClient, write, health_round}

-- `Arc::new(AtomicBool::new(v))`, at the address `h.next`.
abbrev pub new_flag : Bool → Heap → Heap
new_flag v h = record h { flags = write h.flags h.next v; next = h.next + 1 }

-- The backends of a table, each with a flag of its own; `init` gives the flag's first value.
unfoldable pub alloc_backends : (Backend → Bool) → List Backend → Heap → List RuntimeBackend × Heap
alloc_backends init [] h = ([], h)
alloc_backends init (b ∷ bs) h =
    let rest = alloc_backends init bs (new_flag (init b) h) in
    (record { config = b; healthy = h.next } ∷ rest.0, rest.1)

abbrev pub table : Config → List RuntimeBackend → ℕ → RouterState
table c backends health_state = record {
  backends = backends;
  method_routes = c.method_routes;
  health_state = health_state;
  proxy_timeout_secs = c.proxy.timeout_secs;
  health_check_config = c.health_check;
}

-- The heap, the table behind the swap pointer, the shared health state that reloads keep, and the
-- table that a round of checks holds.
pub record System : Type 0 where
  pub heap : Heap
  pub current : RouterState
  pub persistent : ℕ
  pub held : Option RouterState

-- From the loaded configuration to the spawned tasks.
unfoldable pub start : Config → Heap → System
start c h =
    let (backends, h') = alloc_backends (λ _. true) c.backends h in
    record {
      heap = record h' {
        healths = write h'.healths h'.next (new (map (λ (b : Backend). b.label) c.backends));
        next = h'.next + 1;
      };
      current = table c backends h'.next;
      persistent = h'.next;
      held = none;
    }

-- The flag of a backend after a reload: that of its recorded status, or true.
abbrev pub kept_health : HealthState → Backend → Bool
kept_health m b = elim (get_status m b.label) [ none ↦ true | some s ↦ s.healthy ]

-- A reload with a configuration that loaded.
unfoldable pub install : Config → System → System
install c s =
    let (backends, h') =
      alloc_backends (kept_health (s.heap.healths s.persistent)) c.backends s.heap in
    record s { heap = h'; current = table c backends s.persistent }

-- The body of the SIGHUP loop.
unfoldable pub reload : Files → String → System → System
reload files path s = elim (load_config files path) [ err e ↦ s | ok c ↦ install c s ]

-- What happens to the program: a SIGHUP, with the files as they are then; the health task loads the
-- table; and it ends its round, with the answers of the backends and the times.
pub data Event : Type 0 where
  sighup : Files → String → Event
  begin_round : Event
  end_round : HttpClient → (String → ℕ) → Event

-- The task loads the table, if it is not in a round, and applies a round to the table it holds.
unfoldable pub begin_held : Option RouterState → System → System
begin_held none s = record s { held = some s.current }
begin_held (some _) s = s

unfoldable pub end_held : HttpClient → (String → ℕ) → Option RouterState → System → System
end_held client now none s = s
end_held client now (some st) s = record s { heap = health_round client now st s.heap; held = none }

unfoldable pub step : Event → System → System
step (sighup files path) s = reload files path s
step begin_round s = begin_held s.held s
step (end_round client now) s = end_held client now s.held s

unfoldable pub run : List Event → System → System
run [] s = s
run (e ∷ es) s = run es (step e s)
