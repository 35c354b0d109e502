-- ===== src/Router/Agreement.antt =====
-- When the flags that routing reads agree with the statuses that the health endpoint shows.
use sol_rpc_router.Base.{
  ℕ, ◌≤◌, ◌<◌, String, ◌≡◌, ◌≢◌, ◌∙◌, sym, ap, subst, inl, inr, Option, none, some, List, arith,
  All, All-map, All-of_mem, ok, Option-cases,
}
use sol_rpc_router.Config.{Backend, Config, Files, load_config}
use sol_rpc_router.Status.{HealthState, BackendHealthStatus, get_status}
use sol_rpc_router.State.{RuntimeBackend, RouterState}
use sol_rpc_router.Health.{
  HttpClient, perform_health_check, current_status, or_default, health_round,
}
use sol_rpc_router.Health.Next.{IsNext, health_round-IsNext}
use sol_rpc_router.Health.Round.{label, health_round-Stored, flag-health_round, next_status}
use sol_rpc_router.Router.{
  System, sighup, begin_round, end_round, alloc_backends, kept_health, install, reload, begin_held,
  end_held, step,
}
use sol_rpc_router.Router.Fresh.{alloc-IsBetween, healths-alloc, flags-alloc_new}
use sol_rpc_router.Router.Invariant.{IsTable, IsSound}

-- The flag of every backend of the current table is the `healthy` field of its recorded status, or
-- of the default status.
abbrev pub Agrees : System → Type 0
Agrees s =
    All
      (λ (b : RuntimeBackend).
        s.heap.flags b.healthy ≡ (current_status (s.heap.healths s.persistent) (label b)).healthy)
      s.current.backends

kept_health_lem :
    (m : HealthState) (b : Backend) → kept_health m b ≡ (current_status m b.label).healthy
kept_health_lem m b = elim (Option-cases (get_status m b.label)) [
  | inl missing ↦ rw (missing, kept_health)
  | inr (s, found) ↦ rw (found, kept_health)
]

install-Agrees : (c : Config) (s : System) → Agrees (install c s)
unfolding install
install-Agrees c s =
    let init = kept_health (s.heap.healths s.persistent) in
    All-map
      (λ (b : RuntimeBackend).
        (alloc_backends init c.backends s.heap).1.flags b.healthy ≡ init b.config)
      (alloc_backends init c.backends s.heap).0
      (λ b e.
        e
        ∙ (kept_health_lem (s.heap.healths s.persistent) b.config
            ∙ ap (λ (m : ℕ → HealthState). (current_status (m s.persistent) (label b)).healthy)
                (sym (healths-alloc init c.backends s.heap))))
      (flags-alloc_new init c.backends s.heap)

reload_ok :
    (files : Files) (path : String) (c : Config) (s : System)
    → load_config files path ≡ ok c
    → reload files path s ≡ install c s
unfolding reload
reload_ok files path c s loaded = rw (loaded, reload)

-- After a reload that loads a configuration, flags and recorded statuses agree.
pub sighup-Agrees :
    (files : Files) (path : String) (c : Config) (s : System)
    → load_config files path ≡ ok c
    → Agrees (step (sighup files path) s)
unfolding step
sighup-Agrees files path c s loaded = rw (reload_ok files path c s loaded) (install-Agrees c s)

end-Agrees :
    (client : HttpClient) (now : String → ℕ) (s : System)
    → IsTable s.heap.next s.current
    → s.current.health_state ≡ s.persistent
    → Agrees (end_held client now (some s.current) s)
unfolding end_held
end-Agrees client now s t shared =
    let after = health_round client now s.current s.heap in
    All-of_mem _ s.current.backends (λ b m.
      let (status, flag) = health_round-Stored client now s.current s.heap b t.apart m in
      let recorded =
        subst
          (λ a.
            get_status (after.healths a) (label b)
            ≡ some (next_status client now s.current s.heap b))
          shared status in
      flag ∙ sym (ap (λ (o : Option BackendHealthStatus). (or_default o).healthy) recorded))

pub begun : (s : System) → s.held ≡ none → step begin_round s ≡ record s { held = some s.current }
unfolding step begin_held
begun s idle = ap (λ (o : Option RouterState). begin_held o s) idle

-- After a round that no reload overtakes, flags and recorded statuses agree, whatever was before.
pub round-Agrees :
    (client : HttpClient) (now : String → ℕ) (s : System)
    → IsSound s
    → s.held ≡ none
    → Agrees (step (end_round client now) (step begin_round s))
unfolding step
round-Agrees client now s i idle =
    rw (begun s idle)
      (end-Agrees client now (record s { held = some s.current }) i.current i.shared)

apart_from_old :
    (bs : List RuntimeBackend) (a lo : ℕ)
    → lo ≤ a
    → All (λ (b : RuntimeBackend). b.healthy < lo) bs
    → All (λ (b : RuntimeBackend). a ≢ b.healthy) bs
apart_from_old bs a lo l = All-map (λ (b : RuntimeBackend). b.healthy < lo) bs (λ b k. omega arith)

overtaken :
    (client : HttpClient) (now : String → ℕ) (c : Config) (s : System)
    → IsTable s.heap.next s.current
    → let t = install c (record s { held = some s.current }) in
      All
        (λ (b : RuntimeBackend).
          (end_held client now (some s.current) t).heap.flags b.healthy ≡ t.heap.flags b.healthy)
        t.current.backends
unfolding install end_held
overtaken client now c s old =
    let init = kept_health (s.heap.healths s.persistent) in
    let new = alloc_backends init c.backends s.heap in
    All-map (λ (b : RuntimeBackend). (s.heap.next ≤ b.healthy) × (b.healthy < new.1.next)) new.0
      (λ b k.
        flag-health_round client now s.current new.1 b.healthy
          (apart_from_old s.current.backends b.healthy s.heap.next k.0 old.allocated))
      (alloc-IsBetween init c.backends s.heap)

-- What the round that `s` is in records for a backend of the table that it holds: the status that
-- `IsNext` describes, in the shared map and, as its `healthy` field, in that table's flag.
abbrev pub IsRecorded :
    HttpClient → (String → ℕ) → (before after : System) → RuntimeBackend → Type 0
IsRecorded client now s e b =
    (status : BackendHealthStatus) × IsNext client s.current (now (label b))
      (current_status (s.heap.healths s.persistent) (label b))
      (perform_health_check client b.config s.current.health_check_config) status
    × (get_status (e.heap.healths s.persistent) (label b) ≡ some status)
    × (e.heap.flags b.healthy ≡ status.healthy)

overtaken-IsRecorded :
    (client : HttpClient) (now : String → ℕ) (c : Config) (s : System)
    → IsTable s.heap.next s.current
    → s.current.health_state ≡ s.persistent
    → All
        (IsRecorded client now s
          (end_held client now (some s.current) (install c (record s { held = some s.current }))))
        s.current.backends
unfolding install end_held
overtaken-IsRecorded client now c s old shared =
    let init = kept_health (s.heap.healths s.persistent) in
    let h = (alloc_backends init c.backends s.heap).1 in
    let after = health_round client now s.current h in
    All-of_mem _ s.current.backends (λ b m.
      subst
        (λ (maps : ℕ → HealthState).
          (status : BackendHealthStatus) × IsNext client s.current (now (label b))
            (current_status (maps s.persistent) (label b))
            (perform_health_check client b.config s.current.health_check_config) status
          × (get_status (after.healths s.persistent) (label b) ≡ some status)
          × (after.flags b.healthy ≡ status.healthy))
        (healths-alloc init c.backends s.heap)
        (subst
          (λ a.
            (status : BackendHealthStatus) × IsNext client s.current (now (label b))
              (current_status (h.healths a) (label b))
              (perform_health_check client b.config s.current.health_check_config) status
            × (get_status (after.healths a) (label b) ≡ some status)
            × (after.flags b.healthy ≡ status.healthy))
          shared (health_round-IsNext client now s.current h b old.apart m)))

-- When a reload installs a new table while a round is under way, the end of that round writes no
-- flag of the new table. Every backend of the old table gets the status that `IsNext` describes for
-- its check and the status recorded before the reload: in the map that both tables share, and, as
-- its `healthy` field, in its flag of the old table.
pub overtaken_round :
    (client : HttpClient) (now : String → ℕ) (files : Files) (path : String) (c : Config)
    (s : System)
    → IsSound s
    → s.held ≡ none
    → load_config files path ≡ ok c
    → let t = step (sighup files path) (step begin_round s) in
      let e = step (end_round client now) t in
      All
        (λ (b : RuntimeBackend). e.heap.flags b.healthy ≡ t.heap.flags b.healthy)
        t.current.backends
      × All (IsRecorded client now s e) s.current.backends
unfolding step install
overtaken_round client now files path c s i idle loaded =
    rw (begun s idle, reload_ok files path c (record s { held = some s.current }) loaded)
      (overtaken client now c s i.current, overtaken-IsRecorded client now c s i.current i.shared)
