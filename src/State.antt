-- ===== src/State.antt =====
-- src/state.rs: the routing table behind the swap pointer, and the selection of a backend. Each
-- `AtomicBool` and each `HealthState` is shared by its `Arc`s, so both live on a heap and a record
-- holds an address. The random draw of `gen_range` is a parameter, and an empty range panics.
-- A sum of `u32` wraps, as in a release build.
pub mod Weights
pub mod Draws
pub mod Select
pub mod Websocket
use sol_rpc_router.Base.{
  ℕ, ◌+◌, ◌-◌, ◌%◌, ◌^◌, ◌<◌, String, Bool, Option, some, none, List, [], ◌∷◌, ◌==◌, ◌&&◌, eqb, ltb,
  map, filter, find, head?, is_empty, HashMap, get, Run, done, panic, Panic, empty_range, unwrap,
  and_then, if◌then◌else◌,
}
use sol_rpc_router.Config.{Backend, HealthCheckConfig}
use sol_rpc_router.Status.{HealthState}

pub record Heap : Type 0 where
  pub flags : ℕ → Bool
  pub healths : ℕ → HealthState
  pub next : ℕ

pub record RuntimeBackend : Type 0 where
  pub config : Backend
  pub healthy : ℕ

pub record RouterState : Type 0 where
  pub backends : List RuntimeBackend
  pub method_routes : HashMap String
  pub health_state : ℕ
  pub proxy_timeout_secs : ℕ
  pub health_check_config : HealthCheckConfig

-- `b.healthy.load(Ordering::Relaxed)`.
abbrev pub is_healthy : Heap → RuntimeBackend → Bool
is_healthy h b = h.flags b.healthy

abbrev pub weight : RuntimeBackend → ℕ
weight b = b.config.weight

-- `iter().sum::<u32>()`.
unfoldable pub sum_u32 : ℕ → List RuntimeBackend → ℕ
sum_u32 acc [] = acc
sum_u32 acc (b ∷ bs) = sum_u32 ((acc + weight b) % 2 ^ 32) bs

-- `rng.gen_range(0..n)`.
unfoldable pub gen_range : (ℕ → ℕ) → ℕ → Run ℕ
gen_range draw n = if eqb n 0 then panic empty_range else done (draw n)

-- The loop over the candidates; `none` is a fall through to the code behind the loop.
unfoldable pub pick : ℕ → List RuntimeBackend → Option RuntimeBackend
pick random_weight [] = none
pick random_weight (b ∷ bs) =
    if ltb random_weight (weight b) then some b else pick (random_weight - weight b) bs

abbrev pub or_else {ℓ} : {A : Type ℓ} → Option A → Option A → Option A
or_else (some a) b = some a
or_else none b = b

abbrev pub http_target : RuntimeBackend → String × String
http_target b = (b.config.label, b.config.url)

abbrev pub map_option {ℓ κ} : {A : Type ℓ} {B : Type κ} → (A → B) → Option A → Option B
map_option f none = none
map_option f (some a) = some (f a)

-- The backend of a method's route, if it is there and healthy.
unfoldable pub routed : Heap → RouterState → Option String → Option RuntimeBackend
routed h st none = none
routed h st (some method) = elim (get method st.method_routes) [
  | none ↦ none
  | some label ↦ elim (find (λ (b : RuntimeBackend). b.config.label == label) st.backends) [
    | none ↦ none
    | some b ↦ if is_healthy h b then some b else none
  ]
]

-- The weighted choice of `select_backend`, from the filtered list on.
unfoldable pub choose : (ℕ → ℕ) → List RuntimeBackend → Run (Option RuntimeBackend)
choose draw healthy_backends =
    let total = sum_u32 0 healthy_backends in
    if is_empty healthy_backends
    then done none
    else if eqb total 0
    then done (head? healthy_backends)
    else and_then (gen_range draw total) (λ random_weight.
      done (or_else (pick random_weight healthy_backends) (head? healthy_backends)))

unfoldable pub select_backend :
    (ℕ → ℕ) → Heap → RouterState → Option String → Run (Option (String × String))
select_backend draw h st rpc_method = elim (routed h st rpc_method) [
  | some b ↦ done (some (http_target b))
  | none ↦
      and_then (choose draw (filter (is_healthy h) st.backends))
        (λ chosen. done (map_option http_target chosen))
]

-- `ws_url.is_some() && healthy`.
abbrev pub is_ws_candidate : Heap → RuntimeBackend → Bool
is_ws_candidate h b = elim b.config.ws_url [ none ↦ Bool.false | some _ ↦ is_healthy h b ]

-- The label with `ws_url.as_ref().unwrap()`.
unfoldable pub ws_target : RuntimeBackend → Run (String × String)
ws_target b = and_then (unwrap b.config.ws_url) (λ url. done (b.config.label, url))

abbrev pub ws_target_of : Option RuntimeBackend → Run (Option (String × String))
ws_target_of none = done none
ws_target_of (some b) = and_then (ws_target b) (λ t. done (some t))

-- Here no test for a total of zero stands before the draw.
unfoldable pub choose_ws : (ℕ → ℕ) → List RuntimeBackend → Run (Option RuntimeBackend)
choose_ws draw ws_backends =
    if is_empty ws_backends
    then done none
    else and_then (gen_range draw (sum_u32 0 ws_backends))
        (λ random_weight. done (or_else (pick random_weight ws_backends) (head? ws_backends)))

unfoldable pub select_ws_backend : (ℕ → ℕ) → Heap → RouterState → Run (Option (String × String))
select_ws_backend draw h st =
    and_then (choose_ws draw (filter (is_ws_candidate h) st.backends)) ws_target_of
