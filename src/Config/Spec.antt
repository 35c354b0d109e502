-- ===== src/Config/Spec.antt =====
-- What a valid configuration is, stated without the checks of src/config.rs.
use mathlib.Core.List.{Memᴰ}
use sol_rpc_router.Base.{◌+◌, ◌≤◌, ◌<◌, String, ◌≡◌, ◌≢◌, List, [], ◌∷◌, All}
use sol_rpc_router.Config.{Backend, Config}

-- No two backends share a label.
abbrev pub Distinct : List Backend → Type 0
Distinct [] = Unit
Distinct (b ∷ bs) = All (λ (d : Backend). b.label ≢ d.label) bs × Distinct bs

-- Some backend carries the label.
abbrev pub IsLabel : List Backend → String → Type 0
IsLabel bs l = (b : Backend) × Memᴰ b bs × (b.label ≡ l)

pub record IsValid (c : Config) : Type 0 where
  pub redis : c.redis_url ≢ ""
  pub some_backend : c.backends ≢ []
  pub distinct : Distinct c.backends
  pub weighted : All (λ (b : Backend). 0 < b.weight) c.backends
  pub labelled : All (λ (b : Backend). b.label ≢ "") c.backends
  pub timeout : 0 < c.proxy.timeout_secs
  pub routed : All (λ (r : String × String). IsLabel c.backends r.1) c.method_routes
  pub ports : c.port ≢ c.metrics_port
  pub ws_port : c.port + 1 ≤ 65535
  pub ws_ports : c.port + 1 ≢ c.metrics_port
