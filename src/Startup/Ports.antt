-- ===== src/Startup/Ports.antt =====
-- How the start of the program can fail, and what holds of the ports that it serves.
use sol_rpc_router.Base.{
  ℕ, ◌+◌, ◌≤◌, String, ◌≡◌, ◌≢◌, ◌∙◌, refl, ap, ◌⊎◌, inl, inr, true, false, some, ok, err, arith,
  Bool-cases, Result-cases,
}
use sol_rpc_router.Config.{Config, ConfigError, Files, load_config}
use sol_rpc_router.Config.Spec.{IsValid}
use sol_rpc_router.Config.Laws.{load_config_iff}
use sol_rpc_router.State.{Heap}
use sol_rpc_router.Router.{System, start}
use sol_rpc_router.Router.Invariant.{IsSound, start-IsSound}
use sol_rpc_router.Startup.{
  Failure, no_config, no_redis, not_bound, Outside, RedisKeyStore, new, Serving, checked_add_one,
  serve_all, main,
}

-- The program serves a valid configuration from a sound state, on three different ports, all bound.
pub record IsServing (files : Files) (out : Outside) (path : String) (h : Heap) (v : Serving)
    : Type 0 where
  pub loaded : load_config files path ≡ ok v.config
  pub valid : IsValid v.config
  pub sound : IsSound v.system
  pub keystore_at : v.keystore.redis_url ≡ v.config.redis_url
  pub keeps_keys : v.keystore.time_to_live ≡ 60
  pub started : v.system ≡ start v.config h
  pub ws_next : v.ws_port ≡ v.http_port + 1
  pub fits : v.ws_port ≤ 65535
  pub ws_apart : v.ws_port ≢ v.metrics_port
  pub apart : v.http_port ≢ v.metrics_port
  pub bound_all :
      (out.binds v.http_port ≡ true)
      × (out.binds v.ws_port ≡ true)
      × (out.binds v.metrics_port ≡ true)

-- Why `main` fails.
pub data Fails (files : Files) (out : Outside) (path : String) : Failure → Type 0 where
  bad_config :
      (e : ConfigError) → load_config files path ≡ err e → Fails files out path (no_config e)
  redis_away :
      (c : Config) (e : String)
      → load_config files path ≡ ok c
      → ((out.opens c.redis_url ≡ err e) ⊎ (out.connects c.redis_url ≡ err e))
      → Fails files out path (no_redis e)
  port_taken : (port : ℕ) → out.binds port ≡ false → Fails files out path (not_bound port)

new_cases :
    (out : Outside) (redis_url : String)
    → (new out redis_url ≡ ok (record { redis_url = redis_url; time_to_live = 60 }))
      ⊎ ((e : String) × (new out redis_url ≡ err e)
          × ((out.opens redis_url ≡ err e) ⊎ (out.connects redis_url ≡ err e)))
unfolding new
new_cases out redis_url = elim (Result-cases (out.opens redis_url)) [
  | inr (e, bad) ↦ inr (e, rw (bad, new) refl, inl bad)
  | inl (_, opened) ↦ elim (Result-cases (out.connects redis_url)) [
    | inr (e, away) ↦ inr (e, rw (opened, new) (rw away refl), inr away)
    | inl (_, there) ↦ inl (rw (opened, new) (rw there refl))
  ]
]

abbrev made : Config → RedisKeyStore
made c = record { redis_url = c.redis_url; time_to_live = 60 }

abbrev serving : Config → System → Serving
serving c system = record {
  config = c;
  system = system;
  keystore = made c;
  http_port = c.port;
  ws_port = c.port + 1;
  metrics_port = c.metrics_port;
}

serve_cases :
    (out : Outside) (c : Config) (system : System)
    → ((serve_all out c system (made c) (some (c.port + 1)) ≡ ok (serving c system))
        × (out.binds c.port ≡ true)
        × (out.binds (c.port + 1) ≡ true)
        × (out.binds c.metrics_port ≡ true))
      ⊎ ((port : ℕ) × (serve_all out c system (made c) (some (c.port + 1)) ≡ err (not_bound port))
          × (out.binds port ≡ false))
serve_cases out c system = elim (Bool-cases (out.binds c.port)) [
  | inr taken ↦ inr (c.port, rw taken refl, taken)
  | inl http ↦ elim (Bool-cases (out.binds (c.port + 1))) [
    | inr taken ↦ inr (c.port + 1, rw (http, taken) refl, taken)
    | inl ws ↦ elim (Bool-cases (out.binds c.metrics_port)) [
      | inr taken ↦ inr (c.metrics_port, rw (http, ws, taken) refl, taken)
      | inl metrics ↦ inl (rw (http, ws, metrics) refl, http, ws, metrics)
    ]
  ]
]

-- `main` serves, or it fails for want of a valid configuration, of Redis, or of a free port. The
-- `expect` on the WebSocket port never fails, since the configuration was checked; and where `main`
-- serves, its three ports are different, the WebSocket port is the next one to the HTTP port, and
-- its key store asks the configured Redis and keeps a key for 60 seconds.
pub main_cases :
    (files : Files) (out : Outside) (path : String) (h : Heap)
    → ((v : Serving) × (main files out path h ≡ ok v) × IsServing files out path h v)
      ⊎ ((f : Failure) × (main files out path h ≡ err f) × Fails files out path f)
unfolding main
main_cases files out path h = elim (Result-cases (load_config files path)) [
  | inr (e, bad) ↦ inr (no_config e, rw (bad, main), bad_config e bad)
  | inl (c, loaded) ↦
      let valid : IsValid c = ((load_config_iff files path c).0 loaded).1 in
      elim (new_cases out c.redis_url) [
        | inr (e, away, why) ↦ inr (no_redis e, rw (loaded, main, away), redis_away c e loaded why)
        | inl there ↦
            let fits : checked_add_one c.port ≡ some (c.port + 1) = ground (arith, valid.ws_port) in
            let main_is : main files out path h
                ≡ serve_all out c (start c h) (made c) (some (c.port + 1)) =
              rw (loaded, main, there) (ap (serve_all out c (start c h) (made c)) fits) in
            elim (serve_cases out c (start c h)) [
              | inr (port, refused, taken) ↦
                  inr (not_bound port, main_is ∙ refused, port_taken port taken)
              | inl (serves, http, ws, metrics) ↦ inl (
                serving c (start c h),
                main_is ∙ serves,
                record {
                  loaded = loaded;
                  valid = valid;
                  sound = start-IsSound c h valid;
                  keystore_at = refl;
                  keeps_keys = refl;
                  started = refl;
                  ws_next = refl;
                  fits = valid.ws_port;
                  ws_apart = valid.ws_ports;
                  apart = valid.ports;
                  bound_all = (http, ws, metrics);
                },
              )
            ]
      ]
]
