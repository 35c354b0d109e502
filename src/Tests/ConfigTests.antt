-- ===== src/Tests/ConfigTests.antt =====
-- Runs of `load_config`.
use sol_rpc_router.Base.{◌≡◌, refl, [], ◌∷◌, ok, err, insert, contains_key}
use sol_rpc_router.Config.{
  zero_weight, duplicate_labels, unknown_route, port_overflow, file_not_found, load_config,
  validate, check_backends, check_routes, collect_labels, checked_next,
}
use sol_rpc_router.Config.Spec.{IsValid}
use sol_rpc_router.Config.Laws.{load_config_iff}
use sol_rpc_router.Samples.{alpha, config, disk}

runner : Unit {0}
unfolding load_config validate check_backends check_routes collect_labels checked_next insert
    contains_key
runner = tt

load_config_runs :
    (load_config (disk config) "config.toml" ≡ ok config)
    × (load_config (disk config) "other.toml" ≡ err (file_not_found "other.toml"))
    × (load_config (disk (record config { backends = alpha ∷ alpha ∷ [] })) "config.toml"
        ≡ err duplicate_labels)
    × (load_config
          (disk (record config { backends = record alpha { weight = 0 } ∷ [] }))
          "config.toml"
        ≡ err (zero_weight "alpha"))
    × (load_config
          (disk (record config { method_routes = ("getSlot", "gamma") ∷ [] }))
          "config.toml"
        ≡ err (unknown_route "getSlot" "gamma"))
    × (load_config (disk (record config { port = 65535 })) "config.toml" ≡ err port_overflow)
unfolding runner
load_config_runs = (refl, refl, refl, refl, refl, refl)

load_config_iff_example : IsValid config
load_config_iff_example =
    ((load_config_iff (disk config) "config.toml" config).0 load_config_runs.0).1
