-- ===== src/Config/Laws.antt =====
-- `load_config` accepts exactly the valid configurations, and which error it reports.
use sol_rpc_router.Base.{
  ◌+◌, ◌≤◌, ◌<◌, String, ◌≡◌, ◌≢◌, ◌∙◌, refl, ◌↔◌, inl, inr, true, List, [], ◌∷◌, eq_iff, arith,
  length, All, HashMap, contains_key, ok, Bool-cases, Result-cases,
}
use sol_rpc_router.Config.{
  Backend, Config, Files, collect_labels, check_backends, check_routes, validate, checked_next,
  load_config,
}
use sol_rpc_router.Config.Spec.{IsLabel, IsValid}
use sol_rpc_router.Config.Labels.{
  Fresh-nil, length-collect_labels_iff, contains_key-collect_labels_iff,
}

check_backends_iff :
    (bs : List Backend)
    → (check_backends bs ≡ ok tt)
      ↔ (All (λ (b : Backend). 0 < b.weight) bs × All (λ (b : Backend). b.label ≢ "") bs)
unfolding check_backends
check_backends_iff [] = (λ _. (tt, tt), λ _. refl)
check_backends_iff (b ∷ bs) = ground (arith, check_backends_iff bs, eq_iff b.label "")

check_routes_iff :
    (bs : List Backend) (routes : HashMap String)
    → (check_routes (collect_labels [] bs) routes ≡ ok tt)
      ↔ All (λ (r : String × String). IsLabel bs r.1) routes
unfolding check_routes
check_routes_iff bs [] = (λ _. tt, λ _. refl)
check_routes_iff bs ((m, l) ∷ routes) =
    let key = contains_key-collect_labels_iff l bs in
    let ih = check_routes_iff bs routes in
    elim (Bool-cases (contains_key l (collect_labels [] bs))) [
      | inl there ↦ rw there (λ e. (key.0 there, ih.0 e), λ h. ih.1 h.1)
      | inr out ↦ rw out (λ e. cc, λ h. cc (key.1 h.0))
    ]

-- What the checks of `validate` establish, as they stand in the code.
record Checks (c : Config) : Type 0 where
  redis : c.redis_url ≢ ""
  some_backend : c.backends ≢ []
  distinct : length (collect_labels [] c.backends) ≡ length c.backends
  backends : check_backends c.backends ≡ ok tt
  timeout : 0 < c.proxy.timeout_secs
  routes : check_routes (collect_labels [] c.backends) c.method_routes ≡ ok tt
  ports : c.port ≢ c.metrics_port
  ws_port : c.port + 1 ≤ 65535
  ws_ports : c.port + 1 ≢ c.metrics_port

validate-Checks : (c d : Config) → validate c ≡ ok d → (c ≡ d) × Checks c
unfolding validate checked_next
validate-Checks c d h = ground (arith, eq_iff c.redis_url "")

validate_of_Checks : (c : Config) → Checks c → validate c ≡ ok c
unfolding validate checked_next
validate_of_Checks c k = ground (arith, eq_iff c.redis_url "")

Checks-iff : (c : Config) → Checks c ↔ IsValid c
Checks-iff c =
    let labels = length-collect_labels_iff [] c.backends in
    let bs = check_backends_iff c.backends in
    let routes = check_routes_iff c.backends c.method_routes in
    (
      λ k. record {
        redis = k.redis;
        some_backend = k.some_backend;
        distinct = (labels.0 (k.distinct ∙ omega arith)).1;
        weighted = (bs.0 k.backends).0;
        labelled = (bs.0 k.backends).1;
        timeout = k.timeout;
        routed = routes.0 k.routes;
        ports = k.ports;
        ws_port = k.ws_port;
        ws_ports = k.ws_ports;
      },
      λ v. record {
        redis = v.redis;
        some_backend = v.some_backend;
        distinct = labels.1 (Fresh-nil c.backends, v.distinct) ∙ omega arith;
        backends = bs.1 (v.weighted, v.labelled);
        timeout = v.timeout;
        routes = routes.1 v.routed;
        ports = v.ports;
        ws_port = v.ws_port;
        ws_ports = v.ws_ports;
      },
    )

-- What `load_config` read and parsed.
abbrev pub IsRead : Files → String → Config → Type 0
IsRead files path c =
    (text : String) × (files.exists path ≡ true)
    × (files.read_to_string path ≡ ok text)
    × (files.parse text ≡ ok c)

load_config-opened :
    (files : Files) (path : String) (c : Config)
    → load_config files path ≡ ok c
    → (d : Config) × IsRead files path d × (validate d ≡ ok c)
unfolding load_config
load_config-opened files path c h = elim (Bool-cases (files.exists path)) [
  | inl there ↦ elim (Result-cases (files.read_to_string path)) [
    | inl (text, read) ↦ elim (Result-cases (files.parse text)) [
      | inl (d, parsed) ↦ (d, (text, there, read, parsed), rw (there, read, parsed) at h)
      | inr (e, bad) ↦ cc (rw (there, read, bad) at h)
    ]
    | inr (e, bad) ↦ cc (rw (there, bad) at h)
  ]
  | inr gone ↦ cc (rw gone at h)
]

-- `load_config` returns a configuration exactly if the file exists, can be read, parses to that
-- configuration, and the configuration is valid: it accepts nothing else and changes nothing.
pub load_config_iff :
    (files : Files) (path : String) (c : Config)
    → (load_config files path ≡ ok c) ↔ (IsRead files path c × IsValid c)
unfolding load_config
load_config_iff files path c = (λ h. to h, λ h. from h)
  where
    from : IsRead files path c × IsValid c → load_config files path ≡ ok c
    from ((text, there, read, parsed), v) =
        rw (there, read, parsed) (validate_of_Checks c ((Checks-iff c).1 v))

    to : load_config files path ≡ ok c → IsRead files path c × IsValid c
    to h =
        let (d, read, e) = load_config-opened files path c h in
        let (same, k) = validate-Checks d c e in rw (← same) (read, (Checks-iff d).0 k)
