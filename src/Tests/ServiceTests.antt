-- ===== src/Tests/ServiceTests.antt =====
-- Requests after a round of health checks.
use mathlib.Core.List.{Memᴰ}
use sol_rpc_router.Base.{◌≡◌, refl, none, some, [], done, get, insert}
use sol_rpc_router.State.{routed, pick, choose, gen_range, sum_u32, select_backend}
use sol_rpc_router.Status.{new, get_status, update_status}
use sol_rpc_router.Health.{
  perform_health_check, max_slot, check_all, is_lagging, health_round, observe, apply_results,
  count_success, count_failure,
}
use sol_rpc_router.Uri.{
  split, join, clean_query, cleaned_query, cleaned_request_path, trim_end, ends_with_slash,
  starts_with_slash, target_uri,
}
use sol_rpc_router.Handlers.{Reply, Forward, proxy, validated, route, forward}
use sol_rpc_router.Router.{System, start, run, alloc_backends, step, begin_held, end_held}
use sol_rpc_router.Router.Service.{facing, after, IsServed, proxy-IsServed, accepted-served}
use sol_rpc_router.Tests.HandlerTests.{env, one_key, post, sent, reply}
use sol_rpc_router.Tests.RouterTests.{loads}
use sol_rpc_router.Samples.{config, disk, client, noon, all_up, alpha}

service : Unit {0}
unfolding run start step begin_held end_held health_round observe apply_results count_success
    count_failure update_status alloc_backends new get_status get insert perform_health_check
    max_slot check_all is_lagging proxy validated route forward select_backend routed pick choose
    gen_range sum_u32 target_uri cleaned_request_path cleaned_query clean_query split join trim_end
    ends_with_slash starts_with_slash
service = tt

idle : (run [] (start config all_up)).held ≡ none
unfolding service
idle = refl

abbrev now_serving : System
now_serving = after (disk config) "config.toml" config all_up [] client noon loads idle

service_runs : (proxy (facing env now_serving) one_key (some "secret") post tt).0 ≡ done reply
unfolding service
service_runs = refl

proxy-IsServed_example : IsServed now_serving env post reply sent
proxy-IsServed_example =
    proxy-IsServed (disk config) "config.toml" config all_up [] client noon loads idle env one_key
      (some "secret") post tt reply sent service_runs refl

accepted-served_example :
    (r : Reply) × (f : Forward) × ((proxy
        (facing env now_serving)
        one_key
        (some "secret")
        post
        tt).0
      ≡ done r)
    × (r.sent ≡ some f)
unfolding service
accepted-served_example =
    accepted-served (disk config) "config.toml" config all_up [] client noon loads idle env one_key
      "secret" post tt (record { owner = "acme"; rate_limit = 0 })
      (record { config = alpha; healthy = 2 }) refl (Memᴰ.head refl) refl (λ d m. (_, refl))
