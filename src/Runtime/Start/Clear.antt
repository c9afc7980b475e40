-- ===== src/Runtime/Start/Clear.antt =====
-- main/app_runtime.c: the flags that a phase of the start leaves clear.
use micro_tech.Prelude.{◌≡◌, false}
use micro_tech.Runtime.State.{
  time_subscription, device_link, display_benchmark, Product, Host, same,
}
use micro_tech.Runtime.Preserve.{Preserves, when_off}
use micro_tech.Runtime.Preserve.Flags.{Clear, clear_rules}
use micro_tech.Runtime.Start.{
  start_foundations, start_platform, start_app_services, start_connectivity, start_device_link,
  start_initial_app, start_deferred_wifi, start_phases,
}

module _ (host : Host) where
  pub start_foundations-link-Clear : Preserves (Clear device_link) (start_foundations host)
  unfolding start_foundations same
  start_foundations-link-Clear = search clear_rules depth 60 fits 9000

  pub start_foundations-subscription-Clear :
      Preserves (Clear time_subscription) (start_foundations host)
  unfolding start_foundations same
  start_foundations-subscription-Clear = search clear_rules depth 60 fits 9000

  pub start_foundations-benchmark-Clear :
      Preserves (Clear display_benchmark) (start_foundations host)
  unfolding start_foundations same
  start_foundations-benchmark-Clear = search clear_rules depth 60 fits 9000

  pub start_platform-benchmark-Clear : Preserves (Clear display_benchmark) (start_platform host)
  unfolding start_platform same
  start_platform-benchmark-Clear = search clear_rules depth 60 fits 9000

  pub start_app_services-benchmark-Clear :
      Preserves (Clear display_benchmark) (start_app_services host)
  unfolding start_app_services same
  start_app_services-benchmark-Clear = search clear_rules depth 60 fits 9000

  pub start_deferred_wifi-benchmark-Clear :
      Preserves (Clear display_benchmark) (start_deferred_wifi host)
  unfolding start_deferred_wifi same
  start_deferred_wifi-benchmark-Clear = search clear_rules depth 60 fits 9000

module _ (product : Product) (host : Host) where
  pub start_device_link-subscription-Clear :
      Preserves (Clear time_subscription) (start_device_link product host)
  unfolding start_device_link same
  start_device_link-subscription-Clear = search clear_rules depth 60 fits 9000

  pub start_device_link-benchmark-Clear :
      Preserves (Clear display_benchmark) (start_device_link product host)
  unfolding start_device_link same
  start_device_link-benchmark-Clear = search clear_rules depth 60 fits 9000

  pub start_connectivity-benchmark-Clear :
      Preserves (Clear display_benchmark) (start_connectivity product host)
  unfolding start_connectivity same
  start_connectivity-benchmark-Clear = search clear_rules depth 60 fits 9000

  pub start_initial_app-benchmark-Clear :
      Preserves (Clear display_benchmark) (start_initial_app product host)
  unfolding start_initial_app same
  start_initial_app-benchmark-Clear = search clear_rules depth 60 fits 9000

  -- A build without the benchmark never sets its flag.
  pub start_phases-benchmark-Clear :
      product.benchmark ≡ false → Preserves (Clear display_benchmark) (start_phases product host)
  unfolding start_phases same
  start_phases-benchmark-Clear off =
      search
        (
          clear_rules, when_off, start_foundations-benchmark-Clear,
          start_device_link-benchmark-Clear, start_platform-benchmark-Clear,
          start_app_services-benchmark-Clear, start_connectivity-benchmark-Clear,
          start_initial_app-benchmark-Clear, start_deferred_wifi-benchmark-Clear,
        )
        depth 60 fits 9000
