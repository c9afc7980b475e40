-- ===== src/Runtime/Start/Accounts.antt =====
-- main/app_runtime.c: no phase of the start forgets a service that is held.
use micro_tech.Prelude.{◌≡◌, refl, false, arith, EspErr}
use micro_tech.Runtime.State.{
  imu, audio, device_link, time_subscription, imu_deinit, audio_deinit, Product, Host, Runtime,
  same, Accounted,
}
use micro_tech.Runtime.Preserve.{Takes, Preserves, Spare, flow_rules, sequence_change}
use micro_tech.Runtime.Preserve.Calls.{
  account_rules, try_call-Claimed-Accounted, try_release-Accounted, sequence-Spare, spare, Fresh,
  sequence-Fresh, forget-Fresh, must-Spare, tolerate-Spare, set_owned-false-Spare, sequence_one,
  Fresh→Spare, try_fresh-Accounted,
}
use micro_tech.Runtime.Preserve.Flags.{clear_rules}
use micro_tech.Runtime.Start.Clear.{
  start_foundations-link-Clear, start_foundations-subscription-Clear,
  start_device_link-subscription-Clear,
}
use micro_tech.Runtime.Start.{
  start_foundations, start_time, start_system_pm, clean_imu, clean_audio, start_imu, start_audio,
  start_manager, start_platform, start_app_services, start_connectivity, start_device_link,
  start_initial_app, start_phases, finish_recovery, without_device_link, start_deferred_wifi,
}

module _ (host : Host) where
  start_foundations-Accounted : Preserves Accounted (start_foundations host)
  unfolding start_foundations
  start_foundations-Accounted = search account_rules depth 60 fits 9000

  start_time-Accounted : Preserves Accounted (start_time host)
  start_time-Accounted = search account_rules depth 60 fits 9000

  start_system_pm-Accounted : Preserves Accounted (start_system_pm host)
  start_system_pm-Accounted = search account_rules depth 60 fits 9000

  clean_imu-Accounted : Preserves Accounted (clean_imu host)
  unfolding same
  clean_imu-Accounted =
      try_release-Accounted host imu imu_deinit _ _ (λ _. refl) (λ r h. ground arith) search
        account_rules (λ e. search account_rules)

  clean_audio-Accounted : Preserves Accounted (clean_audio host)
  unfolding same
  clean_audio-Accounted =
      try_release-Accounted host audio audio_deinit _ _ (λ _. refl) (λ r h. ground arith) search
        account_rules (λ e. search account_rules)

  start_imu-Accounted : Preserves Accounted (start_imu host)
  start_imu-Accounted =
      search (account_rules, try_call-Claimed-Accounted, clean_imu-Accounted) depth 60 fits 9000

  start_audio-Accounted : Preserves Accounted (start_audio host)
  start_audio-Accounted =
      search (account_rules, try_call-Claimed-Accounted, clean_audio-Accounted) depth 60 fits 9000

  start_app_services-Accounted : Preserves Accounted (start_app_services host)
  unfolding start_app_services
  start_app_services-Accounted =
      search (account_rules, start_imu-Accounted, start_audio-Accounted) depth 60 fits 9000

  start_deferred_wifi-Accounted : Preserves Accounted (start_deferred_wifi host)
  unfolding start_deferred_wifi
  start_deferred_wifi-Accounted = search account_rules depth 60 fits 9000

  start_manager-Accounted : Preserves Accounted (start_manager host)
  start_manager-Accounted = search account_rules depth 60 fits 9000

  -- The handle of the time subscription is cleared at a point where none is held.
  start_platform-Accounted : Takes (Fresh time_subscription) Accounted (start_platform host)
  unfolding start_platform same
  start_platform-Accounted =
      search
        (
          account_rules, clear_rules, sequence-Fresh, forget-Fresh, start_time-Accounted,
          start_system_pm-Accounted,
        )
        depth 60 fits 9000

module _ (product : Product) (host : Host) where
  start_connectivity-Accounted : Preserves Accounted (start_connectivity product host)
  unfolding start_connectivity
  start_connectivity-Accounted = search account_rules depth 60 fits 9000

  start_initial_app-Accounted : Preserves Accounted (start_initial_app product host)
  unfolding start_initial_app
  start_initial_app-Accounted = search account_rules depth 60 fits 9000

  finish_recovery-Accounted : Preserves Accounted (finish_recovery product host)
  finish_recovery-Accounted = search account_rules depth 60 fits 9000

  without_device_link-Spare :
      (e : EspErr) → Takes (Spare device_link) Accounted (without_device_link product host e)
  without_device_link-Spare e =
      search (flow_rules, sequence-Spare, tolerate-Spare, set_owned-false-Spare, sequence_one) depth
        60 fits 9000

  -- The flag of a device link that could not be initialised is cleared whatever the clean-up
  -- answers; but then no device link is held.
  start_device_link-Accounted : Takes (Spare device_link) Accounted (start_device_link product host)
  unfolding start_device_link
  start_device_link-Accounted =
      search
        (
          flow_rules, account_rules, sequence-Spare, must-Spare, spare, try_fresh-Accounted,
          without_device_link-Spare, finish_recovery-Accounted,
        )
        depth 60 fits 9000

  abbrev Boot : Runtime → Type 0
  Boot s = Accounted s × (s.owned device_link ≡ false) × (s.owned time_subscription ≡ false)

  -- From a state in which nothing is owned, whatever the calls answer, the start forgets no service.
  pub start_phases-Accounted : Takes Boot Accounted (start_phases product host)
  unfolding start_phases
  start_phases-Accounted =
      sequence_change Boot Boot Accounted _ _
        (record {
          at = λ s p. (
            (start_foundations-Accounted host).at s p.0,
            (start_foundations-link-Clear host).at s p.1,
            (start_foundations-subscription-Clear host).at s p.2,
          );
        })
        (λ s p. p.0)
        (sequence_change Boot (Fresh time_subscription) Accounted _ _
          (record {
            at = λ s p. (
              start_device_link-Accounted.at s (Fresh→Spare device_link s (p.0, p.1)),
              (start_device_link-subscription-Clear product host).at s p.2,
            );
          })
          (λ s p. p.0)
          (sequence_change (Fresh time_subscription) Accounted Accounted _ _
            (start_platform-Accounted host) (λ s p. p)
            (search
              (
                account_rules, start_app_services-Accounted, start_connectivity-Accounted,
                start_initial_app-Accounted, start_deferred_wifi-Accounted,
              )
              depth 60 fits 9000)))
