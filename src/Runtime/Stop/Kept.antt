-- ===== src/Runtime/Stop/Kept.antt =====
-- main/app_runtime.c: what the three service phases of `_app_runtime_unwind` keep.
use micro_tech.Prelude.{refl, false, [], arith, ok, is_not_found, is_invalid_state}
use micro_tech.Pm.Context.{Participant}
use micro_tech.Runtime.State.{
  time, weather, music, chore, system_pm, app_manager, ui_dispatch, wake_requester, power, imu,
  audio, timer, recorder, file, sd, connectivity, connectivity_subscription, time_subscription,
  device_link, display_benchmark, system_pm_cancelable, rtc_ops, imu_ops, sd_ops, benchmark_stop,
  unregister_wake, manager_deinit, abandon_ui, device_link_deinit, unregister_ui, cancel_standby,
  weather_offline, weather_deinit, timer_deinit, recorder_deinit, connectivity_deinit, time_offline,
  unsubscribe_connectivity, file_deinit, sd_deinit, music_deinit, audio_deinit, imu_deinit,
  power_deinit, radio_deinit, system_pm_deinit, chore_deinit, unsubscribe_time, time_deinit,
  Product, Host, same,
}
use micro_tech.Runtime.Rules.{
  All, ◌&◌, Shrinks, Keeps, sequence-Shrinks, sequence-Keeps, sequence-cons_Keeps,
  set_owned-Shrinks, if_owned-Shrinks, if_owned-Keeps, when-Shrinks, when-Keeps, set_aux-Shrinks,
  set_aux-Keeps, set_result-Shrinks, set_result-Keeps, return_result-Shrinks, return_result-Keeps,
}
use micro_tech.Runtime.Rules.Calls.{
  must-Shrinks, tolerate-Shrinks, must-Keeps, tolerate-Keeps, must_clear-Keeps,
  tolerate_clear-Keeps,
}
use micro_tech.Runtime.Stop.Blocks.{
  block-Shrinks, block-Keeps, tolerant-Shrinks, tolerant-Keeps, off-Shrinks, off-Keeps,
  if_cancelable-Shrinks, if_cancelable-Keeps,
}
use micro_tech.Runtime.Stop.{
  app_blocks, stop_app_services, active_blocks, stop_active_services, platform_blocks,
  stop_platform_services, stop_services,
}

module _ (product : Product) (host : Host) where
  pub app_blocks-Shrinks : All Shrinks (app_blocks product host)
  app_blocks-Shrinks =
      set_result-Shrinks ok
      & tolerant-Shrinks host is_not_found wake_requester unregister_wake _
          (set_result-Shrinks ok & tt)
      & block-Shrinks host app_manager manager_deinit _ (must-Shrinks host abandon_ui & tt)
      & block-Shrinks host device_link device_link_deinit _
          (off-Shrinks host Participant.device_link & tt)
      & tolerant-Shrinks host is_not_found ui_dispatch unregister_ui _ (set_result-Shrinks ok & tt)
      & return_result-Shrinks
      & tt

  app_blocks-Keeps : All Keeps (app_blocks product host)
  unfolding same
  app_blocks-Keeps =
      set_result-Keeps ok
      & tolerant-Keeps host is_not_found wake_requester unregister_wake _ (λ _. refl)
          (λ r h. rw h refl) (set_result-Keeps ok & tt)
      & block-Keeps host app_manager manager_deinit _ (λ _. refl) (λ r h. ground arith)
          (must-Keeps host abandon_ui (λ _. refl) & tt)
      & block-Keeps host device_link device_link_deinit _ (λ _. refl) (λ r h. ground arith)
          (off-Keeps host Participant.device_link & tt)
      & tolerant-Keeps host is_not_found ui_dispatch unregister_ui _ (λ _. refl) (λ r h. rw h refl)
          (set_result-Keeps ok & tt)
      & return_result-Keeps
      & tt

  pub active_blocks-Shrinks : All Shrinks (active_blocks product host)
  active_blocks-Shrinks =
      set_result-Shrinks ok
      & if_cancelable-Shrinks _ (
          sequence-Shrinks _
            (must-Shrinks host cancel_standby & set_aux-Shrinks system_pm_cancelable false & tt))
      & if_owned-Shrinks weather _ (
          sequence-Shrinks _ (
            tolerate-Shrinks host is_invalid_state weather_offline
            & must-Shrinks host weather_deinit
            & set_owned-Shrinks weather
            & off-Shrinks host Participant.weather
            & tt))
      & block-Shrinks host timer timer_deinit [] tt
      & block-Shrinks host recorder recorder_deinit [] tt
      & block-Shrinks host connectivity connectivity_deinit _
          (off-Shrinks host Participant.connectivity & tt)
      & if_owned-Shrinks connectivity_subscription _ (
          sequence-Shrinks _ (
            tolerate-Shrinks host is_invalid_state time_offline
            & tolerate-Shrinks host is_not_found unsubscribe_connectivity
            & set_owned-Shrinks connectivity_subscription
            & tt))
      & block-Shrinks host file file_deinit _ (off-Shrinks host Participant.file & tt)
      & block-Shrinks host sd sd_deinit _ (set_aux-Shrinks sd_ops false & tt)
      & block-Shrinks host music music_deinit [] tt
      & block-Shrinks host audio audio_deinit _ (off-Shrinks host Participant.audio & tt)
      & block-Shrinks host imu imu_deinit _
          (set_aux-Shrinks imu_ops false & off-Shrinks host Participant.imu & tt)
      & block-Shrinks host power power_deinit [] tt
      & when-Shrinks product.hosted_radio _ (must-Shrinks host radio_deinit)
      & return_result-Shrinks
      & tt

  active_blocks-Keeps : All Keeps (active_blocks product host)
  unfolding same
  active_blocks-Keeps =
      set_result-Keeps ok
      & if_cancelable-Keeps _ (
          sequence-Keeps _ (
            must-Keeps host cancel_standby (λ _. refl)
            & set_aux-Keeps system_pm_cancelable false
            & tt))
      & if_owned-Keeps weather _ (
          sequence-cons_Keeps _ _ (tolerate-Keeps host is_invalid_state weather_offline (λ _. refl))
            (must_clear-Keeps host weather_deinit weather _ (λ _. refl) (λ r h. ground arith)
              (sequence-Keeps _ (off-Keeps host Participant.weather & tt))))
      & block-Keeps host timer timer_deinit [] (λ _. refl) (λ r h. ground arith) tt
      & block-Keeps host recorder recorder_deinit [] (λ _. refl) (λ r h. ground arith) tt
      & block-Keeps host connectivity connectivity_deinit _ (λ _. refl) (λ r h. ground arith)
          (off-Keeps host Participant.connectivity & tt)
      & if_owned-Keeps connectivity_subscription _ (
          sequence-cons_Keeps _ _ (tolerate-Keeps host is_invalid_state time_offline (λ _. refl)) (
            tolerate_clear-Keeps host is_not_found unsubscribe_connectivity
              connectivity_subscription [] (λ _. refl) (λ r h. rw h refl) (sequence-Keeps [] tt)))
      & block-Keeps host file file_deinit _ (λ _. refl) (λ r h. ground arith)
          (off-Keeps host Participant.file & tt)
      & block-Keeps host sd sd_deinit _ (λ _. refl) (λ r h. ground arith)
          (set_aux-Keeps sd_ops false & tt)
      & block-Keeps host music music_deinit [] (λ _. refl) (λ r h. ground arith) tt
      & block-Keeps host audio audio_deinit _ (λ _. refl) (λ r h. ground arith)
          (off-Keeps host Participant.audio & tt)
      & block-Keeps host imu imu_deinit _ (λ _. refl) (λ r h. ground arith)
          (set_aux-Keeps imu_ops false & off-Keeps host Participant.imu & tt)
      & block-Keeps host power power_deinit [] (λ _. refl) (λ r h. ground arith) tt
      & when-Keeps product.hosted_radio _ (must-Keeps host radio_deinit (λ _. refl))
      & return_result-Keeps
      & tt

  pub platform_blocks-Shrinks : All Shrinks (platform_blocks product host)
  platform_blocks-Shrinks =
      set_result-Shrinks ok
      & if_owned-Shrinks system_pm _ (
          sequence-Shrinks _ (
            set_aux-Shrinks system_pm_cancelable false
            & must-Shrinks host system_pm_deinit
            & set_owned-Shrinks system_pm
            & tt))
      & block-Shrinks host chore chore_deinit [] tt
      & tolerant-Shrinks host is_not_found time_subscription unsubscribe_time [] tt
      & block-Shrinks host time time_deinit _
          (set_aux-Shrinks rtc_ops false & off-Shrinks host Participant.time & tt)
      & return_result-Shrinks
      & tt

  platform_blocks-Keeps : All Keeps (platform_blocks product host)
  unfolding same
  platform_blocks-Keeps =
      set_result-Keeps ok
      & if_owned-Keeps system_pm _ (
          sequence-cons_Keeps _ _ (set_aux-Keeps system_pm_cancelable false) (
            must_clear-Keeps host system_pm_deinit system_pm [] (λ _. refl) (λ r h. ground arith)
              (sequence-Keeps [] tt)))
      & block-Keeps host chore chore_deinit [] (λ _. refl) (λ r h. ground arith) tt
      & tolerant-Keeps host is_not_found time_subscription unsubscribe_time [] (λ _. refl)
          (λ r h. rw h refl) tt
      & block-Keeps host time time_deinit _ (λ _. refl) (λ r h. ground arith)
          (set_aux-Keeps rtc_ops false & off-Keeps host Participant.time & tt)
      & return_result-Keeps
      & tt

  pub app_services-Shrinks : Shrinks (stop_app_services product host)
  unfolding stop_app_services
  app_services-Shrinks = sequence-Shrinks _ app_blocks-Shrinks

  pub active_services-Shrinks : Shrinks (stop_active_services product host)
  unfolding stop_active_services
  active_services-Shrinks = sequence-Shrinks _ active_blocks-Shrinks

  pub platform_services-Shrinks : Shrinks (stop_platform_services product host)
  unfolding stop_platform_services
  platform_services-Shrinks = sequence-Shrinks _ platform_blocks-Shrinks

  -- The service phases, with the benchmark before them.
  pub stop_services-Keeps : Keeps (stop_services product host)
  unfolding stop_services stop_app_services stop_active_services stop_platform_services same
  stop_services-Keeps = sequence-Keeps _ (
      when-Keeps product.benchmark _
        (block-Keeps host display_benchmark benchmark_stop [] (λ _. refl) (λ r h. ground arith) tt)
      & sequence-Keeps _ app_blocks-Keeps
      & sequence-Keeps _ active_blocks-Keeps
      & sequence-Keeps _ platform_blocks-Keeps
      & tt)

  pub stop_services-Shrinks : Shrinks (stop_services product host)
  unfolding stop_services
  stop_services-Shrinks = sequence-Shrinks _ (
      when-Shrinks product.benchmark _ (block-Shrinks host display_benchmark benchmark_stop [] tt)
      & app_services-Shrinks
      & active_services-Shrinks
      & platform_services-Shrinks
      & tt)
