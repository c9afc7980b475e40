-- ===== src/Runtime/Start.antt =====
-- main/app_runtime.c: the phases of `app_runtime_start`, each an action on the services.
pub mod Clear
pub mod Accounts
use micro_tech.Prelude.{
  Bool, true, false, not, ◌||◌, List, [], ◌∷◌, EspErr, ok, invalid_state, not_found,
  is_invalid_state, is_not_supported,
}
use micro_tech.Pm.Context
use micro_tech.Pm.Context.{Participant}
use micro_tech.Runtime.State.{
  nv, factory_reset, fs, bsp, display_lease, time, weather, music, chore, system_pm, app_manager,
  ui_dispatch, wake_requester, power, imu, audio, timer, recorder, file, onboarding, sd,
  connectivity, connectivity_subscription, time_subscription, device_link, display_benchmark, Aux,
  system_pm_cancelable, rtc_ops, imu_ops, sd_ops, Call, log_init, nv_init, reset_service_init,
  recovery_pending, clear_profile, onboarding_init, onboarding_reset, manager_reset, apps_reset,
  audio_reset, music_reset, fs_init, wipe_data, event_bus_init, radio_init, device_link_init,
  device_link_deinit, complete_recovery, release_gate, bsp_init, register_rtc, time_init,
  subscribe_time, timer_init, chore_init, display_acquire, build_system_config, system_pm_init,
  manager_init, get_ui_dispatch, register_ui_dispatch, register_wake, prepare_power, power_init,
  register_imu, imu_init, imu_deinit, audio_init, audio_deinit, restore_volume, register_sd,
  sd_init, recorder_init, music_init, file_init, weather_init, network_init, connectivity_init,
  subscribe_connectivity, connectivity_status, time_network, weather_network, music_network,
  request_wifi, onboarding_state, onboarding_defer, navigate_home, navigate_setup, display_commit,
  startup_commit, benchmark_start, Query, required_capabilities, has_rtc, rtc_present,
  screen_present, has_imu, imu_present, has_audio, has_sd, sd_present, reset_pending, network_ready,
  required_apps, setup_available, onboarding_pending, wifi_wanted, Product, Host,
}
use micro_tech.Runtime.Action.{
  Action, succeed, return_error, set_result, return_result, sequence, when, choose, if_owned,
  set_owned, set_aux, set_sleeps, set_reset_pending, must, tolerate, try_call, ask, check,
  if_reset_pending, claim, acquire,
}

-- Every answer of the call is accepted.
abbrev pub any_answer : EspErr → Bool
any_answer _ = true

module _ (host : Host) where
  abbrev pub reset_stores : Action
  reset_stores = sequence (
      must host onboarding_reset
      ∷ must host manager_reset
      ∷ must host apps_reset
      ∷ must host audio_reset
      ∷ must host music_reset
      ∷ [])

  unfoldable pub start_foundations : Action
  start_foundations = sequence (
      must host log_init
      ∷ claim host nv nv_init
      ∷ claim host factory_reset reset_service_init
      ∷ must host recovery_pending
      ∷ ask host reset_pending (set_reset_pending true) (set_reset_pending false)
      ∷ if_reset_pending (must host clear_profile)
      ∷ acquire host onboarding onboarding_init
      ∷ if_reset_pending reset_stores
      ∷ claim host fs fs_init
      ∷ if_reset_pending (must host wipe_data)
      ∷ must host event_bus_init
      ∷ [])

  -- The board's clock, when the board has one.
  abbrev pub start_rtc : Action
  start_rtc =
      ask host has_rtc
        (sequence (
          check host rtc_present invalid_state
          ∷ set_aux rtc_ops true
          ∷ try_call host register_rtc succeed
              (λ e. sequence (set_aux rtc_ops false ∷ return_error e ∷ []))
          ∷ []))
        succeed

  abbrev pub start_time : Action
  start_time = sequence (set_owned time true ∷ start_rtc ∷ must host time_init ∷ [])

  -- A board without a wake source stays awake, which is no error.
  abbrev pub start_system_pm : Action
  start_system_pm =
      try_call host build_system_config
        (sequence (
          set_owned system_pm true
          ∷ must host system_pm_init
          ∷ set_aux system_pm_cancelable true
          ∷ []))
        (λ e. choose (is_not_supported e) succeed (return_error e))

  unfoldable pub start_platform : Action
  start_platform = sequence (
      claim host bsp bsp_init
      ∷ check host required_capabilities invalid_state
      ∷ start_time
      ∷ set_sleeps Participant.time true
      ∷ set_owned time_subscription false
      ∷ acquire host time_subscription subscribe_time
      ∷ acquire host timer timer_init
      ∷ claim host chore chore_init
      ∷ check host screen_present invalid_state
      ∷ acquire host display_lease display_acquire
      ∷ start_system_pm
      ∷ [])

  abbrev pub start_power : Action
  start_power =
      sequence (set_owned power true ∷ must host prepare_power ∷ must host power_init ∷ [])

  abbrev pub start_manager : Action
  start_manager = sequence (
      claim host app_manager manager_init
      ∷ must host get_ui_dispatch
      ∷ acquire host ui_dispatch register_ui_dispatch
      ∷ acquire host wake_requester register_wake
      ∷ start_power
      ∷ [])

  -- A static pointer to the board's operations, which must not be NULL.
  abbrev pub set_board_ops : Query → Aux → Action
  set_board_ops present a =
      ask host present (set_aux a true)
        (sequence (set_aux a false ∷ return_error invalid_state ∷ []))

  -- The IMU and the audio are given back when they cannot be initialised.
  abbrev pub clean_imu : Action
  clean_imu =
      try_call host imu_deinit (sequence (set_owned imu false ∷ set_aux imu_ops false ∷ []))
        (λ e. sequence (set_owned imu true ∷ return_error e ∷ []))

  abbrev pub start_imu : Action
  start_imu =
      ask host has_imu
        (sequence (
          set_board_ops imu_present imu_ops
          ∷ must host register_imu
          ∷ sequence (
              set_owned imu true
              ∷ try_call host imu_init (set_sleeps Participant.imu true) (λ _. clean_imu)
              ∷ [])
          ∷ []))
        succeed

  abbrev pub clean_audio : Action
  clean_audio =
      try_call host audio_deinit (sequence (set_owned audio false ∷ []))
        (λ e. sequence (set_owned audio true ∷ return_error e ∷ []))

  abbrev pub start_audio : Action
  start_audio =
      ask host has_audio
        (sequence (
          set_owned audio true
          ∷ try_call host audio_init
              (sequence
                (set_sleeps Participant.audio true ∷ tolerate host any_answer restore_volume ∷ []))
              (λ _. clean_audio)
          ∷ []))
        succeed

  -- A card that cannot be mounted leaves its adapter registered.
  abbrev pub start_sd : Action
  start_sd =
      ask host has_sd
        (sequence (
          set_board_ops sd_present sd_ops
          ∷ acquire host sd register_sd
          ∷ tolerate host any_answer sd_init
          ∷ []))
        succeed

  abbrev pub start_media : List Action
  start_media =
      if_owned audio (acquire host recorder recorder_init)
      ∷ if_owned audio
          (try_call host music_init (sequence (set_owned music true ∷ [])) (λ _. succeed))
      ∷ if_owned sd (
          try_call host file_init
            (sequence (set_owned file true ∷ set_sleeps Participant.file true ∷ [])) (λ _. succeed))
      ∷ []

  unfoldable pub start_app_services : Action
  start_app_services = sequence (start_manager ∷ start_imu ∷ start_audio ∷ start_sd ∷ start_media)

  -- The network's readiness is passed on; the result of the last call is the result.
  abbrev pub start_network : Action
  start_network = sequence (
      set_sleeps Participant.connectivity true
      ∷ acquire host connectivity_subscription subscribe_connectivity
      ∷ must host connectivity_status
      ∷ must host time_network
      ∷ must host weather_network
      ∷ if_owned music (tolerate host is_invalid_state music_network)
      ∷ return_result
      ∷ [])

  unfoldable pub start_deferred_wifi : Action
  start_deferred_wifi =
      try_call host connectivity_status
        (ask host wifi_wanted (tolerate host any_answer request_wifi) succeed) (λ _. succeed)

module _ (product : Product) (host : Host) where
  unfoldable pub start_connectivity : Action
  start_connectivity =
      choose product.radio_enabled
        (sequence (
          claim host weather weather_init
          ∷ set_sleeps Participant.weather true
          ∷ try_call host network_init
              (ask host network_ready
                (try_call host connectivity_init
                  (sequence (set_owned connectivity true ∷ start_network host ∷ [])) (λ _. succeed))
                succeed)
              (λ _. succeed)
          ∷ []))
        succeed

  abbrev pub finish_recovery : Action
  finish_recovery = sequence (
      set_sleeps Participant.device_link true
      ∷ if_reset_pending (
          sequence
            (must host complete_recovery ∷ must host release_gate ∷ set_reset_pending false ∷ []))
      ∷ [])

  -- A device link that cannot be initialised is fatal while a factory reset is pending, or where the
  -- radio is not optional.
  abbrev pub without_device_link : EspErr → Action
  without_device_link e = sequence (
      if_reset_pending (return_error e)
      ∷ when (not product.radio_optional) (return_error e)
      ∷ tolerate host any_answer device_link_deinit
      ∷ set_owned device_link false
      ∷ [])

  abbrev pub start_radio : Action
  start_radio = when product.hosted_radio (
      try_call host radio_init succeed
        (λ e. choose product.radio_optional succeed (return_error e)))

  unfoldable pub start_device_link : Action
  start_device_link =
      choose product.radio_enabled
        (sequence (
          start_radio
          ∷ set_owned device_link true
          ∷ try_call host device_link_init finish_recovery without_device_link
          ∷ []))
        (if_reset_pending (sequence (must host complete_recovery ∷ set_reset_pending false ∷ [])))

  abbrev pub commit : Call → Action
  commit navigate = sequence (must host navigate ∷ must host display_commit ∷ [])

  -- The setup is opened while the onboarding is pending; it is deferred where it cannot be done.
  unfoldable pub start_initial_app : Action
  start_initial_app = sequence (
      check host required_apps not_found
      ∷ must host onboarding_state
      ∷ ask host onboarding_pending
          (ask host setup_available
            (choose product.radio_enabled (commit navigate_setup)
              (try_call host onboarding_defer (commit navigate_home) (λ _. commit navigate_setup)))
            (try_call host onboarding_defer (commit navigate_home) (λ _. commit navigate_home)))
          (commit navigate_home)
      ∷ [])

  unfoldable pub start_phases : Action
  start_phases = sequence (
      start_foundations host
      ∷ start_device_link
      ∷ start_platform host
      ∷ start_app_services host
      ∷ start_connectivity
      ∷ start_initial_app
      ∷ must host startup_commit
      ∷ when product.benchmark (claim host display_benchmark benchmark_start)
      ∷ start_deferred_wifi host
      ∷ [])
