-- ===== src/Runtime/Stop.antt =====
-- main/app_runtime.c: `_app_runtime_unwind` and the functions that it calls. A pointer that is
-- cleared together with a flag of another component (the power bridge, the board's input bridge,
-- the UI dispatch function) is left to that component.
pub mod Blocks
pub mod Kept
pub mod Release
pub mod Attempt
pub mod Storage
pub mod Display
pub mod Foundations
pub mod Unwind
pub mod Progress
use micro_tech.Prelude.{
  Bool, true, false, not, ◌&&◌, ◌||◌, List, [], ◌∷◌, if◌then◌else◌, EspErr, ok, invalid_state,
  is_ok, is_not_found, is_invalid_state,
}
use micro_tech.Pm.Context
use micro_tech.Pm.Context.{Participant}
use micro_tech.Pm.Sleep.{record_first_error}
use micro_tech.Runtime.State.{
  RuntimeState, stopped, starting, ready, stopping, cleanup_pending, Flag, nv, factory_reset, fs,
  bsp, display_lease, time, weather, music, chore, system_pm, app_manager, ui_dispatch,
  wake_requester, power, imu, audio, timer, recorder, file, onboarding, sd, connectivity,
  connectivity_subscription, time_subscription, device_link, display_benchmark, Aux,
  system_pm_cancelable, rtc_ops, imu_ops, sd_ops, Call, benchmark_stop, unregister_wake,
  manager_deinit, abandon_ui, device_link_deinit, unregister_ui, cancel_standby, weather_offline,
  weather_deinit, timer_deinit, recorder_deinit, connectivity_deinit, time_offline,
  unsubscribe_connectivity, file_deinit, sd_deinit, music_deinit, audio_deinit, imu_deinit,
  power_deinit, radio_deinit, system_pm_deinit, chore_deinit, unsubscribe_time, time_deinit,
  release_and_deinit, display_release, bsp_deinit, fs_deinit, onboarding_deinit,
  reset_service_deinit, nv_deinit, Product, Host, Runtime, Lifecycle, same,
}
use micro_tech.Runtime.Action.{
  Action, set_result, return_result, sequence, when, if_owned, set_owned, set_aux, set_sleeps, must,
  tolerate, release,
}

-- The flags that `_app_runtime_has_owned_resources` reads, but for the benchmark's.
abbrev pub counted_flags : List Flag
counted_flags =
    nv ∷ factory_reset ∷ fs ∷ bsp ∷ display_lease ∷ time ∷ weather ∷ music ∷ chore ∷ system_pm
    ∷ app_manager ∷ ui_dispatch ∷ wake_requester ∷ power ∷ imu ∷ audio ∷ sd ∷ timer ∷ recorder
    ∷ file ∷ onboarding ∷ connectivity ∷ connectivity_subscription ∷ device_link ∷ []

pub any_owned : (Flag → Bool) → List Flag → Bool
any_owned owned [] = false
any_owned owned (f ∷ rest) = owned f || any_owned owned rest

unfoldable pub has_owned_resources : Product → Runtime → Bool
has_owned_resources product s =
    any_owned s.owned counted_flags || (product.benchmark && s.owned display_benchmark)

pub if_cancelable : Action → Action
if_cancelable m s = if s.aux system_pm_cancelable then m s else (ok, s)

-- `memset` of the ownership, and `app_runtime_pm_reset`.
pub forget : Runtime → Runtime
forget s = record s {
  owned = λ _. false;
  aux = λ a. elim a [ system_pm_cancelable ↦ false | other ↦ s.aux other ];
  sleeps = λ _. false;
}

module _ (host : Host) where
  -- One block of the foundations: the first error is kept, and the next block runs all the same.
  pub attempt : Flag → Call → EspErr × Runtime → EspErr × Runtime
  attempt f c (first, s) =
      if s.owned f
      then (let r = host.reply s.log c in
          let s' : Runtime = record s { log = (c, r) ∷ s.log } in
          (record_first_error first r, if is_ok r then (set_owned f false s').1 else s'))
      else (first, s)

  -- The display and the board are released in one call, so that nobody acquires the display in
  -- between; every answer but ESP_ERR_INVALID_STATE consumes the lease.
  pub release_display_and_board : Runtime → EspErr × Runtime
  release_display_and_board s =
      let r = host.reply s.log release_and_deinit in
      let s₁ : Runtime = record s { log = (release_and_deinit, r) ∷ s.log } in
      let s₂ = if not (is_invalid_state r) then (set_owned display_lease false s₁).1 else s₁ in
      (record_first_error ok r, if is_ok r then (set_owned bsp false s₂).1 else s₂)

  pub stop_display : Runtime → EspErr × Runtime
  stop_display s =
      if s.owned display_lease && s.owned bsp
      then release_display_and_board s
      else attempt bsp bsp_deinit (attempt display_lease display_release (ok, s))

  pub stop_storage : EspErr × Runtime → EspErr × Runtime
  stop_storage acc =
      attempt factory_reset reset_service_deinit
        (attempt onboarding onboarding_deinit (attempt fs fs_deinit acc))

  pub stop_nv : EspErr × Runtime → EspErr × Runtime
  stop_nv (first, s) =
      if s.owned nv && not (s.owned factory_reset)
      then attempt nv nv_deinit (first, s)
      else (first, s)

  pub stop_foundations : Runtime → EspErr × Runtime
  stop_foundations s = stop_nv (stop_storage (stop_display s))

module _ (product : Product) (host : Host) where
  abbrev pub stop_display_benchmark : Action
  stop_display_benchmark = release host display_benchmark benchmark_stop

  abbrev pub unregister_wake_requester : Action
  unregister_wake_requester = sequence (
      tolerate host is_not_found unregister_wake
      ∷ set_owned wake_requester false
      ∷ set_result ok
      ∷ [])

  abbrev pub unregister_ui_dispatch : Action
  unregister_ui_dispatch =
      sequence (
        tolerate host is_not_found unregister_ui ∷ set_owned ui_dispatch false ∷ set_result ok ∷ [])

  abbrev pub app_blocks : List Action
  app_blocks =
      set_result ok
      ∷ if_owned wake_requester unregister_wake_requester
      ∷ if_owned app_manager (
          sequence
            (must host manager_deinit ∷ set_owned app_manager false ∷ must host abandon_ui ∷ []))
      ∷ if_owned device_link (
          sequence (
            must host device_link_deinit
            ∷ set_owned device_link false
            ∷ set_sleeps Participant.device_link false
            ∷ []))
      ∷ if_owned ui_dispatch unregister_ui_dispatch
      ∷ return_result
      ∷ []

  pub stop_app_services : Action
  stop_app_services = sequence app_blocks

  abbrev pub active_blocks : List Action
  active_blocks =
      set_result ok
      ∷ if_cancelable
          (sequence (must host cancel_standby ∷ set_aux system_pm_cancelable false ∷ []))
      ∷ if_owned weather (
          sequence (
            tolerate host is_invalid_state weather_offline
            ∷ must host weather_deinit
            ∷ set_owned weather false
            ∷ set_sleeps Participant.weather false
            ∷ []))
      ∷ release host timer timer_deinit
      ∷ release host recorder recorder_deinit
      ∷ if_owned connectivity (
          sequence (
            must host connectivity_deinit
            ∷ set_owned connectivity false
            ∷ set_sleeps Participant.connectivity false
            ∷ []))
      ∷ if_owned connectivity_subscription (
          sequence (
            tolerate host is_invalid_state time_offline
            ∷ tolerate host is_not_found unsubscribe_connectivity
            ∷ set_owned connectivity_subscription false
            ∷ []))
      ∷ if_owned file (
          sequence
            (must host file_deinit ∷ set_owned file false ∷ set_sleeps Participant.file false ∷ []))
      ∷ if_owned sd
          (sequence (must host sd_deinit ∷ set_owned sd false ∷ set_aux sd_ops false ∷ []))
      ∷ release host music music_deinit
      ∷ if_owned audio (
          sequence (
            must host audio_deinit
            ∷ set_owned audio false
            ∷ set_sleeps Participant.audio false
            ∷ []))
      ∷ if_owned imu (
          sequence (
            must host imu_deinit
            ∷ set_owned imu false
            ∷ set_aux imu_ops false
            ∷ set_sleeps Participant.imu false
            ∷ []))
      ∷ release host power power_deinit
      ∷ when product.hosted_radio (must host radio_deinit)
      ∷ return_result
      ∷ []

  pub stop_active_services : Action
  stop_active_services = sequence active_blocks

  abbrev pub platform_blocks : List Action
  platform_blocks =
      set_result ok
      ∷ if_owned system_pm (
          sequence (
            set_aux system_pm_cancelable false
            ∷ must host system_pm_deinit
            ∷ set_owned system_pm false
            ∷ []))
      ∷ release host chore chore_deinit
      ∷ if_owned time_subscription (
          sequence
            (tolerate host is_not_found unsubscribe_time ∷ set_owned time_subscription false ∷ []))
      ∷ if_owned time (
          sequence (
            must host time_deinit
            ∷ set_owned time false
            ∷ set_aux rtc_ops false
            ∷ set_sleeps Participant.time false
            ∷ []))
      ∷ return_result
      ∷ []

  pub stop_platform_services : Action
  stop_platform_services = sequence platform_blocks

  pub stop_services : Action
  stop_services = sequence (
      when product.benchmark stop_display_benchmark
      ∷ stop_app_services
      ∷ stop_active_services
      ∷ stop_platform_services
      ∷ [])

  unfoldable pub unwind : Lifecycle → EspErr × Lifecycle
  unwind l =
      let l₁ : Lifecycle = record l { state = stopping; admitted = false } in
      let (r, s) = stop_services l₁.runtime in
      if is_ok r
      then (let (e, t) = stop_foundations host s in
          if not (has_owned_resources product t)
          then (e, record l₁ { state = stopped; runtime = forget t })
          else (
            if is_ok e then invalid_state else e,
            record l₁ { state = cleanup_pending; runtime = t },
          ))
      else (r, record l₁ { state = cleanup_pending; runtime = s })
