-- ===== src/Runtime/Stop/Release.antt =====
-- main/app_runtime.c: what the three service phases of `_app_runtime_unwind` release.
use micro_tech.Prelude.{
  Bool-cases, inl, inr, ◌≡◌, ◌||◌, refl, Bool, true, false, Option, none, some, List, [], ◌∷◌, ok,
  is_not_found,
}
use micro_tech.Pm.Context.{Participant}
use micro_tech.Runtime.State.{
  Flag, time, weather, music, chore, system_pm, app_manager, ui_dispatch, wake_requester, power,
  imu, audio, timer, recorder, file, sd, connectivity, connectivity_subscription, time_subscription,
  device_link, display_benchmark, rtc_ops, imu_ops, sd_ops, benchmark_stop, unregister_wake,
  manager_deinit, abandon_ui, device_link_deinit, unregister_ui, timer_deinit, recorder_deinit,
  connectivity_deinit, file_deinit, sd_deinit, music_deinit, audio_deinit, imu_deinit, power_deinit,
  chore_deinit, unsubscribe_time, time_deinit, Product, Host,
}
use micro_tech.Runtime.Rules.{
  ◌&◌, Clears, sequence-Clears_here, sequence-Clears_there, if_owned-Clears, when-Clears,
  set_aux-Shrinks, clear_second, EachClears, set_result-Shrinks, among, sequence-Clears,
}
use micro_tech.Runtime.Rules.Calls.{must-Shrinks}
use micro_tech.Runtime.Stop.Blocks.{block-Clears, tolerant-Clears, off-Shrinks}
use micro_tech.Runtime.Stop.{
  app_blocks, stop_app_services, active_blocks, stop_active_services, platform_blocks,
  stop_platform_services, stop_services,
}
use micro_tech.Runtime.Stop.Kept.{
  app_blocks-Shrinks, active_blocks-Shrinks, platform_blocks-Shrinks, app_services-Shrinks,
  active_services-Shrinks, platform_services-Shrinks,
}

abbrev app_flags : List (Option Flag)
app_flags =
    none ∷ some wake_requester ∷ some app_manager ∷ some device_link ∷ some ui_dispatch ∷ none ∷ []

abbrev active_flags : List (Option Flag)
active_flags =
    none
    ∷ none
    ∷ some weather
    ∷ some timer
    ∷ some recorder
    ∷ some connectivity
    ∷ some connectivity_subscription
    ∷ some file
    ∷ some sd
    ∷ some music
    ∷ some audio
    ∷ some imu
    ∷ some power
    ∷ none
    ∷ none
    ∷ []

abbrev platform_flags : List (Option Flag)
platform_flags = none ∷ some system_pm ∷ some chore ∷ some time_subscription ∷ some time ∷ none ∷ []

module _ (product : Product) (host : Host) where
  app_blocks-Clears : EachClears app_flags (app_blocks product host)
  app_blocks-Clears =
      tolerant-Clears host is_not_found wake_requester unregister_wake _
        (set_result-Shrinks ok & tt)
      & block-Clears host app_manager manager_deinit _ (must-Shrinks host abandon_ui & tt)
      & block-Clears host device_link device_link_deinit _
          (off-Shrinks host Participant.device_link & tt)
      & tolerant-Clears host is_not_found ui_dispatch unregister_ui _ (set_result-Shrinks ok & tt)
      & tt

  active_blocks-Clears : EachClears active_flags (active_blocks product host)
  active_blocks-Clears =
      if_owned-Clears weather _ (
        sequence-Clears_there weather _ _
          (clear_second weather _ _ (off-Shrinks host Participant.weather & tt)))
      & block-Clears host timer timer_deinit [] tt
      & block-Clears host recorder recorder_deinit [] tt
      & block-Clears host connectivity connectivity_deinit _
          (off-Shrinks host Participant.connectivity & tt)
      & if_owned-Clears connectivity_subscription _ (
          sequence-Clears_there connectivity_subscription _ _
            (clear_second connectivity_subscription _ [] tt))
      & block-Clears host file file_deinit _ (off-Shrinks host Participant.file & tt)
      & block-Clears host sd sd_deinit _ (set_aux-Shrinks sd_ops false & tt)
      & block-Clears host music music_deinit [] tt
      & block-Clears host audio audio_deinit _ (off-Shrinks host Participant.audio & tt)
      & block-Clears host imu imu_deinit _
          (set_aux-Shrinks imu_ops false & off-Shrinks host Participant.imu & tt)
      & block-Clears host power power_deinit [] tt
      & tt

  platform_blocks-Clears : EachClears platform_flags (platform_blocks product host)
  platform_blocks-Clears =
      if_owned-Clears system_pm _
        (sequence-Clears_there system_pm _ _ (clear_second system_pm _ [] tt))
      & block-Clears host chore chore_deinit [] tt
      & tolerant-Clears host is_not_found time_subscription unsubscribe_time [] tt
      & block-Clears host time time_deinit _
          (set_aux-Shrinks rtc_ops false & off-Shrinks host Participant.time & tt)
      & tt

  app_services-Clears :
      (f : Flag) → among f app_flags ≡ true → Clears f (stop_app_services product host)
  unfolding stop_app_services
  app_services-Clears =
      sequence-Clears app_flags _ refl app_blocks-Clears (app_blocks-Shrinks product host)

  active_services-Clears :
      (f : Flag) → among f active_flags ≡ true → Clears f (stop_active_services product host)
  unfolding stop_active_services
  active_services-Clears =
      sequence-Clears active_flags _ refl active_blocks-Clears (active_blocks-Shrinks product host)

  platform_services-Clears :
      (f : Flag) → among f platform_flags ≡ true → Clears f (stop_platform_services product host)
  unfolding stop_platform_services
  platform_services-Clears =
      sequence-Clears platform_flags _ refl platform_blocks-Clears
        (platform_blocks-Shrinks product host)

  -- The flags that the service phases clear.
  abbrev pub is_service : Flag → Bool
  is_service f = among f app_flags || (among f active_flags || among f platform_flags)

  -- When the service phases succeed, none of their services is owned.
  pub stop_services-Clears :
      (f : Flag) → is_service f ≡ true → Clears f (stop_services product host)
  unfolding stop_services
  stop_services-Clears f h = sequence-Clears_there f _ _ (elim (Bool-cases (among f app_flags)) [
    | inl a ↦
        sequence-Clears_here f _ _ (app_services-Clears f a)
          ((active_services-Shrinks product host) & (platform_services-Shrinks product host) & tt)
    | inr n ↦ sequence-Clears_there f _ _ (elim (Bool-cases (among f active_flags)) [
      | inl a ↦
          sequence-Clears_here f _ _ (active_services-Clears f a)
            ((platform_services-Shrinks product host) & tt)
      | inr m ↦
          sequence-Clears_there f _ _
            (sequence-Clears_here f _ [] (platform_services-Clears f (rest n m)) tt)
    ])
  ])
    where
      rest :
          among f app_flags ≡ false → among f active_flags ≡ false → among f platform_flags ≡ true
      rest n m = rw (n, m) at h

  pub stop_services-benchmark :
      product.benchmark ≡ true → Clears display_benchmark (stop_services product host)
  unfolding stop_services
  stop_services-benchmark on =
      sequence-Clears_here display_benchmark _ _
        (when-Clears display_benchmark product.benchmark _ on
          (block-Clears host display_benchmark benchmark_stop [] tt))
        ((app_services-Shrinks product host)
          & (active_services-Shrinks product host)
          & (platform_services-Shrinks product host)
          & tt)
