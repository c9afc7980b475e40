-- ===== src/Runtime/State.antt =====
-- main/app_runtime.c: the static state of the runtime, and the calls that it makes.
use micro_tech.Prelude.{
  ℕ, ◌≡◌, refl, ap, sym, ◌∙◌, Bool, true, false, ◌&&◌, ◌||◌, Option, none, some, [], ◌∷◌, ◌==◌,
  ==_iff, if◌then◌else◌, EspErr, is_ok, is_not_found, is_invalid_state, Log, Replies, Answers,
}
use micro_tech.Pm.Context.{Participant}

-- `app_runtime_state_t`
pub data RuntimeState : Type 0 where
  stopped starting ready stopping cleanup_pending : RuntimeState

-- The members of `app_runtime_ownership_t` that stand for a service or a registration. A
-- subscription handle counts as owned while it is not EVENT_BUS_SUB_HANDLE_INVALID.
pub data Flag : Type 0 where
  nv factory_reset fs bsp display_lease time weather music chore system_pm : Flag
  app_manager ui_dispatch wake_requester power imu audio timer recorder file : Flag
  onboarding sd connectivity connectivity_subscription time_subscription device_link : Flag
  display_benchmark : Flag

-- What else the functions write: `system_pm_cancelable`, and the three static pointers to the
-- board's operations, as true when they are not NULL.
pub data Aux : Type 0 where
  system_pm_cancelable rtc_ops imu_ops sd_ops : Aux

-- The calls that can fail, by the function that is called. `event_bus_subscribe` and
-- `event_bus_unsubscribe_sync` are two calls each, for the two subscriptions.
pub data Call : Type 0 where
  log_init nv_init reset_service_init recovery_pending clear_profile onboarding_init : Call
  onboarding_reset manager_reset apps_reset audio_reset music_reset fs_init wipe_data : Call
  event_bus_init radio_init device_link_init complete_recovery release_gate bsp_init : Call
  register_rtc time_init subscribe_time timer_init chore_init display_acquire : Call
  build_system_config system_pm_init manager_init get_ui_dispatch register_ui_dispatch : Call
  register_wake prepare_power power_init register_imu imu_init audio_init : Call
  restore_volume register_sd sd_init recorder_init music_init file_init weather_init : Call
  network_init connectivity_init subscribe_connectivity connectivity_status : Call
  time_network weather_network music_network request_wifi onboarding_state : Call
  onboarding_defer navigate_home navigate_setup display_commit startup_commit benchmark_start : Call
  benchmark_stop unregister_wake manager_deinit abandon_ui device_link_deinit : Call
  unregister_ui cancel_standby weather_offline weather_deinit timer_deinit : Call
  recorder_deinit connectivity_deinit time_offline unsubscribe_connectivity file_deinit : Call
  sd_deinit music_deinit audio_deinit imu_deinit power_deinit radio_deinit : Call
  system_pm_deinit chore_deinit unsubscribe_time time_deinit release_and_deinit : Call
  display_release bsp_deinit fs_deinit onboarding_deinit reset_service_deinit : Call
  nv_deinit : Call

-- The questions that the functions ask of the board, the product and the services.
pub data Query : Type 0 where
  required_capabilities has_rtc rtc_present screen_present has_imu imu_present : Query
  has_audio has_sd sd_present reset_pending network_ready required_apps setup_available : Query
  onboarding_pending wifi_wanted : Query

-- The compile-time switches and the product configuration that the functions test.
pub record Product : Type 0 where
  pub radio_enabled : Bool
  pub radio_optional : Bool
  pub hosted_radio : Bool  -- MT_PRODUCT_HOSTED_RADIO
  pub benchmark : Bool  -- CONFIG_MAIN_DISPLAY_BENCHMARK

pub record Host : Type 0 where
  pub reply : Replies Call EspErr
  pub answer : Answers Call EspErr Query

-- What the phases of the start and of the stop read and write.
pub record Runtime : Type 0 where
  pub owned : Flag → Bool
  pub aux : Aux → Bool
  pub sleeps : Participant → Bool  -- the participants of sleep transactions
  pub factory_reset_pending : Bool
  pub result : EspErr  -- the local `result` of the function that runs
  pub log : Log Call EspErr

-- The runtime with the two variables that only the start and the stop themselves write.
pub record Lifecycle : Type 0 where
  pub state : RuntimeState  -- s_runtime_state
  pub admitted : Bool  -- s_standby_admitted
  pub runtime : Runtime

abbrev pub rank : Flag → ℕ
rank nv = 0
rank factory_reset = 1
rank fs = 2
rank bsp = 3
rank display_lease = 4
rank time = 5
rank weather = 6
rank music = 7
rank chore = 8
rank system_pm = 9
rank app_manager = 10
rank ui_dispatch = 11
rank wake_requester = 12
rank power = 13
rank imu = 14
rank audio = 15
rank timer = 16
rank recorder = 17
rank file = 18
rank onboarding = 19
rank sd = 20
rank connectivity = 21
rank connectivity_subscription = 22
rank time_subscription = 23
rank device_link = 24
rank display_benchmark = 25

abbrev at_rank : ℕ → Flag
at_rank n =
    if n == 0
    then nv
    else if n == 1
    then factory_reset
    else if n == 2
    then fs
    else if n == 3
    then bsp
    else if n == 4
    then display_lease
    else if n == 5
    then time
    else if n == 6
    then weather
    else if n == 7
    then music
    else if n == 8
    then chore
    else if n == 9
    then system_pm
    else if n == 10
    then app_manager
    else if n == 11
    then ui_dispatch
    else if n == 12
    then wake_requester
    else if n == 13
    then power
    else if n == 14
    then imu
    else if n == 15
    then audio
    else if n == 16
    then timer
    else if n == 17
    then recorder
    else if n == 18
    then file
    else if n == 19
    then onboarding
    else if n == 20
    then sd
    else if n == 21
    then connectivity
    else if n == 22
    then connectivity_subscription
    else if n == 23
    then time_subscription
    else if n == 24
    then device_link
    else display_benchmark

unfoldable pub same : Flag → Flag → Bool
same f g = rank f == rank g

at_rank-rank : (f : Flag) → at_rank (rank f) ≡ f
at_rank-rank nv = refl
at_rank-rank _ = refl

pub same→eq : (f g : Flag) → same f g ≡ true → f ≡ g
unfolding same
same→eq f g h = sym (at_rank-rank f) ∙ ap at_rank ((==_iff (rank f) (rank g)).0 h) ∙ at_rank-rank g

pub same_refl : (f : Flag) → same f f ≡ true
unfolding same
same_refl nv = refl
same_refl _ = refl

-- What a call acquires when it succeeds, of the services with an ownership flag. The calls for the
-- radio, the network foundation and the event bus acquire things that have no flag.
abbrev pub acquired_by : Call → Option Flag
acquired_by nv_init = some nv
acquired_by reset_service_init = some factory_reset
acquired_by fs_init = some fs
acquired_by onboarding_init = some onboarding
acquired_by device_link_init = some device_link
acquired_by bsp_init = some bsp
acquired_by time_init = some time
acquired_by subscribe_time = some time_subscription
acquired_by timer_init = some timer
acquired_by chore_init = some chore
acquired_by display_acquire = some display_lease
acquired_by system_pm_init = some system_pm
acquired_by manager_init = some app_manager
acquired_by register_ui_dispatch = some ui_dispatch
acquired_by register_wake = some wake_requester
acquired_by power_init = some power
acquired_by imu_init = some imu
acquired_by audio_init = some audio
acquired_by register_sd = some sd
acquired_by recorder_init = some recorder
acquired_by music_init = some music
acquired_by file_init = some file
acquired_by weather_init = some weather
acquired_by connectivity_init = some connectivity
acquired_by subscribe_connectivity = some connectivity_subscription
acquired_by benchmark_start = some display_benchmark
acquired_by _ = none

-- What a call gives back, by its answer. Giving back the display lease counts unless the answer is
-- ESP_ERR_INVALID_STATE, and removing a registration that is not there counts as removing it.
abbrev pub released_by : Call → EspErr → Option Flag
released_by benchmark_stop r = if is_ok r then some display_benchmark else none
released_by unregister_wake r = if is_ok r || is_not_found r then some wake_requester else none
released_by manager_deinit r = if is_ok r then some app_manager else none
released_by device_link_deinit r = if is_ok r then some device_link else none
released_by unregister_ui r = if is_ok r || is_not_found r then some ui_dispatch else none
released_by weather_deinit r = if is_ok r then some weather else none
released_by timer_deinit r = if is_ok r then some timer else none
released_by recorder_deinit r = if is_ok r then some recorder else none
released_by connectivity_deinit r = if is_ok r then some connectivity else none
released_by unsubscribe_connectivity r =
    if is_ok r || is_not_found r then some connectivity_subscription else none
released_by file_deinit r = if is_ok r then some file else none
released_by sd_deinit r = if is_ok r then some sd else none
released_by music_deinit r = if is_ok r then some music else none
released_by audio_deinit r = if is_ok r then some audio else none
released_by imu_deinit r = if is_ok r then some imu else none
released_by power_deinit r = if is_ok r then some power else none
released_by system_pm_deinit r = if is_ok r then some system_pm else none
released_by chore_deinit r = if is_ok r then some chore else none
released_by unsubscribe_time r = if is_ok r || is_not_found r then some time_subscription else none
released_by time_deinit r = if is_ok r then some time else none
released_by release_and_deinit r = if is_invalid_state r then none else some display_lease
released_by display_release r = if is_ok r then some display_lease else none
released_by bsp_deinit r = if is_ok r then some bsp else none
released_by fs_deinit r = if is_ok r then some fs else none
released_by onboarding_deinit r = if is_ok r then some onboarding else none
released_by reset_service_deinit r = if is_ok r then some factory_reset else none
released_by nv_deinit r = if is_ok r then some nv else none
released_by _ r = none

abbrev pub is_flag : Option Flag → Flag → Bool
is_flag none f = false
is_flag (some g) f = same g f

-- Releasing the display and the board is one call, which gives back both when it succeeds.
abbrev pub gives_back : Call → EspErr → Flag → Bool
gives_back release_and_deinit r f =
    is_flag (released_by release_and_deinit r) f || (is_ok r && same bsp f)
gives_back c r f = is_flag (released_by c r) f

-- Whether a service is held after a history of calls: a call has acquired it, and no later call has
-- given it back.
unfoldable pub held : Flag → Log Call EspErr → Bool
held f [] = false
held f ((c, r) ∷ log) =
    let before = held f log in
    if is_ok r && is_flag (acquired_by c) f
    then true
    else (if gives_back c r f then false else before)

-- No service that is held has been forgotten.
abbrev pub Accounted : Runtime → Type 0
Accounted s = (f : Flag) → held f s.log ≡ true → s.owned f ≡ true
