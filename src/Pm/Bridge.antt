-- ===== src/Pm/Bridge.antt =====
-- main/app_runtime_pm.c: the static state outside a sleep transaction, and the bridges between the
-- app manager, the board and system PM.
pub mod Input
pub mod Standby
use micro_tech.Prelude.{
  ℕ, ◌+◌, ◌-◌, ◌%◌, ◌^◌, Bool, true, false, not, ◌&&◌, ◌||◌, Option, none, some, if◌then◌else◌,
  EspErr, ok, invalid_arg, invalid_state, not_supported, is_ok,
}
use micro_tech.Pm.Admission.{u32}

pub data AppKey : Type 0 where
  home power : AppKey

pub data AppKeyEvent : Type 0 where
  down up click long_press : AppKeyEvent

-- The board's key and event codes, with those that the switches do not name.
pub data BspKey : Type 0 where
  home power : BspKey
  unmapped : ℕ → BspKey

pub data BspKeyEvent : Type 0 where
  down up click long_press : BspKeyEvent
  unmapped : ℕ → BspKeyEvent

-- `bsp_input_ops_t`: a missing function pointer, or what the call answers.
pub record InputOps : Type 0 where
  pub register_handler : Option EspErr
  pub unregister_handler : Option EspErr

-- An input callback and its context are addresses.
pub record Bridge : Type 0 where
  pub system_pm_available : Bool
  pub benchmark_inhibited : Bool
  pub device_link_participant : Bool
  pub file_participant : Bool
  pub bsp_power : Bool  -- not NULL
  pub bsp_input : Option InputOps
  pub app_input_callback : Option ℕ
  pub app_input_context : ℕ

-- What the services answer when they are asked.
pub record Busy : Type 0 where
  pub device_link_is_busy : Bool
  pub recorder_is_busy : Bool
  pub music_is_playing : Bool
  pub file_is_busy : Bool
  pub manager_guard : Bool  -- app_manager_pm_standby_commit_guard

unfoldable pub is_standby_allowed : Busy → Bridge → Bool
is_standby_allowed q b =
    if not b.system_pm_available
    then false
    else (if b.benchmark_inhibited
        then false
        else (if b.device_link_participant && q.device_link_is_busy
            then false
            else (if q.recorder_is_busy
                then false
                else (if q.music_is_playing
                    then false
                    else (if b.file_participant && q.file_is_busy then false else true)))))

unfoldable pub commit_guard : Busy → Bridge → Bool
commit_guard q b =
    not b.benchmark_inhibited
    && (not q.recorder_is_busy
        && (not q.music_is_playing
            && ((not b.device_link_participant || not q.device_link_is_busy) && q.manager_guard)))

-- The two reads of `s_standby_admitted` may differ, since another thread may close admission.
unfoldable pub standby_request_begin : Bool → Bool → ℕ → Bool × ℕ
standby_request_begin first second users =
    if first
    then (let counted = u32 (users + 1) in
        if second then (true, counted) else (false, u32 (counted + 2 ^ 32 - 1)))
    else (false, users)

-- The result, the request counter, and whether `system_pm_request_standby` was called.
pub record Request : Type 0 where
  pub result : EspErr
  pub users : ℕ
  pub called : Bool

unfoldable pub request_standby : EspErr → Busy → Bridge → Bool → Bool → ℕ → Request
unfolding is_standby_allowed standby_request_begin
request_standby reply q b first second users =
    if not b.system_pm_available
    then record { result = not_supported; users = users; called = false }
    else (if is_standby_allowed q b
        then (let (begun, counted) = standby_request_begin first second users in
            if begun
            then record { result = reply; users = u32 (counted + 2 ^ 32 - 1); called = true }
            else record { result = invalid_state; users = counted; called = false })
        else record { result = invalid_state; users = users; called = false })

-- The result, given what `system_pm_cancel_standby` answers if it is called.
unfoldable pub cancel_standby : EspErr → Bridge → EspErr
cancel_standby reply b = if not b.system_pm_available then ok else reply

-- The result and the new state, and whether `system_pm_cancel_standby` was called.
unfoldable pub set_benchmark_inhibited : EspErr → Bool → Bridge → EspErr × Bridge × Bool
set_benchmark_inhibited reply inhibited b =
    let b' : Bridge = record b { benchmark_inhibited = inhibited } in
    if not b'.system_pm_available
    then (ok, b', false)
    else (if inhibited then (reply, b', true) else (ok, b', false))

abbrev pub map_key : BspKey → Option AppKey
map_key BspKey.home = some AppKey.home
map_key BspKey.power = some AppKey.power
map_key (BspKey.unmapped _) = none

abbrev pub map_event : BspKeyEvent → Option AppKeyEvent
map_event BspKeyEvent.down = some AppKeyEvent.down
map_event BspKeyEvent.up = some AppKeyEvent.up
map_event BspKeyEvent.click = some AppKeyEvent.click
map_event BspKeyEvent.long_press = some AppKeyEvent.long_press
map_event (BspKeyEvent.unmapped _) = none

-- A call of the app manager's callback: its address, the key, the event and the context.
pub record Delivery : Type 0 where
  pub callback : ℕ
  pub key : AppKey
  pub event : AppKeyEvent
  pub context : ℕ

abbrev pub deliver : Option AppKey → Option AppKeyEvent → Option ℕ → ℕ → Option Delivery
deliver (some k) (some e) (some f) c =
    some (record { callback = f; key = k; event = e; context = c })
deliver _ _ _ c = none

unfoldable pub bsp_input_callback : BspKey → BspKeyEvent → Bridge → Option Delivery
bsp_input_callback k e b =
    deliver (map_key k) (map_event e) b.app_input_callback b.app_input_context

abbrev registered : ℕ → ℕ → Bridge → EspErr → EspErr × Bridge
registered callback user_data b result =
    if is_ok result
    then (result, record b { app_input_callback = some callback; app_input_context = user_data })
    else (result, record b { app_input_callback = none; app_input_context = 0 })

-- `callback` is `none` for NULL.
unfoldable pub input_register : Option ℕ → ℕ → Bridge → EspErr × Bridge
input_register none user_data b = (invalid_arg, b)
input_register (some callback) user_data b = elim b.bsp_input [
  | none ↦ (invalid_arg, b)
  | some ops ↦ elim ops.register_handler [
    | none ↦ (invalid_arg, b)
    | some reply ↦ elim b.app_input_callback [
      | some _ ↦ (invalid_state, b)
      | none ↦ registered callback user_data b reply
    ]
  ]
]

unfoldable pub input_unregister : Bridge → EspErr × Bridge
input_unregister b = elim b.bsp_input [
  | none ↦ (invalid_state, b)
  | some ops ↦ elim ops.unregister_handler [
    | none ↦ (invalid_state, b)
    | some reply ↦
        if is_ok reply
        then (reply, record b { app_input_callback = none; app_input_context = 0 })
        else (reply, b)
  ]
]

-- `app_runtime_pm_reset`, without the sleep context that it clears too.
unfoldable pub reset : Bridge → Bridge
reset b = record {
  system_pm_available = false;
  benchmark_inhibited = false;
  device_link_participant = false;
  file_participant = false;
  bsp_power = false;
  bsp_input = none;
  app_input_callback = none;
  app_input_context = 0;
}

unfoldable pub detach_bsp : Bridge → Bridge
detach_bsp b = record b {
  system_pm_available = false;
  bsp_input = none;
  app_input_callback = none;
  app_input_context = 0;
}
