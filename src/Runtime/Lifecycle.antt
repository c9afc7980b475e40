-- ===== src/Runtime/Lifecycle.antt =====
-- main/app_runtime.c: `app_runtime_start`, `app_runtime_stop` and `app_runtime_is_running`.
pub mod Cases
pub mod Results
pub mod Valid
pub mod Safety
use micro_tech.Prelude.{
  Bool, true, false, not, ◌&&◌, ◌||◌, List, [], if◌then◌else◌, EspErr, ok, invalid_state, is_ok,
}
use micro_tech.Runtime.State.{
  RuntimeState, stopped, starting, ready, stopping, cleanup_pending, system_pm_cancelable, Call,
  Product, Host, Runtime, Lifecycle,
}
use micro_tech.Runtime.Stop.{has_owned_resources, unwind}
use micro_tech.Runtime.Start.{start_phases}

-- The static variables before the first start.
abbrev pub init : Lifecycle
init = record {
  state = stopped;
  admitted = false;
  runtime = record {
    owned = λ _. false;
    aux = λ _. false;
    sleeps = λ _. false;
    factory_reset_pending = false;
    result = ok;
    log = [];
  };
}

-- What the start clears first: the ownership, the pointers, the reset and the sleep participants.
unfoldable pub fresh : Runtime → Runtime
fresh s = record s {
  owned = λ _. false;
  aux = λ _. false;
  sleeps = λ _. false;
  factory_reset_pending = false;
}

module _ (product : Product) (host : Host) where
  pub start_failed : EspErr → Lifecycle → EspErr × Lifecycle
  start_failed e l = let (_, l') = unwind product host l in (e, l')

  unfoldable pub launch : Lifecycle → EspErr × Lifecycle
  launch l =
      let l₁ : Lifecycle = record l { state = starting; admitted = false } in
      let (r, s) = start_phases product host (fresh l₁.runtime) in
      if is_ok r
      then (r, record l₁ { state = ready; admitted = true; runtime = s })
      else start_failed r (record l₁ { runtime = s })

  unfoldable pub app_runtime_stop : Lifecycle → EspErr × Lifecycle
  app_runtime_stop l = elim l.state [
    | stopped ↦
        if not (has_owned_resources product l.runtime) then (ok, l) else unwind product host l
    | starting ↦ (invalid_state, l)
    | stopping ↦ (invalid_state, l)
    | _ ↦ unwind product host l
  ]

  unfoldable pub app_runtime_start : Lifecycle → EspErr × Lifecycle
  app_runtime_start l = elim l.state [
    | ready ↦ (ok, l)
    | starting ↦ (invalid_state, l)
    | stopping ↦ (invalid_state, l)
    | cleanup_pending ↦ (let (r, l') = app_runtime_stop l in if is_ok r then launch l' else (r, l'))
    | stopped ↦ launch l
  ]

pub app_runtime_is_running : Lifecycle → Bool
app_runtime_is_running l = elim l.state [ ready ↦ true | _ ↦ false ]

-- The states that calls of the start and of the stop lead to, each call with a host of its own.
pub data Reach (product : Product) : Lifecycle → Type 0 where
  at_boot : Reach product init
  start :
      {l : Lifecycle} (host : Host)
      → Reach product l
      → Reach product (app_runtime_start product host l).1
  stop :
      {l : Lifecycle} (host : Host)
      → Reach product l
      → Reach product (app_runtime_stop product host l).1
