-- ===== src/Runtime/Tests.antt =====
-- main/app_runtime.c: starts and stops on concrete hosts.
use micro_tech.Prelude.{List, [], ◌∷◌, none, some, ◌≡◌, ◌↔◌, ◌⊎◌, refl, ap, true, false, ok, fail}
use micro_tech.Runtime.State.{
  stopped, ready, cleanup_pending, music, release_and_deinit, reset_pending, Product, Host,
  Lifecycle, same, held,
}
use micro_tech.Runtime.Action.{
  sequence, when, choose, if_owned, set_owned, set_aux, set_sleeps, set_reset_pending, must,
  tolerate, try_call, ask, check, if_reset_pending, return_result,
}
use micro_tech.Runtime.Stop.{unwind}
use micro_tech.Runtime.Stop.Unwind.{unwind_result}
use micro_tech.Runtime.Start.{
  start_foundations, start_platform, start_app_services, start_connectivity, start_device_link,
  start_initial_app, start_deferred_wifi, start_phases,
}
use micro_tech.Runtime.Lifecycle.{
  init, fresh, launch, app_runtime_stop, app_runtime_start, app_runtime_is_running, Reach, at_boot,
  start, stop,
}
use micro_tech.Runtime.Apps.{mark_all, mark, all_found, same_text, App, required_apps_present}
use micro_tech.Runtime.Lifecycle.Cases.{is_settled}
use micro_tech.Runtime.Lifecycle.Results.{start_ok_iff}
use micro_tech.Runtime.Lifecycle.Safety.{
  held_is_owned, stopped_holds_nothing, admitted_is_running, stop_progress,
}

abbrev full : Product
full = record {
  radio_enabled = true;
  radio_optional = false;
  hosted_radio = true;
  benchmark = true;
}

-- Every call succeeds, every part of the board is there, and no factory reset is pending.
abbrev willing : Host
willing = record {
  reply = λ log c. ok;
  answer = λ log q. elim q [ reset_pending ↦ false | _ ↦ true ];
}

-- The board cannot be released.
abbrev stuck : Host
stuck = record {
  reply = λ log c. elim c [ release_and_deinit ↦ fail | _ ↦ ok ];
  answer = λ log q. true;
}

abbrev started : Lifecycle
started = (app_runtime_start full willing init).1

started-Reach : Reach full started
started-Reach = start willing at_boot

-- The start succeeds; the runtime is ready, standby is admitted and music is held.
started_facts :
    (started.state ≡ ready) × (started.admitted ≡ true) × (held music started.runtime.log ≡ true)
unfolding app_runtime_start launch fresh start_phases start_foundations start_platform
    start_app_services start_connectivity start_device_link start_initial_app start_deferred_wifi
    sequence when choose if_owned set_owned set_aux set_sleeps set_reset_pending must tolerate
    try_call ask check if_reset_pending return_result same held
started_facts = (refl, refl, refl)

held_is_owned_example : started.runtime.owned music ≡ true
held_is_owned_example = held_is_owned full started music started-Reach started_facts.2

admitted_is_running_example : app_runtime_is_running started ≡ true
admitted_is_running_example = admitted_is_running full started started-Reach started_facts.1

stop_progress_example :
    ((app_runtime_stop full willing started).0 ≡ ok)
    × ((app_runtime_stop full willing started).1.state ≡ stopped)
stop_progress_example =
    stop_progress full willing started (ap is_settled started_facts.0) (λ log c. refl)

stopped_holds_nothing_example :
    held music (app_runtime_stop full willing started).1.runtime.log ≡ false
stopped_holds_nothing_example =
    stopped_holds_nothing full (app_runtime_stop full willing started).1 music
      (stop willing started-Reach)
      (stop_progress full willing started (ap is_settled started_facts.0) (λ log c. refl)).1

start_ok_iff_example :
    ((app_runtime_start full stuck init).0 ≡ ok)
    ↔ (app_runtime_is_running (app_runtime_start full stuck init).1 ≡ true)
start_ok_iff_example = start_ok_iff full stuck init

unwind_result_example :
    ((unwind full stuck started).1.admitted ≡ false)
    × (((unwind full stuck started).1.state ≡ stopped)
        ⊎ ((unwind full stuck started).1.state ≡ cleanup_pending))
    × (((unwind full stuck started).0 ≡ ok) ↔ ((unwind full stuck started).1.state ≡ stopped))
unwind_result_example = unwind_result full stuck started

-- Two apps with the same id, the later one without a root page, and one without an id.
abbrev builtin_apps : List App
builtin_apps =
    record { id = some (1 ∷ 2 ∷ []); root_page_id = some (7 ∷ []) }
    ∷ record { id = none; root_page_id = some [] }
    ∷ record { id = some (3 ∷ []); root_page_id = some [] }
    ∷ record { id = some (1 ∷ 2 ∷ []); root_page_id = none }
    ∷ []

-- The later app with the id 1 2 counts.
required_apps_run : required_apps_present builtin_apps ((3 ∷ []) ∷ (1 ∷ 2 ∷ []) ∷ []) ≡ false
unfolding required_apps_present mark_all mark all_found same_text
required_apps_run = refl
