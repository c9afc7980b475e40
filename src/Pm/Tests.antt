-- ===== src/Pm/Tests.antt =====
-- main/app_runtime_pm.c: admission, wake sources and bridges on concrete data.
use micro_tech.Prelude.{
  ℕ, ◌≤◌, ◌<◌, ◌≡◌, ◌≢◌, ◌↔◌, ◌⊎◌, refl, true, false, none, some, [], ◌∷◌, arith, length,
  if◌then◌else◌, ok, is_ok,
}
use micro_tech.Pm.Admission
use micro_tech.Pm.Admission.{Pc, loaded, counted, closing, System, Reach, Step, init}
use micro_tech.Pm.Admission.Safety.{in_flight, remaining, closed_is_quiet, closing_ends}
use micro_tech.Pm.Wake.{
  low, high, WakeBoard, all_wanted, wake_loop, bit, build_system_config, build_system_config_result,
}
use micro_tech.Pm.Bridge
use micro_tech.Pm.Bridge.{
  InputOps, Bridge, Busy, is_standby_allowed, commit_guard, request_standby,
  set_benchmark_inhibited, input_register, input_unregister, bsp_input_callback, deliver, map_key,
  map_event, detach_bsp, reset,
}
use micro_tech.Pm.Bridge.Input.{keys, events, AllPairs, input_lifecycle}

-- Two requesters. Admission is opened, they see it, one of them reads it, and it is closed again.
abbrev opening : System
opening = record (init 2) {
  mem = record { admitted = false; unseen = true ∷ []; users = 0 };
  phase = Admission.running;
}

abbrev opened : System
opened = record opening { mem = record { admitted = true; unseen = []; users = 0 } }

abbrev looked : System
looked = record opened { threads = loaded ∷ Admission.idle ∷ [] }

-- No requester sees the store yet.
abbrev shutting : System
shutting = record looked {
  mem = record { admitted = true; unseen = false ∷ []; users = 0 };
  phase = closing;
}

abbrev seen : System
seen = record shutting { mem = record { admitted = false; unseen = []; users = 0 } }

abbrev entered : System
entered = record seen {
  mem = record { admitted = false; unseen = []; users = 1 };
  threads = counted ∷ Admission.idle ∷ [];
}

abbrev shut : System
shut = record seen { phase = Admission.closed true }

opening-Reach : Reach 2 opening
opening-Reach =
    Admission.later Admission.start (Admission.control refl (Admission.open_admission true))

opened-Reach : Reach 2 opened
opened-Reach = Admission.later opening-Reach (Admission.appear true [] refl refl refl refl)

looked-Reach : Reach 2 looked
looked-Reach =
    Admission.later opened-Reach
      (Admission.request [] (Admission.idle ∷ []) refl refl refl (Admission.look_open refl))

shutting-Reach : Reach 2 shutting
shutting-Reach = Admission.later looked-Reach (Admission.control refl Admission.close_running)

seen-Reach : Reach 2 seen
seen-Reach = Admission.later shutting-Reach (Admission.appear false [] refl refl refl refl)

closed_is_quiet_example : in_flight shut ≡ 0
closed_is_quiet_example =
    closed_is_quiet {n = 2} {s = shut} (omega arith)
      (Admission.later seen-Reach (Admission.control refl (Admission.done refl refl))) refl

closing_ends_example :
    (seen.mem.users ≤ remaining seen)
    × ((remaining entered < remaining seen)
        ⊎ ((remaining entered ≡ remaining seen) × (entered.threads ≡ seen.threads)))
closing_ends_example =
    closing_ends {n = 2} (omega arith) seen-Reach refl refl
      (Admission.request [] (Admission.idle ∷ []) refl refl refl Admission.enter)

-- The close returns before the store is visible, and the requester then goes on into its request.
abbrev early : System
early = record shutting { phase = Admission.closed false }

abbrev counted_late : System
counted_late = record early {
  mem = record { admitted = true; unseen = false ∷ []; users = 1 };
  threads = counted ∷ Admission.idle ∷ [];
}

abbrev inside_late : System
inside_late = record counted_late { threads = Admission.inside ∷ Admission.idle ∷ [] }

inside_late-Reach : Reach 2 inside_late
inside_late-Reach =
    Admission.later
      (Admission.later {t = counted_late}
        (Admission.later {t = early} shutting-Reach (Admission.control refl Admission.done_early))
        (Admission.request [] (Admission.idle ∷ []) refl refl refl Admission.enter))
      (Admission.request [] (Admission.idle ∷ []) refl refl refl (Admission.recheck_open refl))

-- Two wake sources, on GPIO 0 and 5, the second active low.
abbrev board : WakeBoard
board = record {
  has_input = true;
  descriptor_result = ok;
  descriptor = record { gpio_mask = 33; active_low_mask = 32 };
}

build_system_config_result_example :
    let built = build_system_config 4 true true board in
    ((built.result ≡ ok) ↔ (
      (true ≡ true)
      × (board.has_input ≡ true)
      × (board.descriptor_result ≡ ok)
      × (all_wanted board ≢ [])
      × (length (all_wanted board) ≤ 4)))
    × (built.available ≡ is_ok built.result)
    × (built.sources ≡ (if is_ok built.result then all_wanted board else []))
build_system_config_result_example = build_system_config_result 4 true true board

two_sources :
    (build_system_config 4 true true board).sources
    ≡ record { gpio_num = 0; active_level = high }
      ∷ record { gpio_num = 5; active_level = low }
      ∷ []
unfolding build_system_config wake_loop bit
two_sources = refl

abbrev bridge : Bridge
bridge = record {
  system_pm_available = true;
  benchmark_inhibited = false;
  device_link_participant = true;
  file_participant = true;
  bsp_power = true;
  bsp_input = some (record { register_handler = some ok; unregister_handler = some ok });
  app_input_callback = none;
  app_input_context = 0;
}

abbrev quiet : Busy
quiet = record {
  device_link_is_busy = false;
  recorder_is_busy = false;
  music_is_playing = false;
  file_is_busy = false;
  manager_guard = true;
}

abbrev registered_bridge : Bridge
registered_bridge = record bridge { app_input_callback = some 7; app_input_context = 9 }

input_lifecycle_example :
    AllPairs
      (λ k.
        AllPairs
          (λ e.
            bsp_input_callback k.0 e.0 (input_register (some 7) 9 bridge).1
            ≡ some (record { callback = 7; key = k.1; event = e.1; context = 9 }))
          events)
      keys
    × ((n : ℕ) (e : Bridge.BspKeyEvent)
        → bsp_input_callback (Bridge.BspKey.unmapped n) e (input_register (some 7) 9 bridge).1
          ≡ none)
    × ((n : ℕ) (k : Bridge.BspKey)
        → bsp_input_callback k (Bridge.BspKeyEvent.unmapped n) (input_register (some 7) 9 bridge).1
          ≡ none)
    × ((k : Bridge.BspKey) (e : Bridge.BspKeyEvent)
        → (bsp_input_callback k e (input_unregister registered_bridge).1 ≡ none)
          × (bsp_input_callback k e (detach_bsp registered_bridge) ≡ none)
          × (bsp_input_callback k e (reset registered_bridge) ≡ none))
unfolding input_register input_unregister
input_lifecycle_example = input_lifecycle 7 9 bridge registered_bridge refl refl
