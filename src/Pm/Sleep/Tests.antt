-- ===== src/Pm/Sleep/Tests.antt =====
-- main/app_runtime_pm.c: sleep transactions on concrete hosts.
use mathlib.Core.Bool.{false≢true}
use micro_tech.Prelude.{◌≡◌, ◌≢◌, refl, ap, true, false, [], ◌∷◌, map, push_all, ok, fail, is_ok}
use micro_tech.Pm.Context.{
  chore, file, device_link, weather, connectivity, audio, imu, time, power, input, required,
  set_required, same,
}
use micro_tech.Pm.Sleep.Calls.{calls-complete_sleep, calls, armed_of, engaged_of}
use micro_tech.Pm.Sleep.Pending.{pending, Tracked}
use micro_tech.Pm.Sleep.Outcome.{prepare_sleep_rollback, prepare_sleep_success}
use micro_tech.Pm.Sleep.Safety.{prepare_sleep_tracks, complete_sleep_tracks}
use micro_tech.Pm.Sleep.{
  suspend, resume, Reply, recorder_busy, prepare_guard, Host, Sleep, resume_block, resume_each,
  complete_sleep, suspend_block, suspend_each, recover, suspend_all, prepare_sleep, prepare_failed,
}

-- A service that answers each call with `ok`, and audio with the need to be resumed.
abbrev granted : Reply
granted = record { result = ok; resume_required = true }

abbrev denied : Reply
denied = record { result = fail; resume_required = false }

abbrev willing : Host
willing = record {
  reply = λ log c. granted;
  answer = λ log q. elim q [ recorder_busy ↦ false | prepare_guard ↦ true ];
}

abbrev recording : Host
recording = record { reply = λ log c. granted; answer = λ log q. true }

-- The power service cannot be suspended, and everything can be resumed.
abbrev no_power : Host
no_power = record {
  reply =
      λ log c. elim c [ suspend p ↦ elim p [ power ↦ denied | _ ↦ granted ] | resume p ↦ granted ];
  answer = λ log q. false;
}

-- Nothing can be resumed.
abbrev stuck : Host
stuck = record {
  reply = λ log c. elim c [ suspend p ↦ granted | resume p ↦ denied ];
  answer = λ log q. elim q [ recorder_busy ↦ false | prepare_guard ↦ true ];
}

abbrev awake : Sleep
awake = record {
  context = record {
    connectivity_participant = true;
    device_link_participant = true;
    imu_participant = false;
    audio_participant = true;
    time_participant = true;
    weather_participant = true;
    file_participant = true;
    chore_resume_required = false;
    connectivity_resume_required = false;
    device_link_resume_required = false;
    imu_resume_required = false;
    audio_resume_required = false;
    time_resume_required = false;
    weather_resume_required = false;
    power_resume_required = false;
    input_resume_required = false;
    file_resume_required = false;
  };
  log = [];
}

awake-Tracked : Tracked awake
unfolding pending
awake-Tracked p h = absurd (false≢true h)

-- The state between a prepare and its complete, with the file service suspended.
abbrev asleep : Sleep
asleep = record awake {
  context = set_required file true awake.context;
  log = (suspend file, granted) ∷ [];
}

asleep-Tracked : Tracked asleep
unfolding pending same set_required
asleep-Tracked file h = refl
asleep-Tracked _ h = absurd (false≢true h)

ok≢fail : fail ≢ ok
ok≢fail e = false≢true (ap is_ok e)

prepare_sleep_tracks_example : required power (prepare_sleep stuck awake).1.context ≡ true
unfolding prepare_sleep recover suspend_all suspend_each suspend_block pending same set_required
prepare_sleep_tracks_example = prepare_sleep_tracks stuck awake power awake-Tracked refl

complete_sleep_tracks_example : required file (complete_sleep stuck asleep).1.context ≡ true
unfolding complete_sleep resume_each resume_block pending same set_required
complete_sleep_tracks_example = complete_sleep_tracks stuck asleep file asleep-Tracked refl

prepare_sleep_rollback_example :
    (required file (prepare_sleep no_power awake).1.context ≡ false)
    × (pending file (prepare_sleep no_power awake).1.log ≡ false)
unfolding prepare_sleep recover suspend_all suspend_each suspend_block set_required prepare_failed
    complete_sleep resume_each resume_block
prepare_sleep_rollback_example =
    prepare_sleep_rollback no_power awake (λ p log. refl) awake-Tracked (λ e. ok≢fail e) file

prepare_sleep_success_example :
    (willing.answer (recover willing awake).1.log recorder_busy ≡ false)
    × (willing.answer (prepare_sleep willing awake).1.log prepare_guard ≡ true)
    × (calls (prepare_sleep willing awake).1.log
        ≡ push_all
            (map suspend (
              engaged_of awake.context (
                chore ∷ file ∷ device_link ∷ weather ∷ connectivity ∷ audio ∷ imu ∷ time ∷ power
                ∷ input ∷ [])))
            (push_all
              (map resume (
                armed_of awake.context (
                  input ∷ file ∷ power ∷ time ∷ imu ∷ audio ∷ connectivity ∷ weather ∷ device_link
                  ∷ chore ∷ [])))
              (calls awake.log)))
unfolding prepare_sleep recover suspend_all suspend_each suspend_block set_required
prepare_sleep_success_example = prepare_sleep_success willing awake refl

calls-complete_sleep_example :
    calls (complete_sleep stuck asleep).1.log
    ≡ push_all
        (map resume (
          armed_of asleep.context (
            input ∷ file ∷ power ∷ time ∷ imu ∷ audio ∷ connectivity ∷ weather ∷ device_link ∷ chore
            ∷ [])))
        (calls asleep.log)
calls-complete_sleep_example = calls-complete_sleep stuck asleep
