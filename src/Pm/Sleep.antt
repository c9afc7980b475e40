-- ===== src/Pm/Sleep.antt =====
-- main/app_runtime_pm.c: prepare and complete of a sleep transaction. Both were written out block
-- by block in the source; here each block is a function of its participant, and the order of the
-- blocks is a list. The timeout, which every call passes on unchanged, is left out.
pub mod Complete
pub mod Calls
pub mod Prepare
pub mod Outcome
pub mod Pending
pub mod Safety
mod Tests
use micro_tech.Prelude.{
  Bool, true, false, ◌||◌, List, [], ◌∷◌, if◌then◌else◌, EspErr, ok, invalid_state, is_ok,
  is_timeout, Log, Replies, Answers,
}
use micro_tech.Pm.Context.{
  Participant, chore, file, device_link, weather, connectivity, audio, imu, time, power, input,
  SleepContext, required, set_required, engaged, any_required,
}

-- A call of a service, or of the board's input operations.
pub data Call : Type 0 where
  suspend resume : Participant → Call

-- `resume_required` is what `audio_service_suspend` writes through its second argument; the other
-- calls have no such argument, and their field is not read.
pub record Reply : Type 0 where
  pub result : EspErr
  pub resume_required : Bool

-- `recorder_service_is_busy` and `app_manager_pm_standby_prepare_guard`.
pub data Query : Type 0 where
  recorder_busy prepare_guard : Query

pub record Host : Type 0 where
  pub reply : Replies Call Reply
  pub answer : Answers Call Reply Query

-- The context, with the calls that were made so far.
pub record Sleep : Type 0 where
  pub context : SleepContext
  pub log : Log Call Reply

unfoldable pub record_first_error : EspErr → EspErr → EspErr
record_first_error ok result = result
record_first_error first result = first

abbrev pub resume_order : List Participant
resume_order =
    input ∷ file ∷ power ∷ time ∷ imu ∷ audio ∷ connectivity ∷ weather ∷ device_link ∷ chore ∷ []

abbrev pub suspend_order : List Participant
suspend_order =
    chore ∷ file ∷ device_link ∷ weather ∷ connectivity ∷ audio ∷ imu ∷ time ∷ power ∷ input ∷ []

-- The value of the flag of `p` after its suspend call. Most participants keep the flag armed
-- whatever the call says; file and device link clear it on a definite failure, and audio takes
-- the value that its service reports.
abbrev pub armed : Participant → Reply → Bool
armed file r = is_ok r.result || is_timeout r.result
armed device_link r = is_ok r.result || is_timeout r.result
armed audio r = r.resume_required
armed p r = true

module _ (host : Host) where
  -- One block of complete: the call is made only if the flag is armed, and a success clears it.
  pub resume_block : Participant → EspErr × Sleep → EspErr × Sleep
  unfolding record_first_error
  resume_block p (first, s) =
      if required p s.context
      then (let r = host.reply s.log (resume p) in
          (
            record_first_error first r.result,
            record {
              context = if is_ok r.result then set_required p false s.context else s.context;
              log = (resume p, r) ∷ s.log;
            },
          ))
      else (first, s)

  pub resume_each : List Participant → EspErr × Sleep → EspErr × Sleep
  resume_each [] acc = acc
  resume_each (p ∷ ps) acc = resume_each ps (resume_block p acc)

  pub complete_sleep : Sleep → EspErr × Sleep
  complete_sleep s = resume_each resume_order (ok, s)

  -- One block of prepare. The flag is armed before the call in the source; the call does not see
  -- it, so the flag that stands after the block is written once.
  pub suspend_block : Participant → Sleep → EspErr × Sleep
  suspend_block p s =
      if engaged p s.context
      then (let r = host.reply s.log (suspend p) in
          (
            r.result,
            record { context = set_required p (armed p r) s.context; log = (suspend p, r) ∷ s.log },
          ))
      else (ok, s)

  -- `goto rollback` at the first error.
  pub suspend_each : List Participant → Sleep → EspErr × Sleep
  suspend_each [] s = (ok, s)
  suspend_each (p ∷ ps) s =
      let (r, s') = suspend_block p s in
      let rest = suspend_each ps s' in if is_ok r then rest else (r, s')

  pub prepare_failed : EspErr → Sleep → EspErr × Sleep
  prepare_failed primary_error s = (primary_error, (complete_sleep s).1)

  -- The recovery of what an earlier attempt left armed.
  pub recover : Sleep → EspErr × Sleep
  recover s = if any_required s.context then complete_sleep s else (ok, s)

  -- The suspend sequence, the last guard, and the rollback.
  pub suspend_all : Sleep → EspErr × Sleep
  suspend_all s =
      let (r, s') = suspend_each suspend_order s in
      if is_ok r
      then (if host.answer s'.log prepare_guard then (ok, s') else prepare_failed invalid_state s')
      else prepare_failed r s'

  pub prepare_sleep : Sleep → EspErr × Sleep
  prepare_sleep s =
      let (r, s') = recover s in
      if is_ok r
      then (if host.answer s'.log recorder_busy then (invalid_state, s') else suspend_all s')
      else (r, s')
