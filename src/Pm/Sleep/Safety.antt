-- ===== src/Pm/Sleep/Safety.antt =====
-- main/app_runtime_pm.c: no participant of a sleep transaction is forgotten while it may be
-- suspended.
use micro_tech.Prelude.{◌≡◌, true}
use micro_tech.Pm.Context.{Participant, required}
use micro_tech.Pm.Sleep.Pending.{pending, Tracked, complete_sleep-Tracked}
use micro_tech.Pm.Sleep.Prepare.{prepare_sleep-Tracked}
use micro_tech.Pm.Sleep.{Host, Sleep, complete_sleep, prepare_sleep}

-- If before prepare each participant that may be suspended has its resume flag, then after it each
-- one that may be suspended has it, on every branch and whatever the calls answer.
pub prepare_sleep_tracks :
    (host : Host) (s : Sleep) (p : Participant)
    → Tracked s
    → pending p (prepare_sleep host s).1.log ≡ true
    → required p (prepare_sleep host s).1.context ≡ true
prepare_sleep_tracks host s p h = prepare_sleep-Tracked host s h p

-- If before complete each participant that may be suspended has its resume flag, then after it each
-- one that may still be suspended has it, whatever the calls answer.
pub complete_sleep_tracks :
    (host : Host) (s : Sleep) (p : Participant)
    → Tracked s
    → pending p (complete_sleep host s).1.log ≡ true
    → required p (complete_sleep host s).1.context ≡ true
complete_sleep_tracks host s p h = complete_sleep-Tracked host s h p
