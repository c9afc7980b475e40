-- ===== src/Runtime/Lifecycle/Safety.antt =====
-- main/app_runtime.c: what starts and stops in any order can lead to.
use mathlib.Core.Bool.{false≢true}
use micro_tech.Prelude.{◌≡◌, sym, ◌∙◌, true, false, ok}
use micro_tech.Runtime.State.{stopped, Flag, Product, Host, Lifecycle, held}
use micro_tech.Runtime.Stop.Progress.{AnswersOk, unwind_progress}
use micro_tech.Runtime.Lifecycle.Cases.{ready_running, is_settled, stop-cases}
use micro_tech.Runtime.Lifecycle.Results.{stop_ok_iff}
use micro_tech.Runtime.Lifecycle.Valid.{Reach-Valid}
use micro_tech.Runtime.Lifecycle.{app_runtime_is_running, app_runtime_stop, Reach}

-- After any calls of the start and of the stop, each with any answers of the services, a service
-- with an ownership flag that a call has acquired and none has given back is owned by the runtime.
pub held_is_owned :
    (product : Product) (l : Lifecycle) (f : Flag)
    → Reach product l
    → held f l.runtime.log ≡ true
    → l.runtime.owned f ≡ true
held_is_owned product l f r h = (Reach-Valid product l r).accounted f h

-- After any calls of the start and of the stop, each with any answers of the services, no service
-- with an ownership flag is held in the state `stopped`.
pub stopped_holds_nothing :
    (product : Product) (l : Lifecycle) (f : Flag)
    → Reach product l
    → l.state ≡ stopped
    → held f l.runtime.log ≡ false
stopped_holds_nothing product l f r e = (Reach-Valid product l r).clean e f

-- After any calls of the start and of the stop, each with any answers of the services, standby
-- requests are admitted only while the runtime runs.
pub admitted_is_running :
    (product : Product) (l : Lifecycle)
    → Reach product l
    → l.admitted ≡ true
    → app_runtime_is_running l ≡ true
admitted_is_running product l r h = ready_running l ((Reach-Valid product l r).gated h)

-- A stop that finds neither a start nor a stop in progress, and all of whose calls succeed, succeeds
-- and ends in the state `stopped`.
pub stop_progress :
    (product : Product) (host : Host) (l : Lifecycle)
    → is_settled l.state ≡ true
    → AnswersOk host
    → ((app_runtime_stop product host l).0 ≡ ok)
      × ((app_runtime_stop product host l).1.state ≡ stopped)
stop_progress product host l settled all = ((stop_ok_iff product host l).1 at_end, at_end)
  where
    at_end : (app_runtime_stop product host l).1.state ≡ stopped
    at_end =
        stop-cases product host l (λ x. x.1.state ≡ stopped) (λ e. e)
          (λ n. absurd (false≢true (sym n ∙ settled))) (unwind_progress product host all l)
