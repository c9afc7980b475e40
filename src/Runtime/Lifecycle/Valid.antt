-- ===== src/Runtime/Lifecycle/Valid.antt =====
-- main/app_runtime.c: what holds whenever no call of the start or of the stop is running.
use mathlib.Core.Bool.{false≢true}
use micro_tech.Prelude.{
  ◌≡◌, refl, sym, ap, ◌∙◌, Bool, true, false, inl, inr, if◌then◌else◌, Bool-cases, is_ok, is_ok→eq,
}
use micro_tech.Runtime.State.{
  RuntimeState, stopped, ready, Flag, Product, Host, Runtime, Lifecycle, held, Accounted,
}
use micro_tech.Runtime.Stop.{unwind}
use micro_tech.Runtime.Stop.Unwind.{
  Benchmarked, unwind-Accounted, unwind-Benchmarked, unwind_result, unwind_releases,
}
use micro_tech.Runtime.Start.{start_phases}
use micro_tech.Runtime.Start.Accounts.{start_phases-Accounted}
use micro_tech.Runtime.Start.Clear.{start_phases-benchmark-Clear}
use micro_tech.Runtime.Lifecycle.{
  init, fresh, start_failed, launch, app_runtime_stop, app_runtime_start, Reach, at_boot, start,
  stop,
}
use micro_tech.Runtime.Lifecycle.Cases.{stop-cases, start-cases}
use micro_tech.Runtime.Lifecycle.Results.{stop_ok_iff}

-- Every service that is held is accounted for, none is held in the state `stopped`, and standby is
-- admitted in the state `ready` only.
pub record Valid (product : Product) (l : Lifecycle) : Type 0 where
  pub accounted : Accounted l.runtime
  pub benchmarked : Benchmarked product l.runtime
  pub clean : l.state ≡ stopped → (f : Flag) → held f l.runtime.log ≡ false
  pub gated : l.admitted ≡ true → l.state ≡ ready

pub init-Valid : (product : Product) → Valid product init
unfolding held
init-Valid product = record {
  accounted = λ f h. absurd (false≢true h);
  benchmarked = λ _. refl;
  clean = λ _ f. refl;
  gated = λ h. absurd (false≢true h);
}

module _ (product : Product) (host : Host) where
  pub unwind-Valid :
      (l : Lifecycle)
      → Accounted l.runtime
      → Benchmarked product l.runtime
      → Valid product (unwind product host l).1
  unwind-Valid l a b = record {
    accounted = unwind-Accounted product host l a b;
    benchmarked = unwind-Benchmarked product host l b;
    clean = unwind_releases product host l a b;
    gated = λ h. absurd (false≢true (sym (unwind_result product host l).0 ∙ h));
  }

  fresh-Accounted :
      (s : Runtime)
      → ((f : Flag) → held f s.log ≡ false)
      → Accounted (start_phases product host (fresh s)).1
  unfolding fresh
  fresh-Accounted s n =
      (start_phases-Accounted product host).at (fresh s)
        (λ f h. absurd (false≢true (sym (n f) ∙ h)), refl, refl)

  fresh-Benchmarked : (s : Runtime) → Benchmarked product (start_phases product host (fresh s)).1
  unfolding fresh
  fresh-Benchmarked s off = (start_phases-benchmark-Clear product host off).at (fresh s) refl

  pub launch-Valid :
      (l : Lifecycle)
      → ((f : Flag) → held f l.runtime.log ≡ false)
      → Valid product (launch product host l).1
  unfolding launch start_failed
  launch-Valid l n = elim (Bool-cases (is_ok (start_phases product host (fresh l.runtime)).0)) [
    | inl y ↦
        rw (y, if◌then◌else◌)
          (record {
            accounted = fresh-Accounted l.runtime n;
            benchmarked = fresh-Benchmarked l.runtime;
            clean = λ e. absurd (false≢true (sym (ap app_runtime_is_running_state e)));
            gated = λ _. refl;
          })
    | inr e ↦
        rw (e, if◌then◌else◌)
          (unwind-Valid _ (fresh-Accounted l.runtime n) (fresh-Benchmarked l.runtime))
  ]
    where
      app_runtime_is_running_state : RuntimeState → Bool
      app_runtime_is_running_state ready = true
      app_runtime_is_running_state _ = false

  pub stop-Valid :
      (l : Lifecycle) → Valid product l → Valid product (app_runtime_stop product host l).1
  stop-Valid l v =
      stop-cases product host l (λ x. Valid product x.1) (λ _. v) (λ _. v)
        (unwind-Valid l v.accounted v.benchmarked)

  pub start-Valid :
      (l : Lifecycle) → Valid product l → Valid product (app_runtime_start product host l).1
  start-Valid l v =
      start-cases product host l (λ x. Valid product x.1) (λ _. v) (λ _. v)
        (λ e. launch-Valid l (v.clean e))
        (λ y.
          launch-Valid (app_runtime_stop product host l).1
            ((stop-Valid l v).clean ((stop_ok_iff product host l).0 (is_ok→eq _ y))))
        (λ _ _. stop-Valid l v)

-- Whatever the calls answer, starts and stops in any order keep the runtime valid: every service
-- that is held is accounted for, none is held in the state `stopped`, and standby is admitted in the
-- state `ready` only.
pub Reach-Valid : (product : Product) (l : Lifecycle) → Reach product l → Valid product l
Reach-Valid product _ at_boot = init-Valid product
Reach-Valid product _ (start host r) = start-Valid product host _ (Reach-Valid product _ r)
Reach-Valid product _ (stop host r) = stop-Valid product host _ (Reach-Valid product _ r)
